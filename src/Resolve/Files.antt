-- ===== src/Resolve/Files.antt =====
-- What the VFS owes after `load_data_from_plugin` and `try_open_file` (src/vfs/vfs_tree.c).
use flowi_vfs.Common.{
  ℕ, zero, suc, ◌+◌, ◌-◌, ◌≤◌, ◌<◌, true, false, ◌&&◌, ◌≡◌, refl, ◌≢◌, inl, inr, List, [], ◌∷◌,
  ◌==◌, arith, ℤ, is_negative, Bool-cases,
}
use flowi_vfs.Drivers.{FilePath, PluginEntry}
use flowi_vfs.Drivers.Ledger.{Ledger, Owned, opened, allocate}
use flowi_vfs.Loading.{is_error, TryLoad, load_data_from_plugin}
use flowi_vfs.Resolve.{Attempt, stop, skip, attempt_opened, attempt, try_open_from, try_open_file}
use flowi_vfs.Resolve.Owes.{Owes, close_handle-Owes, world-Owes, opened-Owes}

module _ {W : Type 0} where
  -- A file was read into a buffer of the VFS's own, whole or short.
  pub record Loaded (hs : List Owned) (bs : List ℕ) (handle split : ℕ) (d : TryLoad) (l : Ledger W)
      : Type 0 where
    pub owes : Owes l hs (d.buffer ∷ bs)
    pub buffer : d.buffer ≢ 0
    pub handle_is : d.handle ≡ handle
    pub split_is : d.path_split_offset ≡ split
    pub is_file : d.is_directory ≡ false

  pub load_data_from_plugin-Loaded :
      (e : PluginEntry W) (handle : ℕ) (read_path loaded_path : FilePath) (size : ℤ) (split : ℕ)
      {l : Ledger W} {hs : List Owned} {bs : List ℕ}
      → Owes l hs bs
      → let (d, l') = load_data_from_plugin e handle read_path loaded_path size split l in
        Loaded hs bs handle split d l'
  unfolding load_data_from_plugin allocate
  load_data_from_plugin-Loaded e handle read_path loaded_path size split o = record {
    owes = ground (arith, o.handles, o.buffers, o.sound);
    buffer = ground arith;
    handle_is = refl;
    split_is = refl;
    is_file = refl;
  }

  -- Each way in which `try_open_file` ends, with what is owed on top of `hs` and `bs`.
  pub data Tried (e : PluginEntry W) (hs : List Owned) (bs : List ℕ) (low high : ℕ) (d : TryLoad)
      (l : Ledger W) : Type 0 where
    nothing :
        is_error d.error ≡ true
        → d.handle ≡ 0
        → d.buffer ≡ 0
        → Owes l hs bs
        → Tried e hs bs low high d l
    directory :
        is_error d.error ≡ false
        → d.is_directory ≡ true
        → Owes l ((e.address, d.handle) ∷ hs) bs
        → Tried e hs bs low high d l
    file :
        d.is_directory ≡ false
        → d.handle ≢ 0
        → d.buffer ≢ 0
        → low < d.path_split_offset
        → d.path_split_offset ≤ high
        → Owes l ((e.address, d.handle) ∷ hs) (d.buffer ∷ bs)
        → Tried e hs bs low high d l

  abbrev AttemptOwes : PluginEntry W → List Owned → List ℕ → ℕ → ℕ → Attempt × Ledger W → Type 0
  AttemptOwes e hs bs low high (stop d, l) = Tried e hs bs low high d l
  AttemptOwes e hs bs low high (skip, l) = Owes l hs bs

  module _ (plugins : List (PluginEntry W)) (count : ℕ) (reconstruct : ℕ → ℕ → FilePath) where
    attempt_opened-Owes :
        (e : PluginEntry W) (range_start low try_segments : ℕ) (path : FilePath) (handle : ℕ)
        {l : Ledger W} {hs : List Owned} {bs : List ℕ}
        → handle ≢ 0
        → low < try_segments
        → try_segments ≤ range_start
        → Owes l ((e.address, handle) ∷ hs) bs
        → AttemptOwes e hs bs low range_start
            (attempt_opened plugins count reconstruct e range_start try_segments path handle l)
    unfolding attempt_opened
    attempt_opened-Owes e range_start low try_segments path handle {l} {hs} {bs} ne lt le o =
        let (size, w) = e.driver.get_size handle [] l.world in
        elim (Bool-cases (e.driver.is_directory handle l.world && (try_segments == range_start))) [
          | inl dir ↦ rw dir (directory refl refl o)
          | inr other ↦ elim (Bool-cases (is_negative size)) [
            | inl bad ↦ rw (other, bad) (close_handle-Owes e handle (world-Owes w o))
            | inr good ↦
                let r =
                  load_data_from_plugin-Loaded e handle [] path size try_segments
                    (world-Owes w o) in
                rw (other, good)
                  (file r.is_file (rw r.handle_is ne) r.buffer (rw r.split_is lt) (rw r.split_is le)
                    (rw r.handle_is r.owes))
          ]
        ]

    attempt-Owes :
        (e : PluginEntry W) (range_start range_end try_segments : ℕ) {l : Ledger W}
        {hs : List Owned} {bs : List ℕ}
        → range_end < try_segments
        → try_segments ≤ range_start
        → Owes l hs bs
        → AttemptOwes e hs bs range_end range_start
            (attempt plugins count reconstruct e range_start range_end try_segments l)
    unfolding attempt opened
    attempt-Owes e range_start range_end try_segments {l} {hs} {bs} lt le o =
        let path = reconstruct range_end try_segments in
        let c = e.driver.can_open path l.world in
        let r = e.driver.open_path 0 path 0 c.1 in
        let p = opened-Owes e.address r (world-Owes c.1 o) in
        elim (Bool-cases c.0) [
          | inr cannot ↦ rw cannot (world-Owes c.1 o)
          | inl can ↦ elim (Bool-cases (r.0.handle == 0)) [
            | inl closed ↦ rw (can, closed) (rw closed at p)
            | inr open_ ↦
                rw (can, open_)
                  (attempt_opened-Owes e range_start range_end try_segments path r.0.handle
                    (ground arith) lt le (rw open_ at p))
          ]
        ]

    try_open_from-Tried :
        (e : PluginEntry W) (range_start range_end k : ℕ) {l : Ledger W} {hs : List Owned}
        {bs : List ℕ}
        → range_end + k ≤ range_start
        → Owes l hs bs
        → let (d, l') = try_open_from plugins count reconstruct e range_start range_end k l in
          Tried e hs bs range_end range_start d l'
    unfolding try_open_from
    try_open_from-Tried e range_start range_end zero le o = nothing refl refl refl o
    try_open_from-Tried e range_start range_end (suc k) {l} {hs} {bs} le o =
        go (attempt plugins count reconstruct e range_start range_end (range_end + suc k) l)
          (attempt-Owes e range_start range_end (range_end + suc k) (omega arith) le o)
          (λ l' o'. try_open_from-Tried e range_start range_end k {l = l'} (omega arith) o')
      where
        go :
            (r : Attempt × Ledger W)
            → AttemptOwes e hs bs range_end range_start r
            → ((l' : Ledger W)
                → Owes l' hs bs
                → let (d, l'') =
                    try_open_from plugins count reconstruct e range_start range_end k l' in
                  Tried e hs bs range_end range_start d l'')
            → let t : TryLoad × Ledger W = elim r.0 [
              | stop d ↦ (d, r.1)
              | skip ↦ try_open_from plugins count reconstruct e range_start range_end k r.1
            ] in
              Tried e hs bs range_end range_start t.0 t.1
        go (stop d, l') p rest = p
        go (skip, l') p rest = rest l' p

    pub try_open_file-Tried :
        (e : PluginEntry W) (range_start range_end : ℕ) {l : Ledger W} {hs : List Owned}
        {bs : List ℕ}
        → range_end ≤ range_start
        → Owes l hs bs
        → let (d, l') = try_open_file plugins count reconstruct e range_start range_end l in
          Tried e hs bs range_end range_start d l'
    unfolding try_open_file
    try_open_file-Tried e range_start range_end {l} {hs} {bs} le o =
        elim (Bool-cases (count == 0)) [
          | inl empty ↦ rw empty (nothing refl refl refl o)
          | inr some_ ↦ rw some_ (
              try_open_from-Tried e range_start range_end (range_start - range_end) (omega arith) o)
        ]
