-- ===== src/Mounting/Clones.antt =====
-- Cloned handles (src/vfs/vfs_tree.c): either every slot is owed, or only what was owed before.
use flowi_vfs.Common.{
  ℕ, ◌≡◌, ◌≢◌, refl, Bool, true, false, inl, inr, List, [], ◌∷◌, Option, none, some, ◌==◌,
  if◌then◌else◌, arith, Bool-cases, ℤ, pos, negsuc, eqz, length,
}
use flowi_vfs.Drivers.{FilePath, OpenResult, PluginEntry}
use flowi_vfs.Drivers.Ledger.{Ledger, Owned, opened, close_handle, allocate, free}
use flowi_vfs.Loading.{find_plugin_for_memory}
use flowi_vfs.Resolve.Owes.{
  Owes, close_handle-Owes, opened-Owes, world-Owes, allocate-Owes, free-Owes,
}
use flowi_vfs.Resolve.Opens.{FoundMemory, find_plugin_for_memory-Owes}
use flowi_vfs.Tree.{no_handles}
use flowi_vfs.Mounting.{
  slot0, close_clones, clone_one, clone_slots, clone_plugin_handle, Archive, cloned_archive,
  load_from_path, load_from_memory, load_archive,
}

module _ {W : Type 0} where
  -- Two slots that are owed, or none and the handle that the caller still owns.
  pub data Cloned (e : PluginEntry W) (h : ℕ) (hs : List Owned) (bs : List ℕ)
      : List ℕ → Ledger W → Type 0 where
    filled :
        {c : ℕ} {l : Ledger W}
        → Owes l ((e.address, c) ∷ (e.address, h) ∷ hs) bs
        → Cloned e h hs bs (h ∷ c ∷ []) l
    refused : {l : Ledger W} → Owes l ((e.address, h) ∷ hs) bs → Cloned e h hs bs no_handles l

  clone_one-Owes :
      (f : Option (ℕ → W → OpenResult × W)) (address h : ℕ) {l : Ledger W} {hs : List Owned}
      {bs : List ℕ}
      → Owes l hs bs
      → let r = clone_one f address h l in
        Owes r.1 (if r.0 == 0 then hs else (address, r.0) ∷ hs) bs
  unfolding clone_one opened
  clone_one-Owes none address h o = o
  clone_one-Owes (some f) address h {l} o = opened-Owes address (f h l.world) o

  -- Cloning an owed handle for the workers either fills both slots, the first with the handle
  -- itself, and owes both; or it returns null slots and owes the given handle only.
  pub clone_plugin_handle-Cloned :
      (e : PluginEntry W) (h : ℕ) {l : Ledger W} {hs : List Owned} {bs : List ℕ}
      → Owes l ((e.address, h) ∷ hs) bs
      → Cloned e h hs bs (clone_plugin_handle e h l).0 (clone_plugin_handle e h l).1
  unfolding clone_plugin_handle clone_slots close_clones
  clone_plugin_handle-Cloned e h {l} {hs} {bs} o =
      let r = clone_one e.driver.clone e.address h l in
      taken r.0 (r.0 == 0) r.1 (clone_one-Owes e.driver.clone e.address h o)
    where
      taken :
          (c : ℕ) (null_ : Bool) (l' : Ledger W)
          → Owes l' (if null_ then (e.address, h) ∷ hs else (e.address, c) ∷ (e.address, h) ∷ hs) bs
          → let s : List ℕ × Ledger W = if null_ then (no_handles, l') else (h ∷ c ∷ [], l') in
            Cloned e h hs bs s.0 s.1
      taken c true l' p = refused p
      taken c false l' p = filled p

  -- An archive that was loaded is owed in every slot; one that was not leaves nothing.
  abbrev pub ArchiveOwes : List Owned → List ℕ → Option (Archive W) × Ledger W → Type 0
  ArchiveOwes hs bs (none, l) = Owes l hs bs
  ArchiveOwes hs bs (some a, l) =
      (h c : ℕ) × (a.handles ≡ h ∷ c ∷ [])
      × Owes l ((a.entry.address, c) ∷ (a.entry.address, h) ∷ hs) bs

  cloned_archive-Owes :
      (e : PluginEntry W) (h m size : ℕ) {l : Ledger W} {hs : List Owned} {bs : List ℕ}
      → Owes l ((e.address, h) ∷ hs) bs
      → ArchiveOwes hs bs (cloned_archive e h m size l)
  unfolding cloned_archive
  cloned_archive-Owes e h m size {l} {hs} {bs} o =
      go (clone_plugin_handle e h l).0 (clone_plugin_handle e h l).1
        (clone_plugin_handle-Cloned e h o)
    where
      go :
          (slots : List ℕ) (l' : Ledger W)
          → Cloned e h hs bs slots l'
          → let r : Option (Archive W) × Ledger W =
              if slot0 slots == 0 then (none, close_handle e h l') else (
                some (record { entry = e; handles = slots; memory_data = m; memory_size = size }),
                l',
              ) in
            ArchiveOwes hs bs r
      go slots l' (refused p) = close_handle-Owes e h p
      go slots l' (filled {c} p) =
          let nz : (h == 0) ≡ false = ground (arith, p.live.1.0) in rw nz (h, c, refl, p)

  -- A driver that was asked to open the file by its path.
  by_path-Owes :
      (e : PluginEntry W) (r : OpenResult × W) (rest : Ledger W → Option (Archive W) × Ledger W)
      {l : Ledger W} {hs : List Owned} {bs : List ℕ}
      → Owes l hs bs
      → ((l' : Ledger W) → Owes l' hs bs → ArchiveOwes hs bs (rest l'))
      → let o = opened e.address r l in
        let a = cloned_archive e o.0.handle 0 0 o.1 in
        let x : Option (Archive W) × Ledger W =
          if o.0.handle == 0
          then rest o.1
          else elim a.0 [ some archive ↦ (some archive, a.1) | none ↦ rest a.1 ] in
        ArchiveOwes hs bs x
  unfolding opened
  by_path-Owes e r rest {l} {hs} {bs} o more =
      go (r.0.handle == 0) (opened e.address r l).1 (opened-Owes e.address r o)
    where
      tried :
          (a : Option (Archive W) × Ledger W)
          → ArchiveOwes hs bs a
          → let x : Option (Archive W) × Ledger W = elim a.0 [
            | some archive ↦ (some archive, a.1)
            | none ↦ rest a.1
          ] in
            ArchiveOwes hs bs x
      tried (some archive, l') p = p
      tried (none, l') p = more l' p

      go :
          (null_ : Bool) (l' : Ledger W)
          → Owes l' (if null_ then hs else (e.address, r.0.handle) ∷ hs) bs
          → let a = cloned_archive e r.0.handle 0 0 l' in
            let x : Option (Archive W) × Ledger W =
              if null_
              then rest l'
              else elim a.0 [ some archive ↦ (some archive, a.1) | none ↦ rest a.1 ] in
            ArchiveOwes hs bs x
      go true l' p = more l' p
      go false l' p =
          tried (cloned_archive e r.0.handle 0 0 l') (cloned_archive-Owes e r.0.handle 0 0 p)

  load_from_path-Owes :
      (es : List (PluginEntry W)) (path : FilePath) {l : Ledger W} {hs : List Owned} {bs : List ℕ}
      → Owes l hs bs
      → ArchiveOwes hs bs (load_from_path es path l)
  unfolding load_from_path
  load_from_path-Owes [] path o = o
  load_from_path-Owes (e ∷ es) path {l} o =
      let (can, w) = e.driver.can_open path l.world in
      elim (Bool-cases can) [
        | inr no_ ↦ rw no_ (load_from_path-Owes es path (world-Owes w o))
        | inl yes_ ↦ rw yes_ (
            by_path-Owes e (e.driver.open_path 0 path 0 w) (load_from_path es path) (world-Owes w o)
              (λ l' p. load_from_path-Owes es path {l = l'} p))
      ]

  load_from_memory-Owes :
      (plugins : List (PluginEntry W)) (e : PluginEntry W) (handle : ℕ) (path : FilePath) (size : ℕ)
      {l : Ledger W} {hs : List Owned} {bs : List ℕ}
      → Owes l hs bs
      → ArchiveOwes hs bs (load_from_memory plugins e handle path size l)
  unfolding load_from_memory
  load_from_memory-Owes plugins e handle path size {l} {hs} {bs} o =
      let (o1, ne) = allocate-Owes o in
      let (data_, l1) = allocate l in
      let (bytes_read, w) = e.driver.read handle path data_ (pos size) l1.world in
      elim (Bool-cases (eqz bytes_read (pos size))) [
        | inr short ↦ rw short (free-Owes data_ ne (world-Owes w o1))
        | inl whole ↦ rw whole (
            go data_ ne
              (find_plugin_for_memory plugins path data_ bytes_read (record l1 { world = w }))
              (find_plugin_for_memory-Owes plugins path data_ bytes_read (world-Owes w o1)))
      ]
    where
      go :
          (b : ℕ)
          → b ≢ 0
          → (m : Option (PluginEntry W × ℕ) × Ledger W) → FoundMemory hs b bs m
          → let x : Option (Archive W) × Ledger W = elim m.0 [
            | none ↦ (none, free b m.1)
            | some (e', h') ↦ cloned_archive e' h' b size m.1
          ] in
            ArchiveOwes hs bs x
      go b ne (none, l') p = free-Owes b ne p
      go b ne (some (e', h'), l') p = cloned_archive-Owes e' h' b size p

  -- Loading a file as an archive, for any drivers: if it succeeds, exactly the two handles of its
  -- slots are owed on top of what was owed before; if it does not, nothing is, and the buffer that
  -- was read into is freed or handed over.
  pub load_archive-Owes :
      (plugins : List (PluginEntry W)) (e : PluginEntry W) (handle : ℕ) (path : FilePath) (size : ℤ)
      {l : Ledger W} {hs : List Owned} {bs : List ℕ}
      → Owes l hs bs
      → ArchiveOwes hs bs (load_archive plugins e handle path size l)
  unfolding load_archive
  load_archive-Owes plugins e handle path (negsuc n) o = o
  load_archive-Owes plugins e handle path (pos n) {l} {hs} {bs} o =
      let file_path : FilePath = elim e.driver.get_file_path [
        | none ↦ []
        | some f ↦ if e.driver.has_direct_path_capability then f handle path l.world else []
      ] in
      elim (Bool-cases (n == 0)) [
        | inl empty ↦ rw empty o
        | inr some_ ↦ rw some_ (
            tried (if length file_path == 0 then (none, l) else load_from_path plugins file_path l)
              (direct file_path (length file_path == 0)))
      ]
    where
      direct :
          (file_path : FilePath) (none_ : Bool)
          → ArchiveOwes hs bs (if none_ then (none, l) else load_from_path plugins file_path l)
      direct file_path true = o
      direct file_path false = load_from_path-Owes plugins file_path o

      tried :
          (a : Option (Archive W) × Ledger W)
          → ArchiveOwes hs bs a
          → let x : Option (Archive W) × Ledger W = elim a.0 [
            | some a' ↦ (some a', a.1)
            | none ↦ load_from_memory plugins e handle path n a.1
          ] in
            ArchiveOwes hs bs x
      tried (some a', l') p = p
      tried (none, l') p = load_from_memory-Owes plugins e handle path n p
