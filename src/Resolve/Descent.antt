-- ===== src/Resolve/Descent.antt =====
-- The descent of `vfs_tree_resolve_full_path` (src/vfs/vfs_tree.c): each round closes what it leaves, and
-- there are no more rounds than segments.
use flowi_vfs.Common.{
  ℕ, zero, suc, ◌-◌, ◌≤◌, ◌<◌, false, ◌≡◌, refl, ◌≢◌, inl, inr, List, ◌∷◌, Option, none, some, ◌==◌,
  arith, Bool-cases, ltb, ltb→lt,
}
use flowi_vfs.Drivers.{FilePath, PluginEntry}
use flowi_vfs.Drivers.Ledger.{Ledger, Owned, free}
use flowi_vfs.Loading.{is_error, TryLoad, FinalDriver, final, failed, find_plugin_for_memory}
use flowi_vfs.Resolve.{
  Round, return, continue, try_open_file, descend_into, descend_loaded, finish, descend,
}
use flowi_vfs.Resolve.Owes.{Owes, close_handle-Owes, close_handle-Owes_second, free-Owes}
use flowi_vfs.Resolve.Opens.{FoundMemory, find_plugin_for_memory-Owes}
use flowi_vfs.Resolve.Files.{Tried, nothing, directory, file, try_open_file-Tried}

module _ {W : Type 0} where
  -- The caller owns the handle that is returned; on an error nothing is left.
  abbrev pub FinalOwes : List Owned → List ℕ → FinalDriver W × Ledger W → Type 0
  FinalOwes hs bs (final e h, l) = Owes l ((e.address, h) ∷ hs) bs
  FinalOwes hs bs (failed error, l) = Owes l hs bs

  abbrev RoundOwes : List Owned → List ℕ → ℕ → ℕ → Round W × Ledger W → Type 0
  RoundOwes hs bs low high (return f, l) = FinalOwes hs bs (f, l)
  RoundOwes hs bs low high (continue e h position, l) =
      (low < position) × (position ≤ high) × Owes l ((e.address, h) ∷ hs) bs

  -- A run that ends, with what is owed.
  pub record Ends (hs : List Owned) (bs : List ℕ) (r : Option (FinalDriver W × Ledger W))
      : Type 0 where
    pub outcome : FinalDriver W
    pub after : Ledger W
    pub ran : r ≡ some (outcome, after)
    pub owes : FinalOwes hs bs (outcome, after)

  module _ (plugins : List (PluginEntry W)) (count : ℕ) (reconstruct : ℕ → ℕ → FilePath) where
    descend_into-Owes :
        (e : PluginEntry W) (h low : ℕ) (d : TryLoad) (hs : List Owned) (bs : List ℕ)
        (m : Option (PluginEntry W × ℕ) × Ledger W)
        → d.buffer ≢ 0
        → low < d.path_split_offset
        → d.path_split_offset ≤ count
        → FoundMemory ((e.address, d.handle) ∷ (e.address, h) ∷ hs) d.buffer bs m
        → RoundOwes hs bs low count (descend_into plugins count reconstruct e h d m)
    unfolding descend_into
    descend_into-Owes e h low d hs bs (none, l) ne lt le o =
        free-Owes d.buffer ne (close_handle-Owes e h (close_handle-Owes e d.handle o))
    descend_into-Owes e h low d hs bs (some (e', h'), l) ne lt le o = (
      lt,
      le,
      close_handle-Owes_second e h (e'.address, h')
          (close_handle-Owes_second e d.handle (e'.address, h') o),
    )

    descend_loaded-Owes :
        (e : PluginEntry W) (h low : ℕ) (d : TryLoad) (l : Ledger W) {hs : List Owned} {bs : List ℕ}
        → Tried e ((e.address, h) ∷ hs) bs low count d l
        → RoundOwes hs bs low count (descend_loaded plugins count reconstruct e h (d, l))
    unfolding descend_loaded free
    descend_loaded-Owes e h low d l (nothing bad no_handle no_buffer o) =
        rw (bad, no_handle, no_buffer) (close_handle-Owes e h o)
    descend_loaded-Owes e h low d l (directory good dir o) =
        rw (good, dir) (close_handle-Owes_second e h (e.address, d.handle) o)
    descend_loaded-Owes e h low d l {hs} {bs} (file is_file handle buffer lt le o) =
        elim (Bool-cases (is_error d.error)) [
          | inl short ↦
              let open_ : (d.handle == 0) ≡ false = ground arith in
              rw (short, open_)
                (close_handle-Owes e h (free-Owes d.buffer buffer (close_handle-Owes e d.handle o)))
          | inr whole ↦
              simp (whole, is_file)
                (descend_into-Owes e h low d hs bs
                  (find_plugin_for_memory plugins d.loaded_path d.buffer d.length l) buffer lt le
                  (find_plugin_for_memory-Owes plugins d.loaded_path d.buffer d.length o))
        ]

    finish-Owes :
        (e : PluginEntry W) (h : ℕ) {l : Ledger W} {hs : List Owned} {bs : List ℕ}
        → Owes l ((e.address, h) ∷ hs) bs
        → FinalOwes hs bs (finish plugins count reconstruct e h l)
    unfolding finish
    finish-Owes e h {l} o = elim (Bool-cases (e.driver.is_directory h l.world)) [
      | inl dir ↦ rw dir o
      | inr plain ↦ rw plain (close_handle-Owes e h o)
    ]

    pub descend-Ends :
        (fuel : ℕ) (e : PluginEntry W) (h position : ℕ) {l : Ledger W} {hs : List Owned}
        {bs : List ℕ}
        → count - position < fuel
        → Owes l ((e.address, h) ∷ hs) bs
        → Ends hs bs (descend plugins count reconstruct fuel e h position l)
    unfolding descend
    descend-Ends zero e h position lt o = absurd (omega arith)
    descend-Ends (suc fuel) e h position {l} {hs} {bs} lt o =
        elim (Bool-cases (ltb position count)) [
          | inr over ↦ rw over (record {
            outcome = (finish plugins count reconstruct e h l).0;
            after = (finish plugins count reconstruct e h l).1;
            ran = refl;
            owes = finish-Owes e h o;
          })
          | inl more ↦
              let t = try_open_file plugins count reconstruct e count position l in
              rw more (
                go (descend_loaded plugins count reconstruct e h t)
                  (descend_loaded-Owes e h position t.0 t.1 (
                    try_open_file-Tried plugins count reconstruct e count position (ground arith)
                      o))
                  (λ e' h' position' l' further o'.
                    descend-Ends fuel e' h' position' {l = l'}
                      (omega (arith, ltb→lt position count more)) o'))
        ]
      where
        go :
            (r : Round W × Ledger W)
            → RoundOwes hs bs position count r
            → ((e' : PluginEntry W) (h' position' : ℕ) (l' : Ledger W)
                → (position < position') × (position' ≤ count)
                → Owes l' ((e'.address, h') ∷ hs) bs
                → Ends hs bs (descend plugins count reconstruct fuel e' h' position' l'))
            → Ends hs bs (elim r.0 [
              | return f ↦ some (f, r.1)
              | continue e' h' position' ↦
                  descend plugins count reconstruct fuel e' h' position' r.1
            ])
        go (return f, l') p rest = record { outcome = f; after = l'; ran = refl; owes = p }
        go (continue e' h' position', l') p rest = rest e' h' position' l' (p.0, p.1) p.2
