-- ===== src/Resolve/Roots.antt =====
-- Mounting a path (src/vfs/vfs_tree.c, `vfs_tree_resolve_full_path` and `vfs_tree_mount_path`): the
-- descent ends, and exactly the handle that it returns is left open.
use flowi_vfs.Common.{
  ℕ, suc, not, ◌&&◌, ◌≡◌, refl, inl, inr, List, [], ◌∷◌, Option, none, some, arith, is_negative,
  Bool-cases, ltb,
}
use flowi_vfs.Drivers.{FilePath, PluginEntry}
use flowi_vfs.Drivers.Ledger.{Ledger, Owned, close_handle, free}
use flowi_vfs.Loading.{
  no_driver, is_error, not_mountable, TryLoad, failed, find_plugin_for_memory,
  load_data_from_plugin,
}
use flowi_vfs.Resolve.{
  Round, return, continue, find_root_plugin, descend, load_root, open_root, resolve_full_path,
  mount_path,
}
use flowi_vfs.Resolve.Owes.{
  Owes, close_handle-Owes, close_handle-Owes_second, free-Owes, world-Owes,
}
use flowi_vfs.Resolve.Opens.{
  FoundMemory, find_plugin_for_memory-Owes, FoundRoot, find_root_plugin-Owes,
}
use flowi_vfs.Resolve.Files.{Loaded, load_data_from_plugin-Loaded}
use flowi_vfs.Resolve.Descent.{FinalOwes, Ends, descend-Ends}

module _ {W : Type 0} (plugins : List (PluginEntry W)) (count : ℕ)
    (reconstruct : ℕ → ℕ → FilePath) where
  -- The special case of a root that is a file itself.
  RootOwes : List Owned → List ℕ → ℕ → Round W × Ledger W → Type 0
  RootOwes hs bs from (return f, l) = FinalOwes hs bs (f, l)
  RootOwes hs bs from (continue e h position, l) =
      (position ≡ from) × Owes l ((e.address, h) ∷ hs) bs

  load_root-Owes :
      (e : PluginEntry W) (h position split : ℕ) (d : TryLoad) (l : Ledger W) (hs : List Owned)
      (bs : List ℕ)
      → Loaded ((e.address, h) ∷ hs) bs h split d l
      → RootOwes hs bs position (load_root plugins count reconstruct e h position (d, l))
  unfolding load_root RootOwes
  load_root-Owes e h position split d l hs bs o = elim (Bool-cases (is_error d.error)) [
    | inl short ↦ rw short (close_handle-Owes e h (free-Owes d.buffer o.buffer o.owes))
    | inr whole ↦ simp whole (
        go (find_plugin_for_memory plugins d.loaded_path d.buffer d.length l)
          (find_plugin_for_memory-Owes plugins d.loaded_path d.buffer d.length o.owes))
  ]
    where
      go :
          (m : Option (PluginEntry W × ℕ) × Ledger W)
          → FoundMemory ((e.address, h) ∷ hs) d.buffer bs m
          → RootOwes hs bs position (elim m.0 [
            | none ↦ (return (failed not_mountable), close_handle e h (free d.buffer m.1))
            | some (e', h') ↦ (continue e' h' position, close_handle e h m.1)
          ])
      go (none, l') p = close_handle-Owes e h (free-Owes d.buffer o.buffer p)
      go (some (e', h'), l') p = (refl, close_handle-Owes_second e h (e'.address, h') p)

  open_root-Owes :
      (e : PluginEntry W) (h position : ℕ) {l : Ledger W} (hs : List Owned) (bs : List ℕ)
      → Owes l ((e.address, h) ∷ hs) bs
      → RootOwes hs bs position (open_root plugins count reconstruct e h position l)
  unfolding open_root RootOwes
  open_root-Owes e h position {l} hs bs o =
      let (size, w) = e.driver.get_size h [] l.world in
      elim (Bool-cases (not (ltb position count) && not (e.driver.is_directory h l.world))) [
        | inr other ↦ rw other (refl, o)
        | inl special ↦ elim (Bool-cases (is_negative size)) [
          | inl bad ↦ rw (special, bad) (close_handle-Owes e h (world-Owes w o))
          | inr good ↦
              let r =
                load_data_from_plugin e h [] (reconstruct 0 count) size count
                  (record l { world = w }) in
              rw (special, good)
                (load_root-Owes e h position count r.0 r.1 hs bs (
                  load_data_from_plugin-Loaded e h [] (reconstruct 0 count) size count
                    (world-Owes w o)))
        ]
      ]

  pub resolve_full_path-Ends :
      (e : PluginEntry W) (h path_start : ℕ) {l : Ledger W} {hs : List Owned} {bs : List ℕ}
      → Owes l ((e.address, h) ∷ hs) bs
      → Ends hs bs (resolve_full_path plugins count reconstruct e h path_start l)
  unfolding resolve_full_path RootOwes
  resolve_full_path-Ends e h path_start {l} {hs} {bs} o =
      go (open_root plugins count reconstruct e h path_start l)
        (open_root-Owes e h path_start hs bs o)
    where
      go :
          (r : Round W × Ledger W)
          → RootOwes hs bs path_start r
          → Ends hs bs (elim r.0 [
            | return f ↦ some (f, r.1)
            | continue e' h' position ↦
                descend plugins count reconstruct (suc count) e' h' position r.1
          ])
      go (return f, l') p = record { outcome = f; after = l'; ran = refl; owes = p }
      go (continue e' h' position, l') p =
          descend-Ends plugins count reconstruct (suc count) e' h' position (omega arith) p.1

  -- Mounting a path ends for any drivers and any path, within one round for each segment and one
  -- more. If it returns a driver and a handle, exactly that handle is owed on top of what was owed
  -- before; on an error nothing is; every buffer was freed or handed to a driver.
  pub mount_path-Ends :
      {l : Ledger W} {hs : List Owned} {bs : List ℕ}
      → Owes l hs bs
      → Ends hs bs (mount_path plugins count reconstruct l)
  unfolding mount_path
  mount_path-Ends {l} {hs} {bs} o =
      go (find_root_plugin plugins count reconstruct 0 count l)
        (find_root_plugin-Owes plugins count reconstruct 0 count o)
    where
      go :
          (r : Option (PluginEntry W × ℕ × ℕ) × Ledger W)
          → FoundRoot hs bs r
          → Ends hs bs (elim r.0 [
            | none ↦ some (failed no_driver, r.1)
            | some (e, h, index) ↦ resolve_full_path plugins count reconstruct e h index r.1
          ])
      go (none, l') p = record { outcome = failed no_driver; after = l'; ran = refl; owes = p }
      go (some (e, h, index), l') p = resolve_full_path-Ends e h index p
