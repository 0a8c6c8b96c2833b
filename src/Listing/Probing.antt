-- ===== src/Listing/Probing.antt =====
-- Whether a file of a local mount is an archive: the drivers are asked to open it (src/vfs/vfs_ops.c).
use flowi_vfs.Common.{ℕ, ◌≡◌, refl, Bool, true, false, not, List, [], ◌∷◌, ◌==◌, if◌then◌else◌}
use flowi_vfs.Drivers.{FilePath, PluginEntry}
use flowi_vfs.Drivers.Ledger.{Ledger, Owned, opened, close_handle}
use flowi_vfs.Resolve.Owes.{Owes, world-Owes, opened-Owes, close_handle-Owes}

module _ {W : Type 0} where
  -- The body of the loop: whether the driver opens the file as a directory.
  unfoldable pub probe_directory : PluginEntry W → FilePath → Ledger W → Bool × Ledger W
  probe_directory e path l =
      let (can, w) = e.driver.can_open path l.world in
      let (r, l') = opened e.address (e.driver.open_path 0 path 0 w) (record l { world = w }) in
      if not can
      then (false, record l { world = w })
      else if r.handle == 0
      then (false, l')
      else (r.is_directory, close_handle e r.handle l')

  -- `vfs_ops_check_if_archive`
  unfoldable pub ask_drivers : List (PluginEntry W) → FilePath → Ledger W → Bool × Ledger W
  ask_drivers [] path l = (false, l)
  ask_drivers (e ∷ es) path l =
      let (found, l') = probe_directory e path l in
      let rest = ask_drivers es path l' in if found then (true, l') else rest

  either-Owes :
      {hs : List Owned} {bs : List ℕ} (b : Bool) (x y : Bool × Ledger W)
      → Owes x.1 hs bs
      → (b ≡ false → Owes y.1 hs bs)
      → Owes (if◌then◌else◌ {A = Bool × Ledger W} b x y).1 hs bs
  either-Owes true x y o z = o
  either-Owes false x y o z = z refl

  -- What was opened is closed.
  closed-Owes :
      (b is_dir : Bool) (e : PluginEntry W) (h : ℕ) (l : Ledger W) (hs : List Owned) (bs : List ℕ)
      → Owes l (if b then hs else (e.address, h) ∷ hs) bs
      → Owes (if◌then◌else◌ {A = Bool × Ledger W} b (false, l) (is_dir, close_handle e h l)).1 hs bs
  closed-Owes true is_dir e h l hs bs o = o
  closed-Owes false is_dir e h l hs bs o = close_handle-Owes e h o

  probe_directory-Owes :
      (e : PluginEntry W) (path : FilePath) (l : Ledger W) (hs : List Owned) (bs : List ℕ)
      → Owes l hs bs
      → Owes (probe_directory e path l).1 hs bs
  unfolding probe_directory opened
  probe_directory-Owes e path l hs bs o =
      let (can, w) = e.driver.can_open path l.world in
      let start = world-Owes w o in
      let answer = e.driver.open_path 0 path 0 w in
      let h : ℕ = answer.0.handle in
      let l' = (opened e.address answer (record l { world = w })).1 in
      either-Owes (not can) _ _ start (λ asked.
        closed-Owes (h == 0) answer.0.is_directory e h l' hs bs
          (opened-Owes e.address answer start))

  -- Asking the drivers leaves nothing open, whichever of them answers.
  pub ask_drivers-Owes :
      (es : List (PluginEntry W)) (path : FilePath) (l : Ledger W) (hs : List Owned) (bs : List ℕ)
      → Owes l hs bs
      → Owes (ask_drivers es path l).1 hs bs
  unfolding ask_drivers
  ask_drivers-Owes [] path l hs bs o = o
  ask_drivers-Owes (e ∷ es) path l hs bs o =
      let p = probe_directory-Owes e path l hs bs o in
      let l' = (probe_directory e path l).1 in
      either-Owes (probe_directory e path l).0 _ _ p (λ missed. ask_drivers-Owes es path l' hs bs p)
