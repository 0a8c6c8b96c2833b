-- ===== src/Resolve.antt =====
-- Path resolution of a mount (src/vfs/vfs_tree.c): which driver opens the root of a path, and the
-- descent through files that are archives. `count` and `reconstruct` are flowi-core's split of the
-- path: the number of its segments, and the path of the segments from one index up to another.
pub mod Owes
pub mod Opens
pub mod Files
pub mod Descent
pub mod Roots
use flowi_vfs.Loading.{
  no_error, file_not_found, no_driver, invalid_path, invalid_file_size, not_mountable, is_error,
  TryLoad, nothing_loaded, FinalDriver, final, failed, load_data_from_plugin,
  find_plugin_for_memory, first_open,
}
use flowi_vfs.Common.{
  ℕ, zero, suc, ◌+◌, ◌-◌, true, not, ◌&&◌, List, [], Option, none, some, ◌==◌, ltb, if◌then◌else◌,
  pos, is_negative,
}
use flowi_vfs.Drivers.{FilePath, PluginEntry}
use flowi_vfs.Drivers.Ledger.{Ledger, opened, close_handle, free}

-- What one attempt of `try_open_file` makes of a prefix of the path.
pub data Attempt : Type 0 where
  stop : TryLoad → Attempt
  skip : Attempt

-- What one round of the descent comes to.
pub data Round (W : Type 0) : Type 0 where
  return : FinalDriver W → Round W
  continue : PluginEntry W → ℕ → ℕ → Round W

module _ {W : Type 0} (plugins : List (PluginEntry W)) (count : ℕ)
    (reconstruct : ℕ → ℕ → FilePath) where
  -- `vfs_tree_find_root_plugin_for_path` from `start`, with `k` segments still to be tried.
  unfoldable pub find_root_plugin : ℕ → ℕ → Ledger W → Option (PluginEntry W × ℕ × ℕ) × Ledger W
  find_root_plugin start zero l = (none, l)
  find_root_plugin start (suc k) l =
      let (r, l') = first_open plugins (reconstruct start (start + suc k)) l in
      elim r [ some (e, h) ↦ (some (e, h, start + suc k), l') | none ↦ find_root_plugin start k l' ]

  -- What the loop of `try_open_file` does with an open handle at a prefix.
  unfoldable pub attempt_opened :
      PluginEntry W → ℕ → ℕ → FilePath → ℕ → Ledger W → Attempt × Ledger W
  attempt_opened e range_start try_segments path handle l =
      if e.driver.is_directory handle l.world && (try_segments == range_start)
      then (
        stop (record {
          buffer = 0;
          length = pos 0;
          error = no_error;
          path_split_offset = try_segments;
          handle = handle;
          loaded_path = path;
          is_directory = true;
        }),
        l,
      )
      else (let (size, w) = e.driver.get_size handle [] l.world in
          let l' = record l { world = w } in
          if is_negative size
          then (skip, close_handle e handle l')
          else (let (data_, l'') = load_data_from_plugin e handle [] path size try_segments l' in
              (stop data_, l'')))

  unfoldable pub attempt : PluginEntry W → ℕ → ℕ → ℕ → Ledger W → Attempt × Ledger W
  attempt e range_start range_end try_segments l =
      let path = reconstruct range_end try_segments in
      let (can, w) = e.driver.can_open path l.world in
      let (r, l') = opened e.address (e.driver.open_path 0 path 0 w) (record l { world = w }) in
      if not can
      then (skip, record l { world = w })
      else if r.handle == 0
      then (skip, l')
      else attempt_opened e range_start try_segments path r.handle l'

  -- The loop of `try_open_file`, with `k` segments still to be tried behind `range_end`.
  unfoldable pub try_open_from : PluginEntry W → ℕ → ℕ → ℕ → Ledger W → TryLoad × Ledger W
  try_open_from e range_start range_end zero l = (nothing_loaded file_not_found, l)
  try_open_from e range_start range_end (suc k) l =
      let (a, l') = attempt e range_start range_end (range_end + suc k) l in
      elim a [ stop d ↦ (d, l') | skip ↦ try_open_from e range_start range_end k l' ]

  -- `try_open_file`
  unfoldable pub try_open_file : PluginEntry W → ℕ → ℕ → Ledger W → TryLoad × Ledger W
  try_open_file e range_start range_end l =
      if count == 0
      then (nothing_loaded invalid_path, l)
      else try_open_from e range_start range_end (range_start - range_end) l

  -- The end of a round that loaded a file: the drivers that read archives have looked at it.
  unfoldable pub descend_into :
      PluginEntry W → ℕ → TryLoad → Option (PluginEntry W × ℕ) × Ledger W → Round W × Ledger W
  descend_into e handle d (none, l) = (
    return (failed not_mountable),
    free d.buffer (close_handle e handle (close_handle e d.handle l)),
  )
  descend_into e handle d (some (e', h'), l) =
      (continue e' h' d.path_split_offset, close_handle e handle (close_handle e d.handle l))

  unfoldable pub descend_loaded : PluginEntry W → ℕ → TryLoad × Ledger W → Round W × Ledger W
  descend_loaded e handle (d, l) =
      if is_error d.error
      then (let l' = if d.handle == 0 then l else close_handle e d.handle l in
          (return (failed d.error), close_handle e handle (free d.buffer l')))
      else if d.is_directory
      then (return (final e d.handle), close_handle e handle l)
      else descend_into e handle d
          (find_plugin_for_memory plugins d.loaded_path d.buffer d.length l)

  -- The loop of `vfs_tree_resolve_full_path` and the check behind it; none if the fuel runs out.
  unfoldable pub finish : PluginEntry W → ℕ → Ledger W → FinalDriver W × Ledger W
  finish e handle l =
      if not (e.driver.is_directory handle l.world)
      then (failed not_mountable, close_handle e handle l)
      else (final e handle, l)

  unfoldable pub descend : ℕ → PluginEntry W → ℕ → ℕ → Ledger W → Option (FinalDriver W × Ledger W)
  descend zero e handle position l = none
  descend (suc fuel) e handle position l =
      let (r, l') = descend_loaded e handle (try_open_file e count position l) in
      let rest : Option (FinalDriver W × Ledger W) = elim r [
        | return f ↦ some (f, l')
        | continue e' h' position' ↦ descend fuel e' h' position' l'
      ] in
      if ltb position count then rest else some (finish e handle l)

  -- The special case: the root handle took all segments and is a file.
  unfoldable pub load_root : PluginEntry W → ℕ → ℕ → TryLoad × Ledger W → Round W × Ledger W
  load_root e handle position (d, l) =
      if is_error d.error
      then (return (failed d.error), close_handle e handle (free d.buffer l))
      else (let (m, l') = find_plugin_for_memory plugins d.loaded_path d.buffer d.length l in
          elim m [
            | none ↦ (return (failed not_mountable), close_handle e handle (free d.buffer l'))
            | some (e', h') ↦ (continue e' h' position, close_handle e handle l')
          ])

  unfoldable pub open_root : PluginEntry W → ℕ → ℕ → Ledger W → Round W × Ledger W
  open_root e handle position l =
      if not (ltb position count) && not (e.driver.is_directory handle l.world)
      then (let (size, w) = e.driver.get_size handle [] l.world in
          let l' = record l { world = w } in
          if is_negative size
          then (return (failed invalid_file_size), close_handle e handle l')
          else load_root e handle position
              (load_data_from_plugin e handle [] (reconstruct 0 count) size count l'))
      else (continue e handle position, l)

  -- `vfs_tree_resolve_full_path`
  unfoldable pub resolve_full_path :
      PluginEntry W → ℕ → ℕ → Ledger W → Option (FinalDriver W × Ledger W)
  resolve_full_path e handle path_start l =
      let (r, l') = open_root e handle path_start l in
      elim r [
        | return f ↦ some (f, l')
        | continue e' h' position ↦ descend (suc count) e' h' position l'
      ]

  -- `vfs_tree_mount_path`
  unfoldable pub mount_path : Ledger W → Option (FinalDriver W × Ledger W)
  mount_path l =
      let (root, l') = find_root_plugin 0 count l in
      elim root [
        | none ↦ some (failed no_driver, l')
        | some (e, h, index) ↦ resolve_full_path e h index l'
      ]
