-- ===== src/Mounting.antt =====
-- What a driver handle becomes once it is open: a slot for each worker, a file of the tree that is an
-- archive (`vfs_tree_clone_plugin_handle` and `vfs_tree_try_load_as_archive` of src/vfs/vfs_tree.c), and
-- the root of a mount (`vfs_op_mount` of src/vfs/vfs_ops.c).
pub mod Clones
pub mod Roots
use flowi_vfs.Common.{
  ℕ, zero, suc, Bool, false, not, ◌&&◌, List, [], ◌∷◌, ◌++◌, Option, none, some, ◌==◌,
  if◌then◌else◌, ℤ, pos, negsuc, eqz, length,
}
use flowi_vfs.Status.{state_success, error_mount}
use flowi_vfs.Drivers.{FilePath, OpenResult, PluginEntry}
use flowi_vfs.Drivers.Ledger.{Ledger, opened, close_handle, allocate, free}
use flowi_vfs.Loading.{FinalDriver, final, failed, find_plugin_for_memory}
use flowi_vfs.Resolve.{mount_path}
use flowi_vfs.Tree.{no_handles, string_equals}

-- The first slot, which says whether a node has its handles.
abbrev pub slot0 : List ℕ → ℕ
slot0 [] = 0
slot0 (h ∷ hs) = h

-- What an archive's node is given.
pub record Archive (W : Type 0) : Type 0 where
  pub entry : PluginEntry W
  pub handles : List ℕ
  pub memory_data : ℕ
  pub memory_size : ℕ

module _ {W : Type 0} where
  -- The clones that were made, in order.
  unfoldable pub close_clones : PluginEntry W → List ℕ → Ledger W → Ledger W
  close_clones e [] l = l
  close_clones e (h ∷ hs) l = close_clones e hs (close_handle e h l)

  -- One call of `clone`, which may be null.
  unfoldable pub clone_one : Option (ℕ → W → OpenResult × W) → ℕ → ℕ → Ledger W → ℕ × Ledger W
  clone_one none address handle l = (0, l)
  clone_one (some f) address handle l =
      let (r, l') = opened address (f handle l.world) l in (r.handle, l')

  -- The loop of `vfs_tree_clone_plugin_handle`, with `k` slots still to be filled.
  unfoldable pub clone_slots : PluginEntry W → ℕ → List ℕ → ℕ → Ledger W → List ℕ × Ledger W
  clone_slots e handle clones zero l = (handle ∷ clones, l)
  clone_slots e handle clones (suc k) l =
      let (h, l') = clone_one e.driver.clone e.address handle l in
      let rest = clone_slots e handle (clones ++ h ∷ []) k l' in
      if h == 0 then (no_handles, close_clones e clones l') else rest

  -- `vfs_tree_clone_plugin_handle`: `MAX_JOB_THREADS` is 2.
  unfoldable pub clone_plugin_handle : PluginEntry W → ℕ → Ledger W → List ℕ × Ledger W
  clone_plugin_handle e handle l = clone_slots e handle [] 1 l

  -- The archive's handle cloned, or closed when it cannot be.
  unfoldable pub cloned_archive :
      PluginEntry W → ℕ → ℕ → ℕ → Ledger W → Option (Archive W) × Ledger W
  cloned_archive e handle memory_data memory_size l =
      let (slots, l') = clone_plugin_handle e handle l in
      if slot0 slots == 0 then (none, close_handle e handle l') else (
        some (record {
          entry = e;
          handles = slots;
          memory_data = memory_data;
          memory_size = memory_size;
        }),
        l',
      )

  -- The loop over the drivers for a file that has a path of its own.
  unfoldable pub load_from_path :
      List (PluginEntry W) → FilePath → Ledger W → Option (Archive W) × Ledger W
  load_from_path [] path l = (none, l)
  load_from_path (e ∷ es) path l =
      let (can, w) = e.driver.can_open path l.world in
      let l1 : Ledger W = record l { world = w } in
      let (r, l2) = opened e.address (e.driver.open_path 0 path 0 w) l1 in
      let (a, l3) = cloned_archive e r.handle 0 0 l2 in
      if not can
      then load_from_path es path l1
      else if r.handle == 0
      then load_from_path es path l2
      else elim a [ some archive ↦ (some archive, l3) | none ↦ load_from_path es path l3 ]

  -- The file in memory, for the drivers that read archives.
  unfoldable pub load_from_memory :
      List (PluginEntry W)
      → PluginEntry W
      → ℕ
      → FilePath
      → ℕ
      → Ledger W
      → Option (Archive W) × Ledger W
  load_from_memory plugins e handle path size l =
      let (data_, l1) = allocate l in
      let (bytes_read, w) = e.driver.read handle path data_ (pos size) l1.world in
      let l2 : Ledger W = record l1 { world = w } in
      let (m, l3) = find_plugin_for_memory plugins path data_ bytes_read l2 in
      if not (eqz bytes_read (pos size)) then (none, free data_ l2) else elim m [
        | none ↦ (none, free data_ l3)
        | some (e', h') ↦ cloned_archive e' h' data_ size l3
      ]

  -- `vfs_tree_try_load_as_archive`, up to the swap of the node's handles.
  unfoldable pub load_archive :
      List (PluginEntry W)
      → PluginEntry W
      → ℕ
      → FilePath
      → ℤ
      → Ledger W
      → Option (Archive W) × Ledger W
  load_archive plugins e handle path size l = elim size [
    | negsuc n ↦ (none, l)
    | pos n ↦
        let file_path : FilePath = elim e.driver.get_file_path [
          | none ↦ []
          | some f ↦ if e.driver.has_direct_path_capability then f handle path l.world else []
        ] in
        let (direct, l') =
          if length file_path == 0 then (none, l) else load_from_path plugins file_path l in
        if n == 0 then (none, l) else elim direct [
          | some a ↦ (some a, l')
          | none ↦ load_from_memory plugins e handle path n l'
        ]
  ]

-- The fields of `FlVfsMount` that its mount operation writes: the root node's driver entry and
-- handles, the watcher, the version.
pub record Mount (W : Type 0) : Type 0 where
  pub source_path : FilePath
  pub enable_file_watching : Bool
  pub root_entry : Option (PluginEntry W)
  pub root_handles : List ℕ
  pub watcher_handle : ℕ
  pub watching_enabled : Bool
  pub version : ℕ

-- The name of the driver whose mounts are watched.
abbrev pub local_fs : FilePath
local_fs = 76 ∷ 111 ∷ 99 ∷ 97 ∷ 108 ∷ 70 ∷ 83 ∷ []

-- `vfs_tree_root_is_resolved`
abbrev pub root_is_resolved : {W : Type 0} → Mount W → Bool
root_is_resolved m = elim m.root_entry [ none ↦ false | some e ↦ not (slot0 m.root_handles == 0) ]

-- `FlVfsMountStatus`
pub data MountStatus : Type 0 where
  pending ready error : MountStatus

-- `vfs_mount_get_status`, given whether the mount has a job and whether that is still running.
abbrev pub mount_get_status : {W : Type 0} → Bool → Bool → Mount W → MountStatus
mount_get_status has_job not_finished m =
    if has_job && not_finished then pending else if root_is_resolved m then ready else error

-- `file_watcher_start` of flowi-core is a parameter: the watcher's handle for a path, or 0.
module _ {W : Type 0} (file_watcher_start : FilePath → ℕ) where
  -- The watcher of a mount on the local file system.
  unfoldable pub watch : PluginEntry W → Mount W → Mount W
  watch e m =
      let watcher = file_watcher_start m.source_path in
      if m.enable_file_watching && string_equals e.driver.plugin_name local_fs
      then record m { watcher_handle = watcher; watching_enabled = not (watcher == 0); version = 0 }
      else record m { watcher_handle = 0; watching_enabled = false; version = 0 }

  -- `vfs_op_mount` once the path is resolved: the mount, `error_status`, the ledger.
  unfoldable pub settle_mount : Mount W → FinalDriver W × Ledger W → Mount W × ℕ × Ledger W
  settle_mount m (final e h, l) =
      let (slots, l') = clone_plugin_handle e h l in
      let l'' = if slot0 slots == 0 then close_handle e h l' else l' in
      (watch e (record m { root_entry = some e; root_handles = slots }), state_success, l'')
  settle_mount m (failed e, l) = (
    record m {
      root_entry = none;
      root_handles = no_handles;
      watcher_handle = 0;
      watching_enabled = false;
    },
    error_mount,
    l,
  )

  -- `vfs_op_mount`, for the segments of the handle's path.
  unfoldable pub op_mount :
      List (PluginEntry W)
      → ℕ
      → (ℕ → ℕ → FilePath)
      → Mount W
      → Ledger W
      → Option (Mount W × ℕ × Ledger W)
  op_mount plugins count reconstruct m l = elim (mount_path plugins count reconstruct l) [
    | none ↦ none
    | some r ↦ some (settle_mount m r)
  ]
