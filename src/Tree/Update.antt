-- ===== src/Tree/Update.antt =====
-- `vfs_update` of src/vfs/vfs.c: the changes that the watchers report, mount by mount, and then the sweep of
-- the closed handles. `changes` is what `file_watcher_get_changes` gives for a watcher and
-- `watcher_has_changes` what `file_watcher_has_changes` answers; each mount has its own watcher.
use flowi_vfs.Common.{
  ℕ, ◌+◌, ◌<◌, ◌≡◌, ◌≢◌, Bool, not, ◌&&◌, List, [], ◌∷◌, ◌++◌, ◌==◌, if◌then◌else◌, arith,
}
use flowi_vfs.Drivers.{FilePath}
use flowi_vfs.Drivers.Ledger.{Owned}
use flowi_vfs.Handles.{Handle, Table, u32_mod}
use flowi_vfs.Handles.Map.{lookup_handle}
use flowi_vfs.Handles.Map.Closed.{closed_in}
use flowi_vfs.Handles.Map.Find.{select}
use flowi_vfs.Handles.Jobs.{JobSystem}
use flowi_vfs.Handles.Release.{Effect, is_reclaimable, reclaim_closed_handles}
use flowi_vfs.Handles.Valid.{IsValid}
use flowi_vfs.Handles.Reclaim.{find-reclaim_closed_handles}
use flowi_vfs.Tree.{Node, FileChange, process_file_watcher_changes}
use flowi_vfs.Tree.Handles.{closes, held_by, closes-append}
use flowi_vfs.Tree.Handles.Removal.{process_changes-held}

-- The fields of `FlVfsMount` that an update reads or writes.
pub record WatchedMount : Type 0 where
  pub source_path : FilePath
  pub root : Node
  pub version : ℕ
  pub watching_enabled : Bool
  pub watcher_handle : ℕ

-- What an update leaves: the mounts, the driver handles that it closed, the table, what it freed and then
-- the hooks it ran.
pub record Updated : Type 0 where
  pub mounts : List WatchedMount
  pub closed : List Owned
  pub table : Table
  pub effects : List Effect

-- The nodes of all mounts that hold a driver entry's handle.
unfoldable pub held_by_mounts : ℕ → ℕ → List WatchedMount → ℕ
held_by_mounts entry h [] = 0
held_by_mounts entry h (m ∷ ms) = held_by entry h m.root + held_by_mounts entry h ms

module _ (path_components : FilePath → List FilePath) (changes : ℕ → List FileChange)
    (watcher_has_changes : ℕ → Bool) where
  abbrev pub has_changes : WatchedMount → Bool
  has_changes m =
      m.watching_enabled && (not (m.watcher_handle == 0) && watcher_has_changes m.watcher_handle)

  -- The body of the loop over the mounts.
  unfoldable pub update_mount : WatchedMount → WatchedMount × List Owned
  update_mount m =
      let (root', version', closed) =
        process_file_watcher_changes path_components m.source_path (changes m.watcher_handle) m.root
          m.version in
      if has_changes m then (record m { root = root'; version = version' }, closed) else (m, [])

  unfoldable pub update_mounts : List WatchedMount → List WatchedMount × List Owned
  update_mounts [] = ([], [])
  update_mounts (m ∷ ms) =
      let (m', closed) = update_mount m in
      let (ms', closed') = update_mounts ms in (m' ∷ ms', closed ++ closed')

  -- `vfs_update`
  unfoldable pub update :
      (ℕ → Bool) → (J : JobSystem) → J.State → List WatchedMount → Table → Updated
  update has_close J s mounts t =
      let (mounts', closed) = update_mounts mounts in
      let (t', effects) = reclaim_closed_handles has_close J s t in
      record { mounts = mounts'; closed = closed; table = t'; effects = effects }

  module _ (entry h : ℕ) (live : h ≢ 0) where
    update_mount-held :
        (m : WatchedMount)
        → closes entry h (update_mount m).1 + held_by entry h (update_mount m).0.root
          ≡ held_by entry h m.root
    unfolding update_mount process_file_watcher_changes closes
    update_mount-held m = ground (
      arith,
      process_changes-held entry h live path_components m.source_path (changes m.watcher_handle)
          m.root,
    )

    update_mounts-held :
        (ms : List WatchedMount)
        → closes entry h (update_mounts ms).1 + held_by_mounts entry h (update_mounts ms).0
          ≡ held_by_mounts entry h ms
    unfolding update_mounts held_by_mounts closes
    update_mounts-held [] = omega arith
    update_mounts-held (m ∷ ms) = omega (
      arith,
      closes-append entry h (update_mount m).1 (update_mounts ms).1,
      update_mount-held m,
      update_mounts-held ms,
    )

  -- What an update does to the trees and to the table.
  pub record Updates (J : JobSystem) (s : J.State) (mounts : List WatchedMount) (t : Table)
      (u : Updated) : Type 0 where
    pub handles :
        (entry h : ℕ) (live : h ≢ 0)
        → closes entry h u.closed + held_by_mounts entry h u.mounts ≡ held_by_mounts entry h mounts
    pub lookups :
        (k : ℕ)
        → lookup_handle u.table k
          ≡ select (λ (x : Handle). not (is_reclaimable J s x)) (lookup_handle t k)

  -- An update, of mounts with any watchers and any changes, from a valid table with fewer than
  -- 2^32 closed handles: for a driver entry and a handle that is not null, the closes of the
  -- handle and the nodes of all mounts that still hold it make up the nodes that held it; and a
  -- lookup afterwards finds what it found before, unless the sweep could reclaim that handle.
  pub update-Updates :
      (has_close : ℕ → Bool) (J : JobSystem) (s : J.State) (mounts : List WatchedMount) (t : Table)
      → closed_in t.handle_map < u32_mod
      → IsValid t
      → Updates J s mounts t (update has_close J s mounts t)
  unfolding update
  update-Updates has_close J s mounts t small v = record {
    handles = λ entry h live. update_mounts-held entry h live mounts;
    lookups = λ k. find-reclaim_closed_handles has_close J s t k small v;
  }
