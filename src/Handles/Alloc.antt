-- ===== src/Handles/Alloc.antt =====
-- How handles are born and published (src/vfs/vfs.c): `allocate_handle`, `vfs_publish_handle`,
-- `allocate_op` and the two-phase `vfs_mount_read_all_prepare` / `vfs_dispatch`.
use flowi_vfs.Common.{ℕ, false, List, Option, none, some, ◌==◌, if◌then◌else◌, pos}
use flowi_vfs.Status.{state_pending}
use flowi_vfs.Handles.{Handle, Table, OpType, null, handle_invalid, inc32, dec32}
use flowi_vfs.Handles.Map.{find, insert}
use flowi_vfs.Handles.Jobs.{JobSystem}

-- `VfsOpParams`
pub record OpParams : Type 0 where
  pub mount : ℕ
  pub path : List ℕ
  pub op_type : OpType
  pub depth : ℕ
  pub callback : ℕ
  pub user_data : ℕ
  pub release : ℕ
  pub reuse_handle : ℕ
  pub filter_needle : List ℕ
  pub open_flags : ℕ

abbrev pub normal_priority : ℕ
normal_priority = 1

-- The fields that every handle is born with; the rest is zeroed.
unfoldable pub fresh_handle : ℕ → OpParams → Handle
fresh_handle id params = record {
  id = id;
  job_handle = 0;
  last_job = 0;
  pending_dispatches = 0;
  closed = false;
  mount = params.mount;
  path = params.path;
  filter_needle = params.filter_needle;
  result_data = none;
  result_arena = null;
  op_type = params.op_type;
  snapshot_version = 0;
  depth = params.depth;
  error_status = state_pending;
  callback = params.callback;
  user_data = params.user_data;
  release = params.release;
  priority = normal_priority;
  plugin_entry = none;
  plugin_file_handle = null;
  open_flags = params.open_flags;
  read_buffer = null;
  read_size = pos 0;
  bytes_read = pos 0;
  file_handle = handle_invalid;
  write_data = null;
  write_size = pos 0;
  write_data_owned = false;
  callback_owns_data = false;
  cancel_requested = false;
}

abbrev reuse : Table → OpParams → Option Handle → Option Handle × Table
reuse t params (some existing) = (none, t)
reuse t params none = (some (fresh_handle params.reuse_handle params), t)

-- `allocate_handle`: none if the id to reuse is still in the map.
unfoldable pub allocate_handle : Table → OpParams → Option Handle × Table
allocate_handle t params =
    if params.reuse_handle == handle_invalid
    then (
      some (fresh_handle t.next_handle_id params),
      record t { next_handle_id = inc32 t.next_handle_id },
    )
    else reuse t params (find params.reuse_handle t.handle_map)

-- `vfs_publish_handle`
unfoldable pub publish_handle : Table → Handle → Table
publish_handle t h = record t { handle_map = insert h t.handle_map }

module _ (J : JobSystem) where
  -- `vfs_ops_schedule_job` (src/vfs/vfs_ops.c), given the mount's job.
  unfoldable pub schedule_job : ℕ → J.State → ℕ × J.State
  schedule_job mount_job s =
      if mount_job == 0
      then J.add_job s
      else if J.is_finished s mount_job
      then J.add_job s
      else J.add_job_with_dependency mount_job s

  -- `allocate_op`: allocate, schedule, publish. `mount_job` gives the job of each mount, and
  -- `scheduled` is what the job has done to the still private handle by the time it is published.
  abbrev pub publish_op :
      (ℕ → ℕ) → (Handle → Handle) → OpParams → J.State → Option Handle × Table → ℕ × Table × J.State
  publish_op mount_job scheduled params s (none, t) = (handle_invalid, t, s)
  publish_op mount_job scheduled params s (some h, t) =
      let (job, s') = schedule_job (mount_job params.mount) s in
      (h.id, publish_handle t (record (scheduled h) { job_handle = job; last_job = job }), s')

  unfoldable pub allocate_op :
      (ℕ → ℕ) → (Handle → Handle) → OpParams → J.State → Table → ℕ × Table × J.State
  allocate_op mount_job scheduled params s t =
      publish_op mount_job scheduled params s (allocate_handle t params)

-- `vfs_mount_read_all_prepare`: publish without a job.
abbrev publish_prepared : Option Handle × Table → ℕ × Table
publish_prepared (none, t) = (handle_invalid, t)
publish_prepared (some h, t) = (h.id, publish_handle t h)

unfoldable pub read_all_prepare : OpParams → Table → ℕ × Table
read_all_prepare params t = publish_prepared (allocate_handle t params)

-- The first critical section of `vfs_dispatch`: the window opens on an open handle.
unfoldable pub open_window : Handle → Handle
open_window h = record h { pending_dispatches = inc32 h.pending_dispatches }

unfoldable pub close_window : Handle → Handle
close_window h = record h { pending_dispatches = dec32 h.pending_dispatches }

-- The last critical section of `vfs_dispatch`: the job is recorded and the window closes.
unfoldable pub record_job : ℕ → Handle → Handle
record_job job h = record h {
  job_handle = job;
  last_job = job;
  pending_dispatches = dec32 h.pending_dispatches;
}
