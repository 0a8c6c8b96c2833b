-- ===== src/Handles/Snapshot.antt =====
-- `vfs_snapshot_handle` of src/vfs/vfs.c and the calls that only read a snapshot. The global state
-- exists in all of them; a table is what it holds.
use flowi_vfs.Common.{
  ℕ, Bool, true, false, not, ◌&&◌, ◌||◌, List, [], Option, none, some, ◌==◌, if◌then◌else◌, pos,
}
use flowi_vfs.Status.{state_error, state_pending, is_success}
use flowi_vfs.Handles.{
  Handle, Table, OpType, Payload, VfsData, FileList, of_data, of_list, null, handle_invalid,
}
use flowi_vfs.Handles.Map.{lookup_open_handle}
use flowi_vfs.Handles.Jobs.{JobSystem}

-- `VfsHandleSnapshot`
pub record Snapshot : Type 0 where
  pub op_type : OpType
  pub job_handle : ℕ
  pub last_job : ℕ
  pub mount : ℕ
  pub path : List ℕ
  pub depth : ℕ
  pub snapshot_version : ℕ
  pub ready : Bool
  pub dispatch_pending : Bool
  pub result_data : Option Payload
  pub error_status : ℕ
  pub plugin_entry : Option ℕ
  pub plugin_file_handle : ℕ

-- A read of a `result_data` pointer as the operation's own result type.
abbrev empty_data : Bool → VfsData
empty_data success = record {
  buffer = null;
  size = pos 0;
  success = success;
  has_error_message = false;
}

abbrev empty_list : Bool → FileList
empty_list success = record {
  entries = [];
  count = 0;
  mount_version = 0;
  success = success;
  has_error_message = false;
}

module _ (J : JobSystem) (s : J.State) where
  -- No dispatch window is open, and the handle's own job is finished or absent.
  unfoldable pub is_ready_handle : Handle → Bool
  is_ready_handle h =
      (h.pending_dispatches == 0) && (h.job_handle == null || J.is_finished s h.job_handle)

  -- The fields that the job writes read as unset until it has finished.
  unfoldable pub snapshot_of : Handle → Snapshot
  unfolding is_ready_handle
  snapshot_of h = record {
    op_type = h.op_type;
    job_handle = h.job_handle;
    last_job = h.last_job;
    mount = h.mount;
    path = h.path;
    depth = h.depth;
    snapshot_version = if is_ready_handle h then h.snapshot_version else 0;
    ready = is_ready_handle h;
    dispatch_pending = not (h.pending_dispatches == 0);
    result_data = h.result_data;
    error_status = h.error_status;
    plugin_entry = if is_ready_handle h then h.plugin_entry else none;
    plugin_file_handle = if is_ready_handle h then h.plugin_file_handle else null;
  }

  abbrev snapshot_found : Option Handle → Option Snapshot
  snapshot_found none = none
  snapshot_found (some h) = some (snapshot_of h)

  -- `vfs_snapshot_handle`
  unfoldable pub snapshot_handle : Table → ℕ → Option Snapshot
  unfolding snapshot_of lookup_open_handle
  snapshot_handle t id =
      if id == handle_invalid then none else snapshot_found (lookup_open_handle t id)

  abbrev ready_of : Option Snapshot → Bool
  ready_of none = false
  ready_of (some snap) = snap.ready

  -- `vfs_is_ready`
  unfoldable pub is_ready : Table → ℕ → Bool
  unfolding snapshot_handle
  is_ready t id = ready_of (snapshot_handle t id)

  abbrev status_of : Option Snapshot → ℕ
  status_of none = state_error
  status_of (some snap) = if snap.ready then snap.error_status else state_pending

  -- `vfs_get_status`
  unfoldable pub get_status : Table → ℕ → ℕ
  unfolding snapshot_handle
  get_status t id = status_of (snapshot_handle t id)

  -- `vfs_snapshot_ready_result`: the payload, or the success flag of the empty result.
  pub data ReadyResult : Type 0 where
    present : Payload → ReadyResult
    absent : Bool → ReadyResult

  abbrev payload_or : Option Payload → ℕ → ReadyResult
  payload_or (some p) status = present p
  payload_or none status = absent (is_success status)

  abbrev ready_result_of : Option Snapshot → ReadyResult
  ready_result_of none = absent false
  ready_result_of (some snap) =
      if snap.ready then payload_or snap.result_data snap.error_status else absent false

  unfoldable pub snapshot_ready_result : Table → ℕ → ReadyResult
  unfolding snapshot_handle
  snapshot_ready_result t id = ready_result_of (snapshot_handle t id)

  -- `vfs_get_data`. A cast of a listing is not a result of the C program; it reads as empty.
  abbrev data_of : ReadyResult → VfsData
  data_of (present (of_data d)) = d
  data_of (present (of_list l)) = empty_data false
  data_of (absent success) = empty_data success

  unfoldable pub get_data : Table → ℕ → VfsData
  unfolding snapshot_ready_result
  get_data t id = data_of (snapshot_ready_result t id)

  -- `vfs_get_file_list`
  abbrev list_of : ReadyResult → FileList
  list_of (present (of_list l)) = l
  list_of (present (of_data d)) = empty_list false
  list_of (absent success) = empty_list success

  unfoldable pub get_file_list : Table → ℕ → FileList
  unfolding snapshot_ready_result
  get_file_list t id = list_of (snapshot_ready_result t id)

  abbrev pub is_mount_list : OpType → Bool
  is_mount_list OpType.mount_list = true
  is_mount_list _ = false

  -- `vfs_is_listing_current`; `version` gives the version counter of each mount.
  abbrev listing_current : (ℕ → ℕ) → Option Snapshot → Bool
  listing_current version none = false
  listing_current version (some snap) =
      if is_mount_list snap.op_type && snap.ready
      then not (snap.mount == null) && (snap.snapshot_version == version snap.mount)
      else false

  unfoldable pub is_listing_current : (ℕ → ℕ) → Table → ℕ → Bool
  unfolding snapshot_handle
  is_listing_current version t id = listing_current version (snapshot_handle t id)
