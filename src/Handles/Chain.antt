-- ===== src/Handles/Chain.antt =====
-- Work that reaches a published handle before it is recorded there: `vfs_dispatch`, and
-- `vfs_chain_file_op` with the reads and writes built on it (src/vfs/vfs.c). `between` is what other
-- threads do to the table while no lock is held.
use flowi_vfs.Common.{
  ℕ, Bool, true, false, not, ◌&&◌, ◌||◌, Option, none, some, ◌==◌, if◌then◌else◌, ℤ, pos,
  is_positive, [],
}
use flowi_vfs.Status.{error_would_block}
use flowi_vfs.Handles.{Handle, Table, OpType, null, handle_invalid}
use flowi_vfs.Handles.Map.{insert, modify, lookup_handle, lookup_open_handle}
use flowi_vfs.Handles.Jobs.{JobSystem}
use flowi_vfs.Handles.Alloc.{
  OpParams, allocate_handle, open_window, close_window, record_job, schedule_job,
}

unfoldable pub update_handle : ℕ → (Handle → Handle) → Table → Table
update_handle id f t = record t { handle_map = modify id f t.handle_map }

-- `VfsFileOpParams`
pub record FileOpParams : Type 0 where
  pub op_type : OpType
  pub read_buffer : ℕ
  pub read_size : ℤ
  pub write_data : ℕ
  pub write_size : ℤ
  pub write_data_owned : Bool

abbrev pub is_file_open : OpType → Bool
is_file_open OpType.file_open = true
is_file_open _ = false

abbrev open_file : Option Handle → Option Handle
open_file none = none
open_file (some f) = if is_file_open f.op_type then some f else none

-- The first section: the open file handle, if there is one.
unfoldable pub chain_target : Table → ℕ → Option Handle
chain_target t file = open_file (lookup_open_handle t file)

-- The fields of the operation's own handle.
unfoldable pub fill_file_op : ℕ → FileOpParams → Handle → Handle
fill_file_op file params h = record h {
  file_handle = file;
  read_buffer = params.read_buffer;
  read_size = params.read_size;
  write_data = params.write_data;
  write_size = params.write_size;
  write_data_owned = params.write_data_owned;
}

unfoldable pub chain_params : ℕ → OpType → OpParams
chain_params mount op_type = record {
  mount = mount;
  path = [];
  op_type = op_type;
  depth = 0;
  callback = null;
  user_data = null;
  release = null;
  reuse_handle = handle_invalid;
  filter_needle = [];
  open_flags = 0;
}

unfoldable pub with_last_job : ℕ → Handle → Handle
with_last_job job h = record h { last_job = job }

-- The file handle after the last section: the operation is its last job, unless it was refused.
unfoldable pub settle_file : Bool → ℕ → Handle → Handle
settle_file refused job h = close_window (if refused then h else with_last_job job h)

abbrev settle_found : ℕ → Bool → ℕ → Table → Option Handle → Table
settle_found file refused job t none = t
settle_found file refused job t (some _) = update_handle file (settle_file refused job) t

-- The last section: the window closes and the operation's handle is published.
unfoldable pub chain_end : ℕ → Bool → Handle → Table → Table
chain_end file refused op t =
    let t' = settle_found file refused op.job_handle t (lookup_handle t file) in
    record t' { handle_map = insert op t'.handle_map }

module _ (J : JobSystem) where
  -- The private part: how the operation is run or scheduled, and whether it was refused. `execute`
  -- is `vfs_ops_execute_sync` on the operation's handle.
  unfoldable pub start_file_op : (Handle → Handle) → ℕ → Handle → J.State → Handle × Bool × J.State
  start_file_op execute chain_after op s =
      if not (J.is_main_thread s)
      then (if not (chain_after == 0) && not (J.is_finished s chain_after)
          then (
            record op { error_status = error_would_block; job_handle = 0; last_job = 0 },
            true,
            s,
          )
          else (record (execute op) { job_handle = 0; last_job = 0 }, false, s))
      else (let (job, s') = J.add_job_with_dependency chain_after s in
          (record op { job_handle = job; last_job = job }, false, s'))

  module _ (execute : Table → Handle → Handle) (between : Table → Table) where
    abbrev run_file_op :
        ℕ → FileOpParams → Handle → J.State → Option Handle × Table → ℕ × Table × J.State
    run_file_op file params f s (none, t) = (handle_invalid, update_handle file close_window t, s)
    run_file_op file params f s (some h, t) =
        let (op, refused, s') =
          start_file_op (execute t) f.last_job (fill_file_op file params h) s in
        (h.id, chain_end file refused op (between t), s')

    abbrev chain_found : ℕ → FileOpParams → J.State → Table → Option Handle → ℕ × Table × J.State
    chain_found file params s t none = (handle_invalid, t, s)
    chain_found file params s t (some f) =
        run_file_op file params f s
          (allocate_handle (update_handle file open_window t) (chain_params f.mount params.op_type))

    -- `vfs_chain_file_op`
    unfoldable pub chain_file_op : ℕ → FileOpParams → J.State → Table → ℕ × Table × J.State
    chain_file_op file params s t = chain_found file params s t (chain_target t file)

    -- `vfs_read`
    unfoldable pub read : ℕ → ℕ → ℤ → J.State → Table → ℕ × Table × J.State
    read file buffer size s t =
        if (file == handle_invalid) || (buffer == null) || not (is_positive size)
        then (handle_invalid, t, s)
        else chain_file_op file
            (record {
              op_type = OpType.file_read;
              read_buffer = buffer;
              read_size = size;
              write_data = null;
              write_size = pos 0;
              write_data_owned = false;
            })
            s t

    -- `vfs_write_internal`; `vfs_write_no_copy` is this with `owned` false.
    unfoldable pub write_internal : ℕ → ℕ → ℤ → Bool → J.State → Table → ℕ × Table × J.State
    write_internal file source size owned s t =
        if (file == handle_invalid) || (source == null) || not (is_positive size)
        then (handle_invalid, t, s)
        else chain_file_op file
            (record {
              op_type = OpType.file_write;
              read_buffer = null;
              read_size = pos 0;
              write_data = source;
              write_size = size;
              write_data_owned = owned;
            })
            s t

    -- `vfs_write`: `copy` is the address that `mi_malloc` gives to the copy, 0 when it fails.
    unfoldable pub write : ℕ → ℕ → ℤ → ℕ → J.State → Table → ℕ × Table × J.State
    write file source size copy s t =
        if (source == null) || not (is_positive size) || (copy == null)
        then (handle_invalid, t, s)
        else write_internal file copy size true s t

  -- `vfs_dispatch`: the window, the scheduling outside the lock, and the recording section, which
  -- finds the handle by its id.
  module _ (mount_job : ℕ → ℕ) (between : Table → Table) where
    abbrev record_found : ℕ → ℕ → Table → Option Handle → Table
    record_found id job t none = t
    record_found id job t (some _) = update_handle id (record_job job) t

    abbrev dispatch_found : ℕ → J.State → Table → Option Handle → Table × J.State
    dispatch_found id s t none = (t, s)
    dispatch_found id s t (some h) =
        let (job, s') = schedule_job J (mount_job h.mount) s in
        let t' = between (update_handle id open_window t) in
        (record_found id job t' (lookup_handle t' id), s')

    unfoldable pub dispatch : ℕ → J.State → Table → Table × J.State
    dispatch id s t =
        if id == handle_invalid then (t, s) else dispatch_found id s t (lookup_open_handle t id)
