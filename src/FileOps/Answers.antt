-- ===== src/FileOps/Answers.antt =====
-- How the jobs of file operations (src/vfs/vfs_ops.c) end, on every path.
use flowi_vfs.Common.{ℕ, ◌≡◌, ◌≢◌, true, false, ◌⊎◌, none, some, arith, is_negative}
use flowi_vfs.Status.{state_success, error_canceled, is_error}
use flowi_vfs.Handles.{Handle, Table, OpType, null}
use flowi_vfs.Handles.Steps.{LeavesLifecycle}
use flowi_vfs.FileOps.{FileDriver, done_data, op_file_read, op_file_write}

-- The status is an error and there is no result.
abbrev pub Refused : Handle → Type 0
Refused q = (is_error q.error_status ≡ true) × (q.result_data ≡ none)

-- Success, with the caller's buffer and the number of bytes that were read into it.
abbrev pub ReadAnswer : Handle → Handle → Type 0
ReadAnswer h q =
    (q.error_status ≡ state_success)
    × (is_negative q.bytes_read ≡ false)
    × (q.result_data ≡ some (done_data h.read_buffer q.bytes_read))

-- Success, with the number of bytes written, which is all of them.
abbrev pub WriteAnswer : Handle → Handle → Type 0
WriteAnswer h q =
    (q.error_status ≡ state_success) × (q.result_data ≡ some (done_data 0 h.write_size))

module _ {W : Type 0} (drivers : ℕ → FileDriver W) (t : Table) (h : Handle) (w : W) where
  -- A read on an open file ends either with an error status and no result, or with success, a
  -- number of bytes that is not negative and a result of that size in the buffer of the caller.
  pub op_file_read-Answer : let q = (op_file_read drivers t h w).0 in Refused q ⊎ ReadAnswer h q
  unfolding op_file_read
  op_file_read-Answer = ground arith

  -- A write on an open file ends either with an error status and no result, or with success and a
  -- result that has the size asked for.
  pub op_file_write-Answer : let q = (op_file_write drivers t h w).0 in Refused q ⊎ WriteAnswer h q
  unfolding op_file_write
  op_file_write-Answer = ground arith

module _ {W : Type 0} (drivers : ℕ → FileDriver W) (callbacks : ℕ → ℕ → W → W)
    (other : OpType → Handle → W → Handle × W) (t : Table) (h : Handle) (w : W) where
  -- How a job leaves its handle `q` and the world: canceled before it started, or with the answer of
  -- its operation.
  pub record JobEnds (q : Handle) (w' : W) : Type 0 where
    pub canceled :
        h.cancel_requested ≡ true → (q.error_status ≡ error_canceled) × (q.result_data ≡ none)
    pub untouched : h.cancel_requested ≡ true → h.op_type ≢ OpType.read_all → w' ≡ w
    pub notified :
        h.cancel_requested ≡ true
        → h.op_type ≡ OpType.read_all
        → h.callback ≢ null
        → w' ≡ callbacks h.callback h.user_data w
    pub read :
        h.cancel_requested ≡ false → h.op_type ≡ OpType.file_read → Refused q ⊎ ReadAnswer h q
    pub written :
        h.cancel_requested ≡ false → h.op_type ≡ OpType.file_write → Refused q ⊎ WriteAnswer h q

-- The jobs of reads and writes are writes that `Handles.Steps` allows a job on its own handle.
module _ {W : Type 0} (drivers : ℕ → FileDriver W) (t : Table) (w : W) where
  op_file_read-LeavesLifecycle : LeavesLifecycle (λ h. (op_file_read drivers t h w).0)
  unfolding op_file_read
  op_file_read-LeavesLifecycle = record {
    id = λ h. ground arith;
    closed = λ h. ground arith;
    pending = λ h. ground arith;
    release = λ h. ground arith;
    user_data = λ h. ground arith;
  }

  op_file_write-LeavesLifecycle : LeavesLifecycle (λ h. (op_file_write drivers t h w).0)
  unfolding op_file_write
  op_file_write-LeavesLifecycle = record {
    id = λ h. ground arith;
    closed = λ h. ground arith;
    pending = λ h. ground arith;
    release = λ h. ground arith;
    user_data = λ h. ground arith;
  }
