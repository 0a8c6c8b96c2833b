-- ===== src/FileOps.antt =====
-- The jobs of file operations (src/vfs/vfs_ops.c): a read and a write on an open file, and the dispatch
-- of a job on its handle. Drivers are parameters over a world `W`; the operations that are modelled
-- elsewhere are the parameter `other`, the callers' callbacks are `callbacks`.
pub mod Answers
pub mod Opening
use flowi_vfs.Common.{
  ℕ, true, false, not, ◌||◌, Option, none, some, ◌==◌, if◌then◌else◌, ℤ, is_negative, is_positive,
  eqz,
}
use flowi_vfs.Status.{state_success, error_driver, error_permission, error_read, error_canceled}
use flowi_vfs.Handles.{Handle, Table, handle_invalid, null, OpType, Payload, of_data}
use flowi_vfs.Handles.Map.{lookup_handle}
use flowi_vfs.Handles.Chain.{is_file_open}

-- `read` and `write` of a driver, which may be null: the file's handle, the buffer, the size.
pub record FileDriver (W : Type 0) : Type 0 where
  pub read : Option (ℕ → ℕ → ℤ → W → ℤ × W)
  pub write : Option (ℕ → ℕ → ℤ → W → ℤ × W)

-- `vfs_op_fail`, behind the reset of `result_data` that each operation begins with.
abbrev pub op_fail : ℕ → Handle → Handle
op_fail status h = record h { result_data = none; error_status = status }

abbrev pub done_data : ℕ → ℤ → Payload
done_data buffer size =
    of_data (record { buffer = buffer; size = size; success = true; has_error_message = false })

-- `vfs_get_handle_data`: a job may still resolve a handle that was closed.
abbrev pub get_handle_data : Table → ℕ → Option Handle
get_handle_data t id = if id == handle_invalid then none else lookup_handle t id

module _ {W : Type 0} (drivers : ℕ → FileDriver W) where
  -- From the driver's answer to the end of `vfs_op_file_write`.
  abbrev pub finish_write : Handle → ℤ × W → Handle × W
  finish_write h (bytes_written, w) =
      if not (eqz bytes_written h.write_size) then (op_fail error_driver h, w) else (
        record h { result_data = some (done_data 0 bytes_written); error_status = state_success },
        w,
      )

  write_by : Handle → ℕ → Option (ℕ → ℕ → ℤ → W → ℤ × W) → W → Handle × W
  write_by h file none w = (op_fail error_permission h, w)
  write_by h file (some f) w = finish_write h (f file h.write_data h.write_size w)

  write_file : Handle → Option Handle → W → Handle × W
  unfolding write_by
  write_file h none w = (op_fail error_driver h, w)
  write_file h (some file) w =
      if not (is_file_open file.op_type) || (file.plugin_file_handle == 0)
      then (op_fail error_driver h, w)
      else elim file.plugin_entry [
        | none ↦ (op_fail error_permission h, w)
        | some e ↦ write_by h file.plugin_file_handle (drivers e).write w
      ]

  -- `vfs_op_file_write`
  unfoldable pub op_file_write : Table → Handle → W → Handle × W
  unfolding write_file
  op_file_write t h w = write_file h (get_handle_data t h.file_handle) w

  -- From the driver's answer to the end of `vfs_op_file_read`.
  abbrev pub finish_file_read : Handle → ℤ × W → Handle × W
  finish_file_read h (bytes_read, w) =
      if is_negative bytes_read then (op_fail error_read h, w) else (
        record h {
          bytes_read = bytes_read;
          result_data = some (done_data h.read_buffer bytes_read);
          error_status = state_success;
        },
        w,
      )

  read_by : Handle → ℕ → Option (ℕ → ℕ → ℤ → W → ℤ × W) → W → Handle × W
  read_by h file none w = (op_fail error_permission h, w)
  read_by h file (some f) w = finish_file_read h (f file h.read_buffer h.read_size w)

  read_file : Handle → Option Handle → W → Handle × W
  unfolding read_by
  read_file h none w = (op_fail error_driver h, w)
  read_file h (some file) w =
      if not (is_file_open file.op_type) || (file.plugin_file_handle == 0)
      then (op_fail error_driver h, w)
      else if (h.read_buffer == 0) || not (is_positive h.read_size)
      then (op_fail error_driver h, w)
      else elim file.plugin_entry [
        | none ↦ (op_fail error_permission h, w)
        | some e ↦ read_by h file.plugin_file_handle (drivers e).read w
      ]

  -- `vfs_op_file_read`
  unfoldable pub op_file_read : Table → Handle → W → Handle × W
  unfolding read_file
  op_file_read t h w = read_file h (get_handle_data t h.file_handle) w

  module _ (callbacks : ℕ → ℕ → W → W) (other : OpType → Handle → W → Handle × W) where
    -- `read_all_notify_failure`: the callback is called with no data and the handle's argument.
    unfoldable pub read_all_notify_failure : Handle → W → W
    read_all_notify_failure h w =
        if h.callback == null then w else callbacks h.callback h.user_data w

    -- `vfs_ops_execute`
    unfoldable pub execute : Table → Handle → W → Handle × W
    execute t h w =
        if h.cancel_requested
        then (
          op_fail error_canceled h,
          elim h.op_type [
            | OpType.read_all ↦ read_all_notify_failure h w
            | OpType.file_read ↦ w
            | OpType.file_write ↦ w
            | OpType.mount ↦ w
            | OpType.mount_list ↦ w
            | OpType.file_open ↦ w
          ],
        )
        else elim h.op_type [
          | OpType.file_read ↦ op_file_read t h w
          | OpType.file_write ↦ op_file_write t h w
          | OpType.mount ↦ other OpType.mount h w
          | OpType.mount_list ↦ other OpType.mount_list h w
          | OpType.file_open ↦ other OpType.file_open h w
          | OpType.read_all ↦ other OpType.read_all h w
        ]
