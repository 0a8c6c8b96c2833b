-- ===== src/Status.antt =====
-- The hierarchical 32-bit operation status of src/vfs/vfs.h: bits 0-7 hold the core state, bits
-- 8-15 the subsystem, bits 16-31 are the caller's. A status is the number itself.
use flowi_vfs.Common.{ℕ, ◌%◌, Bool, ◌==◌}

abbrev pub state_success : ℕ
state_success = 0x00000000

abbrev pub state_pending : ℕ
state_pending = 0x00000001

abbrev pub state_error : ℕ
state_error = 0x00000002

abbrev pub state_closed : ℕ
state_closed = 0x00000003

abbrev pub error_mount : ℕ
error_mount = 0x00000102

abbrev pub error_driver : ℕ
error_driver = 0x00000202

abbrev pub error_path : ℕ
error_path = 0x00000602

abbrev pub error_permission : ℕ
error_permission = 0x00000702

abbrev pub error_file_not_found : ℕ
error_file_not_found = 0x00000202

abbrev pub error_read : ℕ
error_read = 0x00000202

abbrev pub error_canceled : ℕ
error_canceled = 0x00000802

abbrev pub error_would_block : ℕ
error_would_block = 0x00000902

abbrev pub get_core_state : ℕ → ℕ
get_core_state status = status % 0x100

abbrev pub is_success : ℕ → Bool
is_success status = get_core_state status == state_success

abbrev pub is_error : ℕ → Bool
is_error status = get_core_state status == state_error

abbrev pub is_pending : ℕ → Bool
is_pending status = get_core_state status == state_pending
