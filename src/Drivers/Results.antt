-- ===== src/Drivers/Results.antt =====
-- What the functions of a driver return (include/flowi/vfs/vfs_plugin.h), with the codes of `FlVfsStatus`
-- that the bundled drivers use.
use flowi_vfs.Common.{ℕ, List, [], ℤ, negsuc}

abbrev pub status_success : ℕ
status_success = 0

abbrev pub status_generic_error : ℕ
status_generic_error = 900

abbrev pub status_not_implemented : ℕ
status_not_implemented = 901

abbrev pub status_invalid_handle : ℕ
status_invalid_handle = 902

abbrev pub status_file_not_found : ℕ
status_file_not_found = 100

abbrev pub status_path_invalid : ℕ
status_path_invalid = 101

abbrev pub status_read_error : ℕ
status_read_error = 200

abbrev pub status_write_error : ℕ
status_write_error = 201

abbrev pub status_out_of_memory : ℕ
status_out_of_memory = 400

abbrev pub status_archive_error : ℕ
status_archive_error = 500

-- `FlVfsReadResult`, with the bytes that were written to the caller's buffer.
pub record ReadResult : Type 0 where
  pub bytes_read : ℤ
  pub vfs_status : ℕ
  pub buffer : List ℕ

-- `FlVfsSizeResult`
pub record SizeResult : Type 0 where
  pub size : ℤ
  pub vfs_status : ℕ

abbrev pub read_failed : ℕ → ReadResult
read_failed status = record { bytes_read = negsuc 0; vfs_status = status; buffer = [] }

abbrev pub no_size : ℕ → SizeResult
no_size status = record { size = negsuc 0; vfs_status = status }
