-- ===== src/LocalFs/Reading.antt =====
-- Reads and writes of the local file driver (src/vfs/drivers/localfs.c).
use flowi_vfs.Common.{
  ℕ, zero, suc, ◌+◌, ◌-◌, Bool, true, false, not, ◌&&◌, ◌||◌, List, [], ◌∷◌, ◌++◌, Option, none,
  some, ◌==◌, if◌then◌else◌, ℤ, pos, negsuc, is_negative, length, drop,
}
use flowi_vfs.Drivers.{FilePath}
use flowi_vfs.Drivers.Results.{
  ReadResult, read_failed, status_success, status_file_not_found, status_invalid_handle,
  status_path_invalid, status_write_error,
}
use flowi_vfs.Lhasa.Operations.{size_of}
use flowi_vfs.LocalFs.{LocalOs, LocalFsHandle, LocalWorld, open_read_fd, close_fd, localfs_resolve}

-- `FlVfsWriteResult`
pub record WriteResult : Type 0 where
  pub bytes_written : ℤ
  pub vfs_status : ℕ

abbrev pub write_failed : ℕ → WriteResult
write_failed status = record { bytes_written = negsuc 0; vfs_status = status }

abbrev pub in_front : List ℕ → Option (List ℕ) → Option (List ℕ)
in_front bytes none = none
in_front bytes (some rest) = some (bytes ++ rest)

abbrev pub beyond : ℕ → Option ℕ → Option ℕ
beyond n none = none
beyond n (some more) = some (n + more)

module _ (O : LocalOs) where
  -- The loop of `localfs_read` until `size` bytes were read, on fuel: none for an error.
  unfoldable pub local_read_loop : ℕ → ℕ → ℕ → O.State → Option (List ℕ) × O.State
  local_read_loop zero fd size os = (some [], os)
  local_read_loop (suc fuel) fd size os =
      let (chunk, os') = O.file_read_from_handle_os fd size os in
      elim chunk [
        | none ↦ if size == 0 then (some [], os) else (none, os')
        | some bytes ↦
            let (rest, os'') = local_read_loop fuel fd (size - length bytes) os' in
            if size == 0
            then (some [], os)
            else if length bytes == 0
            then (some [], os')
            else (in_front bytes rest, os'')
      ]

  abbrev pub read_result : Option (List ℕ) → ReadResult
  read_result none = read_failed status_file_not_found
  read_result (some bytes) = record {
    bytes_read = pos (length bytes);
    vfs_status = status_success;
    buffer = bytes;
  }

  -- The descriptor to read from, and whether it is the read's own; a directory has none.
  unfoldable pub read_fd : LocalFsHandle → FilePath → LocalWorld O → ℤ × Bool × LocalWorld O
  read_fd h relative_path w =
      let (named, w') = open_read_fd O (localfs_resolve O (some h) relative_path) w in
      let (again, w'') = open_read_fd O h.path.bytes w in
      if not (length relative_path == 0)
      then (named, true, w')
      else if h.is_dir
      then (negsuc 0, false, w)
      else if is_negative h.fd
      then (again, true, w'')
      else (h.fd, false, w)

  abbrev pub read_through : ℕ → ℤ × Bool × LocalWorld O → ReadResult × LocalWorld O
  read_through size (pos fd, owns_fd, w) =
      let (bytes, os) = local_read_loop (size + 1) fd size w.os in
      let w' : LocalWorld O = record w { os = os } in
      (read_result bytes, if owns_fd then close_fd O (pos fd) w' else w')
  read_through size (negsuc n, owns_fd, w) = (read_failed status_file_not_found, w)

  -- `localfs_read`, of a handle and a buffer that are not null.
  unfoldable pub local_read :
      LocalFsHandle → FilePath → ℤ → LocalWorld O → ReadResult × LocalWorld O
  local_read h relative_path size w =
      if is_negative size
      then (read_failed status_file_not_found, w)
      else read_through (size_of size) (read_fd h relative_path w)

  -- The loop of `localfs_write` until all bytes were written, on fuel: none for an error.
  unfoldable pub local_write_loop : ℕ → ℕ → List ℕ → O.State → Option ℕ × O.State
  local_write_loop zero fd bytes os = (some 0, os)
  local_write_loop (suc fuel) fd [] os = (some 0, os)
  local_write_loop (suc fuel) fd (b ∷ bytes) os =
      let (n, os') = O.file_write_to_handle_os fd (b ∷ bytes) os in
      let (more, os'') = local_write_loop fuel fd (drop (size_of n) (b ∷ bytes)) os' in
      if is_negative n
      then (none, os')
      else if size_of n == 0
      then (some 0, os')
      else (beyond (size_of n) more, os'')

  abbrev pub write_result : Option ℕ → WriteResult
  write_result none = write_failed status_write_error
  write_result (some n) = record { bytes_written = pos n; vfs_status = status_success }

  abbrev pub write_through : List ℕ → ℤ → LocalWorld O → WriteResult × LocalWorld O
  write_through bytes (pos fd) w =
      let (written, os) = local_write_loop (length bytes + 1) fd bytes w.os in
      (write_result written, record w { os = os })
  write_through bytes (negsuc n) w = (write_failed status_invalid_handle, w)

  -- `localfs_write` of the bytes in the caller's buffer, on a handle that is not null; `size` and `null`
  -- are its other arguments.
  unfoldable pub local_write :
      LocalFsHandle → Bool → List ℕ → ℤ → LocalWorld O → WriteResult × LocalWorld O
  local_write h null bytes size w =
      if h.is_dir || (is_negative h.fd || not h.is_write)
      then (write_failed status_invalid_handle, w)
      else if is_negative size || (null && not (size_of size == 0))
      then (write_failed status_path_invalid, w)
      else write_through bytes h.fd w
