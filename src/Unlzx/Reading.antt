-- ===== src/Unlzx/Reading.antt =====
-- Reads and sizes of the LZX driver (src/vfs/drivers/unlzx.c).
use flowi_vfs.Common.{
  ℕ, ◌⊎◌, inl, inr, Option, none, some, ◌==◌, ltb, if◌then◌else◌, ℤ, is_negative, signed, length,
  not,
}
use flowi_vfs.Drivers.{FilePath}
use flowi_vfs.Drivers.Results.{
  ReadResult, SizeResult, read_failed, no_size, status_success, status_generic_error,
  status_invalid_handle, status_file_not_found, status_path_invalid, status_out_of_memory,
  status_archive_error,
}
use flowi_vfs.Heap.{Heap, acquire}
use flowi_vfs.Lhasa.Operations.{size_of}
use flowi_vfs.Unlzx.{LzxEntry, LzxLibrary, UnlzxHandle, LzxHandle, lzx_ok, lzx_out_of_memory}

-- `resolve_target_path`
abbrev pub lzx_target_path : {A S : Type 0} → UnlzxHandle A S → FilePath → FilePath
lzx_target_path h path = if length path == 0 then h.target_path.bytes else path

module _ (L : LzxLibrary) where
  abbrev stream_allocated : L.Stream → ℕ × Heap → ((ℕ × L.Stream) ⊎ ℕ) × Heap
  stream_allocated s (a, heap) =
      if a == 0 then (inr lzx_out_of_memory, heap) else (inl (a, s), heap)

  -- `unlzx_stream_open` with its allocation: the stream, or the error.
  unfoldable pub open_stream : L.Archive → LzxEntry → Heap → ((ℕ × L.Stream) ⊎ ℕ) × Heap
  open_stream archive entry heap = elim (L.stream_open archive entry) [
    | inl s ↦ stream_allocated s (acquire heap)
    | inr error ↦ (inr error, heap)
  ]

  abbrev stream_failed : ℕ → ReadResult
  stream_failed error =
      read_failed
        (if error == lzx_out_of_memory then status_out_of_memory else status_archive_error)

  -- `unlzx_stream_read` and what follows it.
  abbrev pub read_stream : LzxHandle L → ℕ × L.Stream → ℕ → ReadResult × LzxHandle L
  read_stream h (a, s) size =
      let (error, bytes, s') = L.stream_read s size in
      (
        if not (error == lzx_ok) then read_failed status_archive_error else record {
          bytes_read = signed 64 (length bytes);
          vfs_status = status_success;
          buffer = bytes;
        },
        record h { stream = some (a, s') },
      )

  abbrev pub read_opened :
      LzxHandle L → ℕ → ((ℕ × L.Stream) ⊎ ℕ) × Heap → ReadResult × LzxHandle L × Heap
  read_opened h size (inl x, heap) = let (result, h') = read_stream h x size in (result, h', heap)
  read_opened h size (inr error, heap) = (stream_failed error, h, heap)

  abbrev pub read_entry :
      LzxHandle L → L.Archive → ℕ → Option LzxEntry → Heap → ReadResult × LzxHandle L × Heap
  read_entry h archive size none heap = (read_failed status_file_not_found, h, heap)
  read_entry h archive size (some entry) heap = read_opened h size (open_stream archive entry heap)

  abbrev pub next_on :
      LzxHandle L → L.Archive → ℕ → Heap → Option (ℕ × L.Stream) → ReadResult × LzxHandle L × Heap
  next_on h archive size heap none =
      read_entry h archive size (L.find_entry archive h.target_path.bytes) heap
  next_on h archive size heap (some x) =
      let (result, h') = read_stream h x size in (result, h', heap)

  -- `unlzx_read_next`
  unfoldable pub lzx_read_next :
      LzxHandle L → L.Archive → ℕ → Heap → ReadResult × LzxHandle L × Heap
  lzx_read_next h archive size heap = next_on h archive size heap h.stream

  -- The end of `unlzx_read`, once the named entry was looked for.
  unfoldable pub extract : L.Archive → ℕ → Option LzxEntry → ReadResult
  extract archive size none = read_failed status_file_not_found
  extract archive size (some entry) =
      let (error, bytes) = L.extract_entry archive entry size in
      if ltb size entry.unpack_size
      then read_failed status_generic_error
      else if not (error == lzx_ok)
      then read_failed status_archive_error
      else record {
        bytes_read = signed 64 entry.unpack_size;
        vfs_status = status_success;
        buffer = bytes;
      }

  abbrev pub lzx_read_on :
      LzxHandle L → FilePath → ℤ → Heap → Option (ℕ × L.Archive) → ReadResult × LzxHandle L × Heap
  lzx_read_on h path size heap none = (read_failed status_invalid_handle, h, heap)
  lzx_read_on h path size heap (some (a, archive)) =
      let target = lzx_target_path h path in
      if length target == 0
      then (read_failed status_path_invalid, h, heap)
      else if is_negative size
      then (read_failed status_generic_error, h, heap)
      else if length path == 0
      then lzx_read_next h archive (size_of size) heap
      else (extract archive (size_of size) (L.find_entry archive target), h, heap)

  -- `unlzx_read`, of a handle that is not null.
  unfoldable pub lzx_read : LzxHandle L → FilePath → ℤ → Heap → ReadResult × LzxHandle L × Heap
  lzx_read h path size heap = lzx_read_on h path size heap h.archive

  abbrev lzx_size_found : Option LzxEntry → SizeResult
  lzx_size_found none = no_size status_file_not_found
  lzx_size_found (some entry) = record {
    size = signed 64 entry.unpack_size;
    vfs_status = status_success;
  }

  -- `unlzx_get_size`, of a handle that is not null.
  unfoldable pub lzx_get_size : LzxHandle L → FilePath → SizeResult
  lzx_get_size h path = elim h.archive [
    | none ↦ no_size status_invalid_handle
    | some (a, archive) ↦
        let target = lzx_target_path h path in
        if length target == 0
        then no_size status_path_invalid
        else lzx_size_found (L.find_entry archive target)
  ]
