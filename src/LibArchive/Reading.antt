-- ===== src/LibArchive/Reading.antt =====
-- Reads and sizes of the archive driver (src/vfs/drivers/libarchive.c).
use flowi_vfs.Common.{
  ℕ, ◌-◌, not, ◌&&◌, List, Option, none, some, ◌==◌, if◌then◌else◌, ℤ, pos, negsuc, is_negative,
  signed, length,
}
use flowi_vfs.Drivers.{FilePath}
use flowi_vfs.Drivers.Results.{
  ReadResult, SizeResult, read_failed, no_size, status_success, status_file_not_found,
  status_path_invalid, status_read_error, status_archive_error,
}
use flowi_vfs.Heap.{Heap, release}
use flowi_vfs.LibArchive.{
  ArchiveEntry, ArchiveLibrary, LibArchiveHandle, LaHandle, open_archive_reader, locate,
}

abbrev pub la_target_path : {R : Type 0} → LibArchiveHandle R → FilePath → FilePath
la_target_path h path = if length path == 0 then h.target_path.bytes else path

-- The `(size_t)` of a size.
unfoldable pub to_size_t : ℤ → ℕ
to_size_t (pos n) = n
to_size_t (negsuc n) = 18446744073709551615 - n

abbrev pub data_result : Option (List ℕ) → ReadResult
data_result none = read_failed status_read_error
data_result (some bytes) = record {
  bytes_read = signed 64 (length bytes);
  vfs_status = status_success;
  buffer = bytes;
}

module _ (L : ArchiveLibrary) where
  -- A read on the handle's own reader, which stands at the entry.
  abbrev pub read_ready : LaHandle L → ℕ × L.Reader → ℕ → ReadResult × LaHandle L
  read_ready h (a, reader) size =
      let (bytes, reader') = L.read_data size reader in
      (data_result bytes, record h { archive = some (a, reader') })

  abbrev pub read_located : Option ArchiveEntry × L.Reader → ℕ → ReadResult
  read_located (none, reader) size = read_failed status_file_not_found
  read_located (some entry, reader) size = data_result (L.read_data size reader).0

  -- A read on a reader of its own, which is freed.
  abbrev pub read_apart :
      LaHandle L → FilePath → ℕ → Option (ℕ × L.Reader) × Heap → ReadResult × Heap
  read_apart h target size (none, heap) = (read_failed status_archive_error, heap)
  read_apart h target size (some (a, reader), heap) =
      (read_located (locate L h.is_raw_compression target reader) size, release a heap)

  abbrev pub read_either :
      LaHandle L → FilePath → ℕ → Option (ℕ × L.Reader) → Heap → ReadResult × LaHandle L × Heap
  read_either h target size none heap =
      let (result, heap') = read_apart h target size (open_archive_reader L h heap) in
      (result, h, heap')
  read_either h target size (some x) heap =
      let (result, h') = read_ready h x size in
      let (apart, heap') = read_apart h target size (open_archive_reader L h heap) in
      if h.entry_ready then (result, h', heap) else (apart, h, heap')

  -- `libarchive_read`, of a handle that is not null.
  unfoldable pub la_read : LaHandle L → FilePath → ℤ → Heap → ReadResult × LaHandle L × Heap
  la_read h path size heap =
      let target = la_target_path h path in
      if length target == 0
      then (read_failed status_path_invalid, h, heap)
      else read_either h target (to_size_t size) h.archive heap

  abbrev pub size_located : Option ArchiveEntry × L.Reader → SizeResult
  size_located (none, reader) = no_size status_file_not_found
  size_located (some entry, reader) = record { size = entry.size; vfs_status = status_success }

  abbrev pub size_apart : LaHandle L → FilePath → Option (ℕ × L.Reader) × Heap → SizeResult × Heap
  size_apart h target (none, heap) = (no_size status_archive_error, heap)
  size_apart h target (some (a, reader), heap) =
      (size_located (locate L h.is_raw_compression target reader), release a heap)

  -- `libarchive_get_size`, of a handle that is not null.
  unfoldable pub la_get_size : LaHandle L → FilePath → Heap → SizeResult × Heap
  la_get_size h path heap =
      let target = la_target_path h path in
      if h.entry_ready && not (is_negative h.entry_size)
      then (record { size = h.entry_size; vfs_status = status_success }, heap)
      else if length target == 0
      then (no_size status_path_invalid, heap)
      else size_apart h target (open_archive_reader L h heap)
