-- ===== src/LibArchive/Positioned.antt =====
-- Opening a file inside an archive and reading it, against a read by name (src/vfs/drivers/libarchive.c).
use flowi_vfs.Common.{ℕ, Bool, [], Option, ◌==◌, if◌then◌else◌, ℤ}
use flowi_vfs.Drivers.Results.{ReadResult, read_failed, status_success, status_path_invalid}
use flowi_vfs.Heap.{Heap}
use flowi_vfs.LibArchive.{ArchiveLibrary, LaHandle}
use flowi_vfs.LibArchive.Opens.{seek_in, own_reader}
use flowi_vfs.LibArchive.Reading.{la_read}

module _ (L : ArchiveLibrary) where
  -- What a read with no path gives after a search, or the search's error.
  abbrev pub after_seek : ℕ × LaHandle L × Heap → ℤ → ReadResult
  after_seek (status, h, heap) size =
      if status == status_success then (la_read L h [] size heap).0 else read_failed status

  -- `seek_to_entry` over what it tests.
  abbrev seek_under :
      LaHandle L → Heap → Bool → Bool → Option (ℕ × L.Reader) → ℕ × LaHandle L × Heap
  seek_under h heap ready bare o =
      if ready
      then (status_success, h, heap)
      else if bare
      then (status_path_invalid, h, heap)
      else seek_in L h (own_reader L h o heap)
