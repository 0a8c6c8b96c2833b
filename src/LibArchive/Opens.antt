-- ===== src/LibArchive/Opens.antt =====
-- Opens and clones of the archive driver (src/vfs/drivers/libarchive.c).
use flowi_vfs.Common.{
  ℕ, Bool, true, false, not, ◌&&◌, ◌||◌, List, [], Option, none, some, ◌==◌, ltb, if◌then◌else◌,
  pos, negsuc, length,
}
use flowi_vfs.Drivers.{FilePath}
use flowi_vfs.Drivers.Results.{
  status_success, status_file_not_found, status_path_invalid, status_out_of_memory,
  status_archive_error,
}
use flowi_vfs.Heap.{Heap, Text, empty_text, acquire, release, copy_text}
use flowi_vfs.LibArchive.{
  ArchiveResult, ArchiveEntry, is_ok, is_eof, errno_to_vfs_status, ArchiveLibrary, LibArchiveHandle,
  LaHandle, archive_read_new, open_source, open_archive_reader, locate, la_close,
}
use flowi_vfs.LibArchive.Names.{
  PathText, is_single_file_compression, get_decompressed_filename, is_archive_file,
}

-- What opens give: the handle, or null and why.
pub record LaOpened (R : Type 0) : Type 0 where
  pub handle : Option (LibArchiveHandle R)
  pub is_directory : Bool
  pub vfs_status : ℕ

-- `libarchive_create`: the instance and the status.
unfoldable pub la_create : Heap → (ℕ × ℕ) × Heap
la_create heap =
    let (instance_, heap') = acquire heap in
    ((instance_, if instance_ == 0 then status_out_of_memory else status_success), heap')

-- `libarchive_destroy`
abbrev pub la_destroy : ℕ → Heap → Heap
la_destroy instance_ heap = release instance_ heap

module _ (L : ArchiveLibrary) where
  abbrev pub la_refused : ℕ → LaOpened L.Reader
  la_refused status = record { handle = none; is_directory = false; vfs_status = status }

  -- What a search leaves in the handle: the entry's size, and that it stands at the entry.
  abbrev pub sought : LaHandle L → ℕ → Option ArchiveEntry × L.Reader → ℕ × LaHandle L
  sought h a (none, reader) = (status_file_not_found, record h { archive = some (a, reader) })
  sought h a (some entry, reader) = (
    status_success,
    record h { archive = some (a, reader); entry_size = entry.size; entry_ready = true },
  )

  abbrev pub seek_in : LaHandle L → Option (ℕ × L.Reader) × Heap → ℕ × LaHandle L × Heap
  seek_in h (none, heap) = (status_archive_error, h, heap)
  seek_in h (some (a, reader), heap) =
      let (status, h') = sought h a (locate L h.is_raw_compression h.target_path.bytes reader) in
      (status, h', heap)

  -- The reader of the handle, opened if there is none.
  abbrev pub own_reader : LaHandle L → Option (ℕ × L.Reader) → Heap → Option (ℕ × L.Reader) × Heap
  own_reader h none heap = open_archive_reader L h heap
  own_reader h (some x) heap = (some x, heap)

  -- `libarchive_seek_to_entry`
  unfoldable pub seek_to_entry : LaHandle L → Heap → ℕ × LaHandle L × Heap
  seek_to_entry h heap =
      if h.entry_ready
      then (status_success, h, heap)
      else if length h.target_path.bytes == 0
      then (status_path_invalid, h, heap)
      else seek_in h (own_reader h h.archive heap)

  abbrev pub la_child : LaHandle L → ℕ → Text → Text → LaHandle L
  la_child parent address archive_path target_path = record {
    address = address;
    archive_path = archive_path;
    target_path = target_path;
    archive = none;
    is_directory = false;
    is_raw_compression = parent.is_raw_compression;
    decompressed_name = parent.decompressed_name;
    owns_decompressed_name = false;
    memory_buffer = parent.memory_buffer;
    memory = parent.memory;
    owns_memory = false;
    entry_size = negsuc 0;
    entry_ready = false;
    cache = none;
  }

  abbrev pub opened_child : ℕ × LaHandle L × Heap → LaOpened L.Reader × Heap
  opened_child (status, h, heap) =
      if not (status == status_success)
      then (la_refused status, la_close L h heap)
      else (record { handle = some h; is_directory = false; vfs_status = status_success }, heap)

  -- `libarchive_open` with a parent.
  abbrev pub open_in_archive : LaHandle L → FilePath → ℕ × Heap → LaOpened L.Reader × Heap
  open_in_archive parent path (address, heap) =
      let (archive_path, heap1) = copy_text parent.archive_path.bytes heap in
      let (target_path, heap2) = copy_text path heap1 in
      if address == 0
      then (la_refused status_out_of_memory, heap)
      else opened_child (seek_to_entry (la_child parent address archive_path target_path) heap2)

  abbrev pub la_root : ℕ → Text → Bool → Text × Bool → ℕ → List ℕ → LaHandle L
  la_root address archive_path raw (decompressed_name, owns_name) buffer memory = record {
    address = address;
    archive_path = archive_path;
    target_path = empty_text;
    archive = none;
    is_directory = true;
    is_raw_compression = raw;
    decompressed_name = decompressed_name;
    owns_decompressed_name = owns_name;
    memory_buffer = buffer;
    memory = memory;
    owns_memory = false;
    entry_size = pos 0;
    entry_ready = false;
    cache = none;
  }

  abbrev pub la_opened : Bool → LaHandle L → Heap → LaOpened L.Reader × Heap
  la_opened owned h heap = (
    record {
      handle = some (record h { owns_memory = owned });
      is_directory = true;
      vfs_status = status_success;
    },
    heap,
  )

  -- The second open of the archive, which the handle keeps.
  abbrev pub reopened : Bool → LaHandle L → ℕ × Heap → LaOpened L.Reader × Heap
  reopened owned h (a, heap) =
      let (r, reader) = open_source L h in
      let h' : LaHandle L = record h { archive = some (a, reader) } in
      if not (is_ok r)
      then (la_refused (errno_to_vfs_status r), la_close L h' heap)
      else la_opened owned h' heap

  -- The test of the first header, and the second open.
  abbrev pub validated : Bool → LaHandle L → ℕ → L.Reader → Heap → LaOpened L.Reader × Heap
  validated owned h a reader heap =
      let (r, entry, reader') = L.read_next_header reader in
      if not (is_ok r) && not (is_eof r)
      then (
        la_refused status_archive_error,
        la_close L (record h { archive = some (a, reader') }) heap,
      )
      else reopened owned h (archive_read_new (release a heap))

  -- The first open; `failed` is the status if it fails.
  abbrev pub open_validated :
      Bool → (ArchiveResult → ℕ) → LaHandle L → ℕ × Heap → LaOpened L.Reader × Heap
  open_validated owned failed h (a, heap) =
      let (r, reader) = open_source L h in
      if not (is_ok r)
      then (la_refused (failed r), la_close L (record h { archive = some (a, reader) }) heap)
      else validated owned h a reader heap

  module _ (X : PathText) where
    -- The name of a compressed file's only entry, in memory of its own.
    unfoldable pub own_name : Bool → FilePath → Heap → (Text × Bool) × Heap
    own_name raw path heap =
        let name = get_decompressed_filename X path in
        let (copy, heap') = copy_text name heap in
        if raw && ltb 0 (length name) then ((copy, true), heap') else ((empty_text, false), heap)

    -- From the allocation of the handle.
    abbrev pub la_open_root :
        Bool → (ArchiveResult → ℕ) → FilePath → ℕ → List ℕ → ℕ × Heap → LaOpened L.Reader × Heap
    la_open_root owned failed path buffer memory (address, heap) =
        let raw = is_single_file_compression X path in
        let (archive_path, heap1) = copy_text path heap in
        let (name, heap2) = own_name raw path heap1 in
        if address == 0
        then (la_refused status_out_of_memory, heap)
        else open_validated owned failed (la_root address archive_path raw name buffer memory)
            (archive_read_new heap2)

    -- `libarchive_open` without a parent.
    unfoldable pub open_file : FilePath → Heap → LaOpened L.Reader × Heap
    open_file path heap =
        if not (is_archive_file X path)
        then (la_refused status_path_invalid, heap)
        else la_open_root false errno_to_vfs_status path 0 [] (acquire heap)

    -- `libarchive_open`; a null parent is none.
    unfoldable pub la_open : Option (LaHandle L) → FilePath → Heap → LaOpened L.Reader × Heap
    la_open none path heap = open_file path heap
    la_open (some parent) path heap = open_in_archive parent path (acquire heap)

    abbrev pub clone_memory : LaHandle L → ℕ × Heap → LaOpened L.Reader × Heap
    clone_memory source (address, heap) =
        let (archive_path, heap1) = copy_text source.archive_path.bytes heap in
        let raw = source.is_raw_compression in
        let h =
          la_root address archive_path raw (source.decompressed_name, false) source.memory_buffer
            source.memory in
        if address == 0
        then (la_refused status_out_of_memory, heap)
        else reopened false h (archive_read_new heap1)

    -- `libarchive_clone`, of a handle that is not null.
    unfoldable pub la_clone : LaHandle L → Heap → LaOpened L.Reader × Heap
    la_clone source heap =
        if not (source.memory_buffer == 0)
        then clone_memory source (acquire heap)
        else open_file source.archive_path.bytes heap

    -- `libarchive_open_memory`, of a buffer at an address.
    unfoldable pub la_open_memory : ℕ → List ℕ → FilePath → Heap → LaOpened L.Reader × Heap
    la_open_memory buffer memory original_path heap =
        if (buffer == 0) || (length memory == 0)
        then (la_refused status_path_invalid, heap)
        else la_open_root true (λ r. status_archive_error) original_path buffer memory
            (acquire heap)
