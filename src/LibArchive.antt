-- ===== src/LibArchive.antt =====
-- The archive driver of src/vfs/drivers/libarchive.c: its handle, its readers, the search for an entry and the
-- cache of entries. The libarchive library and the text functions of flowi-core are parameters.
pub mod Names
pub mod Opens
pub mod Reading
pub mod Ownership
pub mod Balance
pub mod Sessions
pub mod Positioned
use flowi_vfs.Common.{
  ℕ, zero, suc, ◌+◌, ◌-◌, Bool, true, false, not, ◌&&◌, List, [], ◌∷◌, Option, none, some, ◌==◌,
  ltb, if◌then◌else◌, ℤ, length, take,
}
use flowi_vfs.Drivers.{FilePath}
use flowi_vfs.Drivers.Results.{
  status_generic_error, status_file_not_found, status_read_error, status_archive_error,
}
use flowi_vfs.Handles.{Entry}
use flowi_vfs.Heap.{Heap, Text, acquire, release, free_option}
use flowi_vfs.Archives.{CachedEntry, slash_at, entry_path_matches, list_children}

-- The results of libarchive's functions.
pub data ArchiveResult : Type 0 where
  archive_ok : ArchiveResult
  archive_eof : ArchiveResult
  archive_retry : ArchiveResult
  archive_warn : ArchiveResult
  archive_failed : ArchiveResult
  archive_fatal : ArchiveResult

abbrev pub is_ok : ArchiveResult → Bool
is_ok archive_ok = true
is_ok _ = false

abbrev pub is_eof : ArchiveResult → Bool
is_eof archive_eof = true
is_eof _ = false

-- `libarchive_errno_to_vfs_status`
unfoldable pub errno_to_vfs_status : ArchiveResult → ℕ
errno_to_vfs_status archive_eof = status_file_not_found
errno_to_vfs_status archive_retry = status_generic_error
errno_to_vfs_status archive_warn = status_generic_error
errno_to_vfs_status archive_failed = status_read_error
errno_to_vfs_status archive_fatal = status_archive_error
errno_to_vfs_status archive_ok = status_generic_error

-- What is read of `struct archive_entry`.
pub record ArchiveEntry : Type 0 where
  pub pathname : Option FilePath
  pub size : ℤ
  pub is_directory : Bool

-- The functions of libarchive on readers; an open is for raw data or for all formats. `left` bounds the
-- headers that are left.
pub record ArchiveLibrary : Type 1 where
  pub Reader : Type 0
  pub open_memory : Bool → List ℕ → ArchiveResult × Reader
  pub open_filename : Bool → FilePath → ArchiveResult × Reader
  pub read_next_header : Reader → ArchiveResult × ArchiveEntry × Reader
  pub data_skip : Reader → Reader
  -- The bytes, or none for an error.
  pub read_data : ℕ → Reader → Option (List ℕ) × Reader
  pub left : Reader → ℕ

-- `LibArchiveHandle`; what `memory_buffer` points to is `memory`. A reader and a cache come with their
-- addresses.
pub record LibArchiveHandle (R : Type 0) : Type 0 where
  pub address : ℕ
  pub archive_path : Text
  pub target_path : Text
  pub archive : Option (ℕ × R)
  pub is_directory : Bool
  pub is_raw_compression : Bool
  pub decompressed_name : Text
  pub owns_decompressed_name : Bool
  pub memory_buffer : ℕ
  pub memory : List ℕ
  pub owns_memory : Bool
  pub entry_size : ℤ
  pub entry_ready : Bool
  pub cache : Option (ℕ × List CachedEntry)

-- `archive_read_new`, whose answer the code does not test: it is served.
unfoldable pub archive_read_new : Heap → ℕ × Heap
archive_read_new h =
    (suc h.next, record h { next = suc h.next; acquired = suc h.next ∷ h.acquired })

module _ (L : ArchiveLibrary) where
  abbrev pub LaHandle : Type 0
  LaHandle = LibArchiveHandle L.Reader

  -- The open of the handle's archive, from memory or from its file.
  abbrev pub open_source : LaHandle → ArchiveResult × L.Reader
  open_source h =
      if h.memory_buffer == 0
      then L.open_filename h.is_raw_compression h.archive_path.bytes
      else L.open_memory h.is_raw_compression h.memory

  abbrev pub opened_reader : ℕ × Heap → ArchiveResult × L.Reader → Option (ℕ × L.Reader) × Heap
  opened_reader (a, heap) (r, reader) =
      if not (is_ok r) then (none, release a heap) else (some (a, reader), heap)

  -- `open_archive_reader`
  unfoldable pub open_archive_reader : LaHandle → Heap → Option (ℕ × L.Reader) × Heap
  open_archive_reader h heap = opened_reader (archive_read_new heap) (open_source h)

  -- The loop of `find_archive_entry`, on fuel.
  unfoldable pub find_archive_loop : ℕ → FilePath → L.Reader → Option ArchiveEntry × L.Reader
  find_archive_loop zero target reader = (none, reader)
  find_archive_loop (suc n) target reader =
      let (r, entry, reader') = L.read_next_header reader in
      let rest = find_archive_loop n target (L.data_skip reader') in
      if not (is_ok r) then (none, reader') else elim entry.pathname [
        | none ↦ rest
        | some path ↦ if entry_path_matches path target then (some entry, reader') else rest
      ]

  -- `find_archive_entry`: there are at most `left` headers.
  abbrev pub find_archive_entry : FilePath → L.Reader → Option ArchiveEntry × L.Reader
  find_archive_entry target reader = find_archive_loop (L.left reader + 1) target reader

  -- The only entry of raw data.
  abbrev pub first_entry : L.Reader → Option ArchiveEntry × L.Reader
  first_entry reader =
      let (r, entry, reader') = L.read_next_header reader in
      (if is_ok r then some entry else none, reader')

  -- The entry that a read or a size is about.
  abbrev pub locate : Bool → FilePath → L.Reader → Option ArchiveEntry × L.Reader
  locate raw target reader = if raw then first_entry reader else find_archive_entry target reader

  -- The path under which an entry is listed, without one slash at its end.
  abbrev pub listed_name : LaHandle → ArchiveEntry → Option FilePath
  listed_name h entry =
      if h.is_raw_compression && ltb 0 (length h.decompressed_name.bytes)
      then some h.decompressed_name.bytes
      else entry.pathname

  abbrev pub without_slash : FilePath → FilePath
  without_slash path = if slash_at (length path - 1) path then take (length path - 1) path else path

  abbrev pub cached_name : ArchiveEntry → FilePath → List CachedEntry → List CachedEntry
  cached_name entry path rest =
      if length path == 0
      then rest
      else record { path = path; size = entry.size; is_directory = entry.is_directory } ∷ rest

  -- The loop of `build_entry_cache`, on fuel.
  unfoldable pub la_cache_loop : ℕ → LaHandle → L.Reader → List CachedEntry × L.Reader
  la_cache_loop zero h reader = ([], reader)
  la_cache_loop (suc n) h reader =
      let (r, entry, reader') = L.read_next_header reader in
      let (rest, reader'') = la_cache_loop n h (L.data_skip reader') in
      if not (is_ok r) then ([], reader') else elim (listed_name h entry) [
        | none ↦ (rest, reader'')
        | some path ↦ (cached_name entry (without_slash path) rest, reader'')
      ]

  abbrev pub la_cache_on : LaHandle → Option (ℕ × L.Reader) → ℕ × Heap → LaHandle × Heap
  la_cache_on h none (arena, heap) = (record h { cache = some (arena, []) }, heap)
  la_cache_on h (some (a, reader)) (arena, heap) =
      let (entries, reader') = la_cache_loop (L.left reader + 1) h reader in
      (record h { archive = some (a, reader'); cache = some (arena, entries) }, heap)

  abbrev pub la_has_cache : LaHandle → Bool
  la_has_cache h = elim h.cache [ none ↦ false | some (arena, entries) ↦ not (arena == 0) ]

  -- `build_entry_cache`
  unfoldable pub la_build_entry_cache : LaHandle → Heap → LaHandle × Heap
  la_build_entry_cache h heap =
      if la_has_cache h then (h, heap) else la_cache_on h h.archive (acquire heap)

  abbrev pub la_cached_entries : LaHandle → List CachedEntry
  la_cached_entries h = elim h.cache [ none ↦ [] | some (a, entries) ↦ entries ]

  -- `libarchive_list_directory`, of a handle that is not null.
  unfoldable pub la_list_directory :
      {T : Type 0} → (Entry → T → Bool × T) → LaHandle → FilePath → T → Heap → T × LaHandle × Heap
  la_list_directory callback h path t heap =
      let (h', heap') = la_build_entry_cache h heap in
      if not h.is_directory
      then (t, h, heap)
      else (list_children callback (la_cached_entries h') path t, h', heap')

  -- `libarchive_close`, of a handle that is not null.
  unfoldable pub la_close : LaHandle → Heap → Heap
  la_close h heap =
      let heap1 = free_option h.cache (free_option h.archive heap) in
      let heap2 = release h.archive_path.address (release h.target_path.address heap1) in
      let heap3 =
        release (if h.owns_decompressed_name then h.decompressed_name.address else 0) heap2 in
      release h.address (release (if h.owns_memory then h.memory_buffer else 0) heap3)
