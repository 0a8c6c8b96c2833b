-- ===== src/Lhasa/Operations.antt =====
-- The driver functions of src/vfs/drivers/lhasa.c. A function takes the handle and the heap, and gives both
-- back; a null handle is none.
pub mod Ownership
pub mod Reading
pub mod Balance
pub mod Sessions
use flowi_vfs.Common.{
  ℕ, zero, suc, ◌+◌, ◌-◌, Bool, true, false, not, ◌||◌, List, [], ◌∷◌, ◌++◌, Option, none, some,
  ◌==◌, ltb, if◌then◌else◌, ℤ, pos, is_negative, signed, length,
}
use flowi_vfs.Drivers.{FilePath}
use flowi_vfs.Drivers.Results.{
  ReadResult, SizeResult, read_failed, no_size, status_success, status_generic_error,
  status_not_implemented, status_invalid_handle, status_file_not_found, status_path_invalid,
  status_out_of_memory, status_archive_error,
}
use flowi_vfs.Handles.{Entry}
use flowi_vfs.Heap.{Heap, Text, empty_text, acquire, release, free_option, copy_text}
use flowi_vfs.Archives.{CachedEntry, list_children}
use flowi_vfs.Lhasa.{
  LhaLibrary, LhasaHandle, Header, is_lha_archive_data, open_from_memory, free_reader,
  find_lha_entry, build_entry_cache,
}

-- `is_lha_file`; `has_extension` is flowi-core's `path_has_extension`.
abbrev pub is_lha_file : (FilePath → FilePath → Bool) → FilePath → Bool
is_lha_file has_extension path =
    has_extension path (108 ∷ 104 ∷ 97 ∷ []) || has_extension path (108 ∷ 122 ∷ 104 ∷ [])

-- `lhasa_create`: the instance, or none where the code writes through null.
unfoldable pub create : Heap → Option ℕ × Heap
create heap =
    let (instance_, heap') = acquire heap in
    (if instance_ == 0 then none else some instance_, heap')

-- `lhasa_destroy`
abbrev pub destroy : ℕ → Heap → Heap
destroy instance_ heap = release instance_ heap

-- `resolve_target_path`
abbrev pub resolve_target_path : {R : Type 0} → LhasaHandle R → FilePath → FilePath
resolve_target_path h path = if length path == 0 then h.target_path.bytes else path

-- `size_t` of a size that is not negative.
abbrev pub size_of : ℤ → ℕ
size_of (pos n) = n
size_of _ = 0

-- What opens give: the handle, or null and why.
pub record Opened (R : Type 0) : Type 0 where
  pub handle : Option (LhasaHandle R)
  pub is_directory : Bool
  pub vfs_status : ℕ

module _ (L : LhaLibrary) where
  abbrev pub refused : ℕ → Opened L.Reader
  refused status = record { handle = none; is_directory = false; vfs_status = status }

  abbrev pub new_handle : ℕ → Text → Text → Bool → ℕ → List ℕ → LhasaHandle L.Reader
  new_handle address archive_path target_path is_directory buffer memory = record {
    address = address;
    archive_path = archive_path;
    target_path = target_path;
    is_directory = is_directory;
    memory_buffer = buffer;
    memory = memory;
    owns_memory = false;
    mem_stream = 0;
    stream = 0;
    reader = none;
    cache = none;
    positioned = false;
  }

  -- `lhasa_close`
  unfoldable pub close : LhasaHandle L.Reader → Heap → Heap
  close h heap =
      let (h', heap') = free_reader L h heap in
      release h.address (
        release (if h.owns_memory then h.memory_buffer else 0) (
          release h.archive_path.address
            (release h.target_path.address (free_option h'.cache heap'))))

  abbrev open_child : LhasaHandle L.Reader → FilePath → ℕ × Heap → Opened L.Reader × Heap
  open_child parent path (address, heap) =
      let (archive_path, heap1) = copy_text parent.archive_path.bytes heap in
      let (target_path, heap2) = copy_text path heap1 in
      if address == 0 then (refused status_out_of_memory, heap) else (
        record {
          handle = some (
              new_handle address archive_path target_path false parent.memory_buffer parent.memory);
          is_directory = false;
          vfs_status = status_success;
        },
        heap2,
      )

  -- `lhasa_open`
  unfoldable pub open_path :
      (FilePath → FilePath → Bool)
      → Option (LhasaHandle L.Reader)
      → FilePath
      → Heap
      → Opened L.Reader × Heap
  open_path has_extension none path heap =
      if not (is_lha_file has_extension path)
      then (refused status_path_invalid, heap)
      else (refused status_not_implemented, heap)
  open_path has_extension (some parent) path heap = open_child parent path (acquire heap)

  -- The loops around `lha_reader_read`, until the buffer is full or the file ends.
  unfoldable pub read_loop : ℕ → ℕ → L.Reader → List ℕ × L.Reader
  read_loop zero size r = ([], r)
  read_loop (suc n) size r =
      let (chunk, r') = L.read size r in
      let (more, r'') = read_loop n (size - length chunk) r' in
      if size == 0 then ([], r) else if length chunk == 0 then ([], r') else (chunk ++ more, r'')

  abbrev pub read_done : List ℕ → ReadResult
  read_done bytes = record {
    bytes_read = signed 64 (length bytes);
    vfs_status = status_success;
    buffer = bytes;
  }

  -- Reading on from where the reader stands.
  abbrev pub read_on :
      LhasaHandle L.Reader → Option (ℕ × L.Reader) → ℕ → ReadResult × LhasaHandle L.Reader
  read_on h none size = (read_done [], h)
  read_on h (some (a, r)) size =
      let (bytes, r') = read_loop (size + 1) size r in
      (read_done bytes, record h { reader = some (a, r') })

  abbrev pub read_from : LhasaHandle L.Reader → ℕ → Heap → ReadResult × LhasaHandle L.Reader × Heap
  read_from h size heap = let (result, h') = read_on h h.reader size in (result, h', heap)

  abbrev pub position :
      ℕ → Option Header × LhasaHandle L.Reader × Heap → ReadResult × LhasaHandle L.Reader × Heap
  position size (none, h, heap) = (read_failed status_file_not_found, h, heap)
  position size (some header, h, heap) = read_from (record h { positioned = true }) size heap

  -- `lhasa_read_next`
  unfoldable pub read_next :
      LhasaHandle L.Reader → ℕ → Heap → ReadResult × LhasaHandle L.Reader × Heap
  read_next h size heap =
      if h.positioned
      then read_from h size heap
      else position size (find_lha_entry L h h.target_path.bytes heap)

  -- The end of `lhasa_read`, once the named entry was looked for.
  abbrev pub read_found :
      ℕ → Option Header × LhasaHandle L.Reader × Heap → ReadResult × LhasaHandle L.Reader × Heap
  read_found size (none, h, heap) = (read_failed status_file_not_found, h, heap)
  read_found size (some header, h, heap) =
      if ltb size header.length
      then (read_failed status_generic_error, h, heap)
      else read_from h size heap

  -- `lhasa_read`, of a handle that is not null.
  unfoldable pub read :
      LhasaHandle L.Reader → FilePath → ℤ → Heap → ReadResult × LhasaHandle L.Reader × Heap
  read h path size heap =
      let target = resolve_target_path h path in
      if length target == 0
      then (read_failed status_path_invalid, h, heap)
      else if is_negative size
      then (read_failed status_generic_error, h, heap)
      else if length path == 0
      then read_next h (size_of size) heap
      else read_found (size_of size)
          (find_lha_entry L (record h { positioned = false }) target heap)

  -- The reader of its own on which `lhasa_get_size` searches.
  abbrev pub probe_of : LhasaHandle L.Reader → LhasaHandle L.Reader
  probe_of h = new_handle 0 empty_text empty_text false h.memory_buffer h.memory

  abbrev pub size_found : Option Header → SizeResult
  size_found none = no_size status_file_not_found
  size_found (some header) =
      let size = signed 64 header.length in
      if is_negative size
      then no_size status_file_not_found
      else record { size = size; vfs_status = status_success }

  -- `lhasa_get_size`, of a handle that is not null.
  unfoldable pub get_size : LhasaHandle L.Reader → FilePath → Heap → SizeResult × Heap
  get_size h path heap =
      let target = resolve_target_path h path in
      let (found, probe, heap') = find_lha_entry L (probe_of h) target heap in
      let (probe', heap'') = free_reader L probe heap' in
      if length target == 0 then (no_size status_path_invalid, heap) else (size_found found, heap'')

  abbrev pub cached_entries : LhasaHandle L.Reader → List CachedEntry
  cached_entries h = elim h.cache [ none ↦ [] | some (a, entries) ↦ entries ]

  -- `lhasa_list_directory`
  unfoldable pub list_directory :
      {S : Type 0}
      → (Entry → S → Bool × S)
      → LhasaHandle L.Reader
      → FilePath
      → S
      → Heap
      → S × LhasaHandle L.Reader × Heap
  list_directory callback h path s heap =
      let (h', heap') = build_entry_cache L h heap in
      if not h.is_directory
      then (s, h, heap)
      else (list_children callback (cached_entries h') path s, h', heap')

  -- The end of `lhasa_clone` and of `lhasa_open_memory`, which takes the buffer over.
  abbrev pub opened_root : Bool → Bool × LhasaHandle L.Reader × Heap → Opened L.Reader × Heap
  opened_root owns (ok, h, heap) =
      if not ok then (refused status_archive_error, close h heap) else (
        record {
          handle = some (record h { owns_memory = owns });
          is_directory = true;
          vfs_status = status_success;
        },
        heap,
      )

  abbrev pub open_root : Bool → FilePath → ℕ → List ℕ → ℕ × Heap → Opened L.Reader × Heap
  open_root owns original_path buffer memory (address, heap) =
      let (archive_path, heap') = copy_text original_path heap in
      if address == 0
      then (refused status_out_of_memory, heap)
      else opened_root owns
          (open_from_memory L (new_handle address archive_path empty_text true buffer memory) heap')

  -- `lhasa_clone`
  unfoldable pub clone : LhasaHandle L.Reader → Heap → Opened L.Reader × Heap
  clone source heap =
      if source.memory_buffer == 0
      then (refused status_invalid_handle, heap)
      else open_root false source.archive_path.bytes source.memory_buffer source.memory
          (acquire heap)

  -- `lhasa_open_memory`, of a buffer at an address.
  unfoldable pub open_memory : ℕ → List ℕ → FilePath → Heap → Opened L.Reader × Heap
  open_memory buffer memory original_path heap =
      if (buffer == 0) || (length memory == 0)
      then (refused status_path_invalid, heap)
      else if not (is_lha_archive_data memory)
      then (refused status_archive_error, heap)
      else open_root true original_path buffer memory (acquire heap)
