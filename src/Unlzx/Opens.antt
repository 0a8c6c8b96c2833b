-- ===== src/Unlzx/Opens.antt =====
-- Opens and clones of the LZX driver (src/vfs/drivers/unlzx.c), and its instance.
use flowi_vfs.Common.{
  ℕ, Bool, true, false, not, ◌&&◌, ◌||◌, List, [], ◌∷◌, Option, none, some, ◌==◌, ltb,
  if◌then◌else◌, length,
}
use flowi_vfs.Drivers.{FilePath}
use flowi_vfs.Drivers.Results.{
  status_success, status_not_implemented, status_invalid_handle, status_path_invalid,
  status_out_of_memory, status_archive_error,
}
use flowi_vfs.Heap.{Heap, Text, empty_text, acquire, release, copy_text}
use flowi_vfs.Lhasa.{byte_is}
use flowi_vfs.Unlzx.{LzxLibrary, UnlzxHandle, LzxHandle, lzx_has_archive, vfs_close}

-- `is_lzx_file`
abbrev pub is_lzx_file : (FilePath → FilePath → Bool) → FilePath → Bool
is_lzx_file has_extension path = has_extension path (108 ∷ 122 ∷ 120 ∷ [])

-- `is_lzx_archive_data`: `LZX` in front.
unfoldable pub is_lzx_archive_data : List ℕ → Bool
is_lzx_archive_data bytes =
    if ltb (length bytes) 10
    then false
    else byte_is 0 76 bytes && (byte_is 1 90 bytes && byte_is 2 88 bytes)

-- What opens give: the handle, or null and why.
pub record LzxOpened (A S : Type 0) : Type 0 where
  pub handle : Option (UnlzxHandle A S)
  pub is_directory : Bool
  pub vfs_status : ℕ

-- `unlzx_create`: the instance, or none where the code writes through null.
unfoldable pub lzx_create : Heap → Option ℕ × Heap
lzx_create heap =
    let (instance_, heap') = acquire heap in
    (if instance_ == 0 then none else some instance_, heap')

-- `unlzx_destroy`
abbrev pub lzx_destroy : ℕ → Heap → Heap
lzx_destroy instance_ heap = release instance_ heap

module _ (L : LzxLibrary) where
  abbrev lzx_refused : ℕ → LzxOpened L.Archive L.Stream
  lzx_refused status = record { handle = none; is_directory = false; vfs_status = status }

  abbrev pub lzx_child : LzxHandle L → ℕ → Text → Text → LzxHandle L
  lzx_child parent address archive_path target_path = record {
    address = address;
    archive_path = archive_path;
    target_path = target_path;
    is_directory = false;
    memory_buffer = parent.memory_buffer;
    memory = parent.memory;
    owns_memory = false;
    owns_archive = false;
    archive = parent.archive;
    cache = none;
    stream = none;
  }

  abbrev pub lzx_open_child :
      LzxHandle L → FilePath → ℕ × Heap → LzxOpened L.Archive L.Stream × Heap
  lzx_open_child parent path (address, heap) =
      let (archive_path, heap1) = copy_text parent.archive_path.bytes heap in
      let (target_path, heap2) = copy_text path heap1 in
      if address == 0 then (lzx_refused status_out_of_memory, heap) else (
        record {
          handle = some (lzx_child parent address archive_path target_path);
          is_directory = false;
          vfs_status = status_success;
        },
        heap2,
      )

  -- `unlzx_open`; a null parent is none.
  unfoldable pub lzx_open :
      (FilePath → FilePath → Bool)
      → Option (LzxHandle L)
      → FilePath
      → Heap
      → LzxOpened L.Archive L.Stream × Heap
  lzx_open has_extension none path heap =
      if not (is_lzx_file has_extension path)
      then (lzx_refused status_path_invalid, heap)
      else (lzx_refused status_not_implemented, heap)
  lzx_open has_extension (some parent) path heap = lzx_open_child parent path (acquire heap)

  abbrev pub lzx_allocated : L.Archive → ℕ × Heap → Option (ℕ × L.Archive) × Heap
  lzx_allocated archive (a, heap) = if a == 0 then (none, heap) else (some (a, archive), heap)

  -- `unlzx_open_memory`: null if the data is no archive or the allocator refuses.
  unfoldable pub lzx_open_archive : List ℕ → Heap → Option (ℕ × L.Archive) × Heap
  lzx_open_archive memory heap = elim (L.open_memory memory) [
    | none ↦ (none, heap)
    | some archive ↦ lzx_allocated archive (acquire heap)
  ]

  abbrev pub lzx_root : ℕ → Text → ℕ → List ℕ → Option (ℕ × L.Archive) → LzxHandle L
  lzx_root address archive_path buffer memory archive = record {
    address = address;
    archive_path = archive_path;
    target_path = empty_text;
    is_directory = true;
    memory_buffer = buffer;
    memory = memory;
    owns_memory = false;
    owns_archive = true;
    archive = archive;
    cache = none;
    stream = none;
  }

  -- The end of `unlzx_clone` and of `unlzx_vfs_open_memory`, which takes the buffer over.
  abbrev pub lzx_opened_root : Bool → LzxHandle L → Heap → LzxOpened L.Archive L.Stream × Heap
  lzx_opened_root owned h heap =
      if not (lzx_has_archive L h)
      then (lzx_refused status_archive_error, vfs_close L h heap)
      else (
        record {
          handle = some (record h { owns_memory = owned });
          is_directory = true;
          vfs_status = status_success;
        },
        heap,
      )

  abbrev pub lzx_open_root :
      Bool → FilePath → ℕ → List ℕ → ℕ × Heap → LzxOpened L.Archive L.Stream × Heap
  lzx_open_root owned original_path buffer memory (address, heap) =
      let (archive_path, heap1) = copy_text original_path heap in
      let (archive, heap2) = lzx_open_archive memory heap1 in
      if address == 0
      then (lzx_refused status_out_of_memory, heap)
      else lzx_opened_root owned (lzx_root address archive_path buffer memory archive) heap2

  -- `unlzx_clone`, of a handle that is not null.
  unfoldable pub lzx_clone : LzxHandle L → Heap → LzxOpened L.Archive L.Stream × Heap
  lzx_clone source heap =
      if source.memory_buffer == 0
      then (lzx_refused status_invalid_handle, heap)
      else lzx_open_root false source.archive_path.bytes source.memory_buffer source.memory
          (acquire heap)

  -- `unlzx_vfs_open_memory`, of a buffer at an address.
  unfoldable pub vfs_open_memory :
      ℕ → List ℕ → FilePath → Heap → LzxOpened L.Archive L.Stream × Heap
  vfs_open_memory buffer memory original_path heap =
      if (buffer == 0) || (length memory == 0)
      then (lzx_refused status_path_invalid, heap)
      else if not (is_lzx_archive_data memory)
      then (lzx_refused status_archive_error, heap)
      else lzx_open_root true original_path buffer memory (acquire heap)
