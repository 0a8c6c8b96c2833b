-- ===== src/Unlzx.antt =====
-- The LZX driver of src/vfs/drivers/unlzx.c: its handle, the cache of entries, opens and closes. The unlzx
-- library is a parameter.
pub mod Opens
pub mod Reading
pub mod Ownership
pub mod Sessions
pub mod Kept
pub mod Separate
pub mod Streams
pub mod Delivery
use flowi_vfs.Common.{
  ℕ, zero, suc, Bool, true, false, not, ◌||◌, ◌⊎◌, List, [], ◌∷◌, Option, none, some, ◌==◌,
  if◌then◌else◌, signed,
}
use flowi_vfs.Drivers.{FilePath}
use flowi_vfs.Handles.{Entry}
use flowi_vfs.Heap.{Heap, Text, acquire, release, free_option}
use flowi_vfs.Archives.{CachedEntry, list_children}

-- `UnlzxEntry`, the fields that are read.
pub record LzxEntry : Type 0 where
  pub filename : Option FilePath
  pub unpack_size : ℕ

-- `UNLZX_OK` and `UNLZX_ERR_OUT_OF_MEMORY`
abbrev pub lzx_ok : ℕ
lzx_ok = 0

abbrev pub lzx_out_of_memory : ℕ
lzx_out_of_memory = 4

-- The functions of the unlzx library on archives in memory, without their allocations.
pub record LzxLibrary : Type 1 where
  pub Archive : Type 0
  pub Stream : Type 0
  pub open_memory : List ℕ → Option Archive
  pub get_entry_count : Archive → ℕ
  pub get_entry : Archive → ℕ → Option LzxEntry
  pub find_entry : Archive → FilePath → Option LzxEntry
  -- The error, and the bytes that were written.
  pub extract_entry : Archive → LzxEntry → ℕ → ℕ × List ℕ
  -- A stream, or the error.
  pub stream_open : Archive → LzxEntry → Stream ⊎ ℕ
  pub stream_read : Stream → ℕ → ℕ × List ℕ × Stream

-- `UnlzxHandle`; what `memory_buffer` points to is `memory`. An archive, a stream and a cache come with
-- their addresses.
pub record UnlzxHandle (A S : Type 0) : Type 0 where
  pub address : ℕ
  pub archive_path : Text
  pub target_path : Text
  pub is_directory : Bool
  pub memory_buffer : ℕ
  pub memory : List ℕ
  pub owns_memory : Bool
  pub owns_archive : Bool
  pub archive : Option (ℕ × A)
  pub cache : Option (ℕ × List CachedEntry)
  pub stream : Option (ℕ × S)

module _ (L : LzxLibrary) where
  abbrev pub LzxHandle : Type 0
  LzxHandle = UnlzxHandle L.Archive L.Stream

  abbrev pub lzx_entry : Option LzxEntry → List CachedEntry → List CachedEntry
  lzx_entry none rest = rest
  lzx_entry (some e) rest = elim e.filename [
    | none ↦ rest
    | some name ↦
        record { path = name; size = signed 64 e.unpack_size; is_directory = e.unpack_size == 0 }
        ∷ rest
  ]

  -- The loop of `build_entry_cache`, for the entries `i`, `i + 1` and so on.
  unfoldable pub lzx_cache_loop : ℕ → ℕ → L.Archive → List CachedEntry
  lzx_cache_loop i zero archive = []
  lzx_cache_loop i (suc n) archive =
      lzx_entry (L.get_entry archive i) (lzx_cache_loop (suc i) n archive)

  abbrev pub lzx_has_cache : LzxHandle → Bool
  lzx_has_cache h = elim h.cache [ none ↦ false | some (arena, entries) ↦ not (arena == 0) ]

  abbrev pub lzx_cache_on : LzxHandle → Option (ℕ × L.Archive) → ℕ × Heap → LzxHandle × Heap
  lzx_cache_on h none (arena, heap) = (h, heap)
  lzx_cache_on h (some (a, archive)) (arena, heap) = (
    record h { cache = some (arena, lzx_cache_loop 0 (L.get_entry_count archive) archive) },
    heap,
  )

  abbrev pub lzx_has_archive : LzxHandle → Bool
  lzx_has_archive h = elim h.archive [ none ↦ false | some x ↦ true ]

  -- `build_entry_cache`
  unfoldable pub lzx_build_entry_cache : LzxHandle → Heap → LzxHandle × Heap
  lzx_build_entry_cache h heap =
      if lzx_has_cache h || not (lzx_has_archive h)
      then (h, heap)
      else lzx_cache_on h h.archive (acquire heap)

  -- `unlzx_vfs_close`: the archive only if it is the handle's own.
  unfoldable pub vfs_close : LzxHandle → Heap → Heap
  vfs_close h heap =
      let heap1 = if h.owns_archive then free_option h.archive heap else heap in
      let heap2 = free_option h.stream (free_option h.cache heap1) in
      let heap3 = release h.archive_path.address (release h.target_path.address heap2) in
      release h.address (release (if h.owns_memory then h.memory_buffer else 0) heap3)

  abbrev pub lzx_cached_entries : LzxHandle → List CachedEntry
  lzx_cached_entries h = elim h.cache [ none ↦ [] | some (a, entries) ↦ entries ]

  -- `unlzx_list_directory`, of a handle that is not null.
  unfoldable pub lzx_list_directory :
      {T : Type 0} → (Entry → T → Bool × T) → LzxHandle → FilePath → T → Heap → T × LzxHandle × Heap
  lzx_list_directory callback h path t heap =
      let (h', heap') = lzx_build_entry_cache h heap in
      if not h.is_directory
      then (t, h, heap)
      else (list_children callback (lzx_cached_entries h') path t, h', heap')
