-- ===== src/Lhasa.antt =====
-- The LHA driver of src/vfs/drivers/lhasa.c: its memory stream, its handle, the search for an entry and the
-- cache of entries. The lhasa library is a parameter.
pub mod Stream
pub mod Entries
pub mod Operations
use flowi_vfs.Common.{
  ℕ, zero, suc, ◌+◌, ◌-◌, Bool, true, false, not, ◌&&◌, ◌||◌, List, [], ◌∷◌, ◌++◌, Option, none,
  some, ◌==◌, ltb, leb, if◌then◌else◌, ℤ, pos, signed, length, take, drop, min,
}
use flowi_vfs.Drivers.{FilePath}
use flowi_vfs.Tree.{string_equals}
use flowi_vfs.Heap.{Heap, Text, acquire, release, free_option}
use flowi_vfs.Archives.{CachedEntry, entry_path_matches, slash_at}

-- `LhasaMemoryStream`
pub record MemoryStream : Type 0 where
  pub bytes : List ℕ
  pub pos : ℕ

-- `lhasa_mem_read`: what it returns, the bytes in the buffer, the stream.
unfoldable pub mem_read : MemoryStream → ℕ → ℤ × List ℕ × MemoryStream
mem_read s buf_len =
    let to_read = min buf_len (length s.bytes - s.pos) in
    (signed 32 to_read, take to_read (drop s.pos s.bytes), record s { pos = s.pos + to_read })

-- `lhasa_mem_skip`
unfoldable pub mem_skip : MemoryStream → ℕ → ℕ × MemoryStream
mem_skip s n =
    let to_skip = min n (length s.bytes - s.pos) in
    (if to_skip == n then 1 else 0, record s { pos = s.pos + to_skip })

-- `data[i] == c`; false out of range, where the code does not look.
unfoldable pub byte_is : ℕ → ℕ → List ℕ → Bool
byte_is i c [] = false
byte_is zero c (d ∷ ds) = d == c
byte_is (suc i) c (d ∷ ds) = byte_is i c ds

-- `is_lha_archive_data`: `-lh` or `-lz` at offset 2, and a `-` at offset 6.
unfoldable pub is_lha_archive_data : List ℕ → Bool
is_lha_archive_data bytes =
    if ltb (length bytes) 7
    then false
    else byte_is 2 45 bytes
      && (byte_is 3 108 bytes
          && ((byte_is 4 104 bytes || byte_is 4 122 bytes) && byte_is 6 45 bytes))

-- `LHAFileHeader`, the fields that are read.
pub record Header : Type 0 where
  pub path : Option FilePath
  pub filename : Option FilePath
  pub length : ℕ
  pub compress_method : List ℕ

abbrev pub or_empty : Option FilePath → FilePath
or_empty none = []
or_empty (some s) = s

-- One slash at the end goes.
unfoldable pub strip_slash : FilePath → FilePath
strip_slash s = if slash_at (length s - 1) s then take (length s - 1) s else s

-- `build_full_path` into a buffer of the given size; the empty path stands for length 0.
unfoldable pub build_full_path : ℕ → Header → FilePath
build_full_path dest_size header =
    let full = or_empty header.path ++ or_empty header.filename in
    if leb dest_size (length full) || (length full == 0) then [] else strip_slash full

-- The functions of the lhasa library, on readers in memory. `left` bounds the files that are left.
pub record LhaLibrary : Type 1 where
  pub Reader : Type 0
  pub start : List ℕ → Reader
  pub next_file : Reader → Option (Header × Reader)
  pub current_is_fake : Reader → Bool
  -- At most so many bytes of the current file, and none at its end.
  pub read : ℕ → Reader → List ℕ × Reader
  pub left : Reader → ℕ

-- `LhasaHandle`; `memory` is what the buffer holds, and its length is `memory_size`. A reader and a
-- cache come with their addresses.
pub record LhasaHandle (R : Type 0) : Type 0 where
  pub address : ℕ
  pub archive_path : Text
  pub target_path : Text
  pub is_directory : Bool
  pub memory_buffer : ℕ
  pub memory : List ℕ
  pub owns_memory : Bool
  pub mem_stream : ℕ
  pub stream : ℕ
  pub reader : Option (ℕ × R)
  pub cache : Option (ℕ × List CachedEntry)
  pub positioned : Bool

module _ (L : LhaLibrary) where
  abbrev pub no_memory : LhasaHandle L.Reader → Bool
  no_memory h = (h.memory_buffer == 0) || (length h.memory == 0)

  -- `lhasa_open_from_memory`, from the second allocation and from the third.
  abbrev pub open_reader :
      LhasaHandle L.Reader → ℕ → ℕ → ℕ × Heap → Bool × LhasaHandle L.Reader × Heap
  open_reader h mem input (reader, heap) =
      if reader == 0 then (false, h, release mem (release input heap)) else (
        true,
        record h { mem_stream = mem; stream = input; reader = some (reader, L.start h.memory) },
        heap,
      )

  abbrev pub open_input : LhasaHandle L.Reader → ℕ → ℕ × Heap → Bool × LhasaHandle L.Reader × Heap
  open_input h mem (input, heap) =
      if input == 0 then (false, h, release mem heap) else open_reader h mem input (acquire heap)

  abbrev pub open_stream : LhasaHandle L.Reader → ℕ × Heap → Bool × LhasaHandle L.Reader × Heap
  open_stream h (mem, heap) = if mem == 0 then (false, h, heap) else open_input h mem (acquire heap)

  -- `lhasa_open_from_memory`
  unfoldable pub open_from_memory : LhasaHandle L.Reader → Heap → Bool × LhasaHandle L.Reader × Heap
  open_from_memory h heap = if no_memory h then (false, h, heap) else open_stream h (acquire heap)

  -- `lhasa_free_reader`
  unfoldable pub free_reader : LhasaHandle L.Reader → Heap → LhasaHandle L.Reader × Heap
  free_reader h heap = (
    record h { reader = none; stream = 0; mem_stream = 0 },
    release h.mem_stream (release h.stream (free_option h.reader heap)),
  )

  -- `lhasa_reset_reader`
  unfoldable pub reset_reader : LhasaHandle L.Reader → Heap → Bool × LhasaHandle L.Reader × Heap
  reset_reader h heap =
      if no_memory h
      then (false, h, heap)
      else (let (h', heap') = free_reader h heap in open_from_memory h' heap')

  abbrev pub max_path : ℕ
  max_path = 1024

  -- The loop of `find_lha_entry`, on as many rounds as there can be files.
  unfoldable pub find_loop : ℕ → FilePath → L.Reader → Option Header × L.Reader
  find_loop zero target r = (none, r)
  find_loop (suc n) target r = elim (L.next_file r) [
    | none ↦ (none, r)
    | some (header, r') ↦
        let rest = find_loop n target r' in
        let full_path = build_full_path max_path header in
        if length full_path == 0
        then rest
        else if entry_path_matches full_path target
        then (some header, r')
        else rest
  ]

  abbrev pub with_reader :
      LhasaHandle L.Reader → ℕ → Option Header × L.Reader → Option Header × LhasaHandle L.Reader
  with_reader h a (found, r) = (found, record h { reader = some (a, r) })

  abbrev pub find_on :
      LhasaHandle L.Reader → Option (ℕ × L.Reader) → FilePath → Option Header × LhasaHandle L.Reader
  find_on h none target = (none, h)
  find_on h (some (a, r)) target = with_reader h a (find_loop (L.left r + 1) target r)

  -- `find_lha_entry`
  unfoldable pub find_lha_entry :
      LhasaHandle L.Reader → FilePath → Heap → Option Header × LhasaHandle L.Reader × Heap
  find_lha_entry h target heap =
      let (ok, h', heap') = reset_reader h heap in
      let (found, h'') = find_on h' h'.reader target in
      if no_memory h
      then (none, h, heap)
      else if not ok
      then (none, h', heap')
      else (found, h'', heap')

  -- `-lh0-`
  abbrev stored : List ℕ
  stored = 45 ∷ 108 ∷ 104 ∷ 48 ∷ 45 ∷ []

  abbrev cached_entry : FilePath → Header → CachedEntry
  cached_entry full_path header = record {
    path = full_path;
    size = signed 64 header.length;
    is_directory = (header.length == 0) && string_equals header.compress_method stored;
  }

  -- The loop of `build_entry_cache`.
  unfoldable pub cache_loop : ℕ → L.Reader → List CachedEntry × L.Reader
  cache_loop zero r = ([], r)
  cache_loop (suc n) r = elim (L.next_file r) [
    | none ↦ ([], r)
    | some (header, r') ↦
        let (entries, r'') = cache_loop n r' in
        let full_path = build_full_path max_path header in
        if L.current_is_fake r' || (length full_path == 0)
        then (entries, r'')
        else (cached_entry full_path header ∷ entries, r'')
  ]

  abbrev pub cache_on :
      LhasaHandle L.Reader → Option (ℕ × L.Reader) → ℕ × Heap → LhasaHandle L.Reader × Heap
  cache_on h none (arena, heap) = (record h { cache = some (arena, []) }, heap)
  cache_on h (some (a, r)) (arena, heap) =
      let (entries, r') = cache_loop (L.left r + 1) r in
      (record h { reader = some (a, r'); cache = some (arena, entries) }, heap)

  abbrev pub has_cache : LhasaHandle L.Reader → Bool
  has_cache h = elim h.cache [ none ↦ false | some (arena, entries) ↦ not (arena == 0) ]

  -- `build_entry_cache`
  unfoldable pub build_entry_cache : LhasaHandle L.Reader → Heap → LhasaHandle L.Reader × Heap
  build_entry_cache h heap =
      let (ok, h', heap') = reset_reader h heap in
      if has_cache h || (h.memory_buffer == 0)
      then (h, heap)
      else if not ok
      then (h', heap')
      else cache_on h' h'.reader (acquire heap')
