-- ===== src/LibArchive/Balance.antt =====
-- Each driver function of src/vfs/drivers/libarchive.c keeps account of what it allocates.
use flowi_vfs.Common.{
  ℕ, ◌+◌, ◌≡◌, refl, Bool, true, false, List, [], Option, none, some, ◌==◌, if◌then◌else◌, arith, ℤ,
  inl, inr, Bool-cases, Option-cases,
}
use flowi_vfs.Drivers.{FilePath}
use flowi_vfs.Drivers.Results.{status_archive_error}
use flowi_vfs.Heap.{Heap, Text, acquire, copy_text}
use flowi_vfs.Heap.Moves.{
  Moves, holds_one, nothing, holds_option, acquire-Moves, release-Moves, copy_text-Moves,
}
use flowi_vfs.Heap.Sessions.{owns_opened, gives, gives-nothing}
use flowi_vfs.LibArchive.{
  ArchiveResult, ArchiveLibrary, LaHandle, archive_read_new, open_archive_reader,
  errno_to_vfs_status, la_has_cache, la_cache_on, la_build_entry_cache,
}
use flowi_vfs.LibArchive.Names.{PathText, is_single_file_compression, get_decompressed_filename}
use flowi_vfs.LibArchive.Opens.{
  la_root, own_name, la_open_root, open_file, la_open, clone_memory, reopened, la_clone,
  la_open_memory,
}
use flowi_vfs.LibArchive.Reading.{
  read_ready, read_apart, read_either, to_size_t, la_target_path, la_read, size_apart, la_get_size,
}
use flowi_vfs.LibArchive.Ownership.{
  la_owns, Unopened, open_archive_reader-Moves, open_in_archive-Moves, reopened-Moves,
  open_validated-Moves,
}

-- The name that a root owns.
abbrev owns_name : Text × Bool → ℕ → ℕ
owns_name (name, owned) a = if owned then holds_one name.address a else 0

la_root-owns :
    (L : ArchiveLibrary) (address : ℕ) (archive_path : Text) (raw : Bool) (name : Text × Bool)
    (buffer : ℕ) (memory : List ℕ) (a : ℕ)
    → la_owns (la_root L address archive_path raw name buffer memory) a
      ≡ holds_one address a
        + holds_one archive_path.address a
        + owns_name name a
        + (if 0 == a then 1 else 0)
unfolding la_owns
la_root-owns L address archive_path raw name buffer memory a = omega arith

module _ (L : ArchiveLibrary) where
  module _ (X : PathText) where
    own_name-Moves :
        (raw : Bool) (path : FilePath) (heap : Heap)
        → let r = own_name L X raw path heap in Moves heap r.1 nothing (owns_name r.0)
    unfolding own_name
    own_name-Moves raw path heap a ne =
        let name = get_decompressed_filename X path in
        ground (arith, copy_text-Moves name heap a ne)

    la_open_root-Moves :
        (owned : Bool) (failed : ArchiveResult → ℕ) (path : FilePath) (buffer : ℕ) (memory : List ℕ)
        (heap : Heap)
        → let r = la_open_root L X owned failed path buffer memory (acquire heap) in
          Moves heap r.1 (gives owned buffer r.0.handle) (owns_opened la_owns r.0.handle)
    la_open_root-Moves owned failed path buffer memory heap a ne =
        let raw = is_single_file_compression X path in
        let (address, heap1) = acquire heap in
        let (archive_path, heap2) = copy_text path heap1 in
        let (name, heap3) = own_name L X raw path heap2 in
        let h = la_root L address archive_path raw name buffer memory in
        let bare : Unopened L buffer h = record { closed = refl; lent = refl; same = refl } in
        ground (
          arith,
          acquire-Moves heap a ne,
          copy_text-Moves path heap1 a ne,
          own_name-Moves raw path heap2 a ne,
          la_root-owns L address archive_path raw name buffer memory a,
          open_validated-Moves L owned failed buffer h heap3 bare a ne,
        )

    open_file-Moves :
        (path : FilePath) (heap : Heap)
        → let r = open_file L X path heap in Moves heap r.1 nothing (owns_opened la_owns r.0.handle)
    unfolding open_file
    open_file-Moves path heap a ne =
        let r = la_open_root L X false errno_to_vfs_status path 0 [] (acquire heap) in
        let kept = gives-nothing 0 r.0.handle a in
        ground (arith, kept, la_open_root-Moves false errno_to_vfs_status path 0 [] heap a ne)

    pub la_open-Moves :
        (parent : Option (LaHandle L)) (path : FilePath) (heap : Heap)
        → let r = la_open L X parent path heap in
          Moves heap r.1 nothing (owns_opened la_owns r.0.handle)
    unfolding la_open
    la_open-Moves none path heap = open_file-Moves path heap
    la_open-Moves (some parent) path heap = open_in_archive-Moves L parent path heap

    clone_memory-Moves :
        (source : LaHandle L) (heap : Heap)
        → let r = clone_memory L X source (acquire heap) in
          Moves heap r.1 nothing (owns_opened la_owns r.0.handle)
    clone_memory-Moves source heap a ne =
        let (address, heap1) = acquire heap in
        let (archive_path, heap2) = copy_text source.archive_path.bytes heap1 in
        let raw = source.is_raw_compression in
        let buffer = source.memory_buffer in
        let name : Text × Bool = (source.decompressed_name, false) in
        let h = la_root L address archive_path raw name buffer source.memory in
        let bare : Unopened L buffer h = record { closed = refl; lent = refl; same = refl } in
        let r = reopened L false h (archive_read_new heap2) in
        ground (
          arith,
          acquire-Moves heap a ne,
          copy_text-Moves source.archive_path.bytes heap1 a ne,
          la_root-owns L address archive_path raw name buffer source.memory a,
          gives-nothing buffer r.0.handle a,
          reopened-Moves L false buffer h heap2 bare a ne,
        )

    pub la_clone-Moves :
        (source : LaHandle L) (heap : Heap)
        → let r = la_clone L X source heap in
          Moves heap r.1 nothing (owns_opened la_owns r.0.handle)
    unfolding la_clone
    la_clone-Moves source heap a ne = ground (
      arith,
      clone_memory-Moves source heap a ne,
      open_file-Moves source.archive_path.bytes heap a ne,
    )

    pub la_open_memory-Moves :
        (buffer : ℕ) (memory : List ℕ) (path : FilePath) (heap : Heap)
        → let r = la_open_memory L X buffer memory path heap in
          Moves heap r.1 (gives true buffer r.0.handle) (owns_opened la_owns r.0.handle)
    unfolding la_open_memory
    la_open_memory-Moves buffer memory path heap a ne =
        ground
          (arith, la_open_root-Moves true (λ r. status_archive_error) path buffer memory heap a ne)

  cache_on-Moves :
      (h : LaHandle L) (o : Option (ℕ × L.Reader)) (heap : Heap)
      → h.archive ≡ o
      → la_has_cache L h ≡ false
      → let r = la_cache_on L h o (acquire heap) in Moves heap r.1 (la_owns h) (la_owns r.0)
  unfolding la_owns
  cache_on-Moves h none heap e fresh a ne =
      ground (arith, e, fresh, acquire-Moves heap a ne, Option-cases h.cache)
  cache_on-Moves h (some x) heap e fresh a ne =
      ground (arith, e, fresh, acquire-Moves heap a ne, Option-cases h.cache)

  pub la_build_entry_cache-Moves :
      (h : LaHandle L) (heap : Heap)
      → let r = la_build_entry_cache L h heap in Moves heap r.1 (la_owns h) (la_owns r.0)
  unfolding la_build_entry_cache
  la_build_entry_cache-Moves h heap a ne = elim (Bool-cases (la_has_cache L h)) [
    | inl cached ↦ ground (arith, cached)
    | inr fresh ↦ ground (arith, fresh, cache_on-Moves h h.archive heap refl fresh a ne)
  ]

  read_apart-Moves :
      (h : LaHandle L) (target : FilePath) (size : ℕ) (o : Option (ℕ × L.Reader)) (heap : Heap)
      → Moves heap (read_apart L h target size (o, heap)).1 (holds_option o) nothing
  read_apart-Moves h target size none heap a ne = omega arith
  read_apart-Moves h target size (some (x, reader)) heap a ne = release-Moves x heap a ne

  read_ready-owns :
      (h : LaHandle L) (x : ℕ × L.Reader) (size a : ℕ)
      → h.archive ≡ some x
      → la_owns (read_ready L h x size).1 a ≡ la_owns h a
  unfolding la_owns
  read_ready-owns h x size a e = ground (arith, e)

  read_either-Moves :
      (h : LaHandle L) (target : FilePath) (size : ℕ) (o : Option (ℕ × L.Reader)) (heap : Heap)
      → h.archive ≡ o
      → let r = read_either L h target size o heap in Moves heap r.2 (la_owns h) (la_owns r.1)
  read_either-Moves h target size none heap e a ne =
      let s = open_archive_reader L h heap in
      omega (
        arith,
        open_archive_reader-Moves L h heap a ne,
        read_apart-Moves h target size s.0 s.1 a ne,
      )
  read_either-Moves h target size (some x) heap e a ne =
      let s = open_archive_reader L h heap in
      ground (
        arith,
        read_ready-owns h x size a e,
        open_archive_reader-Moves L h heap a ne,
        read_apart-Moves h target size s.0 s.1 a ne,
      )

  pub la_read-Moves :
      (h : LaHandle L) (path : FilePath) (size : ℤ) (heap : Heap)
      → let r = la_read L h path size heap in Moves heap r.2 (la_owns h) (la_owns r.1)
  unfolding la_read
  la_read-Moves h path size heap a ne =
      let target = la_target_path h path in
      ground (arith, read_either-Moves h target (to_size_t size) h.archive heap refl a ne)

  size_apart-Moves :
      (h : LaHandle L) (target : FilePath) (o : Option (ℕ × L.Reader)) (heap : Heap)
      → Moves heap (size_apart L h target (o, heap)).1 (holds_option o) nothing
  size_apart-Moves h target none heap a ne = omega arith
  size_apart-Moves h target (some (x, reader)) heap a ne = release-Moves x heap a ne

  pub la_get_size-Moves :
      (h : LaHandle L) (path : FilePath) (heap : Heap)
      → Moves heap (la_get_size L h path heap).1 nothing nothing
  unfolding la_get_size
  la_get_size-Moves h path heap a ne =
      let target = la_target_path h path in
      let s = open_archive_reader L h heap in
      ground
        (arith, open_archive_reader-Moves L h heap a ne, size_apart-Moves h target s.0 s.1 a ne)
