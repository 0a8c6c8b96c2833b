-- ===== src/LibArchive/Ownership.antt =====
-- What a handle of the archive driver (src/vfs/drivers/libarchive.c) owns, and that opens and closes keep
-- account of it.
use flowi_vfs.Common.{ℕ, ◌+◌, ◌≡◌, refl, Bool, false, Option, none, some, if◌then◌else◌, arith}
use flowi_vfs.Drivers.{FilePath}
use flowi_vfs.Heap.{Heap, acquire, release, free_option, copy_text}
use flowi_vfs.Heap.Moves.{
  Moves, count, holds_one, nothing, holds_option, acquire-Moves, release-Moves, copy_text-Moves,
  free_option-Moves,
}
use flowi_vfs.Heap.Sessions.{owns_opened, gives}
use flowi_vfs.LibArchive.{
  ArchiveResult, ArchiveEntry, ArchiveLibrary, LibArchiveHandle, LaHandle, archive_read_new,
  open_source, opened_reader, open_archive_reader, locate, la_close,
}
use flowi_vfs.LibArchive.Opens.{
  sought, seek_in, own_reader, seek_to_entry, la_child, opened_child, open_in_archive, la_opened,
  reopened, validated, open_validated,
}

-- All that a handle owns: the buffer and the name of the only entry if they are its own.
unfoldable pub la_owns : {R : Type 0} → LibArchiveHandle R → ℕ → ℕ
la_owns h a =
    holds_one h.address a
    + holds_one h.archive_path.address a
    + holds_one h.target_path.address a
    + holds_option h.archive a
    + (if h.owns_decompressed_name then holds_one h.decompressed_name.address a else 0)
    + (if h.owns_memory then holds_one h.memory_buffer a else 0)
    + holds_option h.cache a

archive_read_new-Moves :
    (heap : Heap)
    → Moves heap (archive_read_new heap).1 nothing (holds_one (archive_read_new heap).0)
unfolding archive_read_new count
archive_read_new-Moves heap a ne = omega arith

module _ (L : ArchiveLibrary) where
  pub la_close-Moves :
      (h : LaHandle L) (heap : Heap) → Moves heap (la_close L h heap) (la_owns h) nothing
  unfolding la_close la_owns
  la_close-Moves h heap a ne =
      let heap1 = free_option h.archive heap in
      let heap2 = free_option h.cache heap1 in
      let heap3 = release h.target_path.address heap2 in
      let heap4 = release h.archive_path.address heap3 in
      let name : ℕ = if h.owns_decompressed_name then h.decompressed_name.address else 0 in
      let heap5 = release name heap4 in
      let memory : ℕ = if h.owns_memory then h.memory_buffer else 0 in
      ground (
        arith,
        free_option-Moves h.archive heap a ne,
        free_option-Moves h.cache heap1 a ne,
        release-Moves h.target_path.address heap2 a ne,
        release-Moves h.archive_path.address heap3 a ne,
        release-Moves name heap4 a ne,
        release-Moves memory heap5 a ne,
        release-Moves h.address (release memory heap5) a ne,
      )

  opened_reader-Moves :
      (x : ℕ) (heap : Heap) (r : ArchiveResult × L.Reader)
      → let o = opened_reader L (x, heap) r in Moves heap o.1 (holds_one x) (holds_option o.0)
  opened_reader-Moves x heap r a ne = ground (arith, release-Moves x heap a ne)

  pub open_archive_reader-Moves :
      (h : LaHandle L) (heap : Heap)
      → let o = open_archive_reader L h heap in Moves heap o.1 nothing (holds_option o.0)
  unfolding open_archive_reader
  open_archive_reader-Moves h heap a ne =
      let n = archive_read_new heap in
      omega (
        arith,
        archive_read_new-Moves heap a ne,
        opened_reader-Moves n.0 n.1 (open_source L h) a ne,
      )

  -- A search leaves the handle's claims as they are, but for the reader.
  sought-owns :
      (h : LaHandle L) (x : ℕ) (r : Option ArchiveEntry × L.Reader) (a : ℕ)
      → h.archive ≡ none
      → la_owns (sought L h x r).1 a ≡ la_owns h a + holds_one x a
  unfolding la_owns
  sought-owns h x (none, reader) a e = ground (arith, e)
  sought-owns h x (some entry, reader) a e = ground (arith, e)

  seek_in-Moves :
      (h : LaHandle L) (o : Option (ℕ × L.Reader)) (heap : Heap)
      → h.archive ≡ none
      → let r = seek_in L h (o, heap) in
        Moves heap r.2 (λ a. la_owns h a + holds_option o a) (la_owns r.1)
  seek_in-Moves h none heap e a ne = omega arith
  seek_in-Moves h (some (x, reader)) heap e a ne =
      omega (arith, sought-owns h x (locate L h.is_raw_compression h.target_path.bytes reader) a e)

  -- A search on a handle that has no reader yet.
  seek_to_entry-Moves :
      (h : LaHandle L) (heap : Heap)
      → h.archive ≡ none
      → let r = seek_to_entry L h heap in Moves heap r.2 (la_owns h) (la_owns r.1)
  unfolding seek_to_entry
  seek_to_entry-Moves h heap e a ne =
      let o = open_archive_reader L h heap in
      let fresh : own_reader L h h.archive heap ≡ o = rw e refl in
      ground (arith, fresh, open_archive_reader-Moves h heap a ne, seek_in-Moves h o.0 o.1 e a ne)

  opened_child-Moves :
      (status : ℕ) (h : LaHandle L) (heap : Heap)
      → let r = opened_child L (status, h, heap) in
        Moves heap r.1 (la_owns h) (owns_opened la_owns r.0.handle)
  opened_child-Moves status h heap a ne = ground (arith, la_close-Moves h heap a ne)

  pub open_in_archive-Moves :
      (parent : LaHandle L) (path : FilePath) (heap : Heap)
      → let r = open_in_archive L parent path (acquire heap) in
        Moves heap r.1 nothing (owns_opened la_owns r.0.handle)
  open_in_archive-Moves parent path heap a ne =
      let (address, heap1) = acquire heap in
      let (archive_path, heap2) = copy_text parent.archive_path.bytes heap1 in
      let (target_path, heap3) = copy_text path heap2 in
      let h = la_child L parent address archive_path target_path in
      let r = seek_to_entry L h heap3 in
      let claims : la_owns h a
          ≡ holds_one address a
            + holds_one archive_path.address a
            + holds_one target_path.address a =
        unfold la_owns in omega arith in
      ground (
        arith,
        claims,
        acquire-Moves heap a ne,
        copy_text-Moves parent.archive_path.bytes heap1 a ne,
        copy_text-Moves path heap2 a ne,
        seek_to_entry-Moves h heap3 refl a ne,
        opened_child-Moves r.0 r.1 r.2 a ne,
      )

  -- A handle of a root before its reader is opened.
  pub record Unopened (buffer : ℕ) (h : LaHandle L) : Type 0 where
    pub closed : h.archive ≡ none
    pub lent : h.owns_memory ≡ false
    pub same : h.memory_buffer ≡ buffer

  with_reader-owns :
      (h : LaHandle L) (x : ℕ) (reader : L.Reader) (a : ℕ)
      → h.archive ≡ none
      → la_owns (record h { archive = some (x, reader) }) a ≡ la_owns h a + holds_one x a
  unfolding la_owns
  with_reader-owns h x reader a e = ground (arith, e)

  la_opened-Moves :
      (owned : Bool) (buffer : ℕ) (h : LaHandle L) (heap : Heap)
      → h.owns_memory ≡ false
      → h.memory_buffer ≡ buffer
      → let r = la_opened L owned h heap in
        Moves heap r.1
          (λ a. la_owns h a + gives owned buffer r.0.handle a)
          (owns_opened la_owns r.0.handle)
  unfolding la_owns
  la_opened-Moves owned buffer h heap lent same a ne = ground (arith, lent, same)

  pub reopened-Moves :
      (owned : Bool) (buffer : ℕ) (h : LaHandle L) (heap : Heap)
      → Unopened buffer h
      → let r = reopened L owned h (archive_read_new heap) in
        Moves heap r.1
          (λ a. la_owns h a + gives owned buffer r.0.handle a)
          (owns_opened la_owns r.0.handle)
  reopened-Moves owned buffer h heap u a ne =
      let n = archive_read_new heap in
      let s = open_source L h in
      let h' : LaHandle L = record h { archive = some (n.0, s.1) } in
      ground (
        arith,
        archive_read_new-Moves heap a ne,
        with_reader-owns h n.0 s.1 a u.closed,
        la_close-Moves h' n.1 a ne,
        la_opened-Moves owned buffer h' n.1 u.lent u.same a ne,
      )

  validated-Moves :
      (owned : Bool) (buffer : ℕ) (h : LaHandle L) (x : ℕ) (reader : L.Reader) (heap : Heap)
      → Unopened buffer h
      → let r = validated L owned h x reader heap in
        Moves heap r.1
          (λ a. la_owns h a + holds_one x a + gives owned buffer r.0.handle a)
          (owns_opened la_owns r.0.handle)
  validated-Moves owned buffer h x reader heap u a ne =
      let reader' = (L.read_next_header reader).2 in
      ground (
        arith,
        with_reader-owns h x reader' a u.closed,
        la_close-Moves (record h { archive = some (x, reader') }) heap a ne,
        release-Moves x heap a ne,
        reopened-Moves owned buffer h (release x heap) u a ne,
      )

  pub open_validated-Moves :
      (owned : Bool) (failed : ArchiveResult → ℕ) (buffer : ℕ) (h : LaHandle L) (heap : Heap)
      → Unopened buffer h
      → let r = open_validated L owned failed h (archive_read_new heap) in
        Moves heap r.1
          (λ a. la_owns h a + gives owned buffer r.0.handle a)
          (owns_opened la_owns r.0.handle)
  open_validated-Moves owned failed buffer h heap u a ne =
      let n = archive_read_new heap in
      let reader = (open_source L h).1 in
      ground (
        arith,
        archive_read_new-Moves heap a ne,
        with_reader-owns h n.0 reader a u.closed,
        la_close-Moves (record h { archive = some (n.0, reader) }) n.1 a ne,
        validated-Moves owned buffer h n.0 reader n.1 u a ne,
      )
