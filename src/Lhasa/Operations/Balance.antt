-- ===== src/Lhasa/Operations/Balance.antt =====
-- Each driver function of src/vfs/drivers/lhasa.c keeps account of what it allocates.
use flowi_vfs.Common.{
  ℕ, ◌+◌, ◌≡◌, refl, Bool, true, false, List, Option, none, some, if◌then◌else◌, arith,
}
use flowi_vfs.Drivers.{FilePath}
use flowi_vfs.Heap.{Heap, empty_text, acquire, release, copy_text}
use flowi_vfs.Heap.Moves.{
  Moves, nothing, acquire-Moves, release-Moves, copy_text-Moves, free_option-Moves,
}
use flowi_vfs.Heap.Sessions.{owns_opened, gives, gives-nothing}
use flowi_vfs.Lhasa.{LhaLibrary, LhasaHandle, free_option, free_reader, open_from_memory}
use flowi_vfs.Lhasa.Operations.{
  new_handle, close, open_root, opened_root, open_path, clone, open_memory,
}
use flowi_vfs.Lhasa.Operations.Ownership.{owns, free_reader-Moves, open_from_memory-Moves}

module _ (L : LhaLibrary) where
  pub close-Moves :
      (h : LhasaHandle L.Reader) (heap : Heap) → Moves heap (close L h heap) (owns h) nothing
  unfolding close owns free_reader
  close-Moves h heap a ne =
      let heap1 = (free_reader L h heap).1 in
      let heap2 = free_option h.cache heap1 in
      let heap3 = release h.target_path.address heap2 in
      let heap4 = release h.archive_path.address heap3 in
      let memory : ℕ = if h.owns_memory then h.memory_buffer else 0 in
      let heap5 = release memory heap4 in
      ground (
        arith,
        free_reader-Moves L h heap a ne,
        free_option-Moves h.cache heap1 a ne,
        release-Moves h.target_path.address heap2 a ne,
        release-Moves h.archive_path.address heap3 a ne,
        release-Moves memory heap4 a ne,
        release-Moves h.address heap5 a ne,
      )

  pub open_path-Moves :
      (has_extension : FilePath → FilePath → Bool) (parent : Option (LhasaHandle L.Reader))
      (path : FilePath) (heap : Heap)
      → let r = open_path L has_extension parent path heap in
        Moves heap r.1 nothing (owns_opened owns r.0.handle)
  unfolding open_path owns
  open_path-Moves has_extension none path heap a ne = ground arith
  open_path-Moves has_extension (some parent) path heap a ne =
      let heap1 = (acquire heap).1 in
      let heap2 = (copy_text parent.archive_path.bytes heap1).1 in
      ground (
        arith,
        acquire-Moves heap a ne,
        copy_text-Moves parent.archive_path.bytes heap1 a ne,
        copy_text-Moves path heap2 a ne,
      )

  opened_root-Moves :
      (owned ok : Bool) (buffer : ℕ) (h : LhasaHandle L.Reader) (heap : Heap)
      → h.owns_memory ≡ false
      → h.memory_buffer ≡ buffer
      → let r = opened_root L owned (ok, h, heap) in
        Moves heap r.1
          (λ a. owns h a + gives owned buffer r.0.handle a)
          (owns_opened owns r.0.handle)
  unfolding owns
  opened_root-Moves owned false buffer h heap mine same a ne =
      ground (arith, close-Moves h heap a ne)
  opened_root-Moves owned true buffer h heap mine same a ne = ground arith

  -- What opening the reader leaves of the handle's claim to the buffer.
  open_from_memory-buffer :
      (h : LhasaHandle L.Reader) (heap : Heap)
      → let r = open_from_memory L h heap in
        (r.1.owns_memory ≡ h.owns_memory) × (r.1.memory_buffer ≡ h.memory_buffer)
  unfolding open_from_memory
  open_from_memory-buffer h heap = ground arith

  open_root-Moves :
      (owned : Bool) (path : FilePath) (buffer : ℕ) (memory : List ℕ) (heap : Heap)
      → let r = open_root L owned path buffer memory (acquire heap) in
        Moves heap r.1 (gives owned buffer r.0.handle) (owns_opened owns r.0.handle)
  unfolding owns
  open_root-Moves owned path buffer memory heap a ne =
      let (address, heap1) = acquire heap in
      let (archive_path, heap2) = copy_text path heap1 in
      let h = new_handle L address archive_path empty_text true buffer memory in
      let r = open_from_memory L h heap2 in
      let k = open_from_memory-buffer h heap2 in
      ground (
        arith,
        acquire-Moves heap a ne,
        copy_text-Moves path heap1 a ne,
        open_from_memory-Moves L h heap2 (refl, refl, refl) a ne,
        opened_root-Moves owned r.0 buffer r.1 r.2 k.0 k.1 a ne,
      )

  pub clone-Moves :
      (source : LhasaHandle L.Reader) (heap : Heap)
      → let r = clone L source heap in Moves heap r.1 nothing (owns_opened owns r.0.handle)
  unfolding clone
  clone-Moves source heap a ne =
      let p = source.archive_path.bytes in
      let r = open_root L false p source.memory_buffer source.memory (acquire heap) in
      let none_ : gives false source.memory_buffer r.0.handle a ≡ 0 =
        gives-nothing source.memory_buffer r.0.handle a in
      ground (arith, none_, open_root-Moves false p source.memory_buffer source.memory heap a ne)

  pub open_memory-Moves :
      (buffer : ℕ) (memory : List ℕ) (path : FilePath) (heap : Heap)
      → let r = open_memory L buffer memory path heap in
        Moves heap r.1 (gives true buffer r.0.handle) (owns_opened owns r.0.handle)
  unfolding open_memory
  open_memory-Moves buffer memory path heap a ne =
      ground (arith, open_root-Moves true path buffer memory heap a ne)
