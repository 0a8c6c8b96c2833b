-- ===== src/Unlzx/Ownership.antt =====
-- What a handle of the LZX driver (src/vfs/drivers/unlzx.c) owns, and that opens and closes keep account of
-- it.
use flowi_vfs.Common.{
  ℕ, ◌+◌, ◌≡◌, refl, Bool, true, false, List, Option, none, some, if◌then◌else◌, arith, inl, inr,
  Option-cases,
}
use flowi_vfs.Drivers.{FilePath}
use flowi_vfs.Heap.{Heap, acquire, release, free_option, copy_text}
use flowi_vfs.Heap.Moves.{
  Moves, holds_one, nothing, holds_option, acquire-Moves, release-Moves, copy_text-Moves,
  free_option-Moves,
}
use flowi_vfs.Heap.Sessions.{owns_opened, gives, gives-nothing}
use flowi_vfs.Unlzx.{LzxLibrary, UnlzxHandle, LzxHandle, vfs_close, lzx_build_entry_cache}
use flowi_vfs.Unlzx.Opens.{
  lzx_open, lzx_open_archive, lzx_root, lzx_opened_root, lzx_open_root, lzx_clone, vfs_open_memory,
}

-- All that a handle owns: the buffer and the archive only if they are its own.
unfoldable pub lzx_owns : {A S : Type 0} → UnlzxHandle A S → ℕ → ℕ
lzx_owns h a =
    holds_one h.address a
    + holds_one h.archive_path.address a
    + holds_one h.target_path.address a
    + (if h.owns_memory then holds_one h.memory_buffer a else 0)
    + (if h.owns_archive then holds_option h.archive a else 0)
    + holds_option h.cache a
    + holds_option h.stream a

module _ (L : LzxLibrary) where
  pub vfs_close-Moves :
      (h : LzxHandle L) (heap : Heap) → Moves heap (vfs_close L h heap) (lzx_owns h) nothing
  unfolding vfs_close lzx_owns
  vfs_close-Moves h heap a ne =
      let heap1 : Heap = if h.owns_archive then free_option h.archive heap else heap in
      let heap2 = free_option h.cache heap1 in
      let heap3 = free_option h.stream heap2 in
      let heap4 = release h.target_path.address heap3 in
      let heap5 = release h.archive_path.address heap4 in
      let memory : ℕ = if h.owns_memory then h.memory_buffer else 0 in
      ground (
        arith,
        free_option-Moves h.archive heap a ne,
        free_option-Moves h.cache heap1 a ne,
        free_option-Moves h.stream heap2 a ne,
        release-Moves h.target_path.address heap3 a ne,
        release-Moves h.archive_path.address heap4 a ne,
        release-Moves memory heap5 a ne,
        release-Moves h.address (release memory heap5) a ne,
      )

  pub lzx_open-Moves :
      (has_extension : FilePath → FilePath → Bool) (parent : Option (LzxHandle L)) (path : FilePath)
      (heap : Heap)
      → let r = lzx_open L has_extension parent path heap in
        Moves heap r.1 nothing (owns_opened lzx_owns r.0.handle)
  unfolding lzx_open lzx_owns
  lzx_open-Moves has_extension none path heap a ne = ground arith
  lzx_open-Moves has_extension (some parent) path heap a ne =
      let heap1 = (acquire heap).1 in
      let heap2 = (copy_text parent.archive_path.bytes heap1).1 in
      ground (
        arith,
        acquire-Moves heap a ne,
        copy_text-Moves parent.archive_path.bytes heap1 a ne,
        copy_text-Moves path heap2 a ne,
      )

  lzx_open_archive-Moves :
      (memory : List ℕ) (heap : Heap)
      → let r = lzx_open_archive L memory heap in Moves heap r.1 nothing (holds_option r.0)
  unfolding lzx_open_archive
  lzx_open_archive-Moves memory heap a ne = elim (Option-cases (L.open_memory memory)) [
    | inl e ↦ rw (lzx_open_archive, e) (omega arith)
    | inr (archive, e) ↦ rw (lzx_open_archive, e) (ground (arith, acquire-Moves heap a ne))
  ]

  lzx_opened_root-Moves :
      (owned : Bool) (buffer : ℕ) (h : LzxHandle L) (heap : Heap)
      → h.owns_memory ≡ false
      → h.memory_buffer ≡ buffer
      → let r = lzx_opened_root L owned h heap in
        Moves heap r.1
          (λ a. lzx_owns h a + gives owned buffer r.0.handle a)
          (owns_opened lzx_owns r.0.handle)
  unfolding lzx_owns
  lzx_opened_root-Moves owned buffer h heap mine same a ne = elim (Option-cases h.archive) [
    | inl e ↦ ground (arith, e, vfs_close-Moves h heap a ne)
    | inr (x, e) ↦ ground (arith, e)
  ]

  lzx_open_root-Moves :
      (owned : Bool) (path : FilePath) (buffer : ℕ) (memory : List ℕ) (heap : Heap)
      → let r = lzx_open_root L owned path buffer memory (acquire heap) in
        Moves heap r.1 (gives owned buffer r.0.handle) (owns_opened lzx_owns r.0.handle)
  unfolding lzx_owns
  lzx_open_root-Moves owned path buffer memory heap a ne =
      let (address, heap1) = acquire heap in
      let (archive_path, heap2) = copy_text path heap1 in
      let r = lzx_open_archive L memory heap2 in
      let h = lzx_root L address archive_path buffer memory r.0 in
      ground (
        arith,
        acquire-Moves heap a ne,
        copy_text-Moves path heap1 a ne,
        lzx_open_archive-Moves memory heap2 a ne,
        lzx_opened_root-Moves owned buffer h r.1 refl refl a ne,
      )

  pub lzx_clone-Moves :
      (source : LzxHandle L) (heap : Heap)
      → let r = lzx_clone L source heap in Moves heap r.1 nothing (owns_opened lzx_owns r.0.handle)
  unfolding lzx_clone
  lzx_clone-Moves source heap a ne =
      let path = source.archive_path.bytes in
      let r = lzx_open_root L false path source.memory_buffer source.memory (acquire heap) in
      let kept : gives false source.memory_buffer r.0.handle a ≡ 0 =
        gives-nothing source.memory_buffer r.0.handle a in
      ground
        (arith, kept, lzx_open_root-Moves false path source.memory_buffer source.memory heap a ne)

  pub vfs_open_memory-Moves :
      (buffer : ℕ) (memory : List ℕ) (path : FilePath) (heap : Heap)
      → let r = vfs_open_memory L buffer memory path heap in
        Moves heap r.1 (gives true buffer r.0.handle) (owns_opened lzx_owns r.0.handle)
  unfolding vfs_open_memory
  vfs_open_memory-Moves buffer memory path heap a ne =
      ground (arith, lzx_open_root-Moves true path buffer memory heap a ne)

  pub lzx_build_entry_cache-Moves :
      (h : LzxHandle L) (heap : Heap)
      → let r = lzx_build_entry_cache L h heap in Moves heap r.1 (lzx_owns h) (lzx_owns r.0)
  unfolding lzx_build_entry_cache lzx_owns
  lzx_build_entry_cache-Moves h heap a ne =
      ground (arith, acquire-Moves heap a ne, Option-cases h.archive, Option-cases h.cache)
