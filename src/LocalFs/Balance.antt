-- ===== src/LocalFs/Balance.antt =====
-- The local file driver (src/vfs/drivers/localfs.c) keeps account of its descriptors and of its memory.
use flowi_vfs.Common.{ℕ, suc, ◌+◌, ◌≡◌, refl, Bool, true, arith, ℤ, pos, negsuc, is_negative}
use flowi_vfs.Drivers.{FilePath}
use flowi_vfs.Heap.{acquire, release, copy_text}
use flowi_vfs.Heap.Moves.{
  MovesIn, count, holds_one, nothing, acquire-Moves, release-Moves, copy_text-Moves,
}
use flowi_vfs.Heap.Sessions.{owns_opened}
use flowi_vfs.LocalFs.{
  LocalOs, LocalFsHandle, World, LocalWorld, OpenFlags, opened_fd, open_read_fd, open_write_fd,
  close_fd, fd_for, with_fd, make_handle, local_close,
}

-- What holds a descriptor.
abbrev pub fd_holds : ℤ → ℕ → ℕ
fd_holds (pos n) = holds_one (suc n)
fd_holds (negsuc n) = nothing

abbrev pub local_fd : LocalFsHandle → ℕ → ℕ
local_fd h = fd_holds h.fd

-- The memory that a handle owns.
abbrev pub local_owns : LocalFsHandle → ℕ → ℕ
local_owns h a = holds_one h.address a + holds_one h.path.address a

module _ {S : Type 0} where
  abbrev pub MemoryMoves : World S → World S → (ℕ → ℕ) → (ℕ → ℕ) → Type 0
  MemoryMoves = MovesIn (λ (w : World S). w.heap.acquired) (λ (w : World S). w.heap.released)

  abbrev pub FdMoves : World S → World S → (ℕ → ℕ) → (ℕ → ℕ) → Type 0
  FdMoves = MovesIn (λ (w : World S). w.opened) (λ (w : World S). w.closed)

module _ (O : LocalOs) where
  opened_fd-FdMoves :
      (r : ℤ × O.State) (w : LocalWorld O)
      → FdMoves w (opened_fd O r w).1 nothing (fd_holds (opened_fd O r w).0)
  unfolding count
  opened_fd-FdMoves (pos n, os) w a ne = omega arith
  opened_fd-FdMoves (negsuc n, os) w a ne = omega arith

  opened_fd-heap : (r : ℤ × O.State) (w : LocalWorld O) → (opened_fd O r w).1.heap ≡ w.heap
  opened_fd-heap (pos n, os) w = refl
  opened_fd-heap (negsuc n, os) w = refl

  pub open_read_fd-FdMoves :
      (path : FilePath) (w : LocalWorld O)
      → FdMoves w (open_read_fd O path w).1 nothing (fd_holds (open_read_fd O path w).0)
  unfolding open_read_fd
  open_read_fd-FdMoves path w = opened_fd-FdMoves (O.file_open_os path w.os) w

  pub open_read_fd-heap :
      (path : FilePath) (w : LocalWorld O) → (open_read_fd O path w).1.heap ≡ w.heap
  unfolding open_read_fd
  open_read_fd-heap path w = opened_fd-heap (O.file_open_os path w.os) w

  pub close_fd-FdMoves :
      (fd : ℤ) (w : LocalWorld O) → FdMoves w (close_fd O fd w) (fd_holds fd) nothing
  unfolding close_fd count
  close_fd-FdMoves (pos n) w a ne = omega arith
  close_fd-FdMoves (negsuc n) w a ne = omega arith

  pub close_fd-heap : (fd : ℤ) (w : LocalWorld O) → (close_fd O fd w).heap ≡ w.heap
  unfolding close_fd
  close_fd-heap (pos n) w = refl
  close_fd-heap (negsuc n) w = refl

  fd_for-FdMoves :
      (path : FilePath) (is_dir : Bool) (flags : OpenFlags) (w : LocalWorld O)
      → let r = fd_for O path is_dir flags w in FdMoves w r.1 nothing (fd_holds r.0)
  unfolding fd_for open_write_fd
  fd_for-FdMoves path is_dir flags w a ne = ground (
    arith,
    opened_fd-FdMoves (O.file_open_write_os path flags.append w.os) w a ne,
    open_read_fd-FdMoves path w a ne,
  )

  fd_for-heap :
      (path : FilePath) (is_dir : Bool) (flags : OpenFlags) (w : LocalWorld O)
      → (fd_for O path is_dir flags w).1.heap ≡ w.heap
  unfolding fd_for open_write_fd
  fd_for-heap path is_dir flags w = ground (
    arith,
    opened_fd-heap (O.file_open_write_os path flags.append w.os) w,
    open_read_fd-heap path w,
  )

  negative-holds : (fd : ℤ) (a : ℕ) → is_negative fd ≡ true → fd_holds fd a ≡ 0
  negative-holds (pos n) a e = absurd (ground (arith, e))
  negative-holds (negsuc n) a e = refl

  with_fd-FdMoves :
      (path : FilePath) (is_dir : Bool) (flags : OpenFlags) (fd : ℤ) (w : LocalWorld O)
      → let r = with_fd O path is_dir flags (fd, w) in
        FdMoves w r.1 (fd_holds fd) (owns_opened local_fd r.0)
  with_fd-FdMoves path is_dir flags fd w a ne =
      let (address, heap1) = acquire w.heap in
      let (text, heap2) = copy_text path heap1 in
      ground (
        arith,
        negative-holds fd a,
        close_fd-FdMoves fd (record w { heap = heap1 }) a ne,
        close_fd-FdMoves fd (record w { heap = heap2 }) a ne,
      )

  with_fd-MemoryMoves :
      (path : FilePath) (is_dir : Bool) (flags : OpenFlags) (fd : ℤ) (w : LocalWorld O)
      → let r = with_fd O path is_dir flags (fd, w) in
        MemoryMoves w r.1 nothing (owns_opened local_owns r.0)
  with_fd-MemoryMoves path is_dir flags fd w a ne =
      let (address, heap1) = acquire w.heap in
      let (text, heap2) = copy_text path heap1 in
      ground (
        arith,
        acquire-Moves w.heap a ne,
        copy_text-Moves path heap1 a ne,
        release-Moves address heap2 a ne,
        close_fd-heap fd (record w { heap = heap1 }),
        close_fd-heap fd (record w { heap = heap2 }),
      )

  pub make_handle-FdMoves :
      (path : FilePath) (is_dir : Bool) (flags : OpenFlags) (w : LocalWorld O)
      → let r = make_handle O path is_dir flags w in
        FdMoves w r.1 nothing (owns_opened local_fd r.0)
  unfolding make_handle
  make_handle-FdMoves path is_dir flags w a ne =
      let f = fd_for O path is_dir flags w in
      omega (
        arith,
        fd_for-FdMoves path is_dir flags w a ne,
        with_fd-FdMoves path is_dir flags f.0 f.1 a ne,
      )

  pub make_handle-MemoryMoves :
      (path : FilePath) (is_dir : Bool) (flags : OpenFlags) (w : LocalWorld O)
      → let r = make_handle O path is_dir flags w in
        MemoryMoves w r.1 nothing (owns_opened local_owns r.0)
  unfolding make_handle
  make_handle-MemoryMoves path is_dir flags w a ne =
      let f = fd_for O path is_dir flags w in
      ground
        (arith, fd_for-heap path is_dir flags w, with_fd-MemoryMoves path is_dir flags f.0 f.1 a ne)

  pub local_close-FdMoves :
      (h : LocalFsHandle) (w : LocalWorld O) → FdMoves w (local_close O h w) (local_fd h) nothing
  unfolding local_close
  local_close-FdMoves h w = close_fd-FdMoves h.fd w

  pub local_close-MemoryMoves :
      (h : LocalFsHandle) (w : LocalWorld O)
      → MemoryMoves w (local_close O h w) (local_owns h) nothing
  unfolding local_close
  local_close-MemoryMoves h w a ne =
      let w1 = close_fd O h.fd w in
      ground (
        arith,
        close_fd-heap h.fd w,
        release-Moves h.path.address w1.heap a ne,
        release-Moves h.address (release h.path.address w1.heap) a ne,
      )
