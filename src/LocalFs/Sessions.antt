-- ===== src/LocalFs/Sessions.antt =====
-- A handle of the local file driver (src/vfs/drivers/localfs.c) from its open to its close.
use flowi_vfs.Common.{
  ℕ, ◌+◌, ◌≡◌, refl, Bool, true, false, not, ◌&&◌, List, Option, none, some, if◌then◌else◌, arith,
  ℤ, pos, negsuc,
}
use flowi_vfs.Drivers.{FilePath}
use flowi_vfs.Heap.Moves.{nothing}
use flowi_vfs.Heap.Sessions.{owns_opened, session, session-Moves}
use flowi_vfs.Lhasa.Operations.{size_of}
use flowi_vfs.LocalFs.{
  LocalOs, LocalFsHandle, LocalWorld, OpenFlags, LocalOpened, localfs_resolve, local_open,
  local_clone, local_close, make_handle, clone_flags, local_opened,
}
use flowi_vfs.LocalFs.Reading.{
  local_read_loop, read_fd, read_through, local_read, write_through, local_write,
}
use flowi_vfs.LocalFs.Balance.{
  fd_holds, local_fd, local_owns, MemoryMoves, FdMoves, open_read_fd-FdMoves, open_read_fd-heap,
  close_fd-FdMoves, close_fd-heap, make_handle-FdMoves, make_handle-MemoryMoves,
  local_close-FdMoves, local_close-MemoryMoves,
}

-- What the host does with an open handle, sizes and listings aside, which change nothing.
pub data LocalCall : Type 0 where
  local_call_read : FilePath → ℤ → LocalCall
  local_call_write : Bool → List ℕ → ℤ → LocalCall

abbrev own_fd : Bool → ℤ → ℕ → ℕ
own_fd owned fd a = if owned then fd_holds fd a else 0

module _ (O : LocalOs) where
  unfoldable pub run_local_call :
      LocalCall → LocalFsHandle × LocalWorld O → LocalFsHandle × LocalWorld O
  run_local_call (local_call_read path size) (h, w) =
      let (result, w') = local_read O h path size w in (h, w')
  run_local_call (local_call_write null bytes size) (h, w) =
      let (result, w') = local_write O h null bytes size w in (h, w')

  abbrev pub local_session : List LocalCall → LocalOpened × LocalWorld O → LocalWorld O
  local_session calls (o, w) = session run_local_call (local_close O) calls (o.handle, w)

  read_fd-FdMoves :
      (h : LocalFsHandle) (path : FilePath) (w : LocalWorld O)
      → let r = read_fd O h path w in FdMoves w r.2 nothing (own_fd r.1 r.0)
  unfolding read_fd
  read_fd-FdMoves h path w a ne = ground (
    arith,
    open_read_fd-FdMoves O (localfs_resolve O (some h) path) w a ne,
    open_read_fd-FdMoves O h.path.bytes w a ne,
  )

  read_fd-heap :
      (h : LocalFsHandle) (path : FilePath) (w : LocalWorld O)
      → (read_fd O h path w).2.heap ≡ w.heap
  unfolding read_fd
  read_fd-heap h path w = ground (
    arith,
    open_read_fd-heap O (localfs_resolve O (some h) path) w,
    open_read_fd-heap O h.path.bytes w,
  )

  read_through-FdMoves :
      (size : ℕ) (fd : ℤ) (owned : Bool) (w : LocalWorld O)
      → FdMoves w (read_through O size (fd, owned, w)).1 (own_fd owned fd) nothing
  read_through-FdMoves size (pos n) owned w a ne =
      let os = (local_read_loop O (size + 1) n size w.os).1 in
      ground (arith, close_fd-FdMoves O (pos n) (record w { os = os }) a ne)
  read_through-FdMoves size (negsuc n) owned w a ne = ground arith

  read_through-heap :
      (size : ℕ) (fd : ℤ) (owned : Bool) (w : LocalWorld O)
      → (read_through O size (fd, owned, w)).1.heap ≡ w.heap
  read_through-heap size (pos n) owned w =
      let os = (local_read_loop O (size + 1) n size w.os).1 in
      ground (arith, close_fd-heap O (pos n) (record w { os = os }))
  read_through-heap size (negsuc n) owned w = refl

  local_read-FdMoves :
      (h : LocalFsHandle) (path : FilePath) (size : ℤ) (w : LocalWorld O)
      → FdMoves w (local_read O h path size w).1 nothing nothing
  unfolding local_read
  local_read-FdMoves h path size w a ne =
      let r = read_fd O h path w in
      ground
        (arith, read_fd-FdMoves h path w a ne, read_through-FdMoves (size_of size) r.0 r.1 r.2 a ne)

  local_read-heap :
      (h : LocalFsHandle) (path : FilePath) (size : ℤ) (w : LocalWorld O)
      → (local_read O h path size w).1.heap ≡ w.heap
  unfolding local_read
  local_read-heap h path size w =
      let r = read_fd O h path w in
      ground (arith, read_fd-heap h path w, read_through-heap (size_of size) r.0 r.1 r.2)

  -- Everything but the operating system stays as it is.
  record SameAccounts (w w' : LocalWorld O) : Type 0 where
    memory : w'.heap ≡ w.heap
    gained : w'.opened ≡ w.opened
    lost : w'.closed ≡ w.closed

  write_through-SameAccounts :
      (bytes : List ℕ) (fd : ℤ) (w : LocalWorld O) → SameAccounts w (write_through O bytes fd w).1
  write_through-SameAccounts bytes (pos n) w = record { memory = refl; gained = refl; lost = refl }
  write_through-SameAccounts bytes (negsuc n) w = record {
    memory = refl;
    gained = refl;
    lost = refl;
  }

  local_write-SameAccounts :
      (h : LocalFsHandle) (null : Bool) (bytes : List ℕ) (size : ℤ) (w : LocalWorld O)
      → SameAccounts w (local_write O h null bytes size w).1
  unfolding local_write
  local_write-SameAccounts h null bytes size w =
      let s = write_through-SameAccounts bytes h.fd w in
      record {
        memory = ground (arith, s.memory);
        gained = ground (arith, s.gained);
        lost = ground (arith, s.lost);
      }

  run_local_call-FdMoves :
      (c : LocalCall) (h : LocalFsHandle) (w : LocalWorld O)
      → let r = run_local_call c (h, w) in FdMoves w r.1 (local_fd h) (local_fd r.0)
  unfolding run_local_call
  run_local_call-FdMoves (local_call_read path size) h w a ne =
      omega (arith, local_read-FdMoves h path size w a ne)
  run_local_call-FdMoves (local_call_write null bytes size) h w a ne =
      let s = local_write-SameAccounts h null bytes size w in ground (arith, s.gained, s.lost)

  run_local_call-MemoryMoves :
      (c : LocalCall) (h : LocalFsHandle) (w : LocalWorld O)
      → let r = run_local_call c (h, w) in MemoryMoves w r.1 (local_owns h) (local_owns r.0)
  unfolding run_local_call
  run_local_call-MemoryMoves (local_call_read path size) h w a ne =
      ground (arith, local_read-heap h path size w)
  run_local_call-MemoryMoves (local_call_write null bytes size) h w a ne =
      ground (arith, (local_write-SameAccounts h null bytes size w).memory)

  -- A handle gave back all that it took.
  pub record Returned (cs : List LocalCall) (o : LocalOpened × LocalWorld O) (w : LocalWorld O)
      : Type 0 where
    pub descriptors : FdMoves w (local_session cs o) nothing nothing
    pub memory : MemoryMoves w (local_session cs o) nothing nothing

  -- Whole lives of handles.
  pub record LocalBalanced (cs : List LocalCall) (w : LocalWorld O) : Type 0 where
    pub opens :
        (parent : Option LocalFsHandle) (path : FilePath) (flags : OpenFlags)
        → Returned cs (local_open O parent path flags w) w
    pub clones : (source : LocalFsHandle) → Returned cs (local_clone O source w) w

  descriptors_of :
      (cs : List LocalCall) (o : Option LocalFsHandle) (w w' : LocalWorld O)
      → FdMoves w w' nothing (owns_opened local_fd o)
      → FdMoves w (session run_local_call (local_close O) cs (o, w')) nothing nothing
  descriptors_of cs o w w' =
      session-Moves run_local_call (local_close O) (λ (w : LocalWorld O). w.opened)
        (λ (w : LocalWorld O). w.closed) local_fd run_local_call-FdMoves (local_close-FdMoves O) cs
        o w w' nothing

  memory_of :
      (cs : List LocalCall) (o : Option LocalFsHandle) (w w' : LocalWorld O)
      → MemoryMoves w w' nothing (owns_opened local_owns o)
      → MemoryMoves w (session run_local_call (local_close O) cs (o, w')) nothing nothing
  memory_of cs o w w' =
      session-Moves run_local_call (local_close O) (λ (w : LocalWorld O). w.heap.acquired)
        (λ (w : LocalWorld O). w.heap.released) local_owns run_local_call-MemoryMoves
        (local_close-MemoryMoves O) cs o w w' nothing

  session-Returned :
      (cs : List LocalCall) (o : Option LocalFsHandle) (w w' : LocalWorld O)
      → FdMoves w w' nothing (owns_opened local_fd o)
      → MemoryMoves w w' nothing (owns_opened local_owns o)
      → Returned cs (local_opened O (o, w')) w
  session-Returned cs none w w' f m = record {
    descriptors = descriptors_of cs none w w' f;
    memory = memory_of cs none w w' m;
  }
  session-Returned cs (some h) w w' f m = record {
    descriptors = descriptors_of cs (some h) w w' f;
    memory = memory_of cs (some h) w w' m;
  }

  made-Returned :
      (cs : List LocalCall) (path : FilePath) (is_dir : Bool) (flags : OpenFlags) (w : LocalWorld O)
      → Returned cs (local_opened O (make_handle O path is_dir flags w)) w
  made-Returned cs path is_dir flags w =
      let r = make_handle O path is_dir flags w in
      session-Returned cs r.0 w r.1 (make_handle-FdMoves O path is_dir flags w)
        (make_handle-MemoryMoves O path is_dir flags w)

  either-Returned :
      (cs : List LocalCall) (w : LocalWorld O) (b : Bool) (x y : LocalOpened × LocalWorld O)
      → Returned cs x w
      → Returned cs y w
      → Returned cs (if b then x else y) w
  either-Returned cs w true x y s z = s
  either-Returned cs w false x y s z = z

  -- Whatever the operating system answers and the allocator refuses: from an open or a clone of
  -- the local file driver, through any reads and writes, to the close of the handle, each
  -- descriptor is closed as often as it was opened, those that a read opens for itself included,
  -- and each address that is not null is freed as often as it was allocated. A failed open leaves
  -- nothing behind.
  pub local_session-LocalBalanced : (cs : List LocalCall) (w : LocalWorld O) → LocalBalanced cs w
  unfolding local_open local_clone
  local_session-LocalBalanced cs w = record {
    opens = λ parent path flags.
        let full = localfs_resolve O parent path in
        let st = O.file_stat_os full w.os in
        either-Returned cs w (not st.is_valid && not flags.write) _ _
          (session-Returned cs none w w (λ a ne. omega arith) (λ a ne. omega arith))
          (made-Returned cs full (st.is_valid && st.is_directory) flags w);
    clones = λ source. made-Returned cs source.path.bytes source.is_dir (clone_flags O source) w;
  }
