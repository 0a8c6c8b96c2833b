-- ===== src/LibArchive/Sessions.antt =====
-- A handle of the archive driver (src/vfs/drivers/libarchive.c) from its open to its close.
use flowi_vfs.Common.{ℕ, ◌+◌, true, List, Option, arith, ℤ}
use flowi_vfs.Drivers.{FilePath}
use flowi_vfs.Handles.{Entry}
use flowi_vfs.Heap.{Heap}
use flowi_vfs.Heap.Moves.{Moves, nothing}
use flowi_vfs.Heap.Sessions.{owns_opened, gives, session, session-Moves}
use flowi_vfs.LibArchive.{ArchiveLibrary, LaHandle, la_list_directory, la_close}
use flowi_vfs.LibArchive.Names.{PathText}
use flowi_vfs.LibArchive.Opens.{LaOpened, la_open, la_clone, la_open_memory}
use flowi_vfs.LibArchive.Reading.{la_read, la_get_size}
use flowi_vfs.LibArchive.Ownership.{la_owns, la_close-Moves}
use flowi_vfs.LibArchive.Balance.{
  la_open-Moves, la_clone-Moves, la_open_memory-Moves, la_build_entry_cache-Moves, la_read-Moves,
  la_get_size-Moves,
}

-- What the host does with an open handle.
pub data LaCall : Type 0 where
  la_call_read : FilePath → ℤ → LaCall
  la_call_get_size : FilePath → LaCall
  la_call_list_directory : FilePath → LaCall

module _ (L : ArchiveLibrary) where
  -- One call; a listing is given to a callback that counts.
  unfoldable pub run_la_call : LaCall → LaHandle L × Heap → LaHandle L × Heap
  run_la_call (la_call_read path size) (h, heap) =
      let (result, h', heap') = la_read L h path size heap in (h', heap')
  run_la_call (la_call_get_size path) (h, heap) =
      let (result, heap') = la_get_size L h path heap in (h, heap')
  run_la_call (la_call_list_directory path) (h, heap) =
      let (n, h', heap') =
        la_list_directory L (λ (e : Entry) (n : ℕ). (true, n + 1)) h path 0 heap in
      (h', heap')

  abbrev pub la_session : List LaCall → LaOpened L.Reader × Heap → Heap
  la_session calls (o, heap) = session run_la_call (la_close L) calls (o.handle, heap)

  run_la_call-Moves :
      (c : LaCall) (h : LaHandle L) (heap : Heap)
      → let r = run_la_call c (h, heap) in Moves heap r.1 (la_owns h) (la_owns r.0)
  unfolding run_la_call la_list_directory
  run_la_call-Moves (la_call_read path size) h heap a ne = la_read-Moves L h path size heap a ne
  run_la_call-Moves (la_call_get_size path) h heap a ne =
      omega (arith, la_get_size-Moves L h path heap a ne)
  run_la_call-Moves (la_call_list_directory path) h heap a ne =
      ground (arith, la_build_entry_cache-Moves L h heap a ne)

  balanced :
      (cs : List LaCall) (o : Option (LaHandle L)) (heap heap' : Heap) (from : ℕ → ℕ)
      → Moves heap heap' from (owns_opened la_owns o)
      → Moves heap (session run_la_call (la_close L) cs (o, heap')) from nothing
  balanced =
      session-Moves run_la_call (la_close L) (λ (w : Heap). w.acquired) (λ (w : Heap). w.released)
        la_owns run_la_call-Moves (la_close-Moves L)

  -- Whole lives of handles.
  pub record LaBalanced (X : PathText) (cs : List LaCall) (heap : Heap) : Type 0 where
    pub opens :
        (parent : Option (LaHandle L)) (path : FilePath)
        → Moves heap (la_session cs (la_open L X parent path heap)) nothing nothing
    pub clones :
        (source : LaHandle L)
        → Moves heap (la_session cs (la_clone L X source heap)) nothing nothing
    pub in_memory :
        (buffer : ℕ) (memory : List ℕ) (path : FilePath)
        → let r = la_open_memory L X buffer memory path heap in
          Moves heap (la_session cs r) (gives true buffer r.0.handle) nothing

  -- Whatever the allocator refuses (it serves libarchive's own readers), whatever libarchive
  -- answers and whatever calls (reads, sizes, listings) come between an open of the archive driver
  -- and its close: each address that is not null is freed as often as it was allocated, when the
  -- handle is of an open of a file, of an open inside an archive, or a clone; when it is of an
  -- open from memory, the buffer that the handle took over is freed once more, and a failed open
  -- takes nothing over.
  pub la_session-LaBalanced : (X : PathText) (cs : List LaCall) (heap : Heap) → LaBalanced X cs heap
  la_session-LaBalanced X cs heap = record {
    opens = λ parent path.
        let r = la_open L X parent path heap in
        balanced cs r.0.handle heap r.1 nothing (la_open-Moves L X parent path heap);
    clones = λ source.
        let r = la_clone L X source heap in
        balanced cs r.0.handle heap r.1 nothing (la_clone-Moves L X source heap);
    in_memory = λ buffer memory path.
        let r = la_open_memory L X buffer memory path heap in
        balanced cs r.0.handle heap r.1 (gives true buffer r.0.handle)
          (la_open_memory-Moves L X buffer memory path heap);
  }
