-- ===== src/Unlzx/Sessions.antt =====
-- A handle of the LZX driver (src/vfs/drivers/unlzx.c) from its open to its close.
use flowi_vfs.Common.{
  ℕ, ◌+◌, ◌≡◌, refl, Bool, true, ◌⊎◌, inl, inr, List, Option, none, some, arith, ℤ, Sum-cases,
}
use flowi_vfs.Drivers.{FilePath}
use flowi_vfs.Handles.{Entry}
use flowi_vfs.Heap.{Heap}
use flowi_vfs.Heap.Moves.{Moves, holds_one, nothing, acquire-Moves}
use flowi_vfs.Heap.Sessions.{owns_opened, gives, session, session-Moves}
use flowi_vfs.Lhasa.Operations.{size_of}
use flowi_vfs.Unlzx.{LzxEntry, LzxLibrary, LzxHandle, vfs_close, lzx_list_directory}
use flowi_vfs.Unlzx.Opens.{LzxOpened, lzx_open, lzx_clone, vfs_open_memory}
use flowi_vfs.Unlzx.Reading.{
  open_stream, read_stream, read_opened, read_entry, next_on, lzx_read_next, lzx_read_on, lzx_read,
}
use flowi_vfs.Unlzx.Ownership.{
  lzx_owns, vfs_close-Moves, lzx_open-Moves, lzx_clone-Moves, vfs_open_memory-Moves,
  lzx_build_entry_cache-Moves,
}

-- What the host does with an open handle.
pub data LzxCall : Type 0 where
  lzx_call_read : FilePath → ℤ → LzxCall
  lzx_call_get_size : FilePath → LzxCall
  lzx_call_list_directory : FilePath → LzxCall

module _ (L : LzxLibrary) where
  -- One call; a listing is given to a callback that counts.
  unfoldable pub run_lzx_call : LzxCall → LzxHandle L × Heap → LzxHandle L × Heap
  run_lzx_call (lzx_call_read path size) (h, heap) =
      let (result, h', heap') = lzx_read L h path size heap in (h', heap')
  run_lzx_call (lzx_call_get_size path) (h, heap) = (h, heap)
  run_lzx_call (lzx_call_list_directory path) (h, heap) =
      let (n, h', heap') =
        lzx_list_directory L (λ (e : Entry) (n : ℕ). (true, n + 1)) h path 0 heap in
      (h', heap')

  abbrev pub lzx_session : List LzxCall → LzxOpened L.Archive L.Stream × Heap → Heap
  lzx_session calls (o, heap) = session run_lzx_call (vfs_close L) calls (o.handle, heap)

  abbrev holds_opened : (ℕ × L.Stream) ⊎ ℕ → ℕ → ℕ
  holds_opened (inl (x, s)) a = holds_one x a
  holds_opened (inr error) a = 0

  open_stream-Moves :
      (archive : L.Archive) (entry : LzxEntry) (heap : Heap)
      → let r = open_stream L archive entry heap in Moves heap r.1 nothing (holds_opened r.0)
  unfolding open_stream
  open_stream-Moves archive entry heap a ne = elim (Sum-cases (L.stream_open archive entry)) [
    | inl (s, e) ↦ rw (open_stream, e) (ground (arith, acquire-Moves heap a ne))
    | inr (error, e) ↦ rw (open_stream, e) (omega arith)
  ]

  read_opened-owns :
      (h : LzxHandle L) (size : ℕ) (o : (ℕ × L.Stream) ⊎ ℕ) (heap : Heap) (a : ℕ)
      → h.stream ≡ none
      → lzx_owns (read_opened L h size (o, heap)).1 a ≡ lzx_owns h a + holds_opened o a
  unfolding lzx_owns
  read_opened-owns h size (inl x) heap a e = ground (arith, e)
  read_opened-owns h size (inr error) heap a e = omega arith

  read_opened-heap :
      (h : LzxHandle L) (size : ℕ) (o : (ℕ × L.Stream) ⊎ ℕ) (heap : Heap)
      → (read_opened L h size (o, heap)).2 ≡ heap
  read_opened-heap h size (inl x) heap = refl
  read_opened-heap h size (inr error) heap = refl

  read_entry-Moves :
      (h : LzxHandle L) (archive : L.Archive) (size : ℕ) (o : Option LzxEntry) (heap : Heap)
      → h.stream ≡ none
      → let r = read_entry L h archive size o heap in Moves heap r.2 (lzx_owns h) (lzx_owns r.1)
  read_entry-Moves h archive size none heap e a ne = omega arith
  read_entry-Moves h archive size (some entry) heap e a ne =
      let o = open_stream L archive entry heap in
      ground (
        arith,
        open_stream-Moves archive entry heap a ne,
        read_opened-owns h size o.0 o.1 a e,
        read_opened-heap h size o.0 o.1,
      )

  read_stream-owns :
      (h : LzxHandle L) (x : ℕ × L.Stream) (size a : ℕ)
      → h.stream ≡ some x
      → lzx_owns (read_stream L h x size).1 a ≡ lzx_owns h a
  unfolding lzx_owns
  read_stream-owns h x size a e = ground (arith, e)

  next_on-Moves :
      (h : LzxHandle L) (archive : L.Archive) (size : ℕ) (heap : Heap) (o : Option (ℕ × L.Stream))
      → h.stream ≡ o
      → let r = next_on L h archive size heap o in Moves heap r.2 (lzx_owns h) (lzx_owns r.1)
  next_on-Moves h archive size heap none e a ne =
      read_entry-Moves h archive size (L.find_entry archive h.target_path.bytes) heap e a ne
  next_on-Moves h archive size heap (some x) e a ne = omega (arith, read_stream-owns h x size a e)

  lzx_read_next-Moves :
      (h : LzxHandle L) (archive : L.Archive) (size : ℕ) (heap : Heap)
      → let r = lzx_read_next L h archive size heap in Moves heap r.2 (lzx_owns h) (lzx_owns r.1)
  unfolding lzx_read_next
  lzx_read_next-Moves h archive size heap = next_on-Moves h archive size heap h.stream refl

  read_on-Moves :
      (h : LzxHandle L) (path : FilePath) (size : ℤ) (heap : Heap) (o : Option (ℕ × L.Archive))
      → let r = lzx_read_on L h path size heap o in Moves heap r.2 (lzx_owns h) (lzx_owns r.1)
  read_on-Moves h path size heap none a ne = omega arith
  read_on-Moves h path size heap (some (b, archive)) a ne =
      ground (arith, lzx_read_next-Moves h archive (size_of size) heap a ne)

  run_lzx_call-Moves :
      (c : LzxCall) (h : LzxHandle L) (heap : Heap)
      → let r = run_lzx_call c (h, heap) in Moves heap r.1 (lzx_owns h) (lzx_owns r.0)
  unfolding run_lzx_call lzx_read lzx_list_directory
  run_lzx_call-Moves (lzx_call_read path size) h heap a ne =
      read_on-Moves h path size heap h.archive a ne
  run_lzx_call-Moves (lzx_call_get_size path) h heap a ne = omega arith
  run_lzx_call-Moves (lzx_call_list_directory path) h heap a ne =
      ground (arith, lzx_build_entry_cache-Moves L h heap a ne)

  balanced :
      (cs : List LzxCall) (o : Option (LzxHandle L)) (heap heap' : Heap) (from : ℕ → ℕ)
      → Moves heap heap' from (owns_opened lzx_owns o)
      → Moves heap (session run_lzx_call (vfs_close L) cs (o, heap')) from nothing
  balanced =
      session-Moves run_lzx_call (vfs_close L) (λ (w : Heap). w.acquired) (λ (w : Heap). w.released)
        lzx_owns run_lzx_call-Moves (vfs_close-Moves L)

  -- Whole lives of handles.
  pub record LzxBalanced (cs : List LzxCall) (heap : Heap) : Type 0 where
    pub child :
        (has_extension : FilePath → FilePath → Bool) (parent : Option (LzxHandle L))
        (path : FilePath)
        → Moves heap (lzx_session cs (lzx_open L has_extension parent path heap)) nothing nothing
    pub cloned :
        (source : LzxHandle L)
        → Moves heap (lzx_session cs (lzx_clone L source heap)) nothing nothing
    pub in_memory :
        (buffer : ℕ) (memory : List ℕ) (path : FilePath)
        → let r = vfs_open_memory L buffer memory path heap in
          Moves heap (lzx_session cs r) (gives true buffer r.0.handle) nothing

  -- Whatever the allocator refuses, whatever the library answers and whatever calls (reads, sizes,
  -- listings) come between an open of the LZX driver and its close: each address that is not null
  -- is freed as often as it was allocated, when the handle is of an open inside an archive, which
  -- shares the archive of its parent, or a clone, which has its own; when it is of an open from
  -- memory, the buffer that the handle took over is freed once more, and a failed open takes
  -- nothing over.
  pub lzx_session-LzxBalanced : (cs : List LzxCall) (heap : Heap) → LzxBalanced cs heap
  lzx_session-LzxBalanced cs heap = record {
    child = λ has_extension parent path.
        let r = lzx_open L has_extension parent path heap in
        balanced cs r.0.handle heap r.1 nothing (lzx_open-Moves L has_extension parent path heap);
    cloned = λ source.
        let r = lzx_clone L source heap in
        balanced cs r.0.handle heap r.1 nothing (lzx_clone-Moves L source heap);
    in_memory = λ buffer memory path.
        let r = vfs_open_memory L buffer memory path heap in
        balanced cs r.0.handle heap r.1 (gives true buffer r.0.handle)
          (vfs_open_memory-Moves L buffer memory path heap);
  }
