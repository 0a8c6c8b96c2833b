-- ===== src/Lhasa/Operations/Sessions.antt =====
-- A handle of the LHA driver (src/vfs/drivers/lhasa.c) from its open to its close.
use flowi_vfs.Common.{
  ℕ, ◌+◌, ◌≡◌, refl, ◌∙◌, Bool, true, false, List, Option, none, some, arith, ℤ, inl, inr,
  Option-cases,
}
use flowi_vfs.Drivers.{FilePath}
use flowi_vfs.Handles.{Entry}
use flowi_vfs.Heap.{Heap}
use flowi_vfs.Heap.Moves.{Moves, nothing}
use flowi_vfs.Heap.Sessions.{owns_opened, gives, session, session-Moves}
use flowi_vfs.Lhasa.{LhaLibrary, LhasaHandle, Header, free_reader, find_lha_entry}
use flowi_vfs.Lhasa.Operations.{
  Opened, close, open_path, resolve_target_path, size_of, read_on, position, read_found, read_next,
  read, probe_of, get_size, list_directory, clone, open_memory,
}
use flowi_vfs.Lhasa.Operations.Ownership.{
  owns, other_parts, owns-free_reader, other_parts-find, free_reader-Moves, find_lha_entry-Moves,
  build_entry_cache-Moves,
}
use flowi_vfs.Lhasa.Operations.Balance.{
  close-Moves, open_path-Moves, clone-Moves, open_memory-Moves,
}

module _ (L : LhaLibrary) where
  owns-read_on :
      (h : LhasaHandle L.Reader) (size a : ℕ) → owns (read_on L h h.reader size).1 a ≡ owns h a
  unfolding owns
  owns-read_on h size a = elim (Option-cases h.reader) [
    | inl e ↦ ground (arith, e)
    | inr (x, e) ↦ ground (arith, e)
  ]

  -- Reading on from a search.
  position-Moves :
      (size : ℕ) (f : Option Header) (h h' : LhasaHandle L.Reader) (heap heap' : Heap)
      → Moves heap heap' (owns h) (owns h')
      → let r = position L size (f, h', heap') in Moves heap r.2 (owns h) (owns r.1)
  unfolding owns
  position-Moves size none h h' heap heap' m a ne = m a ne
  position-Moves size (some x) h h' heap heap' m a ne =
      ground (arith, m a ne, owns-read_on (record h' { positioned = true }) size a)

  read_found-Moves :
      (size : ℕ) (f : Option Header) (h h' : LhasaHandle L.Reader) (heap heap' : Heap)
      → Moves heap heap' (owns h) (owns h')
      → let r = read_found L size (f, h', heap') in Moves heap r.2 (owns h) (owns r.1)
  read_found-Moves size none h h' heap heap' m a ne = m a ne
  read_found-Moves size (some x) h h' heap heap' m a ne =
      ground (arith, m a ne, owns-read_on h' size a)

  read_next-Moves :
      (h : LhasaHandle L.Reader) (size : ℕ) (heap : Heap)
      → let r = read_next L h size heap in Moves heap r.2 (owns h) (owns r.1)
  unfolding read_next
  read_next-Moves h size heap a ne =
      let f = find_lha_entry L h h.target_path.bytes heap in
      ground (
        arith,
        owns-read_on h size a,
        position-Moves size f.0 h f.1 heap f.2 (find_lha_entry-Moves L h h.target_path.bytes heap) a
            ne,
      )

  read-Moves :
      (h : LhasaHandle L.Reader) (path : FilePath) (size : ℤ) (heap : Heap)
      → let r = read L h path size heap in Moves heap r.2 (owns h) (owns r.1)
  unfolding read
  read-Moves h path size heap a ne =
      let h' : LhasaHandle L.Reader = record h { positioned = false } in
      let same : owns h' a ≡ owns h a = unfold owns in refl in
      let target = resolve_target_path h path in
      let f = find_lha_entry L h' target heap in
      ground (
        arith,
        read_next-Moves h (size_of size) heap a ne,
        same,
        read_found-Moves (size_of size) f.0 h' f.1 heap f.2 (find_lha_entry-Moves L h' target heap)
            a ne,
      )

  get_size-Moves :
      (h : LhasaHandle L.Reader) (path : FilePath) (heap : Heap)
      → Moves heap (get_size L h path heap).1 nothing nothing
  unfolding get_size
  get_size-Moves h path heap a ne =
      let target = resolve_target_path h path in
      let f = find_lha_entry L (probe_of L h) target heap in
      let before : owns (probe_of L h) a ≡ 0 = unfold owns in ground arith in
      let after : owns (free_reader L f.1 f.2).0 a ≡ 0 =
        owns-free_reader L f.1 f.2 a ne
        ∙ other_parts-find L (probe_of L h) target heap a
        ∙ (unfold other_parts in ground arith) in
      ground (
        arith,
        before,
        after,
        find_lha_entry-Moves L (probe_of L h) target heap a ne,
        free_reader-Moves L f.1 f.2 a ne,
      )

  -- What the host does with an open handle.
  pub data Call : Type 0 where
    call_read : FilePath → ℤ → Call
    call_get_size : FilePath → Call
    call_list_directory : FilePath → Call

  -- One call; a listing is given to a callback that counts.
  unfoldable pub run_call : Call → LhasaHandle L.Reader × Heap → LhasaHandle L.Reader × Heap
  run_call (call_read path size) (h, heap) =
      let (result, h', heap') = read L h path size heap in (h', heap')
  run_call (call_get_size path) (h, heap) =
      let (result, heap') = get_size L h path heap in (h, heap')
  run_call (call_list_directory path) (h, heap) =
      let (n, h', heap') = list_directory L (λ (e : Entry) (n : ℕ). (true, n + 1)) h path 0 heap in
      (h', heap')

  list_directory-Moves :
      {S : Type 0} (callback : Entry → S → Bool × S) (h : LhasaHandle L.Reader) (path : FilePath)
      (s : S) (heap : Heap)
      → let r = list_directory L callback h path s heap in Moves heap r.2 (owns h) (owns r.1)
  unfolding list_directory
  list_directory-Moves callback h path s heap a ne =
      ground (arith, build_entry_cache-Moves L h heap a ne)

  run_call-Moves :
      (c : Call) (h : LhasaHandle L.Reader) (heap : Heap)
      → let r = run_call c (h, heap) in Moves heap r.1 (owns h) (owns r.0)
  unfolding run_call
  run_call-Moves (call_read path size) h heap a ne = read-Moves h path size heap a ne
  run_call-Moves (call_get_size path) h heap a ne = omega (arith, get_size-Moves h path heap a ne)
  run_call-Moves (call_list_directory path) h heap a ne =
      list_directory-Moves (λ (e : Entry) (n : ℕ). (true, n + 1)) h path 0 heap a ne

  -- From an open to the close.
  abbrev pub lha_session : List Call → Opened L.Reader × Heap → Heap
  lha_session calls (o, heap) = session run_call (close L) calls (o.handle, heap)

  -- Whole lives of handles.
  pub record Balanced (cs : List Call) (heap : Heap) : Type 0 where
    pub child :
        (has_extension : FilePath → FilePath → Bool) (parent : Option (LhasaHandle L.Reader))
        (path : FilePath)
        → Moves heap (lha_session cs (open_path L has_extension parent path heap)) nothing nothing
    pub cloned :
        (source : LhasaHandle L.Reader)
        → Moves heap (lha_session cs (clone L source heap)) nothing nothing
    pub in_memory :
        (buffer : ℕ) (memory : List ℕ) (path : FilePath)
        → let r = open_memory L buffer memory path heap in
          Moves heap (lha_session cs r) (gives true buffer r.0.handle) nothing

  -- Whatever the allocator refuses, whatever the archive and whatever calls (reads, sizes,
  -- listings) come between an open of the LHA driver and its close: each address that is not null
  -- is freed as often as it was allocated, when the handle is of an open inside an archive or a
  -- clone; when it is of an open from memory, the buffer that the handle took over is freed once
  -- more, and a failed open takes nothing over.
  balanced :
      (cs : List Call) (o : Option (LhasaHandle L.Reader)) (heap heap' : Heap) (from : ℕ → ℕ)
      → Moves heap heap' from (owns_opened owns o)
      → Moves heap (session run_call (close L) cs (o, heap')) from nothing
  balanced =
      session-Moves run_call (close L) (λ (w : Heap). w.acquired) (λ (w : Heap). w.released) owns
        run_call-Moves (close-Moves L)

  -- Whatever the allocator refuses, whatever the archive and whatever calls (reads, sizes,
  -- listings) come between an open of the LHA driver and its close: each address that is not null
  -- is freed as often as it was allocated, when the handle is of an open inside an archive or a
  -- clone; when it is of an open from memory, the buffer that the handle took over is freed once
  -- more, and a failed open takes nothing over.
  pub session-Balanced : (cs : List Call) (heap : Heap) → Balanced cs heap
  session-Balanced cs heap = record {
    child = λ has_extension parent path.
        let r = open_path L has_extension parent path heap in
        balanced cs r.0.handle heap r.1 nothing (open_path-Moves L has_extension parent path heap);
    cloned = λ source.
        let r = clone L source heap in
        balanced cs r.0.handle heap r.1 nothing (clone-Moves L source heap);
    in_memory = λ buffer memory path.
        let r = open_memory L buffer memory path heap in
        balanced cs r.0.handle heap r.1 (gives true buffer r.0.handle)
          (open_memory-Moves L buffer memory path heap);
  }
