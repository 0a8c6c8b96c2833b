-- ===== src/Lhasa/Operations/Ownership.antt =====
-- What a handle of the LHA driver (src/vfs/drivers/lhasa.c) owns, and that no function loses or frees
-- twice any of it.
use flowi_vfs.Common.{
  ℕ, ◌+◌, ◌≡◌, ◌≢◌, refl, sym, subst, false, not, Option, none, some, ◌==◌, if◌then◌else◌, arith,
  inl, inr, Bool-cases, Option-cases,
}
use flowi_vfs.Drivers.{FilePath}
use flowi_vfs.Heap.{Heap, acquire, release, free_option}
use flowi_vfs.Heap.Moves.{
  Moves, count, holds_one, holds_option, acquire-Moves, release-Moves, free_option-Moves,
}
use flowi_vfs.Lhasa.{
  LhaLibrary, LhasaHandle, open_from_memory, open_reader, free_reader, reset_reader, find_on,
  has_cache, find_lha_entry, cache_on, build_entry_cache,
}

-- The parts of the reader.
unfoldable pub reader_parts : {R : Type 0} → LhasaHandle R → ℕ → ℕ
reader_parts h a = holds_one h.mem_stream a + holds_one h.stream a + holds_option h.reader a

-- The others, the buffer only if it is the handle's.
unfoldable pub other_parts : {R : Type 0} → LhasaHandle R → ℕ → ℕ
other_parts h a =
    holds_one h.address a
    + holds_one h.archive_path.address a
    + holds_one h.target_path.address a
    + (if h.owns_memory then holds_one h.memory_buffer a else 0)
    + holds_option h.cache a

-- All that a handle owns.
unfoldable pub owns : {R : Type 0} → LhasaHandle R → ℕ → ℕ
unfolding other_parts reader_parts
owns h a = other_parts h a + reader_parts h a

module _ (L : LhaLibrary) where
  pub free_reader-Moves :
      (h : LhasaHandle L.Reader) (heap : Heap)
      → Moves heap (free_reader L h heap).1 (owns h) (owns (free_reader L h heap).0)
  unfolding free_reader owns
  free_reader-Moves h heap a ne =
      let heap1 = free_option h.reader heap in
      ground (
        arith,
        free_option-Moves h.reader heap a ne,
        release-Moves h.stream heap1 a ne,
        release-Moves h.mem_stream (release h.stream heap1) a ne,
      )

  -- A handle without a reader.
  abbrev pub NoReader : LhasaHandle L.Reader → Type 0
  NoReader h = (h.mem_stream ≡ 0) × (h.stream ≡ 0) × (h.reader ≡ none)

  open_reader-Moves :
      (h : LhasaHandle L.Reader) (mem input : ℕ) (heap : Heap)
      → NoReader h
      → let r = open_reader L h mem input (acquire heap) in
        Moves heap r.2 (λ a. owns h a + holds_one mem a + holds_one input a) (owns r.1)
  unfolding owns
  open_reader-Moves h mem input heap bare a ne = ground (
    arith,
    acquire-Moves heap a ne,
    release-Moves input (acquire heap).1 a ne,
    release-Moves mem (release input (acquire heap).1) a ne,
  )

  pub open_from_memory-Moves :
      (h : LhasaHandle L.Reader) (heap : Heap)
      → NoReader h
      → let r = open_from_memory L h heap in Moves heap r.2 (owns h) (owns r.1)
  unfolding open_from_memory
  open_from_memory-Moves h heap bare a ne =
      let (mem, heap1) = acquire heap in
      let (input, heap2) = acquire heap1 in
      ground (
        arith,
        acquire-Moves heap a ne,
        acquire-Moves heap1 a ne,
        release-Moves mem heap2 a ne,
        open_reader-Moves h mem input heap2 bare a ne,
      )

  reset_reader-Moves :
      (h : LhasaHandle L.Reader) (heap : Heap)
      → let r = reset_reader L h heap in Moves heap r.2 (owns h) (owns r.1)
  unfolding reset_reader
  reset_reader-Moves h heap a ne =
      let f = free_reader L h heap in
      let bare : NoReader f.0 = unfold free_reader in (refl, refl, refl) in
      ground (arith, free_reader-Moves h heap a ne, open_from_memory-Moves f.0 f.1 bare a ne)

  find_on-owns :
      (h : LhasaHandle L.Reader) (target : FilePath) (a : ℕ)
      → owns (find_on L h h.reader target).1 a ≡ owns h a
  unfolding owns
  find_on-owns h target a = elim (Option-cases h.reader) [
    | inl e ↦ ground (arith, e)
    | inr (x, e) ↦ ground (arith, e)
  ]

  pub find_lha_entry-Moves :
      (h : LhasaHandle L.Reader) (target : FilePath) (heap : Heap)
      → let r = find_lha_entry L h target heap in Moves heap r.2 (owns h) (owns r.1)
  unfolding find_lha_entry
  find_lha_entry-Moves h target heap a ne =
      let r = reset_reader L h heap in
      ground (arith, reset_reader-Moves h heap a ne, find_on-owns r.1 target a)

  cache_on-Moves :
      (h : LhasaHandle L.Reader) (heap : Heap)
      → has_cache L h ≡ false
      → let r = cache_on L h h.reader (acquire heap) in Moves heap r.1 (owns h) (owns r.0)
  unfolding owns
  cache_on-Moves h heap none_ a ne = elim (Option-cases h.reader) [
    | inl e ↦ old e
    | inr (x, e) ↦ new x e
  ]
    where
      Goal : Type 0
      Goal =
          let r = cache_on L h h.reader (acquire heap) in
          count a r.1.acquired + count a heap.released + owns h a
          ≡ count a heap.acquired + count a r.1.released + owns r.0 a

      old : h.reader ≡ none → Goal
      old e = ground (arith, e, none_, acquire-Moves heap a ne, Option-cases h.cache)

      new : (x : ℕ × L.Reader) → h.reader ≡ some x → Goal
      new x e = ground (arith, e, none_, acquire-Moves heap a ne, Option-cases h.cache)

  open_from_memory-cache :
      (h : LhasaHandle L.Reader) (heap : Heap) → (open_from_memory L h heap).1.cache ≡ h.cache
  unfolding open_from_memory
  open_from_memory-cache h heap = ground arith

  reset_reader-cache :
      (h : LhasaHandle L.Reader) (heap : Heap) → (reset_reader L h heap).1.cache ≡ h.cache
  unfolding reset_reader free_reader
  reset_reader-cache h heap =
      let f = free_reader L h heap in ground (arith, open_from_memory-cache f.0 f.1)

  pub build_entry_cache-Moves :
      (h : LhasaHandle L.Reader) (heap : Heap)
      → let r = build_entry_cache L h heap in Moves heap r.1 (owns h) (owns r.0)
  unfolding build_entry_cache
  build_entry_cache-Moves h heap a ne =
      let r = reset_reader L h heap in
      elim (Bool-cases (has_cache L h)) [
        | inl cached ↦ ground (arith, cached)
        | inr fresh ↦
            let fresh' : has_cache L r.1 ≡ false =
              subst
                (λ c. elim c [ none ↦ false | some (arena, entries) ↦ not (arena == 0) ] ≡ false)
                (sym (reset_reader-cache h heap)) fresh in
            ground
              (arith, fresh, reset_reader-Moves h heap a ne, cache_on-Moves r.1 r.2 fresh' a ne)
      ]

  pub owns-free_reader :
      (h : LhasaHandle L.Reader) (heap : Heap) (a : ℕ)
      → a ≢ 0
      → owns (free_reader L h heap).0 a ≡ other_parts h a
  unfolding free_reader owns
  owns-free_reader h heap a ne = ground arith

  other_parts-open :
      (h : LhasaHandle L.Reader) (heap : Heap) (a : ℕ)
      → other_parts (open_from_memory L h heap).1 a ≡ other_parts h a
  unfolding open_from_memory other_parts
  other_parts-open h heap a = ground arith

  other_parts-reset :
      (h : LhasaHandle L.Reader) (heap : Heap) (a : ℕ)
      → other_parts (reset_reader L h heap).1 a ≡ other_parts h a
  unfolding reset_reader
  other_parts-reset h heap a =
      let f = free_reader L h heap in
      let same : other_parts f.0 a ≡ other_parts h a = unfold free_reader other_parts in refl in
      ground (arith, same, other_parts-open f.0 f.1 a)

  other_parts-find_on :
      (h : LhasaHandle L.Reader) (o : Option (ℕ × L.Reader)) (target : FilePath) (a : ℕ)
      → other_parts (find_on L h o target).1 a ≡ other_parts h a
  unfolding other_parts
  other_parts-find_on h none target a = refl
  other_parts-find_on h (some x) target a = refl

  pub other_parts-find :
      (h : LhasaHandle L.Reader) (target : FilePath) (heap : Heap) (a : ℕ)
      → other_parts (find_lha_entry L h target heap).1 a ≡ other_parts h a
  unfolding find_lha_entry
  other_parts-find h target heap a =
      let r = reset_reader L h heap in
      ground (arith, other_parts-reset h heap a, other_parts-find_on r.1 r.1.reader target a)
