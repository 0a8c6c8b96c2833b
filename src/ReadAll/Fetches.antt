-- ===== src/ReadAll/Fetches.antt =====
-- Fetching the bytes in `vfs_op_read_all` (src/vfs/vfs_ops.c), whatever the driver answers: it ends, and
-- holds one buffer at most.
use flowi_vfs.Common.{
  ℕ, zero, suc, ◌+◌, ◌-◌, ◌<◌, ◌≡◌, refl, Bool, true, false, not, ◌≢◌, inl, inr, List, [], ◌∷◌,
  ◌++◌, Option, some, ltb, if◌then◌else◌, arith, length, ℤ, pos, negsuc, length-append, Bool-cases,
  ltb→lt,
}
use flowi_vfs.ReadAll.{
  Reader, Chunk, read_failed, bytes, Event, malloc_buffer, free_buffer, close_file, notify_failure,
  call_callback, Fetched, fetched, get_size_failed, too_large, out_of_memory, canceled, Fetch,
  take_chunk, stream, read_known, fetch_sized, first_capacity, fetch_streamed, fetch_refused,
}

unfoldable pub times : (Event → ℕ) → List Event → ℕ
times weight [] = 0
times weight (e ∷ es) = weight e + times weight es

pub times-append :
    (weight : Event → ℕ) (xs ys : List Event)
    → times weight (xs ++ ys) ≡ times weight xs + times weight ys
unfolding times
times-append weight [] ys = omega arith
times-append weight (x ∷ xs) ys = omega (arith, times-append weight xs ys)

abbrev pub mallocs : Event → ℕ
mallocs malloc_buffer = 1
mallocs _ = 0

abbrev pub frees : Event → ℕ
frees free_buffer = 1
frees _ = 0

abbrev pub closes : Event → ℕ
closes close_file = 1
closes _ = 0

-- Calls of the caller's callback, with data or to tell a failure.
abbrev pub calls : Event → ℕ
calls notify_failure = 1
calls call_callback = 1
calls _ = 0

module _ {W : Type 0} where
  -- What is held when the bytes are in: a buffer for each allocation that was not freed.
  pub record Held (f : Fetch W) : Type 0 where
    pub balance : times mallocs f.events ≡ times frees f.events + (if f.holds_buffer then 1 else 0)
    pub unclosed : times closes f.events ≡ 0
    pub uncalled : times calls f.events ≡ 0
    pub owns : (xs : List ℕ) → f.ended ≡ fetched xs → f.holds_buffer ≡ true

  unfoldable pub FetchEnds : Option (Fetch W) → Type 0
  FetchEnds o = (f : Fetch W) × (o ≡ some f) × Held f

module _ {W : Type 0} (r : Reader W) (max_read : ℕ) where
  take_chunk-total :
      (loop : ℕ → List ℕ → W → Option (Fetched × W)) (c : ℕ) (acc : List ℕ) (k : Chunk × W)
      → ((acc' : List ℕ) (w' : W)
          → length acc < length acc'
          → (x : Fetched × W) × (loop c acc' w' ≡ some x))
      → (x : Fetched × W) × (take_chunk r max_read loop c acc k ≡ some x)
  unfolding take_chunk
  take_chunk-total loop c acc (read_failed, w) more = (_, refl)
  take_chunk-total loop c acc (bytes [], w) more = (_, refl)
  take_chunk-total loop c acc (bytes (x ∷ xs), w) more =
      more (acc ++ x ∷ xs) w (omega (arith, length-append acc (x ∷ xs)))

  -- The loop ends: every round but the last adds a byte.
  stream-total :
      (fuel capacity : ℕ) (acc : List ℕ) (w : W)
      → max_read - length acc < fuel
      → (x : Fetched × W) × (stream r max_read fuel capacity acc w ≡ some x)
  unfolding stream
  stream-total zero capacity acc w lt = absurd (omega arith)
  stream-total (suc fuel) capacity acc w lt = elim (Bool-cases (ltb (length acc) max_read)) [
    | inr over ↦ rw over (_, refl)
    | inl room ↦ elim (Bool-cases (r.cancel_requested w)) [
      | inl stop ↦ rw (room, stop) (_, refl)
      | inr go ↦
          rw (room, go)
            (oom _ (
              take_chunk-total (stream r max_read fuel) _ acc _
                (λ acc' w' longer. stream-total fuel _ acc' w' (omega (arith, ltb→lt _ _ room)))))
    ]
  ]
    where
      oom :
          (b : Bool) {o : Option (Fetched × W)}
          → (x : Fetched × W) × (o ≡ some x)
          → (x : Fetched × W) × ((if b then some (out_of_memory, w) else o) ≡ some x)
      oom true p = (_, refl)
      oom false p = p

  fetch_refused-Ends :
      (e : Fetched) (events : List Event) (w : W)
      → ((xs : List ℕ) → e ≢ fetched xs)
      → times mallocs events ≡ times frees events
      → times closes events ≡ 0
      → times calls events ≡ 0
      → FetchEnds (fetch_refused r max_read e events w)
  unfolding FetchEnds fetch_refused
  fetch_refused-Ends e events w bad b c d = (
    _,
    refl,
    record { balance = omega arith; unclosed = c; uncalled = d; owns = λ xs q. absurd (bad xs q) },
  )

  fetch_streamed-Ends :
      (o : Option (Fetched × W)) (x : Fetched × W)
      → o ≡ some x
      → FetchEnds (fetch_streamed r max_read o)
  unfolding FetchEnds fetch_streamed times
  fetch_streamed-Ends o x e =
      rw e
        (_, refl, record { balance = refl; unclosed = refl; uncalled = refl; owns = λ xs q. refl })

  if-Ends :
      (b : Bool) (o o' : Option (Fetch W))
      → FetchEnds o
      → FetchEnds o'
      → FetchEnds (if b then o else o')
  unfolding FetchEnds
  if-Ends true o o' p q = p
  if-Ends false o o' p q = q

  holding-Ends :
      (e : Fetched) (w : W)
      → FetchEnds
          (some (record { ended = e; holds_buffer = true; events = malloc_buffer ∷ []; world = w }))
  unfolding FetchEnds times
  holding-Ends e w =
      (_, refl, record { balance = refl; unclosed = refl; uncalled = refl; owns = λ xs q. refl })

  pub fetch_sized-Ends : (size : ℤ) (w : W) → FetchEnds (fetch_sized r max_read size w)
  unfolding fetch_sized times
  fetch_sized-Ends (negsuc n) w =
      fetch_refused-Ends get_size_failed [] w (λ xs e. cc) refl refl refl
  fetch_sized-Ends (pos size) w =
      if-Ends (ltb max_read size) _ _
        (fetch_refused-Ends too_large [] w (λ xs e. cc) refl refl refl)
        (if-Ends (not (r.malloc (if ltb 0 size then size else 1) w)) _ _
          (fetch_refused-Ends out_of_memory [] w (λ xs e. cc) refl refl refl)
          (if-Ends (r.cancel_requested w) _ _ (holding-Ends canceled w) (
            if-Ends (ltb 0 size) _ _
              (holding-Ends (read_known r max_read size w).0 (read_known r max_read size w).1)
              (if-Ends (not (r.malloc first_capacity w)) _ _
                (fetch_refused-Ends out_of_memory (malloc_buffer ∷ free_buffer ∷ []) w (λ xs e. cc)
                  refl refl refl)
                (fetch_streamed-Ends _ streamed.0 streamed.1)))))
    where
      streamed : (x : Fetched × W) × (stream r max_read (suc max_read) first_capacity [] w ≡ some x)
      streamed = stream-total (suc max_read) first_capacity [] w (omega arith)
