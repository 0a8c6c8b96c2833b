-- ===== src/ReadAll/Stream.antt =====
-- The chunked loop of `vfs_op_read_all` (src/vfs/vfs_ops.c): it ends, stays inside its buffer, and
-- returns the whole file or an error, never a part of it.
use mathlib.Core.List.{append-nil, append_assoc}
use flowi_vfs.Common.{
  ℕ, zero, suc, ◌-◌, ◌≤◌, ◌<◌, ◌≡◌, refl, ap, true, false, not, inl, inr, List, [], ◌∷◌, ◌++◌,
  Option, some, ltb, leb, if◌then◌else◌, arith, length, length-append, Bool-cases, ltb→lt,
}
use flowi_vfs.ReadAll.{
  Reader, bytes, Fetched, fetched, too_large, grow, probe_end, take_chunk, stream,
}

-- The documented behaviour of `read` on an open file: it delivers the next bytes, at most as many as
-- asked for, and none only at the end. No cancellation comes, and the allocator serves.
pub record Streams {W : Type 0} (r : Reader W) (rest : W → List ℕ) : Type 0 where
  pub got : ℕ → W → List ℕ
  pub after : ℕ → W → W
  pub reads : (n : ℕ) (w : W) → r.read n w ≡ (bytes (got n w), after n w)
  pub delivers : (n : ℕ) (w : W) → rest w ≡ got n w ++ rest (after n w)
  pub bounded : (n : ℕ) (w : W) → length (got n w) ≤ n
  pub ends : (n : ℕ) (w : W) → 0 < n → got n w ≡ [] → rest w ≡ []
  pub uncanceled : (w : W) → r.cancel_requested w ≡ false
  pub served : (n : ℕ) (w : W) → r.malloc n w ≡ true

-- What reading a file with a cap means: all of it, or an error.
abbrev pub whole_or_error : ℕ → List ℕ → Fetched
whole_or_error max_read xs = if leb (length xs) max_read then fetched xs else too_large

-- The loop's outcome, whatever world it leaves.
pub record Yields {W : Type 0} (f : Fetched) (o : Option (Fetched × W)) : Type 0 where
  pub world : W
  pub ran : o ≡ some (f, world)

module _ {W : Type 0} (r : Reader W) (max_read : ℕ) (rest : W → List ℕ) (s : Streams r rest) where
  probe_end-whole :
      (acc : List ℕ) (w : W)
      → length acc ≡ max_read
      → (probe_end r max_read acc w).0 ≡ whole_or_error max_read (acc ++ rest w)
  unfolding probe_end
  probe_end-whole acc w full =
      rw (s.reads 1 w, probe_end) (go (s.got 1 w) (s.delivers 1 w) (s.ends 1 w (omega arith)))
    where
      go :
          (xs : List ℕ)
          → rest w ≡ xs ++ rest (s.after 1 w)
          → (xs ≡ [] → rest w ≡ [])
          → (if ltb 0 (length xs) then too_large else fetched acc)
            ≡ whole_or_error max_read (acc ++ rest w)
      go [] d e = rw (e refl, append-nil acc) (ground arith)
      go (x ∷ xs) d e =
          ground
            (arith, length-append acc (rest w), ap length d, length-append xs (rest (s.after 1 w)))

  room_to_read :
      (capacity : ℕ) (acc : List ℕ)
      → length acc < max_read
      → length acc ≤ capacity
      → 0 < capacity
      → capacity ≤ max_read
      → let c = (if not (ltb (length acc) capacity) then grow max_read capacity else capacity) in
        (length acc < c) × (c ≤ max_read)
  unfolding grow
  room_to_read capacity acc lt le positive small = ground arith

  -- One chunk, given what the loop makes of a longer buffer.
  take_chunk-whole :
      (loop : ℕ → List ℕ → W → Option (Fetched × W)) (c : ℕ) (acc : List ℕ) (w : W)
      → length acc < c
      → c ≤ max_read
      → ((acc' : List ℕ) (w' : W)
          → length acc < length acc'
          → length acc' ≤ c
          → Yields (whole_or_error max_read (acc' ++ rest w')) (loop c acc' w'))
      → Yields
          (whole_or_error max_read (acc ++ rest w))
          (take_chunk r max_read loop c acc (r.read (c - length acc) w))
  unfolding take_chunk
  take_chunk-whole loop c acc w lt small more =
      rw (s.reads n w) (go (s.got n w) (s.delivers n w) (s.bounded n w) (s.ends n w (omega arith)))
    where
      n : ℕ
      n = c - length acc

      go :
          (xs : List ℕ)
          → rest w ≡ xs ++ rest (s.after n w)
          → length xs ≤ n
          → (xs ≡ [] → rest w ≡ [])
          → Yields
              (whole_or_error max_read (acc ++ rest w))
              (take_chunk r max_read loop c acc (bytes xs, s.after n w))
      go [] d b e = rw (e refl, append-nil acc) (record { world = s.after n w; ran = ground arith })
      go (x ∷ xs) d b e =
          rw (d, ← append_assoc acc (x ∷ xs) (rest (s.after n w)))
            (more (acc ++ x ∷ xs) (s.after n w) (omega (arith, length-append acc (x ∷ xs)))
              (omega (arith, length-append acc (x ∷ xs))))

  stream-whole :
      (fuel capacity : ℕ) (acc : List ℕ) (w : W)
      → max_read - length acc < fuel
      → length acc ≤ capacity
      → 0 < capacity
      → capacity ≤ max_read
      → Yields (whole_or_error max_read (acc ++ rest w)) (stream r max_read fuel capacity acc w)
  unfolding stream grow
  stream-whole zero capacity acc w lt le positive small = absurd (omega arith)
  stream-whole (suc fuel) capacity acc w lt le positive small =
      elim (Bool-cases (ltb (length acc) max_read)) [
        | inr over ↦ rw over (record {
          world = (probe_end r max_read acc w).1;
          ran = λ i. some (probe_end-whole acc w (ground arith) i, (probe_end r max_read acc w).1);
        })
        | inl room ↦
            let next : (c : ℕ)
                → length acc < c
                → c ≤ max_read
                → Yields (whole_or_error max_read (acc ++ rest w)) (
                    take_chunk r max_read (stream r max_read fuel) c acc
                      (r.read (c - length acc) w)) =
              λ c lo hi.
                take_chunk-whole (stream r max_read fuel) c acc w lo hi (λ acc' w' longer fits.
                  stream-whole fuel c acc' w' (omega arith) fits (omega arith) hi) in
            elim (Bool-cases (ltb (length acc) capacity)) [
              | inl fits ↦ rw (room, s.uncanceled w, fits) (next capacity (ltb→lt _ _ fits) small)
              | inr full ↦
                  let c = room_to_read capacity acc (ltb→lt _ _ room) le positive small in
                  rw (room, s.uncanceled w, full, s.served (grow max_read capacity) w)
                    (next (grow max_read capacity) (rw full at c).0 (rw full at c).1)
            ]
      ]

  -- Reading a file of unknown size in chunks, when the driver delivers the next bytes, none only
  -- at the end, no cancellation comes, the allocator serves, and the first capacity is positive
  -- and within the cap: it ends, with all the bytes of the file if they are within the cap and
  -- with the error of an oversized file otherwise.
  pub stream-whole_file :
      (capacity : ℕ) (w : W)
      → 0 < capacity
      → capacity ≤ max_read
      → Yields (whole_or_error max_read (rest w)) (stream r max_read (suc max_read) capacity [] w)
  stream-whole_file capacity w positive small =
      stream-whole (suc max_read) capacity [] w (omega arith) (omega arith) positive small
