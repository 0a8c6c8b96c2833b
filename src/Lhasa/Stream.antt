-- ===== src/Lhasa/Stream.antt =====
-- The memory stream of the LHA driver (src/vfs/drivers/lhasa.c) stays within its buffer and delivers it in
-- order.
use flowi_vfs.Common.{
  ℕ, ◌-◌, ◌≤◌, ◌<◌, ◌^◌, ◌≡◌, sym, ap, ◌∙◌, List, ◌++◌, if◌then◌else◌, arith, length, take, drop,
  min, pos, signed_32, length-take, length-drop, take-drop, drop-drop, drop-min, leb,
}
use flowi_vfs.Lhasa.{MemoryStream, mem_read, mem_skip}

-- What the library has not been given yet.
abbrev pub ahead : MemoryStream → List ℕ
ahead s = drop s.pos s.bytes

-- A read and a skip of so many bytes.
pub record Delivers (s : MemoryStream) (n : ℕ) : Type 0 where
  pub count : (mem_read s n).0 ≡ pos (length (mem_read s n).1)
  pub in_order : (mem_read s n).1 ++ ahead (mem_read s n).2 ≡ ahead s
  pub full : length (mem_read s n).1 ≡ min n (length (ahead s))
  pub read_within : (mem_read s n).2.pos ≤ length s.bytes
  pub skipped : ahead (mem_skip s n).1 ≡ drop n (ahead s)
  pub skip_within : (mem_skip s n).1.pos ≤ length s.bytes
  pub skip_answer : (mem_skip s n).0 ≡ (if leb n (length (ahead s)) then 1 else 0)

-- On a memory stream whose position is within its buffer, for fewer than 2^31 bytes: a read
-- delivers the next bytes in order, as many as were asked for or are left, and returns their
-- number; a skip passes over as many and tells whether it passed over all; the position stays
-- within the buffer.
pub mem_read-Delivers :
    (s : MemoryStream) (n : ℕ) → s.pos ≤ length s.bytes → n < 2 ^ 31 → Delivers s n
unfolding mem_read mem_skip
mem_read-Delivers s n within small =
    let left = length-drop s.pos s.bytes in
    let k : ℕ = min n (length s.bytes - s.pos) in
    let given = length-take k (ahead s) in
    let exact : length (take k (ahead s)) ≡ k = omega (arith, given, left) in
    record {
      count = signed_32 k (omega arith) ∙ ap pos (sym exact);
      in_order =
          ap (λ (x : List ℕ). take k (ahead s) ++ x) (sym (drop-drop s.pos k s.bytes))
          ∙ take-drop k (ahead s);
      full = omega (arith, exact, left);
      read_within = omega arith;
      skipped =
          sym (drop-drop s.pos k s.bytes)
          ∙ ap (λ m. drop (min n m) (ahead s)) (sym left)
          ∙ drop-min n (ahead s);
      skip_within = omega arith;
      skip_answer = ground (arith, left);
    }
