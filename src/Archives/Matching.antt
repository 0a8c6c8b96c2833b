-- ===== src/Archives/Matching.antt =====
-- When an entry's path and a target match (src/vfs/drivers/archive_common.h).
use flowi_vfs.Common.{
  ℕ, zero, suc, ◌+◌, ◌-◌, ◌≡◌, refl, ◌∙◌, true, ◌&&◌, ◌⊎◌, ◌↔◌, inl, inr, [], ◌∷◌, ◌++◌, ◌==◌,
  arith, length, Bool-cases, length-append,
}
use flowi_vfs.Drivers.{FilePath}
use flowi_vfs.Tree.{string_equals}
use flowi_vfs.Tree.Sorted.{string_equals_refl, string_equals_eq}
use flowi_vfs.Archives.{slash, slash_at, same_prefix, entry_path_matches}

-- A string that is one byte longer, ends in a slash and begins like the other is the other and a slash.
slash_ends :
    (s t : FilePath)
    → length s ≡ length t + 1
    → slash_at (length t) s ≡ true
    → same_prefix (length t) s t ≡ true
    → s ≡ t ++ slash ∷ []
unfolding slash_at same_prefix
slash_ends [] t l a p = absurd (omega arith)
slash_ends (c ∷ []) [] l a p = ground arith
slash_ends (c ∷ d ∷ s) [] l a p = absurd (omega arith)
slash_ends (c ∷ s) (d ∷ t) l a p = ground (arith, slash_ends s t)

slash_at-append : (t : FilePath) → slash_at (length t) (t ++ slash ∷ []) ≡ true
unfolding slash_at
slash_at-append [] = refl
slash_at-append (c ∷ t) = slash_at-append t

same_prefix-append : (t r : FilePath) → same_prefix (length t) (t ++ r) t ≡ true
unfolding same_prefix
same_prefix-append [] r = refl
same_prefix-append (c ∷ t) r = ground (arith, same_prefix-append t r)

same_prefix_sym : (n : ℕ) (s t : FilePath) → same_prefix n s t ≡ same_prefix n t s
unfolding same_prefix
same_prefix_sym zero s t = refl
same_prefix_sym (suc n) [] [] = refl
same_prefix_sym (suc n) [] (d ∷ t) = refl
same_prefix_sym (suc n) (c ∷ s) [] = refl
same_prefix_sym (suc n) (c ∷ s) (d ∷ t) = ground (arith, same_prefix_sym n s t)

-- Equal up to one slash at the end of one of them.
abbrev pub SamePath : FilePath → FilePath → Type 0
SamePath entry target =
    (entry ≡ target) ⊎ ((entry ≡ target ++ slash ∷ []) ⊎ (target ≡ entry ++ slash ∷ []))

one_slash :
    (s t : FilePath) (a b : ℕ)
    → a ≡ length t
    → b ≡ length t
    → length s ≡ length t + 1
    → slash_at a s ≡ true
    → same_prefix b s t ≡ true
    → s ≡ t ++ slash ∷ []
one_slash s t a b ea eb l at_ p = slash_ends s t l (rw ea at at_) (rw eb at p)

matches→SamePath :
    (entry target : FilePath) → entry_path_matches entry target ≡ true → SamePath entry target
unfolding entry_path_matches
matches→SamePath entry target m = elim (Bool-cases (string_equals entry target)) [
  | inl same ↦ inl (string_equals_eq entry target same)
  | inr differ ↦
      elim (Bool-cases (
        (length entry == length target + 1)
        && (slash_at (length entry - 1) entry && same_prefix (length target) entry target))) [
          | inl longer ↦ inr (
              inl (
                one_slash entry target (length entry - 1) (length target) (ground arith) refl
                  (ground arith) (ground arith) (ground arith)))
          | inr shorter ↦ inr (
              inr (
                one_slash target entry (length target - 1) (length target - 1) (ground arith)
                  (ground arith) (ground arith) (ground arith)
                  (ground (arith, same_prefix_sym (length target - 1) entry target))))
        ]
]

-- A string and a slash behind it.
longer-SlashFacts :
    (s t : FilePath) (n : ℕ)
    → s ≡ t ++ slash ∷ []
    → n ≡ length t
    → (length s ≡ length t + 1) × (slash_at n s ≡ true) × (same_prefix n s t ≡ true)
longer-SlashFacts s t n e k =
    rw (e, k) (length-append t (slash ∷ []), slash_at-append t, same_prefix-append t (slash ∷ []))

SamePath→matches :
    (entry target : FilePath) → SamePath entry target → entry_path_matches entry target ≡ true
unfolding entry_path_matches
SamePath→matches entry target (inl e) = ground (arith, e, string_equals_refl entry)
SamePath→matches entry target (inr (inl e)) =
    let f = longer-SlashFacts entry target (length target) e refl in
    let n : length entry - 1 ≡ length target = omega (arith, f.0) in
    let a : slash_at (length entry - 1) entry ≡ true = rw n f.1 in ground (arith, f, a)
SamePath→matches entry target (inr (inr e)) =
    let f = longer-SlashFacts target entry (length entry) e refl in
    let n : length target - 1 ≡ length entry = omega (arith, f.0) in
    let a : slash_at (length target - 1) target ≡ true = rw n f.1 in
    let p : same_prefix (length target - 1) entry target ≡ true =
      rw n (same_prefix_sym (length entry) entry target ∙ f.2) in
    ground (arith, f, a, p)

-- The comparison of an entry with a target answers yes exactly if the two are the same, or one of
-- them is the other with one slash more at its end.
pub entry_path_matches-SamePath :
    (entry target : FilePath) → (entry_path_matches entry target ≡ true) ↔ SamePath entry target
entry_path_matches-SamePath entry target =
    (matches→SamePath entry target, SamePath→matches entry target)
