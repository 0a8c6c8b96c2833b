-- ===== src/Listing/Scores.antt =====
-- The filter of `vfs_op_list` (src/vfs/vfs_ops.c): its insertion sort keeps the entries and puts them in
-- order of their scores.
use mathlib.Core.List.{reverse_aux, reverse_perm, Perm, perm_middle, append-nil}
use mathlib.Core.List.Perm
use flowi_vfs.Common.{◌≡◌, Bool, true, false, inl, inr, List, [], ◌∷◌, ◌++◌, Bool-cases}
use flowi_vfs.Handles.{Entry}
use flowi_vfs.Drivers.{FilePath}
use flowi_vfs.Listing.{shift_in, sort_into, sort_by_score}

module _ {S : Type 0} (less : S → S → Bool) (has_match : FilePath → FilePath → Bool)
    (match_score : FilePath → FilePath → S) where
  shift_in-perm :
      (key : Entry × S) (ps : List (Entry × S))
      → Perm (shift_in less has_match match_score key ps) (key ∷ ps)
  unfolding shift_in
  shift_in-perm key [] = Perm.rfl
  shift_in-perm key (p ∷ ps) = elim (Bool-cases (less p.1 key.1)) [
    | inl yes_ ↦ rw yes_ (Perm.trans (Perm.cons p (shift_in-perm key ps)) (Perm.swap key p ps))
    | inr no_ ↦ rw no_ Perm.rfl
  ]

  sort_into-perm :
      (sorted xs : List (Entry × S))
      → Perm (sort_into less has_match match_score sorted xs) (xs ++ sorted)
  unfolding sort_into
  sort_into-perm sorted [] = Perm.rfl
  sort_into-perm sorted (x ∷ xs) =
      Perm.trans (sort_into-perm (shift_in less has_match match_score x sorted) xs)
        (Perm.trans (Perm.append_left xs (shift_in-perm x sorted)) (perm_middle xs sorted))

  -- Sorting scored entries keeps every entry: the result is a permutation.
  pub sort_by_score-perm :
      (xs : List (Entry × S)) → Perm (sort_by_score less has_match match_score xs) xs
  unfolding sort_by_score
  sort_by_score-perm xs =
      Perm.trans (reverse_perm (sort_into less has_match match_score [] xs))
        (rw append-nil at (sort_into-perm [] xs))

  -- No score is below the one behind it.
  abbrev pub Descending : List (Entry × S) → Type 0
  Descending [] = Unit
  Descending (x ∷ []) = Unit
  Descending (x ∷ y ∷ ys) = (less x.1 y.1 ≡ false) × Descending (y ∷ ys)

  -- The same of a list that is held with its last element first.
  abbrev Ascending : List (Entry × S) → Type 0
  Ascending [] = Unit
  Ascending (x ∷ []) = Unit
  Ascending (x ∷ y ∷ ys) = (less y.1 x.1 ≡ false) × Ascending (y ∷ ys)

  module _ (asymmetric : (a b : S) → less a b ≡ true → less b a ≡ false) where
    shift_in-behind :
        (key p : Entry × S) (ps : List (Entry × S))
        → less p.1 key.1 ≡ true
        → Ascending (p ∷ ps)
        → Ascending (shift_in less has_match match_score key ps)
        → Ascending (p ∷ shift_in less has_match match_score key ps)
    unfolding shift_in
    shift_in-behind key p [] lt s t = (asymmetric p.1 key.1 lt, tt)
    shift_in-behind key p (q ∷ qs) lt s t = elim (Bool-cases (less q.1 key.1)) [
      | inl yes_ ↦ rw yes_ (s.0, rw yes_ at t)
      | inr no_ ↦ rw no_ (asymmetric p.1 key.1 lt, rw no_ at t)
    ]

    tail-Ascending : (p : Entry × S) (ps : List (Entry × S)) → Ascending (p ∷ ps) → Ascending ps
    tail-Ascending p [] s = tt
    tail-Ascending p (q ∷ qs) s = s.1

    shift_in-Ascending :
        (key : Entry × S) (ps : List (Entry × S))
        → Ascending ps
        → Ascending (shift_in less has_match match_score key ps)
    unfolding shift_in
    shift_in-Ascending key [] s = tt
    shift_in-Ascending key (p ∷ ps) s = elim (Bool-cases (less p.1 key.1)) [
      | inl yes_ ↦
          rw yes_
            (shift_in-behind key p ps yes_ s (shift_in-Ascending key ps (tail-Ascending p ps s)))
      | inr no_ ↦ rw no_ (no_, s)
    ]

    sort_into-Ascending :
        (sorted xs : List (Entry × S))
        → Ascending sorted
        → Ascending (sort_into less has_match match_score sorted xs)
    unfolding sort_into
    sort_into-Ascending sorted [] s = s
    sort_into-Ascending sorted (x ∷ xs) s =
        sort_into-Ascending (shift_in less has_match match_score x sorted) xs
          (shift_in-Ascending x sorted s)

    -- Reversing onto a list whose head is not above the last score.
    abbrev Meets : List (Entry × S) → List (Entry × S) → Type 0
    Meets [] acc = Unit
    Meets (x ∷ xs) [] = Unit
    Meets (x ∷ xs) (a ∷ acc) = less x.1 a.1 ≡ false

    Meets-nil : (xs : List (Entry × S)) → Meets xs []
    Meets-nil [] = tt
    Meets-nil (x ∷ xs) = tt

    reverse_aux-Descending :
        (xs acc : List (Entry × S))
        → Ascending xs
        → Meets xs acc
        → Descending acc
        → Descending (reverse_aux xs acc)
    reverse_aux-Descending [] acc s m d = d
    reverse_aux-Descending (x ∷ []) [] s m d = tt
    reverse_aux-Descending (x ∷ []) (a ∷ acc) s m d = (m, d)
    reverse_aux-Descending (x ∷ y ∷ ys) [] s m d =
        reverse_aux-Descending (y ∷ ys) (x ∷ []) s.1 s.0 tt
    reverse_aux-Descending (x ∷ y ∷ ys) (a ∷ acc) s m d =
        reverse_aux-Descending (y ∷ ys) (x ∷ a ∷ acc) s.1 s.0 (m, d)

    -- Sorting scored entries leaves no score below the one behind it, if of two scores at most one
    -- is below the other.
    pub sort_by_score-Descending :
        (xs : List (Entry × S)) → Descending (sort_by_score less has_match match_score xs)
    unfolding sort_by_score
    sort_by_score-Descending xs =
        reverse_aux-Descending (sort_into less has_match match_score [] xs) []
          (sort_into-Ascending [] xs tt) (Meets-nil (sort_into less has_match match_score [] xs)) tt
