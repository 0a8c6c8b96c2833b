-- ===== src/Watcher/Located.antt =====
-- What `vfs_tree_watcher_relative_path` (src/vfs/vfs_tree.c) returns: the part of the path behind the
-- source path, at its first place behind a slash.
use mathlib.Core.List.{append_assoc}
use flowi_vfs.Common.{
  ℕ, zero, suc, ◌+◌, ◌-◌, ◌<◌, ◌≡◌, refl, sym, subst, ap, not, ◌∙◌, ◌≢◌, inl, inr, Bool, true,
  false, ◌&&◌, ◌||◌, [], ◌∷◌, ◌++◌, ◌==◌, leb, arith, length, drop, length-append, Bool-cases, All,
  ==_refl, eq_of_==, &&-split,
}
use flowi_vfs.Drivers.{FilePath}
use flowi_vfs.Watcher.{
  is_slash, begins_with, skip_slashes, below, search_source, watcher_relative_path,
}

-- Whether a path is empty (then `preceded`) or ends with a slash.
abbrev pub ends_with_slash : Bool → FilePath → Bool
ends_with_slash preceded [] = preceded
ends_with_slash preceded (c ∷ cs) = ends_with_slash (is_slash c) cs

abbrev pub starts_with_slash : FilePath → Bool
starts_with_slash [] = false
starts_with_slash (c ∷ cs) = is_slash c

-- The change lies at `rest` below a slash-bounded place of the source path.
pub record Located (source change rest : FilePath) : Type 0 where
  pub before : FilePath
  pub slashes : FilePath
  pub splits : change ≡ before ++ (source ++ (slashes ++ rest))
  pub bounded : ends_with_slash true before ≡ true
  pub only_slashes : All (λ c. is_slash c ≡ true) slashes
  pub skipped : starts_with_slash rest ≡ false

begins_with-append : (source rest : FilePath) → begins_with source (source ++ rest) ≡ true
unfolding begins_with
begins_with-append [] rest = refl
begins_with-append (p ∷ ps) rest = rw (==_refl p, begins_with-append ps rest)

begins_with-drop :
    (source path : FilePath)
    → begins_with source path ≡ true
    → path ≡ source ++ drop (length source) path
unfolding begins_with
begins_with-drop [] path e = refl
begins_with-drop (p ∷ ps) [] e = cc
begins_with-drop (p ∷ ps) (c ∷ cs) e =
    let (same, more) = &&-split (p == c) (begins_with ps cs) e in
    rw (eq_of_== p c same) (ap (λ xs. c ∷ xs) (begins_with-drop ps cs more))

drop-append : (xs ys : FilePath) → drop (length xs) (xs ++ ys) ≡ ys
drop-append [] ys = refl
drop-append (x ∷ xs) ys = drop-append xs ys

-- A slash or the end of the path.
abbrev pub is_bounded : FilePath → Bool
is_bounded [] = true
is_bounded (c ∷ cs) = is_slash c

bounded_here : FilePath → Bool → FilePath → Bool
bounded_here source preceded path =
    not (preceded && begins_with source path) || is_bounded (drop (length source) path)

-- Whether each place of the source path behind a slash is followed by a slash or by the end.
unfoldable pub all_bounded : FilePath → Bool → FilePath → Bool
unfolding bounded_here
all_bounded source preceded [] = bounded_here source preceded []
all_bounded source preceded (c ∷ cs) =
    bounded_here source preceded (c ∷ cs) && all_bounded source (is_slash c) cs

all_bounded-head :
    (source : FilePath) (preceded : Bool) (path : FilePath)
    → all_bounded source preceded path ≡ true
    → bounded_here source preceded path ≡ true
unfolding all_bounded
all_bounded-head source preceded [] e = e
all_bounded-head source preceded (c ∷ cs) e =
    (&&-split (bounded_here source preceded (c ∷ cs)) (all_bounded source (is_slash c) cs) e).0

place-is_bounded :
    (source : FilePath) (preceded : Bool) (before rest : FilePath)
    → ends_with_slash preceded before ≡ true
    → all_bounded source preceded (before ++ (source ++ rest)) ≡ true
    → is_bounded rest ≡ true
unfolding all_bounded bounded_here
place-is_bounded source preceded [] rest b e =
    let here_ = all_bounded-head source preceded (source ++ rest) e in
    simp (b, begins_with-append source rest, drop-append source rest) at here_
place-is_bounded source preceded (c ∷ cs) rest b e =
    place-is_bounded source (is_slash c) cs rest b
      (&&-split (bounded_here source preceded (c ∷ cs ++ (source ++ rest)))
        (all_bounded source (is_slash c) (cs ++ (source ++ rest))) e).1

-- The slashes at the front, and what is behind them.
record Skipped (path : FilePath) : Type 0 where
  slashes : FilePath
  splits : path ≡ slashes ++ skip_slashes path
  only_slashes : All (λ c. is_slash c ≡ true) slashes
  skipped : starts_with_slash (skip_slashes path) ≡ false

skip_slashes-Skipped : (path : FilePath) → Skipped path
unfolding skip_slashes
skip_slashes-Skipped [] = record { slashes = []; splits = refl; only_slashes = tt; skipped = refl }
skip_slashes-Skipped (c ∷ cs) = elim (Bool-cases (is_slash c)) [
  | inl slash ↦
      let s = skip_slashes-Skipped cs in
      record {
        slashes = c ∷ s.slashes;
        splits = rw slash (ap (λ xs. c ∷ xs) s.splits);
        only_slashes = (slash, s.only_slashes);
        skipped = rw slash s.skipped;
      }
  | inr other ↦ record {
    slashes = [];
    splits = rw other;
    only_slashes = tt;
    skipped = rw other other;
  }
]

module _ (source change : FilePath) where
  below-Located :
      (before path : FilePath)
      → change ≡ before ++ path
      → ends_with_slash true before ≡ true
      → begins_with source path ≡ true
      → Located source change (below source path)
  unfolding below
  below-Located before path e b f =
      let s = skip_slashes-Skipped (drop (length source) path) in
      record {
        before = before;
        slashes = s.slashes;
        splits =
            e
            ∙ ap (λ xs. before ++ xs)
                (begins_with-drop source path f ∙ ap (λ xs. source ++ xs) s.splits);
        bounded = b;
        only_slashes = s.only_slashes;
        skipped = s.skipped;
      }

  ends_with_slash-snoc :
      (p : Bool) (xs : FilePath) (c : ℕ) → ends_with_slash p (xs ++ c ∷ []) ≡ is_slash c
  ends_with_slash-snoc p [] c = refl
  ends_with_slash-snoc p (x ∷ xs) c = ends_with_slash-snoc (is_slash x) xs c

  -- The search finds a place that is there.
  search_source-Located :
      (k : ℕ) (preceded : Bool) (pre path before rest : FilePath)
      → change ≡ pre ++ path
      → ends_with_slash true pre ≡ preceded
      → path ≡ before ++ (source ++ rest)
      → ends_with_slash preceded before ≡ true
      → length before < k
      → Located source change (search_source source change k preceded path)
  unfolding search_source
  search_source-Located zero preceded pre path before rest e p f b lt = absurd (omega arith)
  search_source-Located (suc k) preceded pre path [] rest e p f b lt =
      let here : begins_with source path ≡ true = rw f (begins_with-append source rest) in
      rw (b, here) (below-Located pre path e (p ∙ b) here)
  search_source-Located (suc k) preceded pre path (c ∷ cs) rest e p f b lt =
      elim (Bool-cases (preceded && begins_with source path)) [
        | inl hit ↦
            let (slash, more) = &&-split preceded (begins_with source path) hit in
            rw hit (below-Located pre path e (p ∙ slash) more)
        | inr miss ↦
            rw (miss, f)
              (search_source-Located k (is_slash c) (pre ++ c ∷ []) (cs ++ (source ++ rest)) cs rest
                (e
                  ∙ ap (λ xs. pre ++ xs) f
                  ∙ sym (append_assoc pre (c ∷ []) (cs ++ (source ++ rest))))
                (ends_with_slash-snoc true pre c) refl b (omega arith))
      ]

  -- A place of the source path that is not a prefix leaves a longer path.
  longer_change :
      (before rest : FilePath)
      → source ≢ []
      → change ≡ before ++ (source ++ rest)
      → begins_with source change ≡ false
      → ((length source == 0) || leb (length change) (length source)) ≡ false
  longer_change [] rest ne e other = absurd (ground (arith, e, begins_with-append source rest))
  longer_change (c ∷ cs) rest ne e other = ground (
    arith,
    nonempty source ne,
    ap length e,
    length-append cs (source ++ rest),
    length-append source rest,
  )
    where
      nonempty : (xs : FilePath) → xs ≢ [] → 0 < length xs
      nonempty [] ne' = absurd (ne' refl)
      nonempty (x ∷ xs) ne' = omega arith

  watcher_relative_path-Located :
      (before rest : FilePath)
      → source ≢ []
      → change ≡ before ++ (source ++ rest)
      → ends_with_slash true before ≡ true
      → Located source change (watcher_relative_path change source)
  unfolding watcher_relative_path
  watcher_relative_path-Located before rest ne e b = elim (Bool-cases (begins_with source change)) [
    | inl direct ↦ rw direct (below-Located [] change refl refl direct)
    | inr other ↦
        rw (other, longer_change before rest ne e other)
          (search_source-Located (length change - length source + 1) true [] change before rest refl
            refl e b
            (omega (
              arith,
              ap length e,
              length-append before (source ++ rest),
              length-append source rest,
            )))
  ]

  -- A change path whose places of the source path are bounded by slashes lies below such a place.
  pub record Below (rest : FilePath) : Type 0 where
    pub place : Located source change rest
    pub closed : is_bounded (place.slashes ++ rest) ≡ true

  -- For a source path that is not empty and occurs in a change path at its start or behind a
  -- slash, where each such place is followed by a slash or the end: the result is the rest of the
  -- change path behind such a place and all slashes that follow it.
  pub watcher_relative_path-Below :
      (before rest : FilePath)
      → source ≢ []
      → change ≡ before ++ (source ++ rest)
      → ends_with_slash true before ≡ true
      → all_bounded source true change ≡ true
      → Below (watcher_relative_path change source)
  watcher_relative_path-Below before rest ne e b all =
      let l = watcher_relative_path-Located before rest ne e b in
      record {
        place = l;
        closed =
            place-is_bounded source true l.before (l.slashes ++ watcher_relative_path change source)
              l.bounded (subst (λ c. all_bounded source true c ≡ true) l.splits all);
      }

pub skip_slashes-append :
    (slashes rest : FilePath)
    → All (λ c. is_slash c ≡ true) slashes
    → starts_with_slash rest ≡ false
    → skip_slashes (slashes ++ rest) ≡ rest
unfolding skip_slashes
skip_slashes-append [] [] all plain = refl
skip_slashes-append [] (c ∷ cs) all plain = rw plain refl
skip_slashes-append (s ∷ ss) rest all plain = rw all.0 (skip_slashes-append ss rest all.1 plain)

-- For a change path that is the source path, then slashes, then a rest that does not start with a
-- slash, the result is that rest.
pub watcher_relative_path-append :
    (source slashes rest : FilePath)
    → All (λ c. is_slash c ≡ true) slashes
    → starts_with_slash rest ≡ false
    → watcher_relative_path (source ++ (slashes ++ rest)) source ≡ rest
unfolding watcher_relative_path below
watcher_relative_path-append source slashes rest all plain =
    rw (begins_with-append source (slashes ++ rest), drop-append source (slashes ++ rest))
      (skip_slashes-append slashes rest all plain)
