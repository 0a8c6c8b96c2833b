-- ===== src/Archives/Children.antt =====
-- Which children a listing of an archive emits (src/vfs/drivers/archive_common.h), against what it means
-- that a name is a child of a path.
pub mod Names
pub mod Emitted
use flowi_vfs.Common.{
  ◌+◌, ◌≤◌, ◌≡◌, ◌≢◌, Bool, ◌⊎◌, inl, inr, List, [], ◌∷◌, ◌++◌, arith, length, All, Bool-cases,
  Option-cases,
}
use flowi_vfs.Drivers.{FilePath}
use flowi_vfs.Handles.{Entry}
use flowi_vfs.Archives.{slash, CachedEntry, child_of, seen_name, list_loop}

-- One element at least satisfies the predicate.
abbrev pub Any : {A : Type 0} → (A → Type 0) → List A → Type 0
Any P [] = ⊥
Any P (x ∷ xs) = P x ⊎ Any P xs

-- A path and what is below it.
abbrev pub under : FilePath → FilePath → FilePath
under [] rest = rest
under (c ∷ path) rest = (c ∷ path) ++ slash ∷ rest

-- Nothing, or a slash and more.
abbrev pub Deeper : FilePath → Type 0
Deeper [] = Unit
Deeper (c ∷ r) = c ≡ slash

-- The name is the segment of the full path that follows the path.
pub record Spells (path full name : FilePath) : Type 0 where
  pub rest : FilePath
  pub spelled : full ≡ under path (name ++ rest)
  pub deeper : Deeper rest
  pub nonempty : name ≢ []
  pub one_segment : All (λ c. c ≢ slash) name

module _ {S : Type 0} (callback : Entry → S → Bool × S) (path : FilePath) where
  -- The listing records at most one name for each cached entry it visits, wherever the callback
  -- stops it, so the array of seen names, which has room for one per entry, is never overrun.
  pub length-list_loop :
      (cs : List CachedEntry) (seen : List FilePath) (s : S)
      → length (list_loop callback path cs seen s).0 ≤ length seen + length cs
  unfolding list_loop
  length-list_loop [] seen s = omega arith
  length-list_loop (c ∷ cs) seen s = elim (Option-cases (child_of path c)) [
    | inl e ↦ rw (list_loop, e) (omega (arith, length-list_loop cs seen s))
    | inr (e, e') ↦ elim (Bool-cases (seen_name e.name seen)) [
      | inl old ↦ rw (list_loop, e', old) (omega (arith, length-list_loop cs seen s))
      | inr new ↦ elim (Bool-cases (callback e s).0) [
        | inl more ↦
            rw (list_loop, e', new, more)
              (omega (arith, length-list_loop cs (e.name ∷ seen) (callback e s).1))
        | inr stop ↦ rw (list_loop, e', new, stop) (omega arith)
      ]
    ]
  ]
