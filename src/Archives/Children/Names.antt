-- ===== src/Archives/Children/Names.antt =====
-- The name of a child as the listing computes it is the segment behind the path
-- (src/vfs/drivers/archive_common.h).
use flowi_vfs.Common.{
  suc, ◌≡◌, ◌≢◌, refl, sym, ap, subst, ◌∙◌, Bool, true, false, inl, inr, [], ◌∷◌, ◌++◌, Option,
  none, some, ◌==◌, arith, length, drop, All, Bool-cases, Option-cases, length-append,
}
use flowi_vfs.Drivers.{FilePath}
use flowi_vfs.Handles.{Entry}
use flowi_vfs.Watcher.{begins_with}
use flowi_vfs.Archives.{slash, slash_at, CachedEntry, first_component, child_entry, below, child_of}
use flowi_vfs.Archives.Children.{under, Deeper, Spells}

-- What stands before the first slash.
record Split (x name : FilePath) : Type 0 where
  rest : FilePath
  spelled : x ≡ name ++ rest
  deeper : Deeper rest
  one_segment : All (λ c. c ≢ slash) name

first_component-Split : (x : FilePath) → Split x (first_component x).0
unfolding first_component
first_component-Split [] = record { rest = []; spelled = refl; deeper = tt; one_segment = tt }
first_component-Split (c ∷ x) = elim (Bool-cases (c == slash)) [
  | inl hit ↦
      rw (first_component, hit)
        (record { rest = c ∷ x; spelled = refl; deeper = ground arith; one_segment = tt })
  | inr miss ↦
      let s = first_component-Split x in
      rw (first_component, miss)
        (record {
          rest = s.rest;
          spelled = ap (λ (y : FilePath). c ∷ y) s.spelled;
          deeper = s.deeper;
          one_segment = (λ e. ground (arith, e), s.one_segment);
        })
]

first_component_unique :
    (name rest : FilePath)
    → Deeper rest
    → All (λ c. c ≢ slash) name
    → (first_component (name ++ rest)).0 ≡ name
unfolding first_component
first_component_unique [] [] d o = refl
first_component_unique [] (c ∷ r) d o = ground (arith, d)
first_component_unique (c ∷ name) rest d o =
    ground (arith, o.0, first_component_unique name rest d o.1)

prefix→under :
    (p full : FilePath)
    → begins_with p full ≡ true
    → slash_at (length p) full ≡ true
    → full ≡ p ++ slash ∷ drop (suc (length p)) full
unfolding begins_with slash_at
prefix→under [] [] b s = cc
prefix→under [] (c ∷ full) b s = ground arith
prefix→under (d ∷ p) [] b s = cc
prefix→under (d ∷ p) (c ∷ full) b s = ground (arith, prefix→under p full)

under→prefix :
    (p r : FilePath)
    → (begins_with p (p ++ slash ∷ r) ≡ true)
      × (slash_at (length p) (p ++ slash ∷ r) ≡ true)
      × (drop (suc (length p)) (p ++ slash ∷ r) ≡ r)
unfolding begins_with slash_at
under→prefix [] r = (refl, refl, refl)
under→prefix (d ∷ p) r = ground (arith, under→prefix p r)

below→under : (p full r : FilePath) → below p full ≡ some r → full ≡ under p r
unfolding below
below→under [] full r e = ground arith
below→under (d ∷ p) full r e = ground (arith, prefix→under (d ∷ p) full)

under→below : (p r : FilePath) → below p (under p r) ≡ some r
unfolding below
under→below [] r = refl
under→below (d ∷ p) r = ground (arith, under→prefix (d ∷ p) r, length-append (d ∷ p) (slash ∷ r))

-- The name of an entry that was made for a cached entry.
abbrev pub Named : FilePath → Option Entry → Type 0
Named name none = ⊥
Named name (some e) = e.name ≡ name

Named→name :
    (c : CachedEntry) (first name : FilePath) (nested : Bool)
    → Named name (child_entry c (first, nested))
    → (first ≡ name) × (first ≢ [])
Named→name c [] name nested n = absurd n
Named→name c (x ∷ first) name nested n =
    let long : (suc (length first) == 0) ≡ false = ground arith in (rw long at n, λ e. cc)

name→Named :
    (c : CachedEntry) (first name : FilePath) (nested : Bool)
    → first ≡ name
    → first ≢ []
    → Named name (child_entry c (first, nested))
name→Named c [] name nested e ne = absurd (ne refl)
name→Named c (x ∷ first) name nested e ne =
    let long : (suc (length first) == 0) ≡ false = ground arith in rw (Named, long) e

child_of-below :
    (path : FilePath) (c : CachedEntry) (r : FilePath)
    → below path c.path ≡ some r
    → child_of path c ≡ child_entry c (first_component r)
unfolding child_of
child_of-below path c r e = rw (child_of, e)

pub child_of-Spells :
    (path name : FilePath) (c : CachedEntry)
    → Named name (child_of path c)
    → Spells path c.path name
unfolding child_of
child_of-Spells path name c n = elim (Option-cases (below path c.path)) [
  | inl e ↦
      let none_ : child_of path c ≡ none = rw (child_of, e) in
      absurd (subst (λ o. Named name o) none_ n)
  | inr (r, e) ↦
      let s = first_component-Split r in
      let m =
        Named→name c (first_component r).0 name (first_component r).1
          (subst (λ o. Named name o) (child_of-below path c r e) n) in
      record {
        rest = s.rest;
        spelled =
            below→under path c.path r e
            ∙ ap (λ x. under path x) (s.spelled ∙ ap (λ (x : FilePath). x ++ s.rest) m.0);
        deeper = s.deeper;
        nonempty = λ z. m.1 (m.0 ∙ z);
        one_segment = subst (λ x. All (λ c. c ≢ slash) x) m.0 s.one_segment;
      }
]

pub Spells-child_of :
    (path name : FilePath) (c : CachedEntry)
    → Spells path c.path name
    → Named name (child_of path c)
Spells-child_of path name c i =
    let b : below path c.path ≡ some (name ++ i.rest) =
      subst (λ x. below path x ≡ some (name ++ i.rest)) (sym i.spelled)
        (under→below path (name ++ i.rest)) in
    let u = first_component_unique name i.rest i.deeper i.one_segment in
    subst (λ o. Named name o) (sym (child_of-below path c (name ++ i.rest) b))
      (name→Named c (first_component (name ++ i.rest)).0 name (first_component (name ++ i.rest)).1 u
        (λ z. i.nonempty (sym u ∙ z)))
