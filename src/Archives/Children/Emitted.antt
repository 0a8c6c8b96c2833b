-- ===== src/Archives/Children/Emitted.antt =====
-- The entries that the listing of an archive emits (src/vfs/drivers/archive_common.h): each child once.
use flowi_vfs.Common.{
  ℕ, ◌+◌, ◌≡◌, refl, ap, Bool, true, false, ◌||◌, inl, inr, List, [], ◌∷◌, ◌++◌, Option, none, some,
  if◌then◌else◌, arith, All, Bool-cases, Option-cases,
}
use flowi_vfs.Drivers.{FilePath}
use flowi_vfs.Handles.{Entry}
use flowi_vfs.Tree.{string_equals}
use flowi_vfs.Tree.Sorted.{string_equals_refl, string_equals_eq}
use flowi_vfs.Archives.{CachedEntry, child_of, seen_name, list_loop, list_children}
use flowi_vfs.Archives.Children.{Any, Spells}
use flowi_vfs.Archives.Children.Names.{Named, child_of-Spells, Spells-child_of}

-- A callback that goes on and keeps what it is given, in order.
abbrev pub recorder : Entry → List Entry → Bool × List Entry
recorder e out = (true, out ++ e ∷ [])

-- How often a name was emitted.
unfoldable pub count_name : FilePath → List Entry → ℕ
count_name name [] = 0
count_name name (e ∷ es) = (if string_equals e.name name then 1 else 0) + count_name name es

count_name-append :
    (name : FilePath) (xs ys : List Entry)
    → count_name name (xs ++ ys) ≡ count_name name xs + count_name name ys
unfolding count_name
count_name-append name [] ys = omega arith
count_name-append name (x ∷ xs) ys = omega (arith, count_name-append name xs ys)

All-append :
    (P : Entry → Type 0) (out : List Entry) (e : Entry) → All P out → P e → All P (out ++ e ∷ [])
All-append P [] e a p = (p, tt)
All-append P (x ∷ out) e a p = (a.0, All-append P out e a.1 p)

named_test : FilePath → Option Entry → Bool
named_test name none = false
named_test name (some e) = string_equals e.name name

any_named : FilePath → FilePath → List CachedEntry → Bool
any_named path name [] = false
any_named path name (c ∷ cs) = named_test name (child_of path c) || any_named path name cs

same_seen :
    (m n : FilePath) (seen : List FilePath)
    → string_equals m n ≡ true
    → seen_name m seen ≡ seen_name n seen
same_seen m n seen e = ap (λ x. seen_name x seen) (string_equals_eq m n e)

module _ (path : FilePath) where
  -- The names that were seen are those that were emitted, and a step emits a name at most once.
  count-list_loop :
      (cs : List CachedEntry) (seen : List FilePath) (out : List Entry) (name : FilePath)
      → ((n : FilePath) → count_name n out ≡ (if seen_name n seen then 1 else 0))
      → count_name name (list_loop recorder path cs seen out).1
        ≡ (if seen_name name seen || any_named path name cs then 1 else 0)
  unfolding list_loop any_named named_test seen_name count_name
  count-list_loop [] seen out name sync = ground (arith, sync name)
  count-list_loop (c ∷ cs) seen out name sync = elim (Option-cases (child_of path c)) [
    | inl e ↦ rw (list_loop, any_named, e) (count-list_loop cs seen out name sync)
    | inr (x, e) ↦ elim (Bool-cases (seen_name x.name seen)) [
      | inl old ↦
          rw (list_loop, any_named, e, old)
            (ground (arith, count-list_loop cs seen out name sync, same_seen x.name name seen))
      | inr new ↦
          let sync' : (n : FilePath)
              → count_name n (out ++ x ∷ []) ≡ (if seen_name n (x.name ∷ seen) then 1 else 0) =
            λ n.
              ground (arith, count_name-append n out (x ∷ []), sync n, same_seen x.name n seen) in
          rw (list_loop, any_named, e, new)
            (ground (arith, count-list_loop cs (x.name ∷ seen) (out ++ x ∷ []) name sync'))
    ]
  ]

  All-list_loop :
      (P : Entry → Type 0) (cs : List CachedEntry) (seen : List FilePath) (out : List Entry)
      → All (λ c. (e : Entry) → child_of path c ≡ some e → P e) cs
      → All P out
      → All P (list_loop recorder path cs seen out).1
  unfolding list_loop
  All-list_loop P [] seen out from a = a
  All-list_loop P (c ∷ cs) seen out from a = elim (Option-cases (child_of path c)) [
    | inl e ↦ rw (list_loop, e) (All-list_loop P cs seen out from.1 a)
    | inr (x, e) ↦ elim (Bool-cases (seen_name x.name seen)) [
      | inl old ↦ rw (list_loop, e, old) (All-list_loop P cs seen out from.1 a)
      | inr new ↦
          rw (list_loop, e, new)
            (All-list_loop P cs (x.name ∷ seen) (out ++ x ∷ []) from.1
              (All-append P out x a (from.0 x e)))
    ]
  ]

-- A name is given to the callback once if some entry of the archive is a child of the path under
-- that name, and otherwise not at all.
pub record ListsChildren (path : FilePath) (cs : List CachedEntry) (out : List Entry) : Type 0 where
  pub once : (name : FilePath) → Any (λ c. Spells path c.path name) cs → count_name name out ≡ 1
  pub no_others :
      (name : FilePath) → ¬ Any (λ c. Spells path c.path name) cs → count_name name out ≡ 0
  -- What is said of it is what one of those entries says.
  pub from_archive : All (λ e. Any (λ c. child_of path c ≡ some e) cs) out

each_from :
    (path : FilePath) (cs : List CachedEntry)
    → All (λ c. (e : Entry) → child_of path c ≡ some e → Any (λ d. child_of path d ≡ some e) cs) cs
each_from path cs = go (λ e. Any (λ d. child_of path d ≡ some e) cs) cs (λ e a. a)
  where
    go :
        (P : Entry → Type 0) (ds : List CachedEntry)
        → ((e : Entry) → Any (λ d. child_of path d ≡ some e) ds → P e)
        → All (λ c. (e : Entry) → child_of path c ≡ some e → P e) ds
    go P [] keep = tt
    go P (d ∷ ds) keep = (λ e q. keep e (inl q), go P ds (λ e a. keep e (inr a)))

any_named-child :
    (path name : FilePath) (cs : List CachedEntry)
    → Any (λ c. Spells path c.path name) cs
    → any_named path name cs ≡ true
unfolding any_named named_test
any_named-child path name [] a = absurd a
any_named-child path name (c ∷ cs) (inr a) = ground (arith, any_named-child path name cs a)
any_named-child path name (c ∷ cs) (inl i) = go (child_of path c) (Spells-child_of path name c i)
  where
    go : (o : Option Entry) → Named name o → (named_test name o || any_named path name cs) ≡ true
    go none n = absurd n
    go (some e) n = rw n (ground (arith, string_equals_refl name))

child-any_named :
    (path name : FilePath) (cs : List CachedEntry)
    → any_named path name cs ≡ true
    → Any (λ c. Spells path c.path name) cs
unfolding any_named named_test
child-any_named path name [] a = cc
child-any_named path name (c ∷ cs) a = elim (Bool-cases (named_test name (child_of path c))) [
  | inl hit ↦ inl (child_of-Spells path name c (go (child_of path c) hit))
  | inr miss ↦ inr (child-any_named path name cs (ground (arith, miss)))
]
  where
    go : (o : Option Entry) → named_test name o ≡ true → Named name o
    go none n = cc
    go (some e) n = string_equals_eq e.name name n

-- `.` stands for the root of the archive.
abbrev pub listed_path : FilePath → FilePath
listed_path path = if string_equals path (46 ∷ []) then [] else path

-- Listing the cached entries of an archive with a callback that goes on: a name is emitted once if
-- it is the segment behind the path (`.` is the root) in the path of some entry, not empty and
-- without a slash, and not at all otherwise.
pub list_children-ListsChildren :
    (path : FilePath) (cs : List CachedEntry)
    → ListsChildren (listed_path path) cs (list_children recorder cs path [])
unfolding list_children seen_name
list_children-ListsChildren path cs =
    let counted = λ (name : FilePath).
      count-list_loop (listed_path path) cs [] [] name (λ n. unfold count_name seen_name in refl) in
    record {
      once = λ name a. ground (arith, counted name, any_named-child (listed_path path) name cs a);
      no_others = λ name none_. elim (Bool-cases (any_named (listed_path path) name cs)) [
        | inl some_ ↦ absurd (none_ (child-any_named (listed_path path) name cs some_))
        | inr absent ↦ ground (arith, counted name, absent)
      ];
      from_archive =
          All-list_loop (listed_path path) _ cs [] [] (each_from (listed_path path) cs) tt;
    }
