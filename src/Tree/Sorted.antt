-- ===== src/Tree/Sorted.antt =====
-- Sibling lists of src/vfs/vfs_tree.c stay sorted, and a child that was added is found by its name.
use flowi_vfs.Common.{
  ◌≡◌, refl, Bool, true, false, not, inl, inr, [], ◌∷◌, none, some, if◌then◌else◌, arith, ℤ,
  is_positive, Bool-cases,
}
use flowi_vfs.Drivers.{FilePath}
use flowi_vfs.Tree.{
  Node, node, Siblings, end, sibling, data_of, children_of, string_equals, find_child,
  compare_nodes, insert_sorted, add_child_node,
}

pub string_equals_refl : (xs : FilePath) → string_equals xs xs ≡ true
unfolding string_equals
string_equals_refl [] = refl
string_equals_refl (x ∷ xs) = ground (arith, string_equals_refl xs)

pub string_equals_eq : (xs ys : FilePath) → string_equals xs ys ≡ true → xs ≡ ys
unfolding string_equals
string_equals_eq [] [] e = refl
string_equals_eq [] (y ∷ ys) e = cc
string_equals_eq (x ∷ xs) [] e = cc
string_equals_eq (x ∷ xs) (y ∷ ys) e = ground (arith, string_equals_eq xs ys)

module _ (compare_natural : FilePath → FilePath → ℤ) where
  abbrev pub before_or_same : Node → Node → Bool
  before_or_same a b = not (is_positive (compare_nodes compare_natural a b))

  -- No sibling comes after the one behind it.
  abbrev pub Sorted : Siblings → Type 0
  Sorted end = Unit
  Sorted (sibling c end) = Unit
  Sorted (sibling c (sibling d cs)) = (before_or_same c d ≡ true) × Sorted (sibling d cs)

  -- The documented behaviour of the comparison: of two names, at most one comes after the other.
  abbrev pub OneComesAfter : Type 0
  OneComesAfter =
      (a b : FilePath)
      → is_positive (compare_natural a b) ≡ true
      → is_positive (compare_natural b a) ≡ false

  module _ (one : OneComesAfter) where
    compare_nodes-one :
        (a b : Node)
        → is_positive (compare_nodes compare_natural a b) ≡ true
        → before_or_same b a ≡ true
    unfolding compare_nodes
    compare_nodes-one a b e = ground (arith, one (data_of a).name (data_of b).name)

    insert_sorted-behind :
        (child c : Node) (cs : Siblings)
        → before_or_same c child ≡ true
        → Sorted (sibling c cs)
        → Sorted (insert_sorted compare_natural child cs)
        → Sorted (sibling c (insert_sorted compare_natural child cs))
    unfolding insert_sorted
    insert_sorted-behind child c end low s t = (low, tt)
    insert_sorted-behind child c (sibling d ds) low s t =
        elim (Bool-cases (is_positive (compare_nodes compare_natural child d))) [
          | inl after ↦ rw after (s.0, rw after at t)
          | inr here ↦ rw here (low, rw here at t)
        ]

    pub insert_sorted-Sorted :
        (child : Node) (cs : Siblings) → Sorted cs → Sorted (insert_sorted compare_natural child cs)
    unfolding insert_sorted
    insert_sorted-Sorted child end s = tt
    insert_sorted-Sorted child (sibling c cs) s =
        elim (Bool-cases (is_positive (compare_nodes compare_natural child c))) [
          | inl after ↦ rw after (
              insert_sorted-behind child c cs (compare_nodes-one child c after) s
                (insert_sorted-Sorted child cs (tail c cs s)))
          | inr here ↦ rw here (rw here, s)
        ]
      where
        tail : (c : Node) (cs : Siblings) → Sorted (sibling c cs) → Sorted cs
        tail c end s = tt
        tail c (sibling d ds) s = s.1

    -- Adding a child keeps a sorted sibling list sorted, directories before files, if of two names
    -- at most one comes after the other.
    pub add_child_node-Sorted :
        (parent child : Node)
        → Sorted (children_of parent)
        → Sorted (children_of (add_child_node compare_natural parent child))
    unfolding add_child_node
    add_child_node-Sorted (node n kids) child s = insert_sorted-Sorted child kids s

  pub find_child-insert_sorted :
      (child : Node) (cs : Siblings) (name : FilePath)
      → find_child (data_of child).name cs ≡ none
      → find_child name (insert_sorted compare_natural child cs)
        ≡ (if string_equals (data_of child).name name then some child else find_child name cs)
  unfolding find_child insert_sorted
  find_child-insert_sorted child end name absent = ground arith
  find_child-insert_sorted child (sibling c cs) name absent =
      ground
        (arith, find_child-insert_sorted child cs name, string_equals_eq (data_of child).name name)

  -- After a child with a name that was not there is added, its name finds it, and every other name
  -- finds what it found before.
  pub find_child-add_child_node :
      (parent child : Node) (name : FilePath)
      → find_child (data_of child).name (children_of parent) ≡ none
      → find_child name (children_of (add_child_node compare_natural parent child)) ≡ (
          if string_equals (data_of child).name name
          then some child
          else find_child name (children_of parent))
  unfolding add_child_node
  find_child-add_child_node (node n kids) child name absent =
      find_child-insert_sorted child kids name absent
