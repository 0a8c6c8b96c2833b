-- ===== src/Walk/Slots.antt =====
-- The handle slots of a tree (src/vfs/vfs_tree.c), counted: what adding and replacing children does to them.
use flowi_vfs.Common.{
  ℕ, ◌+◌, ◌≡◌, refl, inl, inr, List, [], ◌∷◌, none, some, ◌==◌, if◌then◌else◌, arith, ℤ,
  is_positive, Bool-cases,
}
use flowi_vfs.Drivers.{FilePath}
use flowi_vfs.Tree.{
  NodeData, Node, node, Siblings, end, sibling, data_of, string_equals, find_child, compare_nodes,
  insert_sorted,
}
use flowi_vfs.Walk.{replace_child}

module _ (entry h : ℕ) where
  unfoldable pub slots_in : List ℕ → ℕ
  slots_in [] = 0
  slots_in (g ∷ gs) = (if g == h then 1 else 0) + slots_in gs

  -- The slots of a node that hold the handle of the entry.
  unfoldable pub node_slots : NodeData → ℕ
  node_slots n = elim n.plugin_entry [
    | none ↦ 0
    | some e ↦ if e == entry then slots_in n.handles else 0
  ]

  unfoldable mutual
    pub slots : Node → ℕ
    slots (node n kids) = node_slots n + sibling_slots kids

    pub sibling_slots : Siblings → ℕ
    sibling_slots end = 0
    sibling_slots (sibling c cs) = slots c + sibling_slots cs

  pub slots-node :
      (n : NodeData) (kids : Siblings) → slots (node n kids) ≡ node_slots n + sibling_slots kids
  unfolding slots
  slots-node n kids = refl

  pub slots-replace_child :
      (name : FilePath) (c c' : Node) (cs : Siblings)
      → find_child name cs ≡ some c
      → sibling_slots (replace_child name c' cs) + slots c ≡ sibling_slots cs + slots c'
  unfolding find_child replace_child slots
  slots-replace_child name c c' end e = cc
  slots-replace_child name c c' (sibling d ds) e =
      elim (Bool-cases (string_equals (data_of d).name name)) [
        | inl same ↦ ground (arith, same, e)
        | inr other ↦ rw other (omega (arith, slots-replace_child name c c' ds (rw other at e)))
      ]

  pub slots-insert_sorted :
      (compare_natural : FilePath → FilePath → ℤ) (c : Node) (cs : Siblings)
      → sibling_slots (insert_sorted compare_natural c cs) ≡ slots c + sibling_slots cs
  unfolding insert_sorted slots
  slots-insert_sorted compare_natural c end = refl
  slots-insert_sorted compare_natural c (sibling d ds) =
      elim (Bool-cases (is_positive (compare_nodes compare_natural c d))) [
        | inl after ↦ rw after (omega (arith, slots-insert_sorted compare_natural c ds))
        | inr here ↦ rw here (omega arith)
      ]
