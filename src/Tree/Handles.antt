-- ===== src/Tree/Handles.antt =====
-- The driver handles of a mount's tree (src/vfs/vfs_tree.c): closing the resources of nodes closes each
-- handle that they held once.
pub mod Removal
use flowi_vfs.Common.{
  ℕ, ◌+◌, ◌≡◌, ◌≢◌, refl, not, ◌&&◌, inl, inr, List, [], ◌∷◌, ◌++◌, none, some, ◌==◌, if◌then◌else◌,
  arith, Option-cases,
}
use flowi_vfs.Drivers.Ledger.{Owned}
use flowi_vfs.Tree.{
  NodeData, Node, node, Siblings, end, sibling, holds_handle, close_slots, close_node_resources,
  remove_node_recursive, remove_children, cleanup_node, cleanup_children,
}

module _ (entry h : ℕ) where
  -- How often the handle is closed.
  unfoldable pub closes : List Owned → ℕ
  closes [] = 0
  closes ((e, g) ∷ os) = (if (e == entry) && (g == h) then 1 else 0) + closes os

  -- Whether a node's slots hold the handle, however many do.
  unfoldable pub held : NodeData → ℕ
  held n = elim n.plugin_entry [
    | none ↦ 0
    | some e ↦ if (e == entry) && holds_handle h n.handles then 1 else 0
  ]

  unfoldable mutual
    -- The nodes that hold the handle.
    pub held_by : Node → ℕ
    held_by (node n kids) = held n + held_by_siblings kids

    pub held_by_siblings : Siblings → ℕ
    held_by_siblings end = 0
    held_by_siblings (sibling c cs) = held_by c + held_by_siblings cs

  pub closes-append : (xs ys : List Owned) → closes (xs ++ ys) ≡ closes xs + closes ys
  unfolding closes
  closes-append [] ys = omega arith
  closes-append ((e, g) ∷ xs) ys = omega (arith, closes-append xs ys)

  module _ (live : h ≢ 0) where
    closes-close_slots :
        (e : ℕ) (closed hs : List ℕ)
        → closes (close_slots e closed hs)
          ≡ (if (e == entry) && (holds_handle h hs && not (holds_handle h closed)) then 1 else 0)
    unfolding closes close_slots holds_handle
    closes-close_slots e closed [] = ground arith
    closes-close_slots e closed (g ∷ gs) =
        ground (arith, closes-close_slots e closed gs, closes-close_slots e (g ∷ closed) gs)

    closes-close_node_resources : (n : NodeData) → closes (close_node_resources n).1 ≡ held n
    unfolding close_node_resources held closes holds_handle
    closes-close_node_resources n = elim (Option-cases n.plugin_entry) [
      | inl e ↦ rw e
      | inr (a, e) ↦ rw e (ground (arith, closes-close_slots a [] n.handles))
    ]

    held-close_node_resources : (n : NodeData) → held (close_node_resources n).0 ≡ 0
    unfolding close_node_resources held holds_handle
    held-close_node_resources n = elim (Option-cases n.plugin_entry) [
      | inl e ↦ ground (arith, e)
      | inr (a, e) ↦ ground (arith, e)
    ]

    mutual
      unfolding remove_node_recursive held_by closes

      pub closes-remove_node_recursive : (t : Node) → closes (remove_node_recursive t) ≡ held_by t
      closes-remove_node_recursive (node n kids) = omega (
        arith,
        closes-append (remove_children kids) (close_node_resources n).1,
        closes-remove_children kids,
        closes-close_node_resources n,
      )

      closes-remove_children : (cs : Siblings) → closes (remove_children cs) ≡ held_by_siblings cs
      closes-remove_children end = refl
      closes-remove_children (sibling c cs) = omega (
        arith,
        closes-append (remove_node_recursive c) (remove_children cs),
        closes-remove_node_recursive c,
        closes-remove_children cs,
      )

    mutual
      unfolding cleanup_node held_by closes

      cleanup_node-step :
          (t : Node) → (closes (cleanup_node t).1 ≡ held_by t) × (held_by (cleanup_node t).0 ≡ 0)
      cleanup_node-step (node n kids) =
          let k = cleanup_children-step kids in
          (
            omega (
              arith,
              closes-append (cleanup_children kids).1 (close_node_resources n).1,
              k.0,
              closes-close_node_resources n,
            ),
            omega (arith, k.1, held-close_node_resources n),
          )

      cleanup_children-step :
          (cs : Siblings)
          → (closes (cleanup_children cs).1 ≡ held_by_siblings cs)
            × (held_by_siblings (cleanup_children cs).0 ≡ 0)
      cleanup_children-step end = (refl, refl)
      cleanup_children-step (sibling c cs) =
          let k = cleanup_node-step c in
          let r = cleanup_children-step cs in
          (
            omega (arith, closes-append (cleanup_node c).1 (cleanup_children cs).1, k.0, r.0),
            omega (arith, k.1, r.1),
          )

    -- Cleaning a tree up closes a handle that is not null once for each node that held it, and
    -- afterwards no node holds it.
    pub closes-cleanup_node :
        (t : Node) → (closes (cleanup_node t).1 ≡ held_by t) × (held_by (cleanup_node t).0 ≡ 0)
    closes-cleanup_node t = cleanup_node-step t
