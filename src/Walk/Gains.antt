-- ===== src/Walk/Gains.antt =====
-- What a walk (src/vfs/vfs_tree.c) owes: every handle that it opened is in a slot of the tree, and every
-- handle that it gave a slot is open.
use flowi_vfs.Common.{
  ℕ, ◌+◌, ◌≡◌, Bool, inl, inr, List, [], ◌∷◌, none, some, ltb, arith, ℤ, Bool-cases, Option-cases,
}
use flowi_vfs.Drivers.{FilePath, PluginEntry}
use flowi_vfs.Drivers.Ledger.{Ledger, Owned}
use flowi_vfs.Resolve.Owes.{Owes}
use flowi_vfs.Tree.{NodeData, Node, node, Siblings, find_child, insert_sorted}
use flowi_vfs.Tree.Sorted.{find_child-insert_sorted, string_equals_refl}
use flowi_vfs.Walk.{At, replace_child, enter_child, add_child, walk, walk_and_resolve}
use flowi_vfs.Walk.Slots.{slots-node, slots-replace_child, slots-insert_sorted}
use flowi_vfs.Walk.Entered.{
  Gains, Added, same-Gains, then-Gains, enter_child-Gains, add_child-Added,
}

module _ {W : Type 0} (plugins : List (PluginEntry W)) (reconstruct : ℕ → ℕ → FilePath)
    (compare_natural : FilePath → FilePath → ℤ) (thread_index : ℕ) (for_listing : Bool) where
  lifted-Gains :
      (s : FilePath) (n : NodeData) (kids : Siblings) (c c' : Node) {hs : List Owned} {bs : List ℕ}
      {l : Ledger W}
      → find_child s kids ≡ some c
      → Gains hs bs c c' l
      → Gains hs bs (node n kids) (node n (replace_child s c' kids)) l
  lifted-Gains s n kids c c' e g = record {
    added = g.added;
    owes = g.owes;
    counts = λ a h. omega (
      arith,
      slots-node a h n kids,
      slots-node a h n (replace_child s c' kids),
      slots-replace_child a h s c c' kids e,
      g.counts a h,
    );
  }

  inserted-Gains :
      (s : FilePath) (n : NodeData) (kids : Siblings) (new c c' : Node) {hs : List Owned}
      {bs : List ℕ} {l l' : Ledger W}
      → find_child s kids ≡ none
      → (added : Added s hs bs new c l) → Gains hs bs new c' l'
      → Gains hs bs
          (node n kids)
          (node n (replace_child s c' (insert_sorted compare_natural new kids)))
          l'
  inserted-Gains s n kids new c c' absent added g =
      let placed = insert_sorted compare_natural new kids in
      let found : find_child s placed ≡ some new = ground (
        arith,
        added.named,
        string_equals_refl s,
        find_child-insert_sorted compare_natural new kids s (simp added.named absent),
      ) in
      let g' = lifted-Gains s n placed new c' found g in
      record {
        added = g'.added;
        owes = g'.owes;
        counts = λ a h. omega (
          arith,
          g'.counts a h,
          slots-node a h n kids,
          slots-node a h n placed,
          slots-insert_sorted a h compare_natural new kids,
          added.empty a h,
        );
      }

  pub walk-Gains :
      (ss : List FilePath) (at_ : At W) (i : ℕ) (c : Node) {l : Ledger W} {hs : List Owned}
      {bs : List ℕ}
      → Owes l hs bs
      → let r = walk plugins reconstruct compare_natural thread_index for_listing ss at_ i c l in
        Gains hs bs c r.0 r.2
  unfolding walk
  walk-Gains [] at_ i c {l} {hs} {bs} o = same-Gains hs bs c o
  walk-Gains (s ∷ ss) at_ i (node n kids) {l} {hs} {bs} o =
      elim (Option-cases (find_child s kids)) [
        | inr (c, e) ↦
            let (at', c', l') =
              enter_child plugins reconstruct compare_natural thread_index for_listing at_ i c l in
            let g =
              enter_child-Gains plugins reconstruct compare_natural thread_index for_listing at_ i c
                o in
            let g' = walk-Gains ss at' (i + 1) c' g.owes in
            rw (walk, e) (lifted-Gains s n kids c _ e (then-Gains g g'))
        | inl absent ↦ elim (Option-cases at_.entry) [
          | inl none_ ↦ rw (walk, absent, none_) (same-Gains hs bs (node n kids) o)
          | inr (e, some_) ↦
              let (new, at', c', l') =
                add_child plugins reconstruct compare_natural thread_index for_listing e at_ i s
                  l in
              let a =
                add_child-Added plugins reconstruct compare_natural thread_index for_listing e at_ i
                  s o in
              let g' = walk-Gains ss at' (i + 1) c' a.gains.owes in
              rw (walk, absent, some_)
                (inserted-Gains s n kids new c' _ absent a (then-Gains a.gains g'))
        ]
      ]

  -- Walking a path through a tree, for reading or for a listing, for any drivers: every handle
  -- that the walk opened and did not close is in a slot of the tree afterwards, every slot that
  -- the tree gained holds a handle that is owed, and no buffer stays behind.
  pub walk_and_resolve-Gains :
      (empty : Bool) (segments : List FilePath) (root : Node) {l : Ledger W} {hs : List Owned}
      {bs : List ℕ}
      → Owes l hs bs
      → let r =
          walk_and_resolve plugins reconstruct compare_natural thread_index for_listing empty
            segments root l in
        Gains hs bs root r.0 r.2
  unfolding walk_and_resolve
  walk_and_resolve-Gains empty segments root {l} {hs} {bs} o =
      elim (Bool-cases (ltb thread_index 2)) [
        | inr outside ↦ rw outside (same-Gains hs bs root o)
        | inl worker ↦ elim (Bool-cases empty) [
          | inl here ↦ rw (worker, here) (same-Gains hs bs root o)
          | inr deeper_ ↦ rw (worker, deeper_) (walk-Gains _ _ 0 root o)
        ]
      ]
