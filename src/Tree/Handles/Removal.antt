-- ===== src/Tree/Handles/Removal.antt =====
-- Removing nodes by path (src/vfs/vfs_tree.c), and what that does to the handles of the tree.
use flowi_vfs.Common.{
  ℕ, ◌+◌, ◌≡◌, ◌≢◌, Bool, true, false, not, ◌||◌, inl, inr, List, [], ◌∷◌, Option, none, some, ◌==◌,
  if◌then◌else◌, arith, Bool-cases, length,
}
use flowi_vfs.Drivers.{FilePath}
use flowi_vfs.Drivers.Ledger.{Owned}
use flowi_vfs.Watcher.{watcher_relative_path}
use flowi_vfs.Tree.{
  NodeData, Node, node, Siblings, end, sibling, remove_node_recursive, remove_below,
  remove_node_by_path, string_equals, FileChange, process_change, process_changes,
}
use flowi_vfs.Tree.Handles.{
  closes, held, held_by, held_by_siblings, closes-append, closes-remove_node_recursive,
}

module _ (entry h : ℕ) (live : h ≢ 0) where
  -- What is closed and what is still held make up what was held.
  abbrev RemovalKeeps : Siblings → Option (Siblings × List Owned) → Type 0
  RemovalKeeps cs none = Unit
  RemovalKeeps cs (some (cs', closed)) =
      closes entry h closed + held_by_siblings entry h cs' ≡ held_by_siblings entry h cs

  along-RemovalKeeps :
      (c : Node) (cs : Siblings) (o : Option (Siblings × List Owned))
      → RemovalKeeps cs o
      → RemovalKeeps
          (sibling c cs)
          (elim o [ none ↦ none | some (cs', closed) ↦ some (sibling c cs', closed) ])
  unfolding held_by
  along-RemovalKeeps c cs none k = tt
  along-RemovalKeeps c cs (some (cs', closed)) k = omega (arith, k)

  deeper-RemovalKeeps :
      (n : NodeData) (kids cs : Siblings) (o : Option (Siblings × List Owned))
      → RemovalKeeps kids o
      → RemovalKeeps
          (sibling (node n kids) cs)
          (elim o [ none ↦ none | some (kids', closed) ↦ some (sibling (node n kids') cs, closed) ])
  unfolding held_by
  deeper-RemovalKeeps n kids cs none k = tt
  deeper-RemovalKeeps n kids cs (some (kids', closed)) k = omega (arith, k)

  removed :
      (n : NodeData) (kids cs : Siblings)
      → closes entry h (remove_node_recursive (node n kids)) + held_by_siblings entry h cs
        ≡ held_by_siblings entry h (sibling (node n kids) cs)
  unfolding held_by
  removed n kids cs = omega (arith, closes-remove_node_recursive entry h live (node n kids))

  remove_below-RemovalKeeps :
      (s : FilePath) (ss : List FilePath) (cs : Siblings) → RemovalKeeps cs (remove_below s ss cs)
  unfolding remove_below held_by
  remove_below-RemovalKeeps s ss end = tt
  remove_below-RemovalKeeps s [] (sibling (node n kids) cs) =
      elim (Bool-cases (string_equals n.name s)) [
        | inl hit ↦ rw hit (removed n kids cs)
        | inr miss ↦ rw miss (
            along-RemovalKeeps (node n kids) cs (remove_below s [] cs)
              (remove_below-RemovalKeeps s [] cs))
      ]
  remove_below-RemovalKeeps s (t ∷ ts) (sibling (node n kids) cs) =
      elim (Bool-cases (string_equals n.name s)) [
        | inl hit ↦ rw hit (
            deeper-RemovalKeeps n kids cs (remove_below t ts kids)
              (remove_below-RemovalKeeps t ts kids))
        | inr miss ↦ rw miss (
            along-RemovalKeeps (node n kids) cs (remove_below s (t ∷ ts) cs)
              (remove_below-RemovalKeeps s (t ∷ ts) cs))
      ]

  module _ (path_components : FilePath → List FilePath) where
    remove_node_by_path-held :
        (root : Node) (path : FilePath)
        → let r = remove_node_by_path path_components root path in
          closes entry h r.2 + held_by entry h r.1 ≡ held_by entry h root
    unfolding remove_node_by_path held_by closes
    remove_node_by_path-held (node n kids) path = go (path_components path)
      where
        found :
            (o : Option (Siblings × List Owned))
            → RemovalKeeps kids o
            → let r : Bool × Node × List Owned = elim o [
              | none ↦ (false, node n kids, [])
              | some (kids', closed) ↦
                  if length path == 0
                  then (false, node n kids, [])
                  else (true, node n kids', closed)
            ] in
              closes entry h r.2 + held_by entry h r.1
              ≡ held entry h n + held_by_siblings entry h kids
        found none k = omega arith
        found (some (kids', closed)) k = elim (Bool-cases (length path == 0)) [
          | inl none_ ↦ rw none_ (omega arith)
          | inr some_ ↦ rw some_ (omega (arith, k))
        ]

        go :
            (ss : List FilePath)
            → let r : Bool × Node × List Owned = elim ss [
              | [] ↦ (false, node n kids, [])
              | s ∷ ss ↦ elim (remove_below s ss kids) [
                | none ↦ (false, node n kids, [])
                | some (kids', closed) ↦
                    if length path == 0
                    then (false, node n kids, [])
                    else (true, node n kids', closed)
              ]
            ] in
              closes entry h r.2 + held_by entry h r.1
              ≡ held entry h n + held_by_siblings entry h kids
        go [] = omega arith
        go (s ∷ ss) = found (remove_below s ss kids) (remove_below-RemovalKeeps s ss kids)

    process_change-held :
        (source : FilePath) (c : FileChange) (root : Node)
        → let r = process_change path_components source c root in
          closes entry h r.1 + held_by entry h r.0 ≡ held_by entry h root
    unfolding process_change closes
    process_change-held source c root =
        let relative = watcher_relative_path c.path source in
        elim (Bool-cases (not c.deleted || (length relative == 0))) [
          | inl skip ↦ rw skip (omega arith)
          | inr remove ↦ rw remove (remove_node_by_path-held root relative)
        ]

    -- When the watcher reports changes, for a driver entry and a handle that is not null: the
    -- closes of the handle and the nodes that still hold it make up the nodes that held it. A
    -- removed node closes its handle once even if its workers share it, and no other handle is
    -- closed.
    pub process_changes-held :
        (source : FilePath) (cs : List FileChange) (root : Node)
        → let r = process_changes path_components source cs root in
          closes entry h r.1 + held_by entry h r.0 ≡ held_by entry h root
    unfolding process_changes closes
    process_changes-held source [] root = omega arith
    process_changes-held source (c ∷ cs) root =
        let (root', closed) = process_change path_components source c root in
        omega (
          arith,
          closes-append entry h closed (process_changes path_components source cs root').1,
          process_change-held source c root,
          process_changes-held source cs root',
        )
