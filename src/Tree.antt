-- ===== src/Tree.antt =====
-- The tree of a mount (src/vfs/vfs_tree.c): its nodes, their sorted sibling lists, and what closing and
-- removing nodes does with driver handles. The links to parents and siblings are positions.
pub mod Update
pub mod Sorted
pub mod Handles
use flowi_vfs.Common.{
  ℕ, ◌+◌, ◌%◌, Bool, true, false, not, ◌&&◌, ◌||◌, List, [], ◌∷◌, ◌++◌, Option, none, some, ◌==◌,
  if◌then◌else◌, ℤ, pos, negsuc, is_positive, length,
}
use flowi_vfs.Drivers.{FilePath}
use flowi_vfs.Drivers.Ledger.{Owned}
use flowi_vfs.Handles.{u32_mod}
use flowi_vfs.Watcher.{watcher_relative_path}

-- `VfsTreeNode` without its links; a null pointer is 0, and the entry is its address.
pub record NodeData : Type 0 where
  pub plugin_entry : Option ℕ
  -- `VfsHandles`: a slot for each of the `MAX_JOB_THREADS` workers.
  pub handles : List ℕ
  pub memory_data : ℕ
  pub memory_size : ℕ
  pub name : FilePath
  pub is_directory : Bool
  pub is_archive : Bool
  pub size : ℤ
  pub attributes : ℕ

mutual
  -- A node with its children, and a list of siblings.
  pub data Node : Type 0 where
    node : NodeData → Siblings → Node

  pub data Siblings : Type 0 where
    end : Siblings
    sibling : Node → Siblings → Siblings

abbrev pub data_of : Node → NodeData
data_of (node n kids) = n

abbrev pub children_of : Node → Siblings
children_of (node n kids) = kids

-- `MAX_JOB_THREADS` slots that are null.
abbrev pub no_handles : List ℕ
no_handles = 0 ∷ 0 ∷ []

-- `vfs_tree_create_node`
abbrev pub create_node : FilePath → Node
create_node name =
    node
      (record {
        plugin_entry = none;
        handles = no_handles;
        memory_data = 0;
        memory_size = 0;
        name = name;
        is_directory = false;
        is_archive = false;
        size = pos 0;
        attributes = 0;
      })
      end

-- `vfs_tree_create_root_node`
abbrev pub create_root_node : FilePath → Node
create_root_node name = node (record (data_of (create_node name)) { is_directory = true }) end

-- `string_equals`
unfoldable pub string_equals : FilePath → FilePath → Bool
string_equals [] [] = true
string_equals [] (y ∷ ys) = false
string_equals (x ∷ xs) [] = false
string_equals (x ∷ xs) (y ∷ ys) = (x == y) && string_equals xs ys

-- `vfs_tree_find_child_node`
unfoldable pub find_child : FilePath → Siblings → Option Node
find_child name end = none
find_child name (sibling c cs) =
    let rest = find_child name cs in if string_equals (data_of c).name name then some c else rest

-- `find_node_by_path_unlocked`, for the segments of a path.
unfoldable pub find_node_by_path : List FilePath → Node → Option Node
find_node_by_path [] root = some root
find_node_by_path (s ∷ ss) root = elim (find_child s (children_of root)) [
  | none ↦ none
  | some c ↦ find_node_by_path ss c
]

-- Siblings in order, directories before files; `compare_natural` is flowi-core's comparison of names.
module _ (compare_natural : FilePath → FilePath → ℤ) where
  -- `vfs_tree_compare_nodes`
  unfoldable pub compare_nodes : Node → Node → ℤ
  compare_nodes a b =
      if (data_of a).is_directory && not (data_of b).is_directory
      then negsuc 0
      else if not (data_of a).is_directory && (data_of b).is_directory
      then pos 1
      else compare_natural (data_of a).name (data_of b).name

  -- The walk of `vfs_tree_add_child_node` to the child's place among its siblings.
  unfoldable pub insert_sorted : Node → Siblings → Siblings
  insert_sorted child end = sibling child end
  insert_sorted child (sibling c cs) =
      let rest = insert_sorted child cs in
      if is_positive (compare_nodes child c) then sibling c rest else sibling child (sibling c cs)

  -- `vfs_tree_add_child_node`
  unfoldable pub add_child_node : Node → Node → Node
  add_child_node (node n kids) child = node n (insert_sorted child kids)

  -- `ensure_child_node_exists`
  unfoldable pub ensure_child_node_exists : Node → FilePath → Bool → Node
  ensure_child_node_exists parent segment mark_as_directory =
      elim (find_child segment (children_of parent)) [
        | some c ↦ parent
        | none ↦
            add_child_node parent
              (if mark_as_directory then create_root_node segment else create_node segment)
      ]

unfoldable pub holds_handle : ℕ → List ℕ → Bool
holds_handle h [] = false
holds_handle h (x ∷ xs) = (x == h) || holds_handle h xs

-- The loop of `close_node_resources`: a handle that several slots share is closed once.
unfoldable pub close_slots : ℕ → List ℕ → List ℕ → List Owned
close_slots entry closed [] = []
close_slots entry closed (h ∷ hs) =
    if (h == 0) || holds_handle h closed
    then close_slots entry closed hs
    else (entry, h) ∷ close_slots entry (h ∷ closed) hs

-- `close_node_resources`: what is left of the node, and the handles that it closes, in order.
unfoldable pub close_node_resources : NodeData → NodeData × List Owned
close_node_resources n = elim n.plugin_entry [
  | none ↦ (record n { memory_data = 0; memory_size = 0 }, [])
  | some entry ↦ (
    record n { handles = no_handles; memory_data = 0; memory_size = 0 },
    close_slots entry [] n.handles,
  )
]

unfoldable mutual
  -- `remove_node_recursive_unlocked`: the children first, then the node.
  pub remove_node_recursive : Node → List Owned
  remove_node_recursive (node n kids) = remove_children kids ++ (close_node_resources n).1

  pub remove_children : Siblings → List Owned
  remove_children end = []
  remove_children (sibling c cs) = remove_node_recursive c ++ remove_children cs

unfoldable mutual
  -- `vfs_tree_cleanup_node`: as above, but the nodes stay.
  pub cleanup_node : Node → Node × List Owned
  cleanup_node (node n kids) =
      let (kids', closed) = cleanup_children kids in
      let (n', closed') = close_node_resources n in (node n' kids', closed ++ closed')

  pub cleanup_children : Siblings → Siblings × List Owned
  cleanup_children end = (end, [])
  cleanup_children (sibling c cs) =
      let (c', closed) = cleanup_node c in
      let (cs', closed') = cleanup_children cs in (sibling c' cs', closed ++ closed')

-- The descent to the node at a path below the siblings, which is unlinked and closed; none if it is
-- not there.
unfoldable pub remove_below : FilePath → List FilePath → Siblings → Option (Siblings × List Owned)
remove_below s ss end = none
remove_below s ss (sibling (node n kids) cs) =
    let deeper : Option (Siblings × List Owned) = elim ss [
      | [] ↦ some (cs, remove_node_recursive (node n kids))
      | t ∷ ts ↦ elim (remove_below t ts kids) [
        | none ↦ none
        | some (kids', closed) ↦ some (sibling (node n kids') cs, closed)
      ]
    ] in
    let along : Option (Siblings × List Owned) = elim (remove_below s ss cs) [
      | none ↦ none
      | some (cs', closed) ↦ some (sibling (node n kids) cs', closed)
    ] in
    if string_equals n.name s then deeper else along

-- `FileChange`, with whether `change_types` has the bit for a deletion.
pub record FileChange : Type 0 where
  pub path : FilePath
  pub deleted : Bool

-- `path_components` of flowi-core is a parameter.
module _ (path_components : FilePath → List FilePath) where
  -- `vfs_tree_remove_node_by_path`; the root stays.
  unfoldable pub remove_node_by_path : Node → FilePath → Bool × Node × List Owned
  remove_node_by_path root path = elim (path_components path) [
    | [] ↦ (false, root, [])
    | s ∷ ss ↦ elim (remove_below s ss (children_of root)) [
      | none ↦ (false, root, [])
      | some (kids, closed) ↦
          if length path == 0 then (false, root, []) else (true, node (data_of root) kids, closed)
    ]
  ]

  unfoldable pub process_change : FilePath → FileChange → Node → Node × List Owned
  process_change source c root =
      let relative = watcher_relative_path c.path source in
      if not c.deleted || (length relative == 0)
      then (root, [])
      else (let (removed, root', closed) = remove_node_by_path root relative in (root', closed))

  -- The loop of `process_file_watcher_changes`.
  unfoldable pub process_changes : FilePath → List FileChange → Node → Node × List Owned
  process_changes source [] root = (root, [])
  process_changes source (c ∷ cs) root =
      let (root', closed) = process_change source c root in
      let (root'', closed') = process_changes source cs root' in (root'', closed ++ closed')

  -- `process_file_watcher_changes`: the tree, the mount's version, the closed handles.
  unfoldable pub process_file_watcher_changes :
      FilePath → List FileChange → Node → ℕ → Node × ℕ × List Owned
  process_file_watcher_changes source changes root version =
      let (root', closed) = process_changes source changes root in
      (root', (version + 1) % u32_mod, closed)
