-- ===== src/Walk.antt =====
-- The walk of a path through a mount's tree (`vfs_tree_walk_and_resolve` of src/vfs/vfs_tree.c): which
-- driver and which handle serve the path, with the archives that it loads and the nodes that it adds on
-- the way. A node on the way is the subtree below the one before it.
pub mod Slots
pub mod Entered
pub mod Gains
use flowi_vfs.Common.{
  ℕ, zero, suc, ◌+◌, ◌-◌, Bool, true, not, List, [], ◌∷◌, Option, none, some, ◌==◌, ltb, ◌⊎◌, inl,
  inr, if◌then◌else◌, ℤ, is_negative, length,
}
use flowi_vfs.Drivers.{FilePath, PluginEntry}
use flowi_vfs.Drivers.Ledger.{Ledger, Owned, close_handle}
use flowi_vfs.Tree.{
  NodeData, Node, node, Siblings, end, sibling, data_of, create_node, create_root_node,
  string_equals, find_child, insert_sorted, close_node_resources,
}
use flowi_vfs.Mounting.{Archive, load_archive}

abbrev pub slot_at : ℕ → List ℕ → ℕ
slot_at i [] = 0
slot_at zero (h ∷ hs) = h
slot_at (suc i) (h ∷ hs) = slot_at i hs

-- The first child of the name, as it is after the walk below it.
unfoldable pub replace_child : FilePath → Node → Siblings → Siblings
replace_child name c end = end
replace_child name c (sibling d ds) =
    let rest = replace_child name c ds in
    if string_equals (data_of d).name name then sibling c ds else sibling d rest

-- The driver and the handle that serve the node, and `segments_since_plugin`.
pub record At (W : Type 0) : Type 0 where
  pub entry : Option (PluginEntry W)
  pub handle : ℕ
  pub since : ℕ

-- `TreeWalkResult`; the node is the one at the end of the walk.
pub data WalkResult (W : Type 0) : Type 0 where
  resolved : At W → FilePath → WalkResult W
  -- The index of the first segment that is not resolved.
  unresolved : ℕ → WalkResult W
  no_worker : WalkResult W

module _ {W : Type 0} where
  -- The entry at an address of the list of drivers.
  unfoldable pub entry_at : List (PluginEntry W) → ℕ → Option (PluginEntry W)
  entry_at [] a = none
  entry_at (e ∷ es) a = let rest = entry_at es a in if e.address == a then some e else rest

  abbrev pub close_found_handle : Option (PluginEntry W) → ℕ → Ledger W → Ledger W
  close_found_handle none h l = l
  close_found_handle (some e) h l = close_handle e h l

  -- What `close_node_resources` closes.
  unfoldable pub close_owned : List (PluginEntry W) → List Owned → Ledger W → Ledger W
  close_owned plugins [] l = l
  close_owned plugins ((a, h) ∷ os) l =
      close_owned plugins os (close_found_handle (entry_at plugins a) h l)

  -- The swap at the end of `vfs_tree_try_load_as_archive`, under the tree's lock.
  abbrev pub install_archive : Archive W → NodeData → NodeData × List Owned
  install_archive a n =
      let (n', closed) = close_node_resources n in
      (
        record n' {
          plugin_entry = some a.entry.address;
          handles = a.handles;
          memory_data = a.memory_data;
          memory_size = a.memory_size;
          is_directory = true;
        },
        closed,
      )

  abbrev pub install_found :
      List (PluginEntry W)
      → Node
      → Option (Archive W) × Ledger W
      → Option (Archive W) × Node × Ledger W
  install_found plugins c (none, l) = (none, c, l)
  install_found plugins (node n kids) (some a, l) =
      let (n', closed) = install_archive a n in (some a, node n' kids, close_owned plugins closed l)

  -- `vfs_tree_try_load_as_archive`
  unfoldable pub try_load_as_archive :
      List (PluginEntry W)
      → PluginEntry W
      → ℕ
      → FilePath
      → ℤ
      → Node
      → Ledger W
      → Option (Archive W) × Node × Ledger W
  try_load_as_archive plugins e handle path size c l =
      install_found plugins c (load_archive plugins e handle path size l)

-- `reconstruct` is flowi-core's `path_reconstruct_from_segments`, `compare_natural` its comparison of names.
module _ {W : Type 0} (plugins : List (PluginEntry W)) (reconstruct : ℕ → ℕ → FilePath)
    (compare_natural : FilePath → FilePath → ℤ) (thread_index : ℕ) (for_listing : Bool) where
  abbrev pub deeper : At W → At W
  deeper at_ = record at_ { since = at_.since + 1 }

  -- After an attempt to load a node: the archive serves it, or the driver above does.
  abbrev pub loaded_at : At W → Option (Archive W) → At W
  loaded_at at_ none = deeper at_
  loaded_at at_ (some a) = record {
    entry = some a.entry;
    handle = slot_at thread_index a.handles;
    since = 0;
  }

  -- A file below a driver, which may be an archive.
  unfoldable pub load_child : PluginEntry W → At W → ℕ → Node → Ledger W → At W × Node × Ledger W
  load_child e at_ i c l =
      let path = reconstruct (i - at_.since) (i + 1) in
      let (size, w) = e.driver.get_size at_.handle path l.world in
      let (a, c', l') =
        try_load_as_archive plugins e at_.handle path size c (record l { world = w }) in
      (loaded_at at_ a, c', l')

  -- The walk enters a child that is there.
  unfoldable pub enter_child : At W → ℕ → Node → Ledger W → At W × Node × Ledger W
  enter_child at_ i c l = elim (data_of c).plugin_entry [
    | some a ↦ (
      record {
        entry = entry_at plugins a;
        handle = slot_at thread_index (data_of c).handles;
        since = 0;
      },
      c,
      l,
    )
    | none ↦
        if (data_of c).is_directory
        then (deeper at_, c, l)
        else elim at_.entry [ none ↦ (deeper at_, c, l) | some e ↦ load_child e at_ i c l ]
  ]

  -- A child that could not be loaded is taken for a directory.
  abbrev pub as_directory : Node → Node
  as_directory (node n kids) = node (record n { is_directory = true }) kids

  abbrev pub or_directory : Option (Archive W) → Node → Node
  or_directory none c = as_directory c
  or_directory (some a) c = c

  -- The walk adds a child that is not there: as it is when it is inserted, and as it is entered.
  unfoldable pub add_child :
      PluginEntry W → At W → ℕ → FilePath → Ledger W → Node × At W × Node × Ledger W
  add_child e at_ i s l =
      let path = reconstruct (i - at_.since) (i + 1) in
      let (size, w) = e.driver.get_size at_.handle path l.world in
      let l1 : Ledger W = record l { world = w } in
      let (a, c', l') = try_load_as_archive plugins e at_.handle path size (create_node s) l1 in
      if not for_listing
      then (create_root_node s, deeper at_, create_root_node s, l)
      else if is_negative size
      then (create_root_node s, deeper at_, create_root_node s, l1)
      else (create_node s, loaded_at at_ a, or_directory a c', l')

  -- The loop over the segments, from the index `i`: the tree, where the walk ends, the ledger.
  unfoldable pub walk : List FilePath → At W → ℕ → Node → Ledger W → Node × (At W ⊎ ℕ) × Ledger W
  walk [] at_ i c l = (c, inl at_, l)
  walk (s ∷ ss) at_ i (node n kids) l = elim (find_child s kids) [
    | some c ↦
        let (at', c', l') = enter_child at_ i c l in
        let (c'', r, l'') = walk ss at' (i + 1) c' l' in (node n (replace_child s c'' kids), r, l'')
    | none ↦ elim at_.entry [
      | none ↦ (node n kids, inr i, l)
      | some e ↦
          let (new, at', c', l') = add_child e at_ i s l in
          let (c'', r, l'') = walk ss at' (i + 1) c' l' in
          (node n (replace_child s c'' (insert_sorted compare_natural new kids)), r, l'')
    ]
  ]

  abbrev pub all_but_last : List FilePath → List FilePath
  all_but_last [] = []
  all_but_last (s ∷ []) = []
  all_but_last (s ∷ t ∷ ss) = s ∷ all_but_last (t ∷ ss)

  abbrev pub last_segment : List FilePath → FilePath
  last_segment [] = []
  last_segment (s ∷ []) = s
  last_segment (s ∷ t ∷ ss) = last_segment (t ∷ ss)

  -- The path that the driver is asked for.
  abbrev pub path_from_node : List FilePath → At W → FilePath
  path_from_node segments at_ =
      let count = length segments in
      if for_listing
      then (if at_.since == 0 then [] else reconstruct (count - at_.since) count)
      else if at_.since == 0
      then last_segment segments
      else reconstruct (count - 1 - at_.since) count

  abbrev pub result_of : List FilePath → At W ⊎ ℕ → WalkResult W
  result_of segments (inl at_) = resolved at_ (path_from_node segments at_)
  result_of segments (inr i) = unresolved i

  -- Where every walk begins: the root's driver and the worker's handle.
  abbrev pub root_at : NodeData → At W
  root_at n = record {
    entry = elim n.plugin_entry [ none ↦ none | some a ↦ entry_at plugins a ];
    handle = slot_at thread_index n.handles;
    since = 0;
  }

  -- `vfs_tree_walk_and_resolve`, of a path of these segments; `empty` is whether it has no bytes.
  unfoldable pub walk_and_resolve :
      Bool → List FilePath → Node → Ledger W → Node × WalkResult W × Ledger W
  walk_and_resolve empty segments root l =
      let (root', r, l') =
        walk (if for_listing then segments else all_but_last segments) (root_at (data_of root)) 0
          root l in
      if not (ltb thread_index 2)
      then (root, no_worker, l)
      else if empty
      then (root, resolved (root_at (data_of root)) [], l)
      else (root', result_of segments r, l')
