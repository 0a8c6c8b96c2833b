-- ===== src/Listing.antt =====
-- Directory listings of src/vfs/vfs_ops.c: the callback that a driver's listing fills the tree by, and
-- what `vfs_op_list` makes of the listed node's children, filtered and sorted by score.
pub mod Probing
pub mod Scores
pub mod Children
use mathlib.Core.List.{reverse}
use flowi_vfs.Common.{
  ℕ, ◌+◌, Bool, true, false, not, ◌&&◌, ◌||◌, List, [], ◌∷◌, none, some, ◌==◌, leb, if◌then◌else◌,
  ℤ, length, map,
}
use flowi_vfs.Handles.{Entry, FileList}
use flowi_vfs.Drivers.{FilePath}
use flowi_vfs.Tree.{
  Node, node, Siblings, end, sibling, data_of, create_node, string_equals, find_child,
  insert_sorted,
}

-- `.` and `..`
abbrev pub is_dots : FilePath → Bool
is_dots name = string_equals name (46 ∷ []) || string_equals name (46 ∷ 46 ∷ [])

-- The first child of a name, with what the listing says of it.
unfoldable pub update_child : Entry → Siblings → Siblings
update_child entry end = end
update_child entry (sibling (node n kids) cs) =
    let rest = update_child entry cs in
    if string_equals n.name entry.name
    then sibling (node (record n { size = entry.size; attributes = entry.attributes }) kids) cs
    else sibling (node n kids) rest

-- The node of an entry that was not known.
abbrev pub entry_node : Entry → Node
entry_node entry =
    node
      (record (data_of (create_node entry.name)) {
        is_directory = entry.is_directory;
        is_archive = entry.is_archive;
        size = entry.size;
        attributes = entry.attributes;
      })
      end

-- `compare_natural` is flowi-core's comparison. `check_if_archive` says whether a file of a local mount
-- is an archive (`get_file_path`, then `vfs_ops_check_if_archive`); it is false for any other driver.
module _ (compare_natural : FilePath → FilePath → ℤ) (check_if_archive : FilePath → Bool) where
  unfoldable pub with_archive : Entry → Entry
  with_archive entry =
      if not entry.is_directory && not entry.is_archive
      then record entry { is_archive = check_if_archive entry.name }
      else entry

  -- The end of `vfs_dir_entry_callback`, under the tree's lock.
  unfoldable pub record_entry : Entry → Siblings → Siblings
  record_entry entry cs = elim (find_child entry.name cs) [
    | none ↦ insert_sorted compare_natural (entry_node entry) cs
    | some c ↦ update_child entry cs
  ]

  -- `vfs_dir_entry_callback`: whether the listing goes on, and the children.
  unfoldable pub dir_entry_callback : Bool → Entry → Siblings → Bool × Siblings
  dir_entry_callback canceled entry cs =
      if canceled
      then (false, cs)
      else if is_dots entry.name
      then (true, cs)
      else (true, record_entry (with_archive entry) cs)

  -- A driver's listing: its entries, with whether the operation was cancelled by then.
  unfoldable pub list_entries : List (Bool × Entry) → Siblings → Siblings
  list_entries [] cs = cs
  list_entries ((canceled, entry) ∷ es) cs =
      let (more, cs') = dir_entry_callback canceled entry cs in
      let rest = list_entries es cs' in if more then rest else cs'

-- `tolower` of the C locale.
abbrev pub lower : ℕ → ℕ
lower c = if leb 65 c && leb c 90 then c + 32 else c

-- The copy of the children under the lock.
unfoldable pub snapshot_children : Siblings → List Entry
snapshot_children end = []
snapshot_children (sibling c cs) =
    record {
      name = (data_of c).name;
      size = (data_of c).size;
      attributes = (data_of c).attributes;
      is_directory = (data_of c).is_directory;
      is_archive = (data_of c).is_archive;
    }
    ∷ snapshot_children cs

-- `has_match` and `match` are the fuzzy matcher's, whose scores are compared by `less`.
module _ {S : Type 0} (less : S → S → Bool) (has_match : FilePath → FilePath → Bool)
    (match_score : FilePath → FilePath → S) where
  -- `ScoredNode`
  abbrev pub Scored : Type 0
  Scored = Entry × S

  -- The second pass.
  unfoldable pub score_entries : FilePath → List Entry → List (Entry × S)
  score_entries needle [] = []
  score_entries needle (e ∷ es) =
      let rest = score_entries needle es in
      if has_match needle e.name then (e, match_score needle e.name) ∷ rest else rest

  -- The inner loop of the insertion sort: the sorted part is walked from its end, so it is held with
  -- its last element first.
  unfoldable pub shift_in : Entry × S → List (Entry × S) → List (Entry × S)
  shift_in key [] = key ∷ []
  shift_in key (p ∷ ps) =
      let rest = shift_in key ps in if less p.1 key.1 then p ∷ rest else key ∷ p ∷ ps

  unfoldable pub sort_into : List (Entry × S) → List (Entry × S) → List (Entry × S)
  sort_into sorted [] = sorted
  sort_into sorted (x ∷ xs) = sort_into (shift_in x sorted) xs

  unfoldable pub sort_by_score : List (Entry × S) → List (Entry × S)
  sort_by_score xs = reverse (sort_into [] xs)

  -- The entries of `vfs_op_list`.
  unfoldable pub list_result : FilePath → List Entry → List Entry
  list_result needle all_nodes =
      if not (length needle == 0) && not (length all_nodes == 0)
      then map (λ s. s.0) (sort_by_score (score_entries (map lower needle) all_nodes))
      else all_nodes

  -- The file list that `vfs_op_list` publishes, with the mount's version as it is then.
  unfoldable pub publish_list : FilePath → Siblings → ℕ → FileList
  publish_list needle children version =
      let entries = list_result needle (snapshot_children children) in
      record {
        entries = entries;
        count = length entries;
        mount_version = version;
        success = true;
        has_error_message = false;
      }
