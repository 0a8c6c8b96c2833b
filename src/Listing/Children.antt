-- ===== src/Listing/Children.antt =====
-- The tree under a listing (`vfs_dir_entry_callback` of src/vfs/vfs_ops.c): children stay sorted, and
-- an entry that was delivered is found with the size and the attributes delivered.
use flowi_vfs.Common.{
  ◌≡◌, refl, Bool, true, false, not, ◌&&◌, inl, inr, List, [], ◌∷◌, some, arith, ℤ, Bool-cases,
  Option-cases,
}
use flowi_vfs.Handles.{Entry}
use flowi_vfs.Drivers.{FilePath}
use flowi_vfs.Tree.{
  Node, node, Siblings, end, sibling, data_of, string_equals, find_child, compare_nodes,
}
use flowi_vfs.Tree.Sorted.{
  Sorted, OneComesAfter, insert_sorted-Sorted, find_child-insert_sorted, string_equals_refl,
}
use flowi_vfs.Listing.{
  is_dots, update_child, entry_node, record_entry, with_archive, dir_entry_callback, list_entries,
}

-- A child of the entry's name, with what the entry says.
abbrev pub Lists : Entry → Siblings → Type 0
Lists entry cs =
    (c : Node) × (find_child entry.name cs ≡ some c)
    × ((data_of c).size ≡ entry.size)
    × ((data_of c).attributes ≡ entry.attributes)

update_child-Lists :
    (entry : Entry) (c : Node) (cs : Siblings)
    → find_child entry.name cs ≡ some c
    → Lists entry (update_child entry cs)
unfolding find_child update_child
update_child-Lists entry c end e = cc
update_child-Lists entry c (sibling (node n kids) cs) e =
    elim (Bool-cases (string_equals n.name entry.name)) [
      | inl same ↦ rw same (
        node (record n { size = entry.size; attributes = entry.attributes }) kids,
        rw same,
        refl,
        refl,
      )
      | inr other ↦
          let (d, found, same_size, same_attributes) =
            update_child-Lists entry c cs (rw other at e) in
          rw other (d, rw other found, same_size, same_attributes)
    ]

module _ (compare_natural : FilePath → FilePath → ℤ) where
  update_child-Sorted :
      (entry : Entry) (cs : Siblings)
      → Sorted compare_natural cs
      → Sorted compare_natural (update_child entry cs)
  unfolding update_child compare_nodes
  update_child-Sorted entry end s = tt
  update_child-Sorted entry (sibling (node n kids) end) s =
      elim (Bool-cases (string_equals n.name entry.name)) [
        | inl same ↦ rw same tt
        | inr other ↦ rw other tt
      ]
  update_child-Sorted entry (sibling (node n kids) (sibling (node m kids') cs)) s =
      elim (Bool-cases (string_equals n.name entry.name)) [
        | inl same ↦ rw same s
        | inr other ↦
            let t = update_child-Sorted entry (sibling (node m kids') cs) s.1 in
            elim (Bool-cases (string_equals m.name entry.name)) [
              | inl here ↦ rw (other, here) (s.0, rw here at t)
              | inr there ↦ rw (other, there) (s.0, rw there at t)
            ]
      ]

  module _ (check_if_archive : FilePath → Bool) where
    record_entry-Lists :
        (entry : Entry) (cs : Siblings)
        → Lists entry (record_entry compare_natural check_if_archive entry cs)
    unfolding record_entry
    record_entry-Lists entry cs = elim (Option-cases (find_child entry.name cs)) [
      | inl e ↦
          let f = find_child-insert_sorted compare_natural (entry_node entry) cs entry.name e in
          rw (record_entry, e)
            (entry_node entry, ground (arith, f, string_equals_refl entry.name), refl, refl)
      | inr (c, e) ↦ rw (record_entry, e) (update_child-Lists entry c cs e)
    ]

    with_archive-Lists :
        (entry : Entry) (cs : Siblings)
        → Lists (with_archive compare_natural check_if_archive entry) cs
        → Lists entry cs
    unfolding with_archive
    with_archive-Lists entry cs l =
        elim (Bool-cases (not entry.is_directory && not entry.is_archive)) [
          | inl file ↦ rw file at l
          | inr known ↦ rw known at l
        ]

    -- After an entry is delivered that is not one of the two dot entries, and the operation is not
    -- cancelled, its name finds a child with the size and the attributes of the entry.
    pub dir_entry_callback-Lists :
        (entry : Entry) (cs : Siblings)
        → is_dots entry.name ≡ false
        → Lists entry (dir_entry_callback compare_natural check_if_archive false entry cs).1
    unfolding dir_entry_callback
    dir_entry_callback-Lists entry cs plain = rw plain (
        with_archive-Lists entry _
          (record_entry-Lists (with_archive compare_natural check_if_archive entry) cs))

    record_entry-Sorted :
        (entry : Entry) (cs : Siblings)
        → OneComesAfter compare_natural
        → Sorted compare_natural cs
        → Sorted compare_natural (record_entry compare_natural check_if_archive entry cs)
    unfolding record_entry
    record_entry-Sorted entry cs one s = elim (Option-cases (find_child entry.name cs)) [
      | inl e ↦
          rw (record_entry, e) (insert_sorted-Sorted compare_natural one (entry_node entry) cs s)
      | inr (c, e) ↦ rw (record_entry, e) (update_child-Sorted entry cs s)
    ]

    dir_entry_callback-Sorted :
        (canceled : Bool) (entry : Entry) (cs : Siblings)
        → OneComesAfter compare_natural
        → Sorted compare_natural cs
        → Sorted compare_natural
            (dir_entry_callback compare_natural check_if_archive canceled entry cs).1
    unfolding dir_entry_callback
    dir_entry_callback-Sorted true entry cs one s = s
    dir_entry_callback-Sorted false entry cs one s = elim (Bool-cases (is_dots entry.name)) [
      | inl dots ↦ rw dots s
      | inr plain ↦
          rw plain
            (record_entry-Sorted (with_archive compare_natural check_if_archive entry) cs one s)
    ]

    -- A listing keeps the children sorted, whatever entries the driver delivers and wherever it is
    -- cancelled, if of two names at most one comes after the other.
    pub list_entries-Sorted :
        (es : List (Bool × Entry)) (cs : Siblings)
        → OneComesAfter compare_natural
        → Sorted compare_natural cs
        → Sorted compare_natural (list_entries compare_natural check_if_archive es cs)
    unfolding list_entries
    list_entries-Sorted [] cs one s = s
    list_entries-Sorted ((canceled, entry) ∷ es) cs one s =
        let (more, cs') = dir_entry_callback compare_natural check_if_archive canceled entry cs in
        let t = dir_entry_callback-Sorted canceled entry cs one s in
        elim (Bool-cases more) [
          | inl on ↦ rw on (list_entries-Sorted es cs' one t)
          | inr off ↦ rw off t
        ]
