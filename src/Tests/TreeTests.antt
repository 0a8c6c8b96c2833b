-- ===== src/Tests/TreeTests.antt =====
-- The tree of src/vfs/vfs_tree.c, its listings and the watcher's paths on concrete inputs.
use flowi_vfs.Common.{
  ℕ, ◌≡◌, refl, true, false, List, [], ◌∷◌, some, ltb, if◌then◌else◌, arith, ℤ, pos, negsuc, length,
}
use flowi_vfs.Handles.{Entry}
use flowi_vfs.Drivers.{FilePath}
use flowi_vfs.Watcher.{begins_with, watcher_relative_path}
use flowi_vfs.Watcher.Located.{
  Below, all_bounded, watcher_relative_path-Below, watcher_relative_path-append,
}
use flowi_vfs.Tree.{
  Node, node, end, sibling, data_of, children_of, create_node, create_root_node, string_equals,
  FileChange,
}
use flowi_vfs.Tree.Sorted.{OneComesAfter}
use flowi_vfs.Tree.Update.{WatchedMount, update, Updates, update-Updates}
use flowi_vfs.Handles.{OpType}
use flowi_vfs.Handles.Map.Closed.{closed_in}
use flowi_vfs.Tests.HandleTests.{sim, busy_main, opened, table_of-IsValid}
use flowi_vfs.Listing.{dir_entry_callback, sort_by_score}
use flowi_vfs.Listing.Scores.{Descending, sort_by_score-Descending}
use flowi_vfs.Listing.Children.{Lists, dir_entry_callback-Lists}

-- The source path `d` in the change `/u/d/x`.
watcher_relative_path-Below_example :
    Below
      (b'd' ∷ [])
      (47 ∷ b'u' ∷ 47 ∷ b'd' ∷ 47 ∷ b'x' ∷ [])
      (watcher_relative_path (47 ∷ b'u' ∷ 47 ∷ b'd' ∷ 47 ∷ b'x' ∷ []) (b'd' ∷ []))
watcher_relative_path-Below_example =
    watcher_relative_path-Below (b'd' ∷ []) (47 ∷ b'u' ∷ 47 ∷ b'd' ∷ 47 ∷ b'x' ∷ [])
      (47 ∷ b'u' ∷ 47 ∷ []) (47 ∷ b'x' ∷ []) (λ e. cc) refl refl
      (unfold all_bounded begins_with in refl)

watcher_relative_path-append_example :
    watcher_relative_path (47 ∷ b'd' ∷ 47 ∷ b'x' ∷ []) (47 ∷ b'd' ∷ []) ≡ b'x' ∷ []
watcher_relative_path-append_example =
    watcher_relative_path-append (47 ∷ b'd' ∷ []) (47 ∷ []) (b'x' ∷ []) (refl, tt) refl

-- Names in the order of their lengths.
abbrev by_length : FilePath → FilePath → ℤ
by_length a b = if ltb (length b) (length a) then pos 1 else negsuc 0

by_length-one : OneComesAfter by_length
by_length-one a b e = ground arith

abbrev named : FilePath → Node
named = create_node

-- A directory with the file `a`.
abbrev small_tree : Node
small_tree = node (data_of (create_root_node [])) (sibling (named (b'a' ∷ [])) end)

-- A root with the archive `a`, whose two workers share the handle 5.
abbrev archive_tree : Node
archive_tree = node (data_of (create_root_node [])) (
    sibling
      (node (record (data_of (named (b'a' ∷ []))) { plugin_entry = some 7; handles = 5 ∷ 5 ∷ [] })
        end)
      end)

-- Each byte is a segment.
abbrev segments : FilePath → List FilePath
segments [] = []
segments (c ∷ cs) = (c ∷ []) ∷ segments cs

abbrev deletion : FileChange
deletion = record { path = 47 ∷ b'd' ∷ 47 ∷ b'a' ∷ []; deleted = true }

abbrev entry : Entry
entry = record {
  name = b'a' ∷ [];
  size = pos 12;
  attributes = 3;
  is_directory = false;
  is_archive = false;
}

dir_entry_callback-Lists_example :
    Lists entry (dir_entry_callback by_length (λ p. true) false entry (children_of small_tree)).1
unfolding string_equals
dir_entry_callback-Lists_example =
    dir_entry_callback-Lists by_length (λ p. true) entry (children_of small_tree) refl

abbrev scored : List (Entry × ℕ)
scored = (entry, 2) ∷ (entry, 9) ∷ (entry, 4) ∷ []

ltb-asymmetric : (a b : ℕ) → ltb a b ≡ true → ltb b a ≡ false
ltb-asymmetric a b e = ground arith

sort_by_score-Descending_example :
    Descending ltb (λ n p. true) (λ n p. 0) (sort_by_score ltb (λ n p. true) (λ n p. 0) scored)
sort_by_score-Descending_example =
    sort_by_score-Descending ltb (λ n p. true) (λ n p. 0) ltb-asymmetric scored

-- A mount of that tree under `/d`, with the watcher 6 that reported the deletion of `a`.
abbrev watched : WatchedMount
watched = record {
  source_path = 47 ∷ b'd' ∷ [];
  root = archive_tree;
  version = 1;
  watching_enabled = true;
  watcher_handle = 6;
}

abbrev reported : ℕ → List FileChange
reported watcher = deletion ∷ []

update-Updates_example :
    Updates segments reported
      (λ w. true)
      sim
      busy_main
      (watched ∷ [])
      opened
      (update segments reported (λ w. true) (λ d. true) sim busy_main (watched ∷ []) opened)
update-Updates_example =
    update-Updates segments reported (λ w. true) (λ d. true) sim busy_main (watched ∷ []) opened
      (unfold closed_in in omega arith) (table_of-IsValid OpType.file_open)
