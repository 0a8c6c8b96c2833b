-- ===== src/Archives.antt =====
-- What the archive drivers share (src/vfs/drivers/archive_common.h): the comparison of an entry's path
-- with a target, and the listing of the immediate children of a path.
pub mod Matching
pub mod Children
use flowi_vfs.Common.{
  ℕ, zero, suc, ◌+◌, ◌-◌, Bool, true, false, not, ◌&&◌, ◌||◌, List, [], ◌∷◌, Option, none, some,
  ◌==◌, ltb, if◌then◌else◌, ℤ, pos, length, drop,
}
use flowi_vfs.Drivers.{FilePath}
use flowi_vfs.Handles.{Entry}
use flowi_vfs.Tree.{string_equals}
use flowi_vfs.Watcher.{begins_with}

-- `/`
abbrev pub slash : ℕ
slash = 47

-- `s[i] == '/'`; false where the string has no such byte.
unfoldable pub slash_at : ℕ → FilePath → Bool
slash_at i [] = false
slash_at zero (c ∷ s) = c == slash
slash_at (suc i) (c ∷ s) = slash_at i s

-- `strncmp(s, t, n) == 0`, where a string ends at its NUL.
unfoldable pub same_prefix : ℕ → FilePath → FilePath → Bool
same_prefix zero s t = true
same_prefix (suc n) [] [] = true
same_prefix (suc n) [] (d ∷ t) = false
same_prefix (suc n) (c ∷ s) [] = false
same_prefix (suc n) (c ∷ s) (d ∷ t) = (c == d) && same_prefix n s t

-- `vfs_archive_entry_path_matches`, of strings that are not null.
unfoldable pub entry_path_matches : FilePath → FilePath → Bool
entry_path_matches entry target =
    if string_equals entry target
    then true
    else if (length entry == length target + 1)
        && (slash_at (length entry - 1) entry && same_prefix (length target) entry target)
    then true
    else ltb 0 (length target)
      && (slash_at (length target - 1) target
          && ((length entry == length target - 1) && same_prefix (length target - 1) entry target))

-- `VfsCachedEntry`; the linked list is a list.
pub record CachedEntry : Type 0 where
  pub path : FilePath
  pub size : ℤ
  pub is_directory : Bool

-- `string_find_char` and `string_substr`: what stands before the first slash, and whether there is one.
unfoldable pub first_component : FilePath → FilePath × Bool
first_component [] = ([], false)
first_component (c ∷ s) =
    let (name, nested) = first_component s in if c == slash then ([], true) else (c ∷ name, nested)

-- The filter by the prefix: what of an entry's path is below the path, or none.
unfoldable pub below : FilePath → FilePath → Option FilePath
below path full =
    if length path == 0
    then some full
    else if not (begins_with path full)
    then none
    else if length full == length path
    then none
    else if not (slash_at (length path) full)
    then none
    else some (drop (length path + 1) full)

abbrev pub child_entry : CachedEntry → FilePath × Bool → Option Entry
child_entry c (name, nested) =
    let is_dir = if nested then true else c.is_directory in
    if length name == 0
    then none
    else some (record {
      name = name;
      size = if is_dir then pos 0 else c.size;
      attributes = 0;
      is_directory = is_dir;
      is_archive = false;
    })

-- The entry that the loop's body makes for a cached entry, if it does not go on without one.
unfoldable pub child_of : FilePath → CachedEntry → Option Entry
child_of path c = elim (below path c.path) [
  | none ↦ none
  | some rest ↦ child_entry c (first_component rest)
]

-- The search in `seen_names`.
unfoldable pub seen_name : FilePath → List FilePath → Bool
seen_name name [] = false
seen_name name (n ∷ ns) = string_equals n name || seen_name name ns

-- The listing callback, over a state of the caller's: whether the listing goes on.
module _ {S : Type 0} (callback : Entry → S → Bool × S) where
  abbrev emit : Entry → List FilePath → S → Bool × List FilePath × S
  emit e seen s = let (more, s') = callback e s in (more, e.name ∷ seen, s')

  abbrev emit_new : Option Entry → List FilePath → S → Bool × List FilePath × S
  emit_new none seen s = (true, seen, s)
  emit_new (some e) seen s = if seen_name e.name seen then (true, seen, s) else emit e seen s

  -- The loop, from the names that were seen.
  unfoldable pub list_loop : FilePath → List CachedEntry → List FilePath → S → List FilePath × S
  list_loop path [] seen s = (seen, s)
  list_loop path (c ∷ cs) seen s =
      let (more, seen', s') = emit_new (child_of path c) seen s in
      let rest = list_loop path cs seen' s' in if more then rest else (seen', s')

  -- `vfs_archive_list_children`
  unfoldable pub list_children : List CachedEntry → FilePath → S → S
  list_children entries path s =
      (list_loop (if string_equals path (46 ∷ []) then [] else path) entries [] s).1
