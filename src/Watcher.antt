-- ===== src/Watcher.antt =====
-- `vfs_tree_watcher_relative_path` of src/vfs/vfs_tree.c: where a path that the file watcher reports
-- lies below the mount's source path. A path is the list of its bytes.
pub mod Located
use flowi_vfs.Common.{
  ℕ, zero, suc, ◌+◌, ◌-◌, Bool, true, false, ◌&&◌, ◌||◌, [], ◌∷◌, ◌==◌, leb, if◌then◌else◌, length,
  drop,
}
use flowi_vfs.Drivers.{FilePath}

-- `/` or a backslash.
abbrev pub is_slash : ℕ → Bool
is_slash c = (c == 47) || (c == 92)

-- `string_begins_with`, and the comparison of a substring as long as the prefix.
unfoldable pub begins_with : FilePath → FilePath → Bool
begins_with [] path = true
begins_with (p ∷ ps) [] = false
begins_with (p ∷ ps) (c ∷ cs) = (p == c) && begins_with ps cs

unfoldable pub skip_slashes : FilePath → FilePath
skip_slashes [] = []
skip_slashes (c ∷ cs) = if is_slash c then skip_slashes cs else c ∷ cs

unfoldable pub below : FilePath → FilePath → FilePath
below source path = skip_slashes (drop (length source) path)

-- The search for the source path behind a slash: `k` positions are left, and `path` is what is left
-- of the change's path from the position on.
unfoldable pub search_source : FilePath → FilePath → ℕ → Bool → FilePath → FilePath
search_source source change zero preceded_by_slash path = change
search_source source change (suc k) preceded_by_slash path =
    let rest : FilePath = elim path [
      | [] ↦ change
      | c ∷ cs ↦ search_source source change k (is_slash c) cs
    ] in
    if preceded_by_slash && begins_with source path then below source path else rest

unfoldable pub watcher_relative_path : FilePath → FilePath → FilePath
watcher_relative_path change source =
    if begins_with source change
    then below source change
    else if (length source == 0) || leb (length change) (length source)
    then change
    else search_source source change (length change - length source + 1) true change
