-- ===== src/LibArchive/Names.antt =====
-- Which paths are archives, and the name of a compressed file without its extension
-- (src/vfs/drivers/libarchive.c).
use flowi_vfs.Common.{
  ◌-◌, Bool, false, ◌&&◌, ◌||◌, List, [], ◌∷◌, ltb, if◌then◌else◌, length, take, drop,
}
use flowi_vfs.Drivers.{FilePath}
use flowi_vfs.Tree.{string_equals}

-- `path_has_extension`, `path_get_filename` and `string_equals_nocase`
pub record PathText : Type 0 where
  pub path_has_extension : FilePath → FilePath → Bool
  pub path_get_filename : FilePath → FilePath
  pub string_equals_nocase : FilePath → FilePath → Bool

-- `gz`, `bz2`, `xz`, `lz`, `lzma` and `zst`
abbrev single_file_exts : List FilePath
single_file_exts =
    (103 ∷ 122 ∷ [])
    ∷ (98 ∷ 122 ∷ 50 ∷ [])
    ∷ (120 ∷ 122 ∷ [])
    ∷ (108 ∷ 122 ∷ [])
    ∷ (108 ∷ 122 ∷ 109 ∷ 97 ∷ [])
    ∷ (122 ∷ 115 ∷ 116 ∷ [])
    ∷ []

-- `tgz`, `tbz2` and `txz`
abbrev short_tar_exts : List FilePath
short_tar_exts = (116 ∷ 103 ∷ 122 ∷ []) ∷ (116 ∷ 98 ∷ 122 ∷ 50 ∷ []) ∷ (116 ∷ 120 ∷ 122 ∷ []) ∷ []

-- `tar.` and the extension.
abbrev tar_of : FilePath → FilePath
tar_of ext = 116 ∷ 97 ∷ 114 ∷ 46 ∷ ext

-- `tar.gz`, `tar.xz`, `tar.lz`, `tar.bz2` and `tar.lzma`
abbrev tar_exts : List FilePath
tar_exts =
    tar_of (103 ∷ 122 ∷ [])
    ∷ tar_of (120 ∷ 122 ∷ [])
    ∷ tar_of (108 ∷ 122 ∷ [])
    ∷ tar_of (98 ∷ 122 ∷ 50 ∷ [])
    ∷ tar_of (108 ∷ 122 ∷ 109 ∷ 97 ∷ [])
    ∷ []

-- `zip`, `tar`, `7z`, `rar`, `cab`, `iso` and `cpio`
abbrev container_exts : List FilePath
container_exts =
    (122 ∷ 105 ∷ 112 ∷ [])
    ∷ (116 ∷ 97 ∷ 114 ∷ [])
    ∷ (55 ∷ 122 ∷ [])
    ∷ (114 ∷ 97 ∷ 114 ∷ [])
    ∷ (99 ∷ 97 ∷ 98 ∷ [])
    ∷ (105 ∷ 115 ∷ 111 ∷ [])
    ∷ (99 ∷ 112 ∷ 105 ∷ 111 ∷ [])
    ∷ []

module _ (X : PathText) where
  unfoldable pub has_one_of : FilePath → List FilePath → Bool
  has_one_of path [] = false
  has_one_of path (e ∷ es) = X.path_has_extension path e || has_one_of path es

  -- `is_single_file_compression`
  unfoldable pub is_single_file_compression : FilePath → Bool
  is_single_file_compression path =
      if has_one_of path tar_exts || has_one_of path short_tar_exts
      then false
      else has_one_of path single_file_exts

  -- The loop of `get_decompressed_filename` over the extensions, each with its dot.
  unfoldable pub strip_first_of : FilePath → List FilePath → FilePath
  strip_first_of filename [] = filename
  strip_first_of filename (e ∷ es) =
      let ext : FilePath = 46 ∷ e in
      let stem = length filename - length ext in
      if ltb (length ext) (length filename) && X.string_equals_nocase (drop stem filename) ext
      then take stem filename
      else strip_first_of filename es

  -- `get_decompressed_filename`
  unfoldable pub get_decompressed_filename : FilePath → FilePath
  get_decompressed_filename path = strip_first_of (X.path_get_filename path) single_file_exts

  -- A suffix of the path, with its dot.
  unfoldable pub ends_with_one_of : FilePath → List FilePath → Bool
  ends_with_one_of path [] = false
  ends_with_one_of path (e ∷ es) =
      let ext : FilePath = 46 ∷ e in
      (ltb (length ext) (length path) && string_equals (drop (length path - length ext) path) ext)
      || ends_with_one_of path es

  -- `is_archive_file`
  unfoldable pub is_archive_file : FilePath → Bool
  is_archive_file path =
      is_single_file_compression path
      || (has_one_of path container_exts
          || (has_one_of path short_tar_exts
              || (has_one_of path tar_exts || ends_with_one_of path tar_exts)))
