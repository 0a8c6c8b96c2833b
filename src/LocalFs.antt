-- ===== src/LocalFs.antt =====
-- The local file driver of src/vfs/drivers/localfs.c. The operating system (core/os) and the joining of paths
-- (core/path) are a parameter.
pub mod Reading
pub mod Balance
pub mod Sessions
pub mod Contents
use flowi_vfs.Common.{
  ℕ, suc, Bool, true, false, not, ◌&&◌, ◌||◌, List, [], ◌∷◌, Option, none, some, ◌==◌,
  if◌then◌else◌, ℤ, pos, negsuc, is_negative, signed, length,
}
use flowi_vfs.Drivers.{FilePath}
use flowi_vfs.Drivers.Results.{SizeResult, no_size, status_success, status_file_not_found}
use flowi_vfs.Handles.{Entry}
use flowi_vfs.Heap.{Heap, Text, acquire, release, copy_text}

-- `FileStat`, the fields that are read.
pub record FileStat : Type 0 where
  pub name : FilePath
  pub is_valid : Bool
  pub is_directory : Bool
  pub size : ℕ

-- What the driver calls; a negative descriptor stands for an open that failed.
pub record LocalOs : Type 1 where
  pub State : Type 0
  pub path_make_absolute : FilePath → FilePath → FilePath
  pub file_stat_os : FilePath → State → FileStat
  pub file_get_size_os : FilePath → State → ℤ
  pub file_open_write_os : FilePath → Bool → State → ℤ × State
  pub file_open_os : FilePath → State → ℤ × State
  pub file_close_handle_os : ℕ → State → State
  -- The bytes of one read of at most so many, or none for an error.
  pub file_read_from_handle_os : ℕ → ℕ → State → Option (List ℕ) × State
  pub file_write_to_handle_os : ℕ → List ℕ → State → ℤ × State
  -- The valid entries that `dir_read_next_os` gives, if the directory opens.
  pub dir_open_os : FilePath → State → Option (List FileStat)

-- `FlVfsOpenFlags`, the bits that are read.
pub record OpenFlags : Type 0 where
  pub read : Bool
  pub write : Bool
  pub append : Bool

-- `LocalFsHandle`
pub record LocalFsHandle : Type 0 where
  pub address : ℕ
  pub path : Text
  pub fd : ℤ
  pub is_dir : Bool
  pub is_write : Bool

pub record LocalOpened : Type 0 where
  pub handle : Option LocalFsHandle
  pub is_directory : Bool
  pub vfs_status : ℕ

-- The operating system, the allocator, and the descriptors that were opened and closed, each as its successor.
pub record World (S : Type 0) : Type 0 where
  pub os : S
  pub heap : Heap
  pub opened : List ℕ
  pub closed : List ℕ

module _ (O : LocalOs) where
  abbrev pub LocalWorld : Type 0
  LocalWorld = World O.State

  -- The call of an open, which is recorded if it succeeds.
  abbrev pub opened_fd : ℤ × O.State → LocalWorld → ℤ × LocalWorld
  opened_fd (pos n, os) w = (pos n, record w { os = os; opened = suc n ∷ w.opened })
  opened_fd (negsuc n, os) w = (negsuc n, record w { os = os })

  unfoldable pub open_read_fd : FilePath → LocalWorld → ℤ × LocalWorld
  open_read_fd path w = opened_fd (O.file_open_os path w.os) w

  unfoldable pub open_write_fd : FilePath → Bool → LocalWorld → ℤ × LocalWorld
  open_write_fd path append w = opened_fd (O.file_open_write_os path append w.os) w

  -- `file_close_handle_os` behind its test.
  unfoldable pub close_fd : ℤ → LocalWorld → LocalWorld
  close_fd (pos n) w = record w { os = O.file_close_handle_os n w.os; closed = suc n ∷ w.closed }
  close_fd (negsuc n) w = w

  abbrev pub free : ℕ → LocalWorld → LocalWorld
  free a w = record w { heap = release a w.heap }

  -- `localfs_resolve`
  abbrev pub localfs_resolve : Option LocalFsHandle → FilePath → FilePath
  localfs_resolve none rel = O.path_make_absolute [] rel
  localfs_resolve (some h) rel = O.path_make_absolute h.path.bytes rel

  -- The descriptor for the flags.
  unfoldable pub fd_for : FilePath → Bool → OpenFlags → LocalWorld → ℤ × LocalWorld
  fd_for os_path is_dir flags w =
      if is_dir
      then (negsuc 0, w)
      else if flags.write
      then open_write_fd os_path flags.append w
      else if flags.read
      then open_read_fd os_path w
      else (negsuc 0, w)

  abbrev pub with_path :
      Bool → OpenFlags → ℤ → ℕ → Text × Heap → LocalWorld → Option LocalFsHandle × LocalWorld
  with_path is_dir flags fd address (path, heap) w =
      if path.address == 0 then (none, free address (close_fd fd (record w { heap = heap }))) else (
        some record {
          address = address;
          path = path;
          fd = fd;
          is_dir = is_dir;
          is_write = flags.write;
        },
        record w { heap = heap },
      )

  abbrev pub with_handle :
      FilePath → Bool → OpenFlags → ℤ → ℕ × Heap → LocalWorld → Option LocalFsHandle × LocalWorld
  with_handle os_path is_dir flags fd (address, heap) w =
      if address == 0
      then (none, close_fd fd (record w { heap = heap }))
      else with_path is_dir flags fd address (copy_text os_path heap) w

  abbrev pub with_fd :
      FilePath → Bool → OpenFlags → ℤ × LocalWorld → Option LocalFsHandle × LocalWorld
  with_fd os_path is_dir flags (fd, w) =
      if not is_dir && ((flags.read || flags.write) && is_negative fd)
      then (none, w)
      else with_handle os_path is_dir flags fd (acquire w.heap) w

  -- `localfs_make_handle`
  unfoldable pub make_handle :
      FilePath → Bool → OpenFlags → LocalWorld → Option LocalFsHandle × LocalWorld
  make_handle os_path is_dir flags w = with_fd os_path is_dir flags (fd_for os_path is_dir flags w)

  abbrev pub local_opened : Option LocalFsHandle × LocalWorld → LocalOpened × LocalWorld
  local_opened (none, w) =
      (record { handle = none; is_directory = false; vfs_status = status_file_not_found }, w)
  local_opened (some h, w) =
      (record { handle = some h; is_directory = h.is_dir; vfs_status = status_success }, w)

  -- `localfs_open`
  unfoldable pub local_open :
      Option LocalFsHandle → FilePath → OpenFlags → LocalWorld → LocalOpened × LocalWorld
  local_open parent path flags w =
      let full = localfs_resolve parent path in
      let st = O.file_stat_os full w.os in
      if not st.is_valid && not flags.write
      then local_opened (none, w)
      else local_opened (make_handle full (st.is_valid && st.is_directory) flags w)

  -- The flags of `localfs_clone`.
  abbrev pub clone_flags : LocalFsHandle → OpenFlags
  clone_flags src =
      if src.is_write
      then record { read = false; write = true; append = true }
      else record { read = not (is_negative src.fd); write = false; append = false }

  -- `localfs_clone`, of a handle that is not null.
  unfoldable pub local_clone : LocalFsHandle → LocalWorld → LocalOpened × LocalWorld
  local_clone src w = local_opened (make_handle src.path.bytes src.is_dir (clone_flags src) w)

  -- `localfs_close`, of a handle that is not null.
  unfoldable pub local_close : LocalFsHandle → LocalWorld → LocalWorld
  local_close h w = free h.address (free h.path.address (close_fd h.fd w))

  -- `localfs_get_size`, of a handle that is not null.
  unfoldable pub local_get_size : LocalFsHandle → FilePath → LocalWorld → SizeResult
  local_get_size h relative_path w =
      let size = O.file_get_size_os h.path.bytes w.os in
      let st = O.file_stat_os (localfs_resolve (some h) relative_path) w.os in
      if length relative_path == 0
      then (if is_negative size
          then no_size status_file_not_found
          else record { size = size; vfs_status = status_success })
      else if not st.is_valid || st.is_directory
      then no_size status_file_not_found
      else record { size = signed 64 st.size; vfs_status = status_success }

  module _ {T : Type 0} (callback : Entry → T → Bool × T) where
    unfoldable pub list_stats : List FileStat → T → T
    list_stats [] t = t
    list_stats (e ∷ es) t =
        let (more, t') =
          callback
            (record {
              name = e.name;
              size = if e.is_directory then pos 0 else signed 64 e.size;
              attributes = 0;
              is_directory = e.is_directory;
              is_archive = false;
            })
            t in
        let rest = list_stats es t' in if more then rest else t'

    -- `localfs_list_directory`, of a handle and a callback that are not null.
    unfoldable pub local_list_directory : LocalFsHandle → FilePath → LocalWorld → T → T
    local_list_directory h relative_path w t =
        elim (O.dir_open_os (localfs_resolve (some h) relative_path) w.os) [
          | none ↦ t
          | some stats ↦ list_stats stats t
        ]

  -- `localfs_get_file_path`, of a handle that is not null.
  unfoldable pub get_file_path : LocalFsHandle → FilePath → FilePath
  get_file_path h relative_path =
      if length relative_path == 0 then h.path.bytes else localfs_resolve (some h) relative_path
