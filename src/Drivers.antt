-- ===== src/Drivers.antt =====
-- The driver interface of include/flowi/vfs/vfs_plugin.h (`FlVfsPlugin`), a parameter of the model: a
-- driver is a record of functions over the world `W` that it acts on (files, archives, network).
pub mod Ledger
pub mod Registry
pub mod Results
use flowi_vfs.Common.{ℕ, Bool, List, Option, ℤ}

abbrev pub FilePath : Type 0
FilePath = List ℕ

-- `FlVfsOpenResult`; a null handle is 0.
pub record OpenResult : Type 0 where
  pub handle : ℕ
  pub vfs_status : ℕ
  pub is_directory : Bool

-- `FlVfsStatus_ArchiveCorrupt`
abbrev pub archive_corrupt : ℕ
archive_corrupt = 501

-- The functions that the VFS calls; the optional ones may be null.
pub record Driver (W : Type 0) : Type 0 where
  pub plugin_name : FilePath
  pub has_memory_capability : Bool
  pub has_direct_path_capability : Bool
  pub can_open : FilePath → W → Bool × W
  -- The parent handle, the path and the open flags.
  pub open_path : ℕ → FilePath → ℕ → W → OpenResult × W
  pub is_directory : ℕ → W → Bool
  -- `bytes_read` of a read from a handle into a buffer of the given size.
  pub read : ℕ → FilePath → ℕ → ℤ → W → ℤ × W
  pub get_size : ℕ → FilePath → W → ℤ × W
  pub clone : Option (ℕ → W → OpenResult × W)
  pub close : ℕ → W → W
  -- The buffer, its size and the original path.
  pub open_memory : Option (ℕ → ℤ → FilePath → W → OpenResult × W)
  pub get_file_path : Option (ℕ → FilePath → W → FilePath)

-- `VfsPluginEntry`: the entry's address stands for its identity.
pub record PluginEntry (W : Type 0) : Type 0 where
  pub address : ℕ
  pub plugin : ℕ
  pub driver : Driver W
