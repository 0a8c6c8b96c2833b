-- ===== src/Loading.antt =====
-- Files handed to drivers (src/vfs/vfs_tree.c): reading a file into memory, and the drivers that are
-- asked in turn to open a buffer or a path.
use flowi_vfs.Common.{
  ℕ, Bool, true, false, not, List, [], ◌∷◌, Option, none, some, ◌==◌, if◌then◌else◌, ℤ, pos, eqz,
}
use flowi_vfs.Drivers.{FilePath, OpenResult, PluginEntry, archive_corrupt}
use flowi_vfs.Drivers.Ledger.{Ledger, opened, allocate, hand_over}

-- `VfsResolveError`; `no_error` is `VfsResolveError_None`.
pub data ResolveError : Type 0 where
  no_error file_not_found read_failed no_driver invalid_mount : ResolveError
  invalid_path invalid_file_size corrupt_archive not_mountable : ResolveError

abbrev pub is_error : ResolveError → Bool
is_error no_error = false
is_error _ = true

-- `TryLoadData`
pub record TryLoad : Type 0 where
  pub buffer : ℕ
  pub length : ℤ
  pub error : ResolveError
  pub path_split_offset : ℕ
  pub handle : ℕ
  pub loaded_path : FilePath
  pub is_directory : Bool

-- The errors that opened nothing.
abbrev pub nothing_loaded : ResolveError → TryLoad
nothing_loaded e = record {
  buffer = 0;
  length = pos 0;
  error = e;
  path_split_offset = 0;
  handle = 0;
  loaded_path = [];
  is_directory = false;
}

-- `FinalDriver`: the driver entry and the handle, or the error.
pub data FinalDriver (W : Type 0) : Type 0 where
  final : PluginEntry W → ℕ → FinalDriver W
  failed : ResolveError → FinalDriver W

-- What one driver makes of a buffer.
pub data Probe : Type 0 where
  found : ℕ → Probe
  corrupt : Probe
  pass : Probe

module _ {W : Type 0} where
  -- `load_data_from_plugin`
  unfoldable pub load_data_from_plugin :
      PluginEntry W → ℕ → FilePath → FilePath → ℤ → ℕ → Ledger W → TryLoad × Ledger W
  load_data_from_plugin e handle read_path loaded_path size split l =
      let (buffer, l') = allocate l in
      let (bytes, w) = e.driver.read handle read_path buffer size l'.world in
      (
        record {
          buffer = buffer;
          length = bytes;
          error = if eqz bytes size then no_error else invalid_file_size;
          path_split_offset = split;
          handle = handle;
          loaded_path = loaded_path;
          is_directory = false;
        },
        record l' { world = w },
      )

  -- A driver's `open_memory`: on success it owns the buffer.
  unfoldable pub probe_open :
      PluginEntry W
      → Option (ℕ → ℤ → FilePath → W → OpenResult × W)
      → FilePath
      → ℕ
      → ℤ
      → Ledger W
      → Probe × Ledger W
  probe_open e none path buffer size l = (pass, l)
  probe_open e (some open_memory) path buffer size l =
      let (r, l') = opened e.address (open_memory buffer size path l.world) l in
      if not (r.handle == 0)
      then (found r.handle, hand_over buffer l')
      else if r.vfs_status == archive_corrupt
      then (corrupt, l')
      else (pass, l')

  unfoldable pub probe_memory : PluginEntry W → FilePath → ℕ → ℤ → Ledger W → Probe × Ledger W
  probe_memory e path buffer size l =
      if not e.driver.has_memory_capability
      then (pass, l)
      else probe_open e e.driver.open_memory path buffer size l

  -- `vfs_tree_find_plugin_for_memory`
  unfoldable pub find_plugin_for_memory :
      List (PluginEntry W) → FilePath → ℕ → ℤ → Ledger W → Option (PluginEntry W × ℕ) × Ledger W
  find_plugin_for_memory [] path buffer size l = (none, l)
  find_plugin_for_memory (e ∷ es) path buffer size l =
      let (p, l') = probe_memory e path buffer size l in
      elim p [
        | found h ↦ (some (e, h), l')
        | corrupt ↦ (none, l')
        | pass ↦ find_plugin_for_memory es path buffer size l'
      ]

  -- The inner loop of `vfs_tree_find_root_plugin_for_path`: the first driver that opens the path.
  unfoldable pub first_open :
      List (PluginEntry W) → FilePath → Ledger W → Option (PluginEntry W × ℕ) × Ledger W
  first_open [] path l = (none, l)
  first_open (e ∷ es) path l =
      let (r, l') = opened e.address (e.driver.open_path 0 path 0 l.world) l in
      elim (r.handle == 0) [ true ↦ first_open es path l' | false ↦ (some (e, r.handle), l') ]
