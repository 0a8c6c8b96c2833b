-- ===== src/Tests/DriverTests.antt =====
-- Drivers on concrete inputs: a file system with one archive, `a/b.zip`, for src/vfs/vfs_tree.c, and
-- the registration order of src/vfs/vfs.c.
use flowi_vfs.Common.{
  ℕ, suc, true, false, refl, List, [], ◌∷◌, none, some, ◌==◌, if◌then◌else◌, pos, negsuc,
}
use flowi_vfs.Drivers.{FilePath, OpenResult, Driver, PluginEntry}
use flowi_vfs.Drivers.Ledger.{Ledger}
use flowi_vfs.Drivers.Registry.{
  register_all, init_registry, IsHost, AheadOfFallback, register_all-AheadOfFallback,
}
use flowi_vfs.Resolve.{mount_path}
use flowi_vfs.Resolve.Owes.{Owes}
use flowi_vfs.Tree.{Node, node, end, data_of, create_root_node}
use flowi_vfs.Walk.{walk_and_resolve}
use flowi_vfs.Walk.Entered.{Gains}
use flowi_vfs.Tests.HandleTests.{scheduled}
use flowi_vfs.Handles.{OpType}
use flowi_vfs.FileOps.Opening.{OpeningIn, op_file_open, op_file_open-Opening}
use flowi_vfs.Walk.Gains.{walk_and_resolve-Gains}
use flowi_vfs.Mounting.{Mount, load_archive, op_mount}
use flowi_vfs.Mounting.Clones.{ArchiveOwes, load_archive-Owes}
use flowi_vfs.Mounting.Roots.{Mounted, op_mount-Mounted}
use flowi_vfs.Resolve.Roots.{mount_path-Ends}
use flowi_vfs.Resolve.Descent.{Ends}

abbrev answer : ℕ → ℕ → OpenResult × ℕ
answer h w = (record { handle = h; vfs_status = 0; is_directory = true }, suc w)

-- The directory: a path of one segment is a directory, one of two is the archive's file, handle 2.
abbrev disk : Driver ℕ
disk = record {
  plugin_name = b'd' ∷ [];
  has_memory_capability = false;
  has_direct_path_capability = true;
  can_open = λ p w. (true, w);
  open_path = λ parent p flags w.
      answer
        (elim p [ [] ↦ 0 | x ∷ xs ↦ elim xs [ [] ↦ x | y ∷ ys ↦ elim ys [ [] ↦ 2 | z ∷ zs ↦ 0 ] ] ])
        w;
  is_directory = λ h w. h == 1;
  read = λ h p buffer size w. (size, w);
  get_size = λ h p w. (if h == 2 then pos 40 else negsuc 0, w);
  clone = none;
  close = λ h w. w;
  open_memory = none;
  get_file_path = none;
}

abbrev archive : Driver ℕ
archive = record {
  plugin_name = b'z' ∷ [];
  has_memory_capability = true;
  has_direct_path_capability = false;
  can_open = λ p w. (true, w);
  open_path = λ parent p flags w. answer 0 w;
  is_directory = λ h w. true;
  read = λ h p buffer size w. (negsuc 0, w);
  get_size = λ h p w. (negsuc 0, w);
  clone = none;
  close = λ h w. w;
  open_memory = some (λ buffer size p w. answer 9 w);
  get_file_path = none;
}

abbrev zip : PluginEntry ℕ
zip = record { address = 10; plugin = 1; driver = archive }

abbrev local : PluginEntry ℕ
local = record { address = 20; plugin = 2; driver = disk }

abbrev plugins : List (PluginEntry ℕ)
plugins = zip ∷ local ∷ []

-- Paths as segment numbers: 1 is the directory's name, 2 the archive's.
abbrev reconstruct : ℕ → ℕ → FilePath
reconstruct from upto =
    if from == 0 then (if upto == 1 then 1 ∷ [] else if upto == 2 then 1 ∷ 2 ∷ [] else []) else []

abbrev clean : Ledger ℕ
clean = record { world = 0; handles = []; buffers = []; next_buffer = 0; fault = false }

clean-Owes : Owes clean [] []
clean-Owes = record { handles = refl; buffers = refl; sound = refl; live = tt }

mount_path-Ends_example : Ends [] [] (mount_path plugins 2 reconstruct clean)
mount_path-Ends_example = mount_path-Ends plugins 2 reconstruct clean-Owes

abbrev loaded : Ledger ℕ
loaded = record {
  world = 0;
  handles = (20, 2) ∷ [];
  buffers = 5 ∷ [];
  next_buffer = 5;
  fault = false;
}

loaded-Owes : Owes loaded ((20, 2) ∷ []) (5 ∷ [])
loaded-Owes = record { handles = refl; buffers = refl; sound = refl; live = (λ e. cc, tt) }

zip-IsHost : IsHost local zip
zip-IsHost = record { present = λ e. cc; other = λ e. cc; own_entry = λ e. cc }

register_all-AheadOfFallback_example :
    AheadOfFallback local (zip ∷ []) (register_all (zip ∷ []) (init_registry local)).plugins
register_all-AheadOfFallback_example =
    register_all-AheadOfFallback local (zip ∷ []) (λ e. cc) (zip-IsHost, tt)

-- The archive's driver, with handles that can be cloned.
abbrev cloning : PluginEntry ℕ
cloning = record zip { driver = record archive { clone = some (λ h w. answer 8 w) } }

abbrev one_open : Ledger ℕ
one_open = record {
  world = 0;
  handles = (10, 9) ∷ [];
  buffers = [];
  next_buffer = 0;
  fault = false;
}

one_open-Owes : Owes one_open ((10, 9) ∷ []) []
one_open-Owes = record { handles = refl; buffers = refl; sound = refl; live = (λ e. cc, tt) }

load_archive-Owes_example :
    ArchiveOwes [] [] (load_archive (cloning ∷ local ∷ []) local 2 (1 ∷ 2 ∷ []) (pos 40) clean)
load_archive-Owes_example =
    load_archive-Owes (cloning ∷ local ∷ []) local 2 (1 ∷ 2 ∷ []) (pos 40) clean-Owes

abbrev new_mount : Mount ℕ
new_mount = record {
  source_path = 1 ∷ 2 ∷ [];
  enable_file_watching = true;
  root_entry = none;
  root_handles = 0 ∷ 0 ∷ [];
  watcher_handle = 0;
  watching_enabled = false;
  version = 0;
}

op_mount-Mounted_example :
    Mounted [] [] (op_mount (λ p. 3) (cloning ∷ local ∷ []) 2 reconstruct new_mount clean)
op_mount-Mounted_example =
    op_mount-Mounted (λ p. 3) (cloning ∷ local ∷ []) 2 reconstruct new_mount clean-Owes

-- A root that the local driver serves, from both workers.
abbrev served_root : Node
served_root =
    node (record (data_of (create_root_node [])) { plugin_entry = some 20; handles = 2 ∷ 2 ∷ [] })
      end

walk_and_resolve-Gains_example :
    Gains [] [] served_root
      (walk_and_resolve
        (cloning ∷ local ∷ [])
        (λ a b. [])
        (λ a b. pos 0)
        1
        true
        false
        ((2 ∷ []) ∷ [])
        served_root
        clean).0
      (walk_and_resolve
        (cloning ∷ local ∷ [])
        (λ a b. [])
        (λ a b. pos 0)
        1
        true
        false
        ((2 ∷ []) ∷ [])
        served_root
        clean).2
walk_and_resolve-Gains_example =
    walk_and_resolve-Gains (cloning ∷ local ∷ []) (λ a b. []) (λ a b. pos 0) 1 true false
      ((2 ∷ []) ∷ []) served_root clean-Owes

op_file_open-Opening_example : OpeningIn [] [] (some served_root) (
    op_file_open
      (cloning ∷ local ∷ [])
      (λ p. p ∷ [])
      (λ p a b. [])
      (λ a b. pos 0)
      1
      (scheduled 3 OpType.file_open)
      (some served_root)
      clean)
op_file_open-Opening_example =
    op_file_open-Opening (cloning ∷ local ∷ []) (λ p. p ∷ []) (λ p a b. []) (λ a b. pos 0) 1
      (scheduled 3 OpType.file_open) (some served_root) clean-Owes
