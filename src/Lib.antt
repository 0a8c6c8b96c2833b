-- ===== src/Lib.antt =====
-- Verification library of flowi-vfs, the virtual file system of src/vfs/ (C): what it promises of
-- handles, mounts, archives and reads, stated over definitions that follow the code function by function.
--
-- The program. A host mounts a path; a mount's root is a directory or an archive that some driver opens.
-- Drivers are tables of functions (include/flowi/vfs/vfs_plugin.h). Each asynchronous operation is a handle
-- in one table under `handle_lock`: it is allocated, its job is scheduled on flowi-core's job system, and
-- its result is read by the handle's id until the handle is closed. Jobs walk the mount's tree of nodes,
-- open files through drivers and load archives into nodes of the tree.
--
-- Which file models which part (paths from the repository's root):
--   Common           Boolean tests, lists, signed sizes (`i64` as pos n and negsuc n, i.e. -(n + 1)).
--   Status           the 32-bit status of src/vfs/vfs.h, as its number.
--   Handles          src/vfs/vfs.c: the handle table. Handles holds the types of src/vfs/vfs_internal.h,
--                    Handles.Map the hash map and its lookups, Handles.Jobs the job system (a record of
--                    functions over its state) and the waits, Handles.Release the freeing of a handle and
--                    the reclaim sweep, Handles.Snapshot the queries, Handles.Alloc the birth of a handle,
--                    Handles.Chain reads and writes on an open file and `vfs_dispatch`, Handles.Close
--                    `vfs_close`, `vfs_wait_all`, `vfs_cancel` and `vfs_set_priority`, Handles.Waiting
--                    `vfs_wait`. Handles.Steps makes
--                    the sections that change the table under `handle_lock` the steps of an interleaving of
--                    threads, the sections of `vfs_mount_close` among them; the release hooks that a thread
--                    runs right after a section belong to its step. What the callers must not do (reuse one
--                    id on two threads at a time, use a handle of a mount whose close is past its last
--                    refresh) are conditions of the steps.
--   Drivers          the driver interface, the list of registered drivers (`vfs_register_driver`,
--                    `vfs_register_builtin_drivers`), and Drivers.Ledger: what the VFS owes back, i.e. the
--                    driver handles that it holds open and the buffers that it allocated. A close of a
--                    handle that is not open and a free of a foreign buffer set `fault`.
--   Loading, Resolve src/vfs/vfs_tree.c: reading a file into memory, asking the drivers for it, and
--                    `vfs_tree_resolve_full_path` and `vfs_tree_mount_path`.
--   Tree             src/vfs/vfs_tree.c: nodes, sorted sibling lists, closing and removing nodes, and
--                    `process_file_watcher_changes` of src/vfs/vfs.c.
--   Watcher          `vfs_tree_watcher_relative_path`; Tree.Update is `vfs_update` over all mounts.
--   Mounting         `vfs_tree_clone_plugin_handle`, the loading half of `vfs_tree_try_load_as_archive`,
--                    and `vfs_op_mount` of src/vfs/vfs_ops.c.
--   Walk             `vfs_tree_walk_and_resolve`, and the swap of a node's handles for an archive's.
--   Teardown         `vfs_mount_close` of src/vfs/vfs.c: the handles of the mount, the wait for their jobs,
--                    and, in Teardown.Closing, the sections in order.
--   Listing          `vfs_dir_entry_callback`, and the filter, the sort and the result of `vfs_op_list`;
--                    Listing.Probing `vfs_ops_check_if_archive`.
--   FileOps          `vfs_op_file_read`, `vfs_op_file_write` and `vfs_ops_execute`; FileOps.Opening
--                    `vfs_op_file_open`, on top of the walk.
--   Archives         src/vfs/drivers/archive_common.h: the comparison of an entry's path, and the listing
--                    of the children of a path, which all archive drivers share.
--   Heap             what a driver allocates and frees: the addresses that were handed out and given
--                    back. Heap.Moves says how they change hands, Heap.Sessions follows a handle
--                    from its open to its close.
--   Lhasa            src/vfs/drivers/lhasa.c over the lhasa library, a record of its functions:
--                    Lhasa.Operations holds the driver's functions, Lhasa.Stream the stream in memory.
--   Unlzx            src/vfs/drivers/unlzx.c over the unlzx library in the same way; Unlzx.Reading holds
--                    its reads.
--   LibArchive       src/vfs/drivers/libarchive.c over libarchive: LibArchive.Names the paths that are
--                    archives, LibArchive.Opens opens and clones, LibArchive.Reading reads and sizes.
--   LocalFs          src/vfs/drivers/localfs.c over the operating system; LocalFs.Reading holds its
--                    reads and writes.
--   ReadAll          `vfs_op_read_all`: the chunked loop, the error paths, the callback.
--   Tests            simulated job systems, drivers and files, and the theorems applied to them.
--
-- How state is modelled. A call takes the table (or the ledger, the tree) and returns it; the job system's
-- state, the drivers' world and what a call does outside (`Effect`, `Event`, closed handles in order) are
-- explicit. Pointers are numbers, null is 0. A `u32` counter wraps by `% 2 ^ 32`. The table's hash map is a
-- list of handles with distinct ids. The tree's links are the positions in its sibling lists. Strings are
-- lists of bytes.
--
-- Bounds and fuel. `descend` runs on the number of segments of the path and one more: each round moves the
-- position, so it does not run out. `stream` runs on the cap of a read (512 MB) and one more: each round
-- but the last adds a byte. `drain_victims` waits for other threads, so its rounds are any number beyond
-- a round in which the handles are quiet. The loops over an archive run on the files or headers that are
-- left and one more, and the loops of a driver's read or write on its size and one more. The other loops are
-- structural. `MAX_JOB_THREADS` is 2, as in the code.
--
-- Parameters, for code that is not in this repository: the job system, `path_components` and
-- `path_reconstruct_from_segments`, `string_compare_natural`, the fuzzy matcher, the file watcher, the
-- allocator's answers and, above src/vfs/drivers/, the drivers; below it, the archive libraries under
-- external/ and the operating system's files (core/os).
--
-- Not modelled: logging, profiling, arenas, memory order; `vfs_init`,
-- `vfs_destroy`, `vfs_mount_with_options`, `vfs_get_size`, `vfs_get_listing` and the walk and the job behind
-- `vfs_op_list`; the Rust bindings and code generator; the vendored libraries under
-- external/. Of `vfs_ops_execute` the operations with a state of their own are a parameter. The walk takes `tree_lock` section by section; here it runs without other threads.
pub mod Archives
pub mod Common
pub mod Drivers
pub mod FileOps
pub mod Handles
pub mod Heap
pub mod Lhasa
pub mod LibArchive
pub mod Listing
pub mod Loading
pub mod LocalFs
pub mod Mounting
pub mod ReadAll
pub mod Resolve
pub mod Status
pub mod Teardown
pub mod Tests
pub mod Tree
pub mod Unlzx
pub mod Walk
pub mod Watcher
