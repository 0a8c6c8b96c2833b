-- ===== src/Tests/MountTests.antt =====
-- Handles of a mount of src/vfs/vfs.c: their birth, and the close of the mount.
use flowi_vfs.Common.{ℕ, true, false, ◌∷◌, some, refl, [], ◌==◌, arith, All}
use flowi_vfs.Handles.{OpType, null, handle_invalid}
use flowi_vfs.Handles.Map.{collect_handles, find, lookup_handle}
use flowi_vfs.Handles.Alloc.{OpParams, allocate_op}
use flowi_vfs.Handles.Birth.{Issued, allocate_op-Issued}
use flowi_vfs.Handles.Jobs.{is_idle, jobs_finished, handle_jobs}
use flowi_vfs.Teardown.{victims_of, snapshot_mount_victims}
use flowi_vfs.Teardown.Victims.{Settles}
use flowi_vfs.Tree.{create_root_node}
use flowi_vfs.Teardown.Closing.{ClosingMount, mount_close, listings, Closed, mount_close-Closed}
use flowi_vfs.Tests.HandleTests.{SimJobs, sim, busy_main, opened, table_of-IsValid}

abbrev pub listing_params : OpParams
listing_params = record {
  mount = 1;
  path = [];
  op_type = OpType.mount_list;
  depth = 1;
  callback = null;
  user_data = null;
  release = null;
  reuse_handle = handle_invalid;
  filter_needle = [];
  open_flags = 0;
}

allocate_op-Issued_example :
    Issued opened listing_params
      (table_of-IsValid OpType.file_open)
      (omega arith)
      (omega arith)
      sim
      (λ m. 0)
      (λ h. h)
      (λ h. (refl, refl))
      busy_main
      (allocate_op sim (λ m. 0) (λ h. h) listing_params busy_main opened)
allocate_op-Issued_example =
    allocate_op-Issued opened listing_params (table_of-IsValid OpType.file_open) (omega arith)
      (omega arith) sim (λ m. 0) (λ h. h) (λ h. (refl, refl)) busy_main

-- In round 2 every job has finished.
abbrev jobs_at : ℕ → SimJobs
jobs_at n = record { main = true; done = λ j. n == 2 }

opened_quiet : All (λ v. Settles sim (opened, jobs_at 2) v.id) (snapshot_mount_victims 1 opened)
unfolding victims_of collect_handles lookup_handle find is_idle handle_jobs jobs_finished
opened_quiet = (λ h e. ground (arith, e), tt)

-- A mount that is not watched, with an empty root, listed before another.
abbrev idle_mount : ClosingMount
idle_mount = record {
  address = 1;
  job_handle = 6;
  watcher_handle = 0;
  watching_enabled = false;
  root_node = some (create_root_node []);
}

mount_close-Closed_example :
    Closed
      (λ d. true)
      sim
      idle_mount
      opened
      opened
      (mount_close
        (λ d. true)
        sim
        5
        idle_mount
        (1 ∷ 2 ∷ [])
        opened
        (λ n. (opened, jobs_at n))
        opened)
mount_close-Closed_example =
    mount_close-Closed (λ d. true) sim 5 2 idle_mount (1 ∷ 2 ∷ []) opened (λ n. (opened, jobs_at n))
      opened (unfold listings in refl) (table_of-IsValid OpType.file_open)
      (table_of-IsValid OpType.file_open) (omega arith) opened_quiet
