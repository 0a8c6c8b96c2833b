-- ===== src/Tests/HandleTests.antt =====
-- The handle table of src/vfs/vfs.c on small tables, over a simulated job system.
use flowi_vfs.Common.{
  ℕ, ◌+◌, Bool, true, false, not, ◌&&◌, ◌||◌, ◌≡◌, refl, [], ◌∷◌, none, some, ◌==◌, if◌then◌else◌,
  arith, pos,
}
use flowi_vfs.Status.{state_pending}
use flowi_vfs.Handles.{Handle, Table, OpType, null, handle_invalid}
use flowi_vfs.Handles.Map.{find, lookup_handle, lookup_open_handle}
use flowi_vfs.Handles.Map.Closed.{closed_in}
use flowi_vfs.Handles.Jobs.{JobSystem, JobLaws}
use flowi_vfs.Handles.Valid.{IsValid}
use flowi_vfs.Handles.Close.{close}
use flowi_vfs.Handles.Close.Outcome.{
  lookup_open_handle-close_deferrable, lookup_handle-close_borrowing, find-close,
}
use flowi_vfs.FileOps.{FileDriver, read_all_notify_failure, execute}
use flowi_vfs.Handles.Close.Section.{after_close}
use flowi_vfs.Handles.Map.Find.{select}
use flowi_vfs.Handles.Jobs.{is_idle}
use flowi_vfs.Handles.Snapshot.{is_ready}
use flowi_vfs.Handles.Close.{wait_all}
use flowi_vfs.Handles.Waiting.{wait, wait-is_ready, find-wait_all}

-- A job system whose state says which thread asks and which jobs are done.
pub record SimJobs : Type 0 where
  pub main : Bool
  pub done : ℕ → Bool

abbrev pub sim : JobSystem
sim = record {
  State = SimJobs;
  is_finished = λ s j. s.done j;
  is_main_thread = λ s. s.main;
  wait = λ j s. if s.main then record s { done = λ k. (j == k) || s.done k } else s;
  add_job = λ s. (9, s);
  add_job_with_dependency = λ d s. (9, s);
}

pub sim_laws : JobLaws sim
sim_laws = record {
  wait_finishes = λ j s m. ground arith;
  wait_keeps = λ j k s f. ground arith;
  wait_thread = λ j s. ground arith;
  wait_worker = λ j s w. ground arith;
}

-- The main thread, while no job has finished.
abbrev pub busy_main : SimJobs
busy_main = record { main = true; done = λ k. false }

-- An open operation whose job 4 is recorded, with a release hook.
abbrev pub scheduled : ℕ → OpType → Handle
scheduled id op = record {
  id = id;
  job_handle = 4;
  last_job = 4;
  pending_dispatches = 0;
  closed = false;
  mount = 1;
  path = b'a' ∷ [];
  filter_needle = [];
  result_data = none;
  result_arena = null;
  op_type = op;
  snapshot_version = 0;
  depth = 0;
  error_status = state_pending;
  callback = null;
  user_data = 5;
  release = 77;
  priority = 1;
  plugin_entry = some 0;
  plugin_file_handle = 12;
  open_flags = 1;
  read_buffer = 900;
  read_size = pos 16;
  bytes_read = pos 0;
  file_handle = handle_invalid;
  write_data = null;
  write_size = pos 0;
  write_data_owned = false;
  callback_owns_data = false;
  cancel_requested = false;
}

abbrev pub table_of : Handle → Table
table_of h = record { next_handle_id = 8; handle_map = h ∷ []; closed_count = 0 }

pub table_of-IsValid : (op : OpType) → IsValid (table_of (scheduled 3 op))
unfolding find closed_in
table_of-IsValid op = record {
  distinct = (refl, tt);
  handed_out = λ k le. ground arith;
  counted = refl;
}

abbrev pub reading : Table
reading = table_of (scheduled 3 OpType.file_read)

abbrev pub opened : Table
opened = table_of (scheduled 3 OpType.file_open)

lookup_open_handle-close_deferrable_example :
    lookup_open_handle (close (λ d. true) sim busy_main opened 3).0 3 ≡ none
unfolding lookup_open_handle lookup_handle find closed_in
lookup_open_handle-close_deferrable_example =
    lookup_open_handle-close_deferrable (λ d. true) sim busy_main opened 3
      {h = scheduled 3 OpType.file_open} (λ e. cc) (omega arith) (table_of-IsValid OpType.file_open)
      refl refl refl

lookup_handle-close_borrowing_example :
    lookup_handle (close (λ d. true) sim busy_main reading 3).0 3 ≡ none
unfolding lookup_open_handle lookup_handle find closed_in
lookup_handle-close_borrowing_example =
    lookup_handle-close_borrowing (λ d. true) sim busy_main reading 3
      {h = scheduled 3 OpType.file_read} (λ e. cc) (omega arith) (table_of-IsValid OpType.file_read)
      refl refl sim_laws refl refl

find-close_example :
    lookup_handle (close (λ d. true) sim busy_main opened 3).0 3
    ≡ after_close (λ d. true) sim busy_main false (scheduled 3 OpType.file_open)
find-close_example =
    find-close (λ d. true) sim busy_main opened 3 (scheduled 3 OpType.file_open) 3 (λ e. cc)
      (unfold closed_in in omega arith) (table_of-IsValid OpType.file_open)
      (unfold lookup_open_handle lookup_handle find in refl)

wait-is_ready_example :
    let r = wait sim busy_main opened 3 in
    (r.0 ≡ false)
    × (is_idle sim r.1 (scheduled 3 OpType.file_open) ≡ true)
    × (is_ready sim r.1 opened 3 ≡ true)
wait-is_ready_example =
    wait-is_ready sim sim_laws busy_main refl opened 3 (scheduled 3 OpType.file_open) (λ e. cc)
      (unfold lookup_open_handle lookup_handle find in refl) refl

-- A handle that was closed while its job ran.
abbrev deferred : Table
deferred = record {
  next_handle_id = 8;
  handle_map = record (scheduled 3 OpType.file_open) { closed = true } ∷ [];
  closed_count = 1;
}

deferred-IsValid : IsValid deferred
unfolding find closed_in
deferred-IsValid = record {
  distinct = (refl, tt);
  handed_out = λ k le. ground arith;
  counted = refl;
}

find-wait_all_example :
    lookup_handle (wait_all (λ d. true) sim busy_main deferred).0 3
    ≡ select (λ h. not (h.closed && (h.pending_dispatches == 0))) (lookup_handle deferred 3)
find-wait_all_example =
    find-wait_all sim sim_laws busy_main refl (λ d. true) deferred 3
      (unfold closed_in in omega arith) deferred-IsValid

-- A read chained onto an open file, whose handle 3 is in the table.
abbrev read_op : Handle
read_op = record (scheduled 4 OpType.file_read) { file_handle = 3 }

-- A driver that delivers as much as it is asked for, and writes it.
abbrev willing : ℕ → FileDriver ℕ
willing e = record { read = some (λ f b size w. (size, w)); write = some (λ f b size w. (size, w)) }

abbrev succeed : OpType → Handle → ℕ → Handle × ℕ
succeed op h w = (record h { error_status = 0 }, w)

-- A callback adds its argument to the world.
abbrev adds : ℕ → ℕ → ℕ → ℕ
adds fn user_data w = user_data + w

-- A read-all that was canceled before its job started.
abbrev stopped_op : Handle
stopped_op = record (scheduled 4 OpType.read_all) { cancel_requested = true; callback = 6 }

canceled_calls_back : (execute willing adds succeed opened stopped_op 7).1 ≡ 12
unfolding execute read_all_notify_failure
canceled_calls_back = refl
