-- ===== src/Handles/Close.antt =====
-- `vfs_close`, `vfs_cancel`, `vfs_set_priority` and `vfs_wait_all` of src/vfs/vfs.c. Each section
-- under `handle_lock` is one function; a call is the sections in order.
pub mod Section
pub mod Outcome
use flowi_vfs.Common.{
  ℕ, Bool, true, false, not, List, [], ◌∷◌, ◌++◌, Option, none, some, ◌==◌, ltb, if◌then◌else◌,
}
use flowi_vfs.Handles.{Handle, Table, OpType, handle_invalid, inc32}
use flowi_vfs.Handles.Map.{modify, lookup_open_handle}
use flowi_vfs.Handles.Jobs.{JobSystem, handle_jobs, is_idle, wait_each, wait_handle_jobs}
use flowi_vfs.Handles.Release.{Effect, free_handle, run_release, reclaim_closed_handles}
use flowi_vfs.Handles.Snapshot.{Snapshot, snapshot_handle}

-- `vfs_op_borrows_caller_memory`
abbrev pub borrows_caller_memory : OpType → Bool
borrows_caller_memory OpType.file_read = true
borrows_caller_memory OpType.file_write = true
borrows_caller_memory _ = false

unfoldable pub mark_closed : Handle → Handle
mark_closed h = record h { closed = true }

-- Defer: the handle stays in the map, closed.
unfoldable pub defer_close : Table → Handle → Table
defer_close t h = record t {
  handle_map = modify h.id mark_closed t.handle_map;
  closed_count = inc32 t.closed_count;
}

unfoldable pub request_cancel : Handle → Handle
request_cancel h = record h { cancel_requested = true }

-- A borrowing operation is waited for before the last section.
abbrev pub wait_if : (J : JobSystem) → Bool → List ℕ → J.State → J.State
wait_if J true jobs s = (wait_handle_jobs J jobs s).1
wait_if J false jobs s = s

-- The jobs that `vfs_wait_all` copies out, two slots to a handle.
unfoldable pub all_jobs : List Handle → List ℕ
all_jobs [] = []
all_jobs (h ∷ hs) = handle_jobs h.job_handle h.last_job ++ all_jobs hs

module _ (has_close : ℕ → Bool) (J : JobSystem) where
  -- Free the handle, then run its hook with the lock released.
  unfoldable pub free_now : Table → Handle → Table × List Effect
  free_now t h =
      let (t', freed, hook) = free_handle has_close t h in (t', freed ++ run_release hook)

  -- The section behind the second lookup of `vfs_close`.
  unfoldable pub close_found : J.State → Bool → Table → Handle → Table × List Effect
  close_found s borrows t h =
      if is_idle J s h
      then free_now t h
      else if not (J.is_main_thread s)
      then (t, [])
      else if borrows
      then (t, [])
      else (defer_close t h, [])

  abbrev close_looked_up : J.State → Bool → Table → Option Handle → Table × List Effect
  close_looked_up s borrows t none = (t, [])
  close_looked_up s borrows t (some h) = close_found s borrows t h

  unfoldable pub close_section : J.State → Bool → Table → ℕ → Table × List Effect
  close_section s borrows t id = close_looked_up s borrows t (lookup_open_handle t id)

  abbrev close_snapshot : J.State → Table → ℕ → Option Snapshot → Table × J.State × List Effect
  close_snapshot s t id none = (t, s, [])
  close_snapshot s t id (some snap) =
      let borrows = borrows_caller_memory snap.op_type in
      let s' = wait_if J borrows (handle_jobs snap.job_handle snap.last_job) s in
      let (t', effects) = close_section s' borrows t id in (t', s', effects)

  -- `vfs_close`
  unfoldable pub close : J.State → Table → ℕ → Table × J.State × List Effect
  close s t id =
      if id == handle_invalid
      then (t, s, [])
      else (let (t', reclaimed) = reclaim_closed_handles has_close J s t in
          let (t'', s', effects) = close_snapshot s t' id (snapshot_handle J s t' id) in
          (t'', s', reclaimed ++ effects))

  -- `vfs_wait_all`
  unfoldable pub wait_all : J.State → Table → Table × J.State × List Effect
  wait_all s t =
      let s' = wait_each J (all_jobs t.handle_map) s in
      let (t', effects) = reclaim_closed_handles has_close J s' t in (t', s', effects)

abbrev cancel_found : Table → ℕ → Option Handle → Table × Bool
cancel_found t id none = (t, false)
cancel_found t id (some h) = (record t { handle_map = modify id request_cancel t.handle_map }, true)

-- `vfs_cancel`
unfoldable pub cancel : Table → ℕ → Table × Bool
cancel t id =
    if id == handle_invalid then (t, false) else cancel_found t id (lookup_open_handle t id)

-- `vfs_set_priority`, with the job priority that is passed on, if the handle has a job. `high` is
-- the number of flowi-core's `JobPriority_High`.
unfoldable pub with_priority : ℕ → Handle → Handle
with_priority priority h = record h { priority = priority }

abbrev prioritise : ℕ → Table → ℕ → ℕ → Option Handle → Table × Option (ℕ × ℕ)
prioritise high t id priority none = (t, none)
prioritise high t id priority (some h) = (
  record t { handle_map = modify id (with_priority priority) t.handle_map },
  if h.job_handle == 0
      then none
      else some (h.job_handle, if ltb high priority then high else priority),
)

unfoldable pub set_priority : ℕ → Table → ℕ → ℕ → Table × Option (ℕ × ℕ)
set_priority high t id priority = prioritise high t id priority (lookup_open_handle t id)
