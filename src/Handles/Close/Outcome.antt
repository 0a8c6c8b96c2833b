-- ===== src/Handles/Close/Outcome.antt =====
-- `vfs_close` of src/vfs/vfs.c as a whole: the sweep, the snapshot, the wait and the last section.
use flowi_vfs.Common.{
  ℕ, ◌+◌, ◌<◌, Bool, true, false, not, ◌≡◌, ap, ◌≢◌, none, some, ◌==◌, if◌then◌else◌, arith, inl,
  inr, Bool-cases, Option-cases,
}
use flowi_vfs.Handles.{Handle, Table, null, handle_invalid, u32_mod}
use flowi_vfs.Handles.Map.{find, lookup_handle, lookup_open_handle}
use flowi_vfs.Handles.Map.Find.{select}
use flowi_vfs.Handles.Map.Closed.{closed_in}
use flowi_vfs.Handles.Jobs.Waits.{jobs_finished-wait_each}
use flowi_vfs.Handles.Jobs.{JobSystem, JobLaws, is_idle, handle_jobs, wait_handle_jobs}
use flowi_vfs.Handles.Release.{is_reclaimable, reclaim_closed_handles}
use flowi_vfs.Handles.Snapshot.{snapshot_handle, snapshot_of}
use flowi_vfs.Handles.Valid.{IsValid}
use flowi_vfs.Handles.Reclaim.{reclaim_closed_handles-IsValid, find-reclaim_closed_handles}
use flowi_vfs.Handles.Hooks.{hook_runs, hooked, hook_runs-append, hook_runs-reclaim_closed_handles}
use flowi_vfs.Handles.Close.{
  borrows_caller_memory, close, close_section, close_found, wait_if, close_snapshot, mark_closed,
}
use flowi_vfs.Handles.Close.Section.{
  FoundOpen-lookup_open_handle, after_close, find-close_found, close_section-IsValid,
  hook_runs-close_section,
}

module _ (has_close : ℕ → Bool) (J : JobSystem) (s : J.State) where
  abbrev pub swept : Table → Table
  swept t = (reclaim_closed_handles has_close J s t).0

  -- The job system's state after the wait of a borrowing operation.
  abbrev pub waited : Handle → J.State
  waited h = wait_if J (borrows_caller_memory h.op_type) (handle_jobs h.job_handle h.last_job) s

  -- An open handle survives the sweep as it is.
  lookup_open_handle-swept :
      (t : Table) (id : ℕ) (h : Handle)
      → closed_in t.handle_map < u32_mod
      → IsValid t
      → lookup_open_handle t id ≡ some h
      → lookup_open_handle (swept t) id ≡ some h
  unfolding lookup_open_handle is_reclaimable
  lookup_open_handle-swept t id h small v e =
      ground (arith, find-reclaim_closed_handles has_close J s t id small v)

  -- The call on an open handle is the last section, after the sweep and the wait.
  close_open :
      (t : Table) (id : ℕ) (h : Handle)
      → id ≢ handle_invalid
      → closed_in t.handle_map < u32_mod
      → IsValid t
      → lookup_open_handle t id ≡ some h
      → (close has_close J s t id).0
        ≡ (close_found has_close J (waited h) (borrows_caller_memory h.op_type) (swept t) h).0
  unfolding close snapshot_handle close_section snapshot_of
  close_open t id h ne small v e = ground (arith, lookup_open_handle-swept t id h small v e)

  -- A close keeps a valid table valid, on every path.
  pub close-IsValid : (t : Table) (id : ℕ) → IsValid t → IsValid (close has_close J s t id).0
  unfolding close
  close-IsValid t id v = elim (Bool-cases (id == handle_invalid)) [
    | inl bad ↦ rw bad v
    | inr good ↦ rw good (elim (Option-cases (snapshot_handle J s (swept t) id)) [
      | inl e ↦ rw e (reclaim_closed_handles-IsValid has_close J s t v)
      | inr (snap, e) ↦ rw e (
          close_section-IsValid has_close J _ _ (swept t) id
            (reclaim_closed_handles-IsValid has_close J s t v))
    ])
  ]

  -- Closing an open handle, in a valid table with fewer than 2^32 closed handles: its own entry is
  -- what the last section of the close leaves (freed, marked closed, or open as before), and each
  -- other handle stays as it is unless the sweep could reclaim it.
  pub find-close :
      (t : Table) (id : ℕ) (h : Handle) (k : ℕ)
      → id ≢ handle_invalid
      → closed_in t.handle_map < u32_mod
      → IsValid t
      → lookup_open_handle t id ≡ some h
      → lookup_handle (close has_close J s t id).0 k ≡ (
          if id == k
          then after_close has_close J (waited h) (borrows_caller_memory h.op_type) h
          else select (λ g. not (is_reclaimable J s g)) (lookup_handle t k))
  unfolding lookup_handle
  find-close t id h k ne small v e =
      let f =
        FoundOpen-lookup_open_handle (swept t) id h (lookup_open_handle-swept t id h small v e) in
      let l =
        find-close_found has_close J (waited h) (borrows_caller_memory h.op_type) (swept t) h k
          f.stored (reclaim_closed_handles-IsValid has_close J s t v) in
      let r = find-reclaim_closed_handles has_close J s t k small v in
      ground (arith, ap (λ u. find k u.handle_map) (close_open t id h ne small v e), l, f.named, r)

  module _ (fn user_data : ℕ) where
    hook_runs-close_snapshot :
        (t : Table) (id : ℕ)
        → fn ≢ null
        → let r = close_snapshot has_close J s t id (snapshot_handle J s t id) in
          hook_runs fn user_data r.2 + hooked fn user_data r.0.handle_map
          ≡ hooked fn user_data t.handle_map
    unfolding hook_runs
    hook_runs-close_snapshot t id ne = elim (Option-cases (snapshot_handle J s t id)) [
      | inl e ↦ rw e (omega arith)
      | inr (snap, e) ↦ rw e (hook_runs-close_section has_close J _ _ fn user_data t id ne)
    ]

    -- One close in a valid table: the runs of a release hook that is not null, and the handles
    -- that carry it afterwards, make up the handles that carried it before.
    pub hook_runs-close :
        (t : Table) (id : ℕ)
        → fn ≢ null
        → IsValid t
        → hook_runs fn user_data (close has_close J s t id).2
            + hooked fn user_data (close has_close J s t id).0.handle_map
          ≡ hooked fn user_data t.handle_map
    unfolding close hook_runs
    hook_runs-close t id ne v = elim (Bool-cases (id == handle_invalid)) [
      | inl bad ↦ rw bad (omega arith)
      | inr good ↦ rw good (
          omega (
            arith,
            hook_runs-append fn user_data (reclaim_closed_handles has_close J s t).1
                (close_snapshot has_close J s (swept t) id (snapshot_handle J s (swept t) id)).2,
            hook_runs-reclaim_closed_handles fn user_data has_close J s t ne v,
            hook_runs-close_snapshot (swept t) id ne,
          ))
    ]

-- Closing from the main thread, once an operation that borrows the caller's memory is told apart.
module _ (has_close : ℕ → Bool) (J : JobSystem) (s : J.State) (t : Table) (id : ℕ) {h : Handle}
    (ne : id ≢ handle_invalid) (small : closed_in t.handle_map < u32_mod) (v : IsValid t)
    (e : lookup_open_handle t id ≡ some h) (main : J.is_main_thread s ≡ true) where
  -- Closing an open handle on the main thread, in a valid table with fewer than 2^32 closed
  -- handles, when its operation does not borrow memory of the caller: afterwards the id names no
  -- open handle, whether or not its jobs have finished.
  pub lookup_open_handle-close_deferrable :
      borrows_caller_memory h.op_type ≡ false
      → lookup_open_handle (close has_close J s t id).0 id ≡ none
  unfolding lookup_open_handle mark_closed
  lookup_open_handle-close_deferrable b =
      ground (arith, find-close has_close J s t id h id ne small v e)

  -- Closing an open handle on the main thread, in a valid table with fewer than 2^32 closed
  -- handles, when its operation borrows memory of the caller, no scheduling window is open on it
  -- and the job system waits as documented: afterwards the handle is freed.
  pub lookup_handle-close_borrowing :
      JobLaws J
      → borrows_caller_memory h.op_type ≡ true
      → h.pending_dispatches ≡ 0
      → lookup_handle (close has_close J s t id).0 id ≡ none
  unfolding is_idle wait_handle_jobs
  lookup_handle-close_borrowing laws b p = ground (
    arith,
    find-close has_close J s t id h id ne small v e,
    jobs_finished-wait_each J laws (handle_jobs h.job_handle h.last_job) s main,
  )
