-- ===== src/Handles/Waiting.antt =====
-- `vfs_wait` of src/vfs/vfs.c, and what it and `vfs_wait_all` leave when they return.
use flowi_vfs.Common.{
  ℕ, ◌<◌, Bool, true, false, not, ◌&&◌, ◌||◌, ◌≡◌, refl, ◌≢◌, List, [], ◌∷◌, ◌++◌, Option, none,
  some, ◌==◌, arith, inl, inr, Option-cases,
}
use flowi_vfs.Handles.{Handle, Table, handle_invalid, u32_mod}
use flowi_vfs.Handles.Map.{find, lookup_handle, lookup_open_handle}
use flowi_vfs.Handles.Map.Find.{select}
use flowi_vfs.Handles.Map.Closed.{closed_in}
use flowi_vfs.Handles.Jobs.{
  JobSystem, JobLaws, handle_jobs, jobs_finished, wait_each, wait_handle_jobs, is_idle,
}
use flowi_vfs.Handles.Jobs.Waits.{jobs_finished-wait_each}
use flowi_vfs.Handles.Release.{is_reclaimable}
use flowi_vfs.Handles.Valid.{IsValid}
use flowi_vfs.Handles.Reclaim.{find-reclaim_closed_handles}
use flowi_vfs.Handles.Snapshot.{Snapshot, snapshot_of, snapshot_handle, is_ready_handle, is_ready}
use flowi_vfs.Handles.Close.{all_jobs, wait_all}

module _ (J : JobSystem) where
  wait_snapshot : J.State → Option Snapshot → Bool × J.State
  unfolding wait_handle_jobs
  wait_snapshot s none = (false, s)
  wait_snapshot s (some snap) =
      let (finished, s') = wait_handle_jobs J (handle_jobs snap.job_handle snap.last_job) s in
      (not finished || snap.dispatch_pending, s')

  -- `vfs_wait`, with whether it logged that it could not block.
  unfoldable pub wait : J.State → Table → ℕ → Bool × J.State
  unfolding wait_snapshot snapshot_handle
  wait s t id = wait_snapshot s (snapshot_handle J s t id)

  jobs_finished-append :
      (s : J.State) (xs ys : List ℕ)
      → jobs_finished J s (xs ++ ys) ≡ (jobs_finished J s xs && jobs_finished J s ys)
  unfolding jobs_finished
  jobs_finished-append s [] ys = refl
  jobs_finished-append s (x ∷ xs) ys = ground (arith, jobs_finished-append s xs ys)

  jobs_finished-all_jobs :
      (s : J.State) (k : ℕ) (hs : List Handle) (h : Handle)
      → find k hs ≡ some h
      → jobs_finished J s (all_jobs hs) ≡ true
      → jobs_finished J s (handle_jobs h.job_handle h.last_job) ≡ true
  unfolding find all_jobs
  jobs_finished-all_jobs s k [] h e f = cc
  jobs_finished-all_jobs s k (g ∷ hs) h e f = ground (
    arith,
    jobs_finished-append s (handle_jobs g.job_handle g.last_job) (all_jobs hs),
    jobs_finished-all_jobs s k hs h,
  )

  module _ (laws : JobLaws J) (s : J.State) (main : J.is_main_thread s ≡ true) where
    -- Waiting for an open handle on the main thread, when no scheduling window is open on it and
    -- the job system waits as documented: afterwards no work is outstanding on the handle, it
    -- reads as ready, and no message that the wait could not block was logged.
    pub wait-is_ready :
        (t : Table) (id : ℕ) (h : Handle)
        → id ≢ handle_invalid
        → lookup_open_handle t id ≡ some h
        → h.pending_dispatches ≡ 0
        → let r = wait s t id in
          (r.0 ≡ false) × (is_idle J r.1 h ≡ true) × (is_ready J r.1 t id ≡ true)
    unfolding wait is_ready is_idle snapshot_of is_ready_handle jobs_finished handle_jobs
    wait-is_ready t id h ne e p =
        let f = jobs_finished-wait_each J laws (handle_jobs h.job_handle h.last_job) s main in
        ground (arith, f)

    -- Waiting for all operations on the main thread, in a valid table with fewer than 2^32 closed
    -- handles, when the job system waits as documented: every closed handle is gone, unless a
    -- scheduling window is open on it, and every other handle stays as it is.
    pub find-wait_all :
        (has_close : ℕ → Bool) (t : Table) (k : ℕ)
        → closed_in t.handle_map < u32_mod
        → IsValid t
        → let r = wait_all has_close J s t in
          (lookup_handle r.0 k
            ≡ select (λ h. not (h.closed && (h.pending_dispatches == 0))) (lookup_handle t k))
    unfolding wait_all lookup_handle is_reclaimable is_idle
    find-wait_all has_close t k small v =
        let s' = wait_each J (all_jobs t.handle_map) s in
        let f = jobs_finished-wait_each J laws (all_jobs t.handle_map) s main in
        elim (Option-cases (find k t.handle_map)) [
          | inl e ↦ ground (arith, find-reclaim_closed_handles has_close J s' t k small v)
          | inr (h, e) ↦ ground (
            arith,
            find-reclaim_closed_handles has_close J s' t k small v,
            jobs_finished-all_jobs s' k t.handle_map h e f,
          )
        ]
