-- ===== src/Handles/Jobs.antt =====
-- The jobs of a handle (`VfsHandleJobs`, src/vfs/vfs.c), and what the code asks of flowi-core's job
-- system, which is a parameter of every definition that asks.
pub mod Waits
use flowi_vfs.Common.{
  ℕ, Bool, true, false, not, ◌&&◌, ◌≡◌, List, [], ◌∷◌, ◌++◌, ◌==◌, if◌then◌else◌,
}
use flowi_vfs.Handles.{Handle, null}

-- `fl_jobs_is_finished(job) != FlJobsResult_NotFinished`, `fl_jobs_is_main_thread`, `fl_jobs_wait`,
-- `fl_jobs_add_job` and `fl_jobs_add_job_with_dependency` (0 stands for no dependency).
pub record JobSystem : Type 1 where
  pub State : Type 0
  pub is_finished : State → ℕ → Bool
  pub is_main_thread : State → Bool
  pub wait : ℕ → State → State
  pub add_job : State → ℕ × State
  pub add_job_with_dependency : ℕ → State → ℕ × State

-- What the documentation of the job system promises: waiting blocks on the main thread only, and a
-- finished job stays finished.
pub record JobLaws (J : JobSystem) : Type 0 where
  pub wait_finishes :
      (j : ℕ) (s : J.State) → J.is_main_thread s ≡ true → J.is_finished (J.wait j s) j ≡ true
  pub wait_keeps :
      (j k : ℕ) (s : J.State) → J.is_finished s k ≡ true → J.is_finished (J.wait j s) k ≡ true
  pub wait_thread : (j : ℕ) (s : J.State) → J.is_main_thread (J.wait j s) ≡ J.is_main_thread s
  pub wait_worker : (j : ℕ) (s : J.State) → J.is_main_thread s ≡ false → J.wait j s ≡ s

-- `vfs_handle_jobs`
unfoldable pub handle_jobs : ℕ → ℕ → List ℕ
handle_jobs job last =
    (if job == null then [] else job ∷ [])
    ++ (if not (last == null) && not (last == job) then last ∷ [] else [])

module _ (J : JobSystem) where
  -- `vfs_jobs_finished`
  unfoldable pub jobs_finished : J.State → List ℕ → Bool
  jobs_finished s [] = true
  jobs_finished s (j ∷ js) = J.is_finished s j && jobs_finished s js

  unfoldable pub wait_each : List ℕ → J.State → J.State
  wait_each [] s = s
  wait_each (j ∷ js) s = wait_each js (J.wait j s)

  -- `vfs_wait_handle_jobs`, with what it returns.
  unfoldable pub wait_handle_jobs : List ℕ → J.State → Bool × J.State
  unfolding wait_each jobs_finished
  wait_handle_jobs js s = (jobs_finished (wait_each js s) js, wait_each js s)

  -- Nothing outstanding: no open scheduling window, and both job slots finished.
  unfoldable pub is_idle : J.State → Handle → Bool
  unfolding handle_jobs jobs_finished
  is_idle s h = (h.pending_dispatches == 0) && jobs_finished s (handle_jobs h.job_handle h.last_job)
