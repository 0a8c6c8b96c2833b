-- ===== src/Handles/Jobs/Waits.antt =====
-- What waiting for a handle's jobs achieves (`vfs_wait_handle_jobs`, src/vfs/vfs.c).
use flowi_vfs.Common.{ℕ, true, ◌≡◌, refl, List, [], ◌∷◌, arith}
use flowi_vfs.Handles.Jobs.{JobSystem, JobLaws, jobs_finished, wait_each}

module _ (J : JobSystem) (laws : JobLaws J) where
  finished-wait_each :
      (js : List ℕ) (s : J.State) (k : ℕ)
      → J.is_finished s k ≡ true
      → J.is_finished (wait_each J js s) k ≡ true
  unfolding wait_each
  finished-wait_each [] s k e = e
  finished-wait_each (j ∷ js) s k e = finished-wait_each js (J.wait j s) k (laws.wait_keeps j k s e)

  -- On the main thread every job that was waited for is finished afterwards.
  pub jobs_finished-wait_each :
      (js : List ℕ) (s : J.State)
      → J.is_main_thread s ≡ true
      → jobs_finished J (wait_each J js s) js ≡ true
  unfolding wait_each jobs_finished
  jobs_finished-wait_each [] s main = refl
  jobs_finished-wait_each (j ∷ js) s main = ground (
    arith,
    finished-wait_each js (J.wait j s) j (laws.wait_finishes j s main),
    jobs_finished-wait_each js (J.wait j s),
    laws.wait_thread j s,
  )
