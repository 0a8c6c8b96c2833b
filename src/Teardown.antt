-- ===== src/Teardown.antt =====
-- Closing a mount (`vfs_mount_close` of src/vfs/vfs.c): the handles that still belong to it, the wait for
-- their jobs, and the teardown in order.
pub mod Victims
pub mod Closing
use flowi_vfs.Common.{
  ℕ, zero, suc, Bool, true, false, not, ◌||◌, List, [], ◌∷◌, ◌++◌, Option, none, some, ◌==◌,
  if◌then◌else◌,
}
use flowi_vfs.Handles.{Handle, Table}
use flowi_vfs.Handles.Map.{lookup_handle, collect_handles}
use flowi_vfs.Handles.Jobs.{JobSystem, handle_jobs, jobs_finished}
use flowi_vfs.Handles.Release.{Effect, Release, free_handle}

-- `vfs_handle_is_on_mount`
abbrev pub is_on_mount : ℕ → Handle → Bool
is_on_mount mount h = h.mount == mount

-- `VfsMountVictim`
pub record Victim : Type 0 where
  pub id : ℕ
  pub jobs : List ℕ

unfoldable pub victims_of : List Handle → List Victim
victims_of [] = []
victims_of (h ∷ hs) =
    record { id = h.id; jobs = handle_jobs h.job_handle h.last_job } ∷ victims_of hs

-- `vfs_snapshot_mount_victims`
abbrev pub snapshot_mount_victims : ℕ → Table → List Victim
snapshot_mount_victims mount t = victims_of (collect_handles (is_on_mount mount) t.handle_map)

module _ (J : JobSystem) where
  wait_unfinished : List ℕ → J.State → J.State
  wait_unfinished [] s = s
  wait_unfinished (j ∷ js) s = wait_unfinished js (if J.is_finished s j then s else J.wait j s)

  -- `vfs_wait_victim_jobs`, without its count, which only the log reads.
  unfoldable pub wait_victim_jobs : List Victim → J.State → J.State
  unfolding wait_unfinished
  wait_victim_jobs [] s = s
  wait_victim_jobs (v ∷ vs) s = wait_victim_jobs vs (wait_unfinished v.jobs s)

  -- What `vfs_refresh_mount_victims` makes of one victim: whether it has work outstanding, its jobs.
  abbrev pub refresh_victim : J.State → Option Handle → Bool × List ℕ
  refresh_victim s none = (false, [])
  refresh_victim s (some h) =
      let jobs = handle_jobs h.job_handle h.last_job in
      (not (h.pending_dispatches == 0) || not (jobs_finished J s jobs), jobs)

  -- `vfs_refresh_mount_victims`
  unfoldable pub refresh_mount_victims : Table → J.State → List Victim → Bool × List Victim
  refresh_mount_victims t s [] = (false, [])
  refresh_mount_victims t s (v ∷ vs) =
      let (outstanding, jobs) = refresh_victim s (lookup_handle t v.id) in
      let (more, vs') = refresh_mount_victims t s vs in
      (outstanding || more, record { id = v.id; jobs = jobs } ∷ vs')

  -- The loop of `vfs_drain_mount_victims`. Other threads run between its sections: `seen n` is the
  -- table and the job system that the refresh of round `n` sees. None if the rounds run out.
  unfoldable pub drain_victims :
      (ℕ → Table × J.State) → ℕ → ℕ → List Victim → Option (ℕ × List Victim)
  drain_victims seen zero n vs = none
  drain_victims seen (suc rounds) n vs =
      let (t, s) = seen n in
      let (outstanding, vs') = refresh_mount_victims t s vs in
      let rest = drain_victims seen rounds (suc n) vs' in
      if outstanding then rest else some (n, vs')

module _ (has_close : ℕ → Bool) where
  free_found : Table → Option Handle → Table × List Effect × List Release
  free_found t none = (t, [], [])
  free_found t (some h) =
      let (t', freed, hook) = free_handle has_close t h in (t', freed, hook ∷ [])

  -- `vfs_free_mount_victims`
  unfoldable pub free_mount_victims : List Victim → Table → Table × List Effect × List Release
  unfolding free_found
  free_mount_victims [] t = (t, [], [])
  free_mount_victims (v ∷ vs) t =
      let (t', freed, hooks) = free_found t (lookup_handle t v.id) in
      let (t'', freed', hooks') = free_mount_victims vs t' in
      (t'', freed ++ freed', hooks ++ hooks')

-- `vfs_mount_unlist`
unfoldable pub mount_unlist : ℕ → List ℕ → Bool × List ℕ
mount_unlist mount [] = (false, [])
mount_unlist mount (m ∷ ms) =
    let (found, ms') = mount_unlist mount ms in if m == mount then (true, ms) else (found, m ∷ ms')
