-- ===== src/Handles/Steps/Once.antt =====
-- Release hooks over any interleaving: none is lost and none runs twice.
use flowi_vfs.Common.{
  ℕ, ◌+◌, ◌<◌, Bool, ◌≡◌, refl, ◌≢◌, List, [], ◌∷◌, ◌++◌, ap, none, arith, inl, inr, Option-cases,
}
use flowi_vfs.Handles.{Handle, Table, null}
use flowi_vfs.Handles.Map.{find}
use flowi_vfs.Handles.Jobs.{JobSystem}
use flowi_vfs.Handles.Alloc.{
  OpParams, allocate_handle, open_window, close_window, record_job, publish_handle,
}
use flowi_vfs.Handles.Chain.{update_handle, chain_end, settle_file, with_last_job}
use flowi_vfs.Handles.Close.{close_section}
use flowi_vfs.Handles.Close.Section.{hook_runs-close_section}
use flowi_vfs.Handles.Release.{reclaim_closed_handles, run_all}
use flowi_vfs.Teardown.{free_mount_victims}
use flowi_vfs.Teardown.Closing.{hook_runs-free_mount_victims}
use flowi_vfs.Handles.Hooks.{
  hook_runs, hooked, hook_runs-append, hooked-modify, hooked-insert,
  hook_runs-reclaim_closed_handles,
}
use flowi_vfs.Handles.Steps.{
  Run, IsFilled, Step, allocate, abort_chain, refresh, free_victims, publish, open_on, end_dispatch,
  end_chain, close_last, sweep, touch, Reach, here, next,
}
use flowi_vfs.Handles.Steps.Chains.{end_chain-table, absent_after_settle}
use flowi_vfs.Handles.Steps.Windows.{Guarded, IsPrivate-IsFilled}
use flowi_vfs.Handles.Steps.Guard.{Reach-Guarded}

map-allocate_handle :
    (t : Table) (params : OpParams) → (allocate_handle t params).1.handle_map ≡ t.handle_map
unfolding allocate_handle
map-allocate_handle t params = elim (Option-cases (find params.reuse_handle t.handle_map)) [
  | inl e ↦ rw e (ground arith)
  | inr (h, e) ↦ rw e (ground arith)
]

module _ (fn user_data : ℕ) where
  -- Runs of the hook so far and handles that still carry it make up the handles born with it.
  abbrev pub Accounted : Run → Type 0
  Accounted r =
      hook_runs fn user_data r.effects + hooked fn user_data r.table.handle_map
      ≡ hooked fn user_data r.born

  hooked-update_handle :
      (id : ℕ) (f : Handle → Handle) (t : Table)
      → ((h : Handle) → ((f h).release ≡ h.release) × ((f h).user_data ≡ h.user_data))
      → hooked fn user_data (update_handle id f t).handle_map ≡ hooked fn user_data t.handle_map
  unfolding update_handle
  hooked-update_handle id f t keeps = hooked-modify fn user_data id f t.handle_map keeps

  hooked-publish_handle :
      (t : Table) (h : Handle)
      → find h.id t.handle_map ≡ none
      → hooked fn user_data (publish_handle t h).handle_map
        ≡ hooked fn user_data (h ∷ []) + hooked fn user_data t.handle_map
  unfolding publish_handle hooked
  hooked-publish_handle t h e = omega (arith, hooked-insert fn user_data h t.handle_map e)

  hooked-cons :
      (h : Handle) (hs : List Handle)
      → hooked fn user_data (h ∷ hs) ≡ hooked fn user_data (h ∷ []) + hooked fn user_data hs
  unfolding hooked
  hooked-cons h hs = omega arith

  hooked-end_chain :
      {r : Run} (file : ℕ) (refused : Bool) (op : Handle)
      → Guarded r
      → 0 < r.windows file
      → IsFilled r op
      → hooked fn user_data (chain_end file refused op r.table).handle_map
        ≡ hooked fn user_data (op ∷ []) + hooked fn user_data r.table.handle_map
  unfolding settle_file close_window with_last_job
  hooked-end_chain {r} file refused op g low p = rw (end_chain-table g file refused op low) (
      omega (
        arith,
        hooked-publish_handle (update_handle file (settle_file refused op.job_handle) r.table) op (
            absent_after_settle g file refused op.job_handle op.id
              (IsPrivate-IsFilled g op p).absent),
        hooked-update_handle file (settle_file refused op.job_handle) r.table
            (λ h. (ground arith, ground arith)),
      ))

  module _ (has_close : ℕ → Bool) (J : JobSystem) (ne : fn ≢ null) where
    Step-Accounted : {r q : Run} → Step has_close J r q → Guarded r → Accounted r → Accounted q
    Step-Accounted {r} (publish h p) g a = omega (
      arith,
      hooked-publish_handle r.table h (IsPrivate-IsFilled g h p).absent,
      hooked-cons h r.born,
    )
    Step-Accounted {r} (open_on id h e room unclosed) g a = omega (
      arith,
      hooked-update_handle id open_window r.table (λ f. unfold open_window in (refl, refl)),
    )
    Step-Accounted {r} (end_dispatch id job low) g a = omega (
      arith,
      hooked-update_handle id (record_job job) r.table (λ f. unfold record_job in (refl, refl)),
    )
    Step-Accounted {r} (allocate params h e room known alone) g a =
        omega (arith, ap (hooked fn user_data) (map-allocate_handle r.table params))
    Step-Accounted {r} (abort_chain file low) g a = omega (
      arith,
      hooked-update_handle file close_window r.table (λ f. unfold close_window in (refl, refl)),
    )
    Step-Accounted {r} (refresh s vs e) g a = a
    Step-Accounted {r} (free_victims vs within) g a =
        let freed = free_mount_victims has_close vs r.table in
        omega (
          arith,
          hook_runs-append fn user_data r.effects (freed.1 ++ run_all freed.2),
          hook_runs-append fn user_data freed.1 (run_all freed.2),
          hook_runs-free_mount_victims has_close J fn user_data vs r.table ne g.valid,
        )
    Step-Accounted {r} (end_chain file refused op low p) g a =
        omega (arith, hooked-end_chain file refused op g low p, hooked-cons op r.born)
    Step-Accounted {r} (close_last s borrows id) g a = omega (
      arith,
      hook_runs-append fn user_data r.effects (close_section has_close J s borrows r.table id).1,
      hook_runs-close_section has_close J s borrows fn user_data r.table id ne,
    )
    Step-Accounted {r} (sweep s) g a = omega (
      arith,
      hook_runs-append fn user_data r.effects (reclaim_closed_handles has_close J s r.table).1,
      hook_runs-reclaim_closed_handles fn user_data has_close J s r.table ne g.valid,
    )
    Step-Accounted {r} (touch id f l) g a =
        omega (arith, hooked-update_handle id f r.table (λ h. (l.release h, l.user_data h)))

    -- Over any interleaving of the sections of the handle table under `handle_lock` (births and
    -- publications, dispatches and chains, closes, sweeps, writes of jobs, and the last refresh
    -- and the freeing of a mount's close), in which ids stay below 2^32, an id is reused by one
    -- thread at a time, and nobody dispatches or chains on a handle of a mount behind the last
    -- refresh of its close, from a state in which the equation holds, the table is valid, every
    -- handle counts the scheduling windows on it, no window is open on a handle that a mount's
    -- close is about to free, and an unpublished handle has its id to itself: for a release hook
    -- that is not null and its argument, the runs of the hook so far and the handles in the map
    -- that still carry it make up the handles published with it. No hook is lost and none runs
    -- twice. A section counts with the hooks that its thread runs right after the unlock.
    pub Reach-Accounted :
        {r q : Run} → Reach has_close J r q → Guarded r → Accounted r → Accounted q
    Reach-Accounted here g a = a
    Reach-Accounted (next p st) g a =
        Step-Accounted st (Reach-Guarded has_close J p g) (Reach-Accounted p g a)
