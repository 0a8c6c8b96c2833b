-- ===== src/Handles/Steps/Guard.antt =====
-- An open scheduling window keeps its handle in the map, whatever the other threads do.
use flowi_vfs.Common.{ℕ, ◌<◌, Bool, ◌≡◌, ap, ◌∙◌, ◌++◌, some, arith, inl, inr, Option-cases}
use flowi_vfs.Handles.{Handle}
use flowi_vfs.Handles.Map.{find, lookup_handle, lookup_open_handle}
use flowi_vfs.Handles.Jobs.{JobSystem, is_idle}
use flowi_vfs.Handles.Release.{reclaim_closed_handles, is_reclaimable}
use flowi_vfs.Handles.Close.{close_section, mark_closed}
use flowi_vfs.Handles.Close.Section.{
  FoundOpen-lookup_open_handle, find-close_found, close_section-IsValid,
}
use flowi_vfs.Handles.Reclaim.{reclaim_closed_handles-IsValid, reclaim_cases}
use flowi_vfs.Handles.Steps.{
  Run, Step, allocate, abort_chain, refresh, free_victims, publish, open_on, end_dispatch,
  end_chain, close_last, sweep, touch, Reach, here, next,
}
use flowi_vfs.Handles.Steps.Pending.{pending_of}
use flowi_vfs.Handles.Steps.Quiet.{refresh-Guarded, free_victims-Guarded}
use flowi_vfs.Handles.Steps.Reserved.{
  Reserved-AddsNone, close_section-AddsNone, reclaim_closed_handles-AddsNone,
}
use flowi_vfs.Handles.Steps.Births.{allocate-Guarded, publish-Guarded}
use flowi_vfs.Handles.Steps.Chains.{end_chain-Guarded}
use flowi_vfs.Handles.Steps.Windows.{
  Guarded, abort_chain-Guarded, open_on-Guarded, end_dispatch-Guarded, touch-Guarded,
}

module _ (has_close : ℕ → Bool) (J : JobSystem) {r : Run} (g : Guarded r) (s : J.State) where
  pending-close_section :
      (borrows : Bool) (id k : ℕ)
      → pending_of (find k (close_section has_close J s borrows r.table id).0.handle_map)
        ≡ pending_of (find k r.table.handle_map)
  unfolding close_section is_idle mark_closed
  pending-close_section borrows id k = elim (Option-cases (lookup_open_handle r.table id)) [
    | inl e ↦ rw e
    | inr (h, e) ↦
        let f = FoundOpen-lookup_open_handle r.table id h e in
        rw e (
          ground
            (arith, f.stored, find-close_found has_close J s borrows r.table h k f.stored g.valid))
  ]

  pending-sweep :
      (k : ℕ)
      → pending_of (find k (reclaim_closed_handles has_close J s r.table).0.handle_map)
        ≡ pending_of (find k r.table.handle_map)
  unfolding is_reclaimable is_idle
  pending-sweep k = elim (reclaim_cases has_close J s r.table k g.valid) [
    | inl same ↦ ap pending_of same
    | inr (h, e, idle, gone) ↦ rw (gone, e) (ground arith)
  ]

  close_last-Guarded :
      (borrows : Bool) (id : ℕ)
      → Guarded (record r {
        table = (close_section has_close J s borrows r.table id).0;
        effects = r.effects ++ (close_section has_close J s borrows r.table id).1;
      })
  close_last-Guarded borrows id = record {
    valid = close_section-IsValid has_close J s borrows r.table id g.valid;
    small = g.small;
    counted = λ k. pending-close_section borrows id k ∙ g.counted k;
    quiet = g.quiet;
    reserved = λ k low.
        Reserved-AddsNone (close_section-AddsNone has_close J s r.table g.valid borrows id)
          (g.reserved k low);
  }

  sweep-Guarded : Guarded (record r {
    table = (reclaim_closed_handles has_close J s r.table).0;
    effects = r.effects ++ (reclaim_closed_handles has_close J s r.table).1;
  })
  sweep-Guarded = record {
    valid = reclaim_closed_handles-IsValid has_close J s r.table g.valid;
    small = g.small;
    counted = λ k. pending-sweep k ∙ g.counted k;
    quiet = g.quiet;
    reserved = λ k low.
        Reserved-AddsNone (reclaim_closed_handles-AddsNone has_close J s r.table g.valid)
          (g.reserved k low);
  }

module _ (has_close : ℕ → Bool) (J : JobSystem) where
  -- Of the sections of the handle table under `handle_lock` (births and publications, dispatches
  -- and chains, closes, sweeps, writes of jobs, and the last refresh and the freeing of a mount's
  -- close), in which ids stay below 2^32, an id is reused by one thread at a time, and nobody
  -- dispatches or chains on a handle of a mount behind the last refresh of its close, each keeps
  -- the table valid (distinct ids, all below the next id, closed handles counted), every count of
  -- scheduling windows exact, the handles quiet that a mount's close is about to free, and the ids
  -- of unpublished handles distinct, handed out and free in the map.
  pub Step-Guarded : {r q : Run} → Step has_close J r q → Guarded r → Guarded q
  Step-Guarded (allocate params h e room known alone) g =
      allocate-Guarded g params h e room known alone
  Step-Guarded (abort_chain file low) g = abort_chain-Guarded g file low
  Step-Guarded (refresh s vs e) g = refresh-Guarded g J s vs e
  Step-Guarded (free_victims vs within) g = free_victims-Guarded g has_close vs within
  Step-Guarded (publish h p) g = publish-Guarded g h p
  Step-Guarded (open_on id h e room unclosed) g = open_on-Guarded g id h e room unclosed
  Step-Guarded (end_dispatch id job low) g = end_dispatch-Guarded g id job low
  Step-Guarded (end_chain file refused op low p) g = end_chain-Guarded g file refused op low p
  Step-Guarded (close_last s borrows id) g = close_last-Guarded has_close J g s borrows id
  Step-Guarded (sweep s) g = sweep-Guarded has_close J g s
  Step-Guarded (touch id f l) g = touch-Guarded g id f l

  pub Reach-Guarded : {r q : Run} → Reach has_close J r q → Guarded r → Guarded q
  Reach-Guarded here g = g
  Reach-Guarded (next p st) g = Step-Guarded st (Reach-Guarded p g)

  -- Over any interleaving of the sections of the handle table under `handle_lock` (births and
  -- publications, dispatches and chains, closes, sweeps, writes of jobs, and the last refresh and
  -- the freeing of a mount's close), in which ids stay below 2^32, an id is reused by one thread
  -- at a time, and nobody dispatches or chains on a handle of a mount behind the last refresh of
  -- its close, from a state in which the table is valid, every handle counts the scheduling
  -- windows on it, no window is open on a handle that a mount's close is about to free, and an
  -- unpublished handle has its id to itself: a handle on which a window is open is in the map, so
  -- no close, sweep or mount's close has freed it.
  pub window_keeps :
      {r q : Run} (id : ℕ)
      → Guarded r
      → Reach has_close J r q
      → 0 < q.windows id
      → (h : Handle) × (lookup_handle q.table id ≡ some h)
  unfolding lookup_handle
  window_keeps {r} {q} id g p low = elim (Option-cases (find id q.table.handle_map)) [
    | inl e ↦ absurd (ground (arith, (Reach-Guarded p g).counted id))
    | inr found ↦ found
  ]
