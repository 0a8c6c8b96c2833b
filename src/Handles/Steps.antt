-- ===== src/Handles/Steps.antt =====
-- Threads that share the handle table, as interleavings of the sections that src/vfs/vfs.c runs
-- under `handle_lock`. A section is one step, with the release hooks that its thread runs right after the
-- unlock. Sections that only read the table (the queries, the snapshots, a refresh that finds work) change
-- nothing and are no steps.
pub mod Pending
pub mod Windows
pub mod Births
pub mod Chains
pub mod Reserved
pub mod Quiet
pub mod Guard
pub mod Once
use flowi_vfs.Common.{
  ℕ, ◌+◌, ◌-◌, ◌<◌, ◌≤◌, Bool, false, ◌≡◌, ◌≢◌, List, [], ◌∷◌, ◌++◌, none, some, ◌==◌,
  if◌then◌else◌,
}
use flowi_vfs.Handles.{Handle, Table, handle_invalid, u32_mod}
use flowi_vfs.Handles.Map.{find, lookup_open_handle}
use flowi_vfs.Handles.Jobs.{JobSystem}
use flowi_vfs.Handles.Alloc.{
  OpParams, allocate_handle, open_window, close_window, publish_handle, record_job,
}
use flowi_vfs.Handles.Chain.{update_handle, chain_end}
use flowi_vfs.Handles.Close.{close_section}
use flowi_vfs.Handles.Release.{Effect, run_all, reclaim_closed_handles}
use flowi_vfs.Teardown.{Victim, refresh_mount_victims, free_mount_victims}

pub record Run : Type 0 where
  pub table : Table
  -- For each id, the scheduling windows that some thread has opened (`vfs_dispatch`,
  -- `vfs_chain_file_op`) and not yet closed.
  pub windows : ℕ → ℕ
  -- The handles with that id that `allocate_handle` made and that are not yet published.
  pub unpublished : ℕ → ℕ
  -- The closes of mounts whose last refresh found that victim quiet and that have not freed it yet.
  pub closing : ℕ → ℕ
  -- What was freed and which hooks ran, in order.
  pub effects : List Effect
  -- Every handle that was published.
  pub born : List Handle

abbrev pub set_window : ℕ → ℕ → (ℕ → ℕ) → ℕ → ℕ
set_window id n w k = if id == k then n else w k

-- A handle that `allocate_handle` made and its thread filled in, not yet published.
pub record IsPrivate (t : Table) (h : Handle) : Type 0 where
  pub handed_out : h.id < t.next_handle_id
  pub absent : find h.id t.handle_map ≡ none
  pub is_open : h.closed ≡ false
  pub undispatched : h.pending_dispatches ≡ 0

-- What the thread knows that publishes a handle: it was allocated and not published, and nobody has
-- closed it or dispatched on it.
pub record IsFilled (r : Run) (h : Handle) : Type 0 where
  pub allocated : 0 < r.unpublished h.id
  pub is_open : h.closed ≡ false
  pub undispatched : h.pending_dispatches ≡ 0

-- How often an id is named by the victims.
unfoldable pub occurrences : ℕ → List Victim → ℕ
occurrences k [] = 0
occurrences k (v ∷ vs) = (if v.id == k then 1 else 0) + occurrences k vs

-- A mutation that leaves alone what the lifecycle of a handle rests on: a job's writes to its own
-- handle, a cancel request, a priority.
pub record LeavesLifecycle (f : Handle → Handle) : Type 0 where
  pub id : (h : Handle) → (f h).id ≡ h.id
  pub closed : (h : Handle) → (f h).closed ≡ h.closed
  pub pending : (h : Handle) → (f h).pending_dispatches ≡ h.pending_dispatches
  pub release : (h : Handle) → (f h).release ≡ h.release
  pub user_data : (h : Handle) → (f h).user_data ≡ h.user_data

module _ (has_close : ℕ → Bool) (J : JobSystem) where
  -- What callers and the size of the counters are asked for stands with the step: ids stay below 2^32, an
  -- id is reused by one thread at a time, and nobody dispatches or chains on a handle whose mount is past
  -- its last refresh in `vfs_mount_close`.
  pub data Step (r : Run) : Run → Type 0 where
    allocate :
        (params : OpParams) (h : Handle)
        → (allocate_handle r.table params).0 ≡ some h
        → r.table.next_handle_id + 1 < u32_mod
        → params.reuse_handle < r.table.next_handle_id
        → (params.reuse_handle ≢ handle_invalid → r.unpublished params.reuse_handle ≡ 0)
        → Step r (record r {
          table = (allocate_handle r.table params).1;
          unpublished = set_window h.id (r.unpublished h.id + 1) r.unpublished;
        })
    publish :
        (h : Handle)
        → IsFilled r h
        → Step r (record r {
          table = publish_handle r.table h;
          unpublished = set_window h.id (r.unpublished h.id - 1) r.unpublished;
          born = h ∷ r.born;
        })
    open_on :
        (id : ℕ) (h : Handle)
        → lookup_open_handle r.table id ≡ some h
        → r.windows id + 1 < u32_mod
        → r.closing id ≡ 0
        → Step r (record r {
          table = update_handle id open_window r.table;
          windows = set_window id (r.windows id + 1) r.windows;
        })
    end_dispatch :
        (id job : ℕ)
        → 0 < r.windows id
        → Step r (record r {
          table = update_handle id (record_job job) r.table;
          windows = set_window id (r.windows id - 1) r.windows;
        })
    end_chain :
        (file : ℕ) (refused : Bool) (op : Handle)
        → 0 < r.windows file
        → IsFilled r op
        → Step r (record r {
          table = chain_end file refused op r.table;
          windows = set_window file (r.windows file - 1) r.windows;
          unpublished = set_window op.id (r.unpublished op.id - 1) r.unpublished;
          born = op ∷ r.born;
        })
    -- `vfs_chain_file_op` when its handle cannot be allocated.
    abort_chain :
        (file : ℕ)
        → 0 < r.windows file
        → Step r (record r {
          table = update_handle file close_window r.table;
          windows = set_window file (r.windows file - 1) r.windows;
        })
    close_last :
        (s : J.State) (borrows : Bool) (id : ℕ)
        → Step r (record r {
          table = (close_section has_close J s borrows r.table id).0;
          effects = r.effects ++ (close_section has_close J s borrows r.table id).1;
        })
    sweep :
        (s : J.State)
        → Step r (record r {
          table = (reclaim_closed_handles has_close J s r.table).0;
          effects = r.effects ++ (reclaim_closed_handles has_close J s r.table).1;
        })
    -- The last refresh of `vfs_mount_close`, which found no victim with work outstanding.
    refresh :
        (s : J.State) (vs : List Victim)
        → (refresh_mount_victims J r.table s vs).0 ≡ false
        → Step r (record r { closing = λ k. r.closing k + occurrences k vs })
    -- The section of `vfs_mount_close` that frees the victims.
    free_victims :
        (vs : List Victim)
        → ((k : ℕ) → occurrences k vs ≤ r.closing k)
        → Step r (record r {
          table = (free_mount_victims has_close vs r.table).0;
          closing = λ k. r.closing k - occurrences k vs;
          effects =
              r.effects
              ++ ((free_mount_victims has_close vs r.table).1
                  ++ run_all (free_mount_victims has_close vs r.table).2);
        })
    touch :
        (id : ℕ) (f : Handle → Handle)
        → LeavesLifecycle f
        → Step r (record r { table = update_handle id f r.table })

  pub data Reach (r : Run) : Run → Type 0 where
    here : Reach r r
    next : {q p : Run} → Reach r q → Step q p → Reach r p
