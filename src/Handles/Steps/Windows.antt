-- ===== src/Handles/Steps/Windows.antt =====
-- The scheduling windows of src/vfs/vfs.c: the sections that open and close one keep the table valid and
-- every handle's count of the windows on it.
use flowi_vfs.Common.{ℕ, ◌+◌, ◌-◌, ◌<◌, ◌≡◌, some, arith, inl, inr, Option-cases}
use flowi_vfs.Handles.{Handle, u32_mod}
use flowi_vfs.Handles.Map.{find, lookup_open_handle}
use flowi_vfs.Handles.Alloc.{open_window, close_window, record_job}
use flowi_vfs.Handles.Chain.{update_handle}
use flowi_vfs.Handles.Close.Section.{FoundOpen-lookup_open_handle}
use flowi_vfs.Handles.Valid.{IsValid, update_handle-IsValid}
use flowi_vfs.Handles.Steps.{Run, set_window, IsPrivate, IsFilled, LeavesLifecycle}
use flowi_vfs.Handles.Steps.Pending.{
  pending_of, find-update_handle, open_window-Keeps, record_job-Keeps, close_window-Keeps,
  pending-open_window, pending-record_job, pending-close_window,
}
use flowi_vfs.Handles.Steps.Reserved.{Reserved, Reserved-AddsNone, update_handle-AddsNone}

-- The table is valid, every handle counts the windows that are open on it, no window is open on a handle
-- that a close of its mount is about to free, and an unpublished handle has an id to itself.
pub record Guarded (r : Run) : Type 0 where
  pub valid : IsValid r.table
  pub small : (k : ℕ) → r.windows k < u32_mod
  pub counted : (k : ℕ) → pending_of (find k r.table.handle_map) ≡ r.windows k
  pub quiet : (k : ℕ) → 0 < r.closing k → r.windows k ≡ 0
  pub reserved : (k : ℕ) → 0 < r.unpublished k → Reserved r.table (r.unpublished k) k

module _ {r : Run} (g : Guarded r) where
  pub Reserved-update_handle :
      (id : ℕ) (f : Handle → Handle)
      → ((h : Handle) → (f h).id ≡ h.id)
      → (k : ℕ) → 0 < r.unpublished k
      → Reserved (update_handle id f r.table) (r.unpublished k) k
  Reserved-update_handle id f keeps k low =
      Reserved-AddsNone (update_handle-AddsNone id f r.table keeps) (g.reserved k low)

  pub IsPrivate-IsFilled : (h : Handle) → IsFilled r h → IsPrivate r.table h
  IsPrivate-IsFilled h p =
      let q = g.reserved h.id p.allocated in
      record {
        handed_out = q.handed_out;
        absent = q.absent;
        is_open = p.is_open;
        undispatched = p.undispatched;
      }

  pub open_on-Guarded :
      (id : ℕ) (h : Handle)
      → lookup_open_handle r.table id ≡ some h
      → r.windows id + 1 < u32_mod
      → r.closing id ≡ 0
      → Guarded (record r {
        table = update_handle id open_window r.table;
        windows = set_window id (r.windows id + 1) r.windows;
      })
  open_on-Guarded id h e room unclosed =
      let f = FoundOpen-lookup_open_handle r.table id h e in
      record {
        valid = update_handle-IsValid id open_window r.table open_window-Keeps g.valid;
        small = λ k. ground (arith, g.small k);
        counted = λ k. ground (
          arith,
          f.stored,
          f.named,
          g.counted k,
          g.counted id,
          pending-open_window r.table id k h,
        );
        quiet = λ k low. ground (arith, g.quiet k, unclosed);
        reserved = λ k low. Reserved-update_handle id open_window open_window-Keeps.id k low;
      }

  pub end_dispatch-Guarded :
      (id job : ℕ)
      → 0 < r.windows id
      → Guarded (record r {
        table = update_handle id (record_job job) r.table;
        windows = set_window id (r.windows id - 1) r.windows;
      })
  end_dispatch-Guarded id job low = record {
    valid = update_handle-IsValid id (record_job job) r.table (record_job-Keeps job) g.valid;
    small = λ k. ground (arith, g.small k, g.small id);
    counted = λ k. ground (
      arith,
      g.counted k,
      pending-record_job r.table id k job (r.windows id) (g.counted id) low (g.small id),
    );
    quiet = λ k busy. ground (arith, g.quiet k);
    reserved =
        λ k some_. Reserved-update_handle id (record_job job) (record_job-Keeps job).id k some_;
  }

  pub abort_chain-Guarded :
      (id : ℕ)
      → 0 < r.windows id
      → Guarded (record r {
        table = update_handle id close_window r.table;
        windows = set_window id (r.windows id - 1) r.windows;
      })
  abort_chain-Guarded id low = record {
    valid = update_handle-IsValid id close_window r.table close_window-Keeps g.valid;
    small = λ k. ground (arith, g.small k, g.small id);
    counted = λ k. ground (
      arith,
      g.counted k,
      pending-close_window r.table id k (r.windows id) (g.counted id) low (g.small id),
    );
    quiet = λ k busy. ground (arith, g.quiet k);
    reserved = λ k some_. Reserved-update_handle id close_window close_window-Keeps.id k some_;
  }

  pub touch-Guarded :
      (id : ℕ) (f : Handle → Handle)
      → LeavesLifecycle f
      → Guarded (record r { table = update_handle id f r.table })
  touch-Guarded id f l = record {
    valid = update_handle-IsValid id f r.table (record { id = l.id; closed = l.closed }) g.valid;
    small = g.small;
    counted = λ k. elim (Option-cases (find k r.table.handle_map)) [
      | inl e ↦ ground (arith, g.counted k, find-update_handle k id f r.table l.id)
      | inr (h, e) ↦
          ground (arith, g.counted k, l.pending h, find-update_handle k id f r.table l.id)
    ];
    quiet = g.quiet;
    reserved = Reserved-update_handle id f l.id;
  }
