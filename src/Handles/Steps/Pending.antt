-- ===== src/Handles/Steps/Pending.antt =====
-- How the sections of `vfs_dispatch` and `vfs_chain_file_op` (src/vfs/vfs.c) show in a handle's count
-- of open windows.
use flowi_vfs.Common.{
  ℕ, ◌+◌, ◌-◌, ◌<◌, Bool, ◌≡◌, refl, Option, none, some, ◌==◌, if◌then◌else◌, arith,
}
use flowi_vfs.Handles.{Handle, Table, u32_mod}
use flowi_vfs.Handles.Map.{find}
use flowi_vfs.Handles.Map.Find.{find-modify, update_found}
use flowi_vfs.Handles.Alloc.{open_window, close_window, record_job}
use flowi_vfs.Handles.Chain.{update_handle, settle_file, with_last_job}
use flowi_vfs.Handles.Valid.{Keeps}

abbrev pub pending_of : Option Handle → ℕ
pending_of none = 0
pending_of (some h) = h.pending_dispatches

pub find-update_handle :
    (k id : ℕ) (f : Handle → Handle) (t : Table)
    → ((h : Handle) → (f h).id ≡ h.id)
    → find k (update_handle id f t).handle_map
      ≡ (if id == k then update_found f (find k t.handle_map) else find k t.handle_map)
unfolding update_handle
find-update_handle k id f t keeps = find-modify k id f t.handle_map keeps

pub open_window-Keeps : Keeps open_window
unfolding open_window
open_window-Keeps = record { id = λ h. refl; closed = λ h. refl }

pub record_job-Keeps : (job : ℕ) → Keeps (record_job job)
unfolding record_job
record_job-Keeps job = record { id = λ h. refl; closed = λ h. refl }

pub close_window-Keeps : Keeps close_window
unfolding close_window
close_window-Keeps = record { id = λ h. refl; closed = λ h. refl }

pub settle_file-Keeps : (refused : Bool) (job : ℕ) → Keeps (settle_file refused job)
unfolding settle_file close_window with_last_job
settle_file-Keeps refused job = record { id = λ h. ground arith; closed = λ h. ground arith }

-- How a section that opens or closes a window on a handle shows in its count.
module _ (t : Table) (id k : ℕ) where
  pub pending-open_window :
      (h : Handle)
      → find id t.handle_map ≡ some h
      → h.pending_dispatches + 1 < u32_mod
      → pending_of (find k (update_handle id open_window t).handle_map)
        ≡ (if id == k then h.pending_dispatches + 1 else pending_of (find k t.handle_map))
  unfolding open_window
  pending-open_window h e room =
      ground (arith, find-update_handle k id open_window t open_window-Keeps.id)

  pub pending-record_job :
      (job n : ℕ)
      → pending_of (find id t.handle_map) ≡ n
      → 0 < n
      → n < u32_mod
      → pending_of (find k (update_handle id (record_job job) t).handle_map)
        ≡ (if id == k then n - 1 else pending_of (find k t.handle_map))
  unfolding record_job
  pending-record_job job n e low high =
      ground (arith, find-update_handle k id (record_job job) t (record_job-Keeps job).id)

  pub pending-close_window :
      (n : ℕ)
      → pending_of (find id t.handle_map) ≡ n
      → 0 < n
      → n < u32_mod
      → pending_of (find k (update_handle id close_window t).handle_map)
        ≡ (if id == k then n - 1 else pending_of (find k t.handle_map))
  unfolding close_window
  pending-close_window n e low high =
      ground (arith, find-update_handle k id close_window t close_window-Keeps.id)

  pub pending-settle_file :
      (refused : Bool) (job n : ℕ)
      → pending_of (find id t.handle_map) ≡ n
      → 0 < n
      → n < u32_mod
      → pending_of (find k (update_handle id (settle_file refused job) t).handle_map)
        ≡ (if id == k then n - 1 else pending_of (find k t.handle_map))
  unfolding settle_file close_window with_last_job
  pending-settle_file refused job n e low high = ground (
    arith,
    find-update_handle k id (settle_file refused job) t (settle_file-Keeps refused job).id,
  )
