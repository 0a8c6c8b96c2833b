-- ===== src/Handles/Close/Section.antt =====
-- The last critical section of `vfs_close` (src/vfs/vfs.c): what it does to the map, that it keeps
-- the invariant, and that it runs hooks for exactly what it frees.
use flowi_vfs.Common.{
  ℕ, ◌+◌, Bool, false, not, ◌&&◌, ◌≡◌, refl, sym, subst, ◌≢◌, Option, none, some, ◌==◌,
  if◌then◌else◌, arith, inl, inr, Option-cases,
}
use flowi_vfs.Handles.{Handle, Table, null}
use flowi_vfs.Handles.Map.{find, lookup_handle, lookup_open_handle, unless_closed}
use flowi_vfs.Handles.Map.Find.{find_id, find-remove, find-modify}
use flowi_vfs.Handles.Jobs.{JobSystem, is_idle}
use flowi_vfs.Handles.Release.{free_handle, run_release}
use flowi_vfs.Handles.Valid.{IsValid, free_handle-IsValid, defer_close-IsValid}
use flowi_vfs.Handles.Hooks.{
  hook_runs, hooked, hook_runs-append, hook_runs-free_handle, hooked-modify,
}
use flowi_vfs.Handles.Close.{mark_closed, free_now, defer_close, close_found, close_section}

-- An open handle stands in the map under its own id.
pub record FoundOpen (t : Table) (id : ℕ) (h : Handle) : Type 0 where
  pub stored : find h.id t.handle_map ≡ some h
  pub is_open : h.closed ≡ false
  pub named : h.id ≡ id

unless_closed-some :
    (o : Option Handle) (h : Handle) → unless_closed o ≡ some h → (o ≡ some h) × (h.closed ≡ false)
unless_closed-some none h e = cc
unless_closed-some (some g) h e = ground arith

pub FoundOpen-lookup_open_handle :
    (t : Table) (id : ℕ) (h : Handle) → lookup_open_handle t id ≡ some h → FoundOpen t id h
unfolding lookup_open_handle lookup_handle
FoundOpen-lookup_open_handle t id h e =
    let u = unless_closed-some (find id t.handle_map) h e in
    let n = find_id id t.handle_map h u.0 in
    record {
      stored = subst (λ i. find i t.handle_map ≡ some h) (sym n) u.0;
      is_open = u.1;
      named = n;
    }

module _ (has_close : ℕ → Bool) (J : JobSystem) (s : J.State) (borrows : Bool) where
  -- What the code means to leave at the closed id: nothing once its jobs are done, else the handle,
  -- marked closed if the main thread closes an operation that borrows no memory.
  abbrev pub after_close : Handle → Option Handle
  after_close h =
      if is_idle J s h
      then none
      else if J.is_main_thread s && not borrows
      then some (mark_closed h)
      else some h

  pub find-close_found :
      (t : Table) (h : Handle) (k : ℕ)
      → find h.id t.handle_map ≡ some h
      → IsValid t
      → find k (close_found has_close J s borrows t h).0.handle_map
        ≡ (if h.id == k then after_close h else find k t.handle_map)
  unfolding close_found free_now free_handle defer_close
  find-close_found t h k stored v = ground (
    arith,
    find-remove k h.id t.handle_map v.distinct,
    find-modify k h.id mark_closed t.handle_map (λ g. unfold mark_closed in refl),
  )

  pub close_section-IsValid :
      (t : Table) (id : ℕ) → IsValid t → IsValid (close_section has_close J s borrows t id).0
  unfolding close_section close_found free_now
  close_section-IsValid t id v = elim (Option-cases (lookup_open_handle t id)) [
    | inl e ↦ rw e v
    | inr (h, e) ↦
        let f = FoundOpen-lookup_open_handle t id h e in
        rw e (
          ground (
            arith,
            free_handle-IsValid has_close t h f.stored v,
            defer_close-IsValid t h f.stored f.is_open v,
          ))
  ]

  module _ (fn user_data : ℕ) where
    hook_runs-close_found :
        (t : Table) (h : Handle)
        → fn ≢ null
        → find h.id t.handle_map ≡ some h
        → hook_runs fn user_data (close_found has_close J s borrows t h).1
            + hooked fn user_data (close_found has_close J s borrows t h).0.handle_map
          ≡ hooked fn user_data t.handle_map
    unfolding close_found free_now defer_close hook_runs
    hook_runs-close_found t h ne stored = ground (
      arith,
      hook_runs-append fn user_data (free_handle has_close t h).1
          (run_release (free_handle has_close t h).2),
      hook_runs-free_handle fn user_data has_close t h ne stored,
      hooked-modify fn user_data h.id mark_closed t.handle_map
          (λ g. unfold mark_closed in (refl, refl)),
    )

    pub hook_runs-close_section :
        (t : Table) (id : ℕ)
        → fn ≢ null
        → hook_runs fn user_data (close_section has_close J s borrows t id).1
            + hooked fn user_data (close_section has_close J s borrows t id).0.handle_map
          ≡ hooked fn user_data t.handle_map
    unfolding close_section hook_runs
    hook_runs-close_section t id ne = elim (Option-cases (lookup_open_handle t id)) [
      | inl e ↦ rw e (omega arith)
      | inr (h, e) ↦
          rw e (hook_runs-close_found t h ne (FoundOpen-lookup_open_handle t id h e).stored)
    ]
