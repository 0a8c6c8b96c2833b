-- ===== src/Handles/Reclaim.antt =====
-- What the sweep of src/vfs/vfs.c over closed handles frees, and what it leaves.
use flowi_vfs.Common.{
  ℕ, ◌<◌, Bool, true, false, not, ◌≡◌, refl, ◌⊎◌, List, [], ◌∷◌, Option, none, some, ◌==◌,
  if◌then◌else◌, arith, inl, inr, Bool-cases, Option-cases,
}
use flowi_vfs.Handles.{Handle, Table, u32_mod}
use flowi_vfs.Handles.Map.{find, collect_handles, lookup_handle}
use flowi_vfs.Handles.Map.Find.{
  Distinct, find-remove, select, find-collect_handles, collect_handles-Distinct,
}
use flowi_vfs.Handles.Map.Closed.{closed_in, closed_in_pos}
use flowi_vfs.Handles.Jobs.{JobSystem}
use flowi_vfs.Handles.Release.{free_handle, free_each, is_reclaimable, reclaim_closed_handles}
use flowi_vfs.Handles.Valid.{IsValid, free_handle-IsValid}

-- Every handle of the first list stands in the second.
abbrev pub Stored : List Handle → List Handle → Type 0
Stored gs hs = (k : ℕ) (g : Handle) → find k gs ≡ some g → find k hs ≡ some g

abbrev pub unless_found : Option Handle → Option Handle → Option Handle
unless_found none o = o
unless_found (some _) o = none

pub find-free_handle :
    (has_close : ℕ → Bool) (t : Table) (h : Handle) (k : ℕ)
    → IsValid t
    → find k (free_handle has_close t h).0.handle_map
      ≡ (if h.id == k then none else find k t.handle_map)
unfolding free_handle
find-free_handle has_close t h k v = find-remove k h.id t.handle_map v.distinct

pub Stored-head : (h : Handle) (gs hs : List Handle) → Stored (h ∷ gs) hs → find h.id hs ≡ some h
unfolding find
Stored-head h gs hs st = st h.id h (ground arith)

pub Stored-tail :
    (has_close : ℕ → Bool) (t : Table) (h : Handle) (gs : List Handle)
    → IsValid t
    → Distinct (h ∷ gs)
    → Stored (h ∷ gs) t.handle_map
    → Stored gs (free_handle has_close t h).0.handle_map
unfolding find
Stored-tail has_close t h gs v d st k g e =
    ground (arith, find-free_handle has_close t h k v, st k g)

module _ (has_close : ℕ → Bool) where
  -- Freeing stored handles one by one keeps the invariant and removes exactly those.
  pub free_each-IsValid :
      (gs : List Handle) (t : Table)
      → Distinct gs
      → Stored gs t.handle_map
      → IsValid t
      → IsValid (free_each has_close gs t).0
  unfolding free_each
  free_each-IsValid [] t d st v = v
  free_each-IsValid (h ∷ gs) t d st v =
      free_each-IsValid gs (free_handle has_close t h).0 d.1 (Stored-tail has_close t h gs v d st)
        (free_handle-IsValid has_close t h (Stored-head h gs t.handle_map st) v)

  pub find-free_each :
      (gs : List Handle) (t : Table) (k : ℕ)
      → Distinct gs
      → Stored gs t.handle_map
      → IsValid t
      → find k (free_each has_close gs t).0.handle_map
        ≡ unless_found (find k gs) (find k t.handle_map)
  unfolding free_each find
  find-free_each [] t k d st v = refl
  find-free_each (h ∷ gs) t k d st v = ground (
    arith,
    find-free_handle has_close t h k v,
    find-free_each gs (free_handle has_close t h).0 k d.1 (Stored-tail has_close t h gs v d st)
        (free_handle-IsValid has_close t h (Stored-head h gs t.handle_map st) v),
  )

pub collected-Stored :
    (p : Handle → Bool) (hs : List Handle) → Distinct hs → Stored (collect_handles p hs) hs
collected-Stored p hs d k g e = ground (arith, find-collect_handles p k hs d)

module _ (has_close : ℕ → Bool) (J : JobSystem) (s : J.State) where
  -- The sweep keeps the invariant.
  pub reclaim_closed_handles-IsValid :
      (t : Table) → IsValid t → IsValid (reclaim_closed_handles has_close J s t).0
  unfolding reclaim_closed_handles
  reclaim_closed_handles-IsValid t v = elim (Bool-cases (t.closed_count == 0)) [
    | inl skip ↦ rw skip v
    | inr sweep ↦ rw sweep (
        free_each-IsValid has_close (collect_handles (is_reclaimable J s) t.handle_map) t
          (collect_handles-Distinct _ t.handle_map v.distinct)
          (collected-Stored _ t.handle_map v.distinct) v)
  ]

  not_reclaimable :
      (t : Table) (k : ℕ) (h : Handle)
      → closed_in t.handle_map < u32_mod
      → t.closed_count ≡ 0
      → IsValid t
      → find k t.handle_map ≡ some h
      → is_reclaimable J s h ≡ false
  unfolding is_reclaimable
  not_reclaimable t k h small z v e = ground (arith, v.counted, closed_in_pos k t.handle_map h e)

  skip_sweep :
      (t : Table) (k : ℕ)
      → closed_in t.handle_map < u32_mod
      → t.closed_count ≡ 0
      → IsValid t
      → find k t.handle_map ≡ select (λ h. not (is_reclaimable J s h)) (find k t.handle_map)
  skip_sweep t k small z v = elim (Option-cases (find k t.handle_map)) [
    | inl e ↦ rw e
    | inr (h, e) ↦ rw (e, not_reclaimable t k h small z v e)
  ]

  run_sweep :
      (t : Table) (k : ℕ)
      → IsValid t
      → find k
          (free_each has_close (collect_handles (is_reclaimable J s) t.handle_map) t).0.handle_map
        ≡ select (λ h. not (is_reclaimable J s h)) (find k t.handle_map)
  run_sweep t k v = ground (
    arith,
    find-free_each has_close (collect_handles (is_reclaimable J s) t.handle_map) t k
        (collect_handles-Distinct _ t.handle_map v.distinct)
        (collected-Stored _ t.handle_map v.distinct) v,
    find-collect_handles (is_reclaimable J s) k t.handle_map v.distinct,
  )

  -- The sweep of a valid table with fewer than 2^32 closed handles removes exactly the handles
  -- that are closed, on which no scheduling window is open and whose jobs have finished; every
  -- other handle stays as it is.
  pub find-reclaim_closed_handles :
      (t : Table) (k : ℕ)
      → closed_in t.handle_map < u32_mod
      → IsValid t
      → lookup_handle (reclaim_closed_handles has_close J s t).0 k
        ≡ select (λ h. not (is_reclaimable J s h)) (lookup_handle t k)
  unfolding reclaim_closed_handles lookup_handle
  find-reclaim_closed_handles t k small v = elim (Bool-cases (t.closed_count == 0)) [
    | inl skip ↦ rw skip (skip_sweep t k small (ground arith) v)
    | inr sweep ↦ rw sweep (run_sweep t k v)
  ]

  -- Without a bound on the closed handles: each handle stays, or was reclaimable and is gone.
  pub reclaim_cases :
      (t : Table) (k : ℕ)
      → IsValid t
      → (find k (reclaim_closed_handles has_close J s t).0.handle_map ≡ find k t.handle_map)
        ⊎ ((h : Handle) × (find k t.handle_map ≡ some h)
            × (is_reclaimable J s h ≡ true)
            × (find k (reclaim_closed_handles has_close J s t).0.handle_map ≡ none))
  unfolding reclaim_closed_handles
  reclaim_cases t k v = elim (Bool-cases (t.closed_count == 0)) [
    | inl skip ↦ rw skip (inl refl)
    | inr sweep ↦ rw sweep (elim (Option-cases (find k t.handle_map)) [
      | inl e ↦ inl (ground (arith, run_sweep t k v))
      | inr (h, e) ↦ elim (Bool-cases (is_reclaimable J s h)) [
        | inl yes_ ↦ inr (h, e, yes_, ground (arith, run_sweep t k v))
        | inr no_ ↦ inl (ground (arith, run_sweep t k v))
      ]
    ])
  ]
