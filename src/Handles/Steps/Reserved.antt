-- ===== src/Handles/Steps/Reserved.antt =====
-- Ids that `allocate_handle` (src/vfs/vfs.c) gave to a handle that is not yet published: each of the other
-- sections leaves them free in the map.
use flowi_vfs.Common.{
  ℕ, ◌<◌, Bool, ◌≡◌, refl, List, [], ◌∷◌, none, ◌==◌, arith, inl, inr, Bool-cases, Option-cases,
}
use flowi_vfs.Handles.{Handle, Table}
use flowi_vfs.Handles.Map.{find, lookup_handle, lookup_open_handle}
use flowi_vfs.Handles.Jobs.{JobSystem}
use flowi_vfs.Handles.Chain.{update_handle}
use flowi_vfs.Handles.Release.{free_handle, free_each, reclaim_closed_handles}
use flowi_vfs.Handles.Close.{close_section, close_found, free_now, defer_close}
use flowi_vfs.Handles.Close.Section.{FoundOpen-lookup_open_handle, find-close_found}
use flowi_vfs.Handles.Reclaim.{reclaim_cases}
use flowi_vfs.Handles.Valid.{IsValid}
use flowi_vfs.Handles.Steps.Pending.{find-update_handle}
use flowi_vfs.Teardown.{Victim, free_mount_victims}
use flowi_vfs.Teardown.Victims.{find-free_mount_victims}

-- `n` unpublished handles have the id: it is one, the id was handed out and the map does not hold it.
pub record Reserved (t : Table) (n k : ℕ) : Type 0 where
  pub single : n ≡ 1
  pub handed_out : k < t.next_handle_id
  pub absent : find k t.handle_map ≡ none

-- A section that hands out no id and adds no handle.
pub record AddsNone (t t' : Table) : Type 0 where
  pub next : t'.next_handle_id ≡ t.next_handle_id
  pub absent : (k : ℕ) → find k t.handle_map ≡ none → find k t'.handle_map ≡ none

pub Reserved-AddsNone : {t t' : Table} {n k : ℕ} → AddsNone t t' → Reserved t n k → Reserved t' n k
Reserved-AddsNone {t} {t'} {n} {k} a r = record {
  single = r.single;
  handed_out = omega (arith, a.next, r.handed_out);
  absent = a.absent k r.absent;
}

pub update_handle-AddsNone :
    (id : ℕ) (f : Handle → Handle) (t : Table)
    → ((h : Handle) → (f h).id ≡ h.id)
    → AddsNone t (update_handle id f t)
update_handle-AddsNone id f t keeps = record {
  next = unfold update_handle in refl;
  absent = λ k e. ground (arith, e, find-update_handle k id f t keeps);
}

module _ (has_close : ℕ → Bool) where
  next-free_each :
      (hs : List Handle) (t : Table)
      → (free_each has_close hs t).0.next_handle_id ≡ t.next_handle_id
  unfolding free_each free_handle
  next-free_each [] t = refl
  next-free_each (h ∷ hs) t = next-free_each hs (free_handle has_close t h).0

  next-free_mount_victims :
      (vs : List Victim) (t : Table)
      → (free_mount_victims has_close vs t).0.next_handle_id ≡ t.next_handle_id
  unfolding free_mount_victims free_handle
  next-free_mount_victims [] t = refl
  next-free_mount_victims (v ∷ vs) t = elim (Option-cases (lookup_handle t v.id)) [
    | inl e ↦ rw e (next-free_mount_victims vs t)
    | inr (h, e) ↦ rw e (next-free_mount_victims vs (free_handle has_close t h).0)
  ]

  pub free_mount_victims-AddsNone :
      (vs : List Victim) (t : Table) → IsValid t → AddsNone t (free_mount_victims has_close vs t).0
  unfolding lookup_handle
  free_mount_victims-AddsNone vs t v = record {
    next = next-free_mount_victims vs t;
    absent = λ k e. ground (arith, e, find-free_mount_victims has_close vs t k v);
  }

  module _ (J : JobSystem) (s : J.State) (t : Table) (v : IsValid t) where
    pub close_section-AddsNone :
        (borrows : Bool) (id : ℕ) → AddsNone t (close_section has_close J s borrows t id).0
    unfolding close_section
    close_section-AddsNone borrows id = elim (Option-cases (lookup_open_handle t id)) [
      | inl e ↦ rw e (record { next = refl; absent = λ k a. a })
      | inr (h, e) ↦
          let f = FoundOpen-lookup_open_handle t id h e in
          rw e (record {
            next = unfold close_found free_now free_handle defer_close in ground arith;
            absent = λ k a.
                ground
                  (arith, a, f.stored, find-close_found has_close J s borrows t h k f.stored v);
          })
    ]

    next-reclaim_closed_handles :
        (reclaim_closed_handles has_close J s t).0.next_handle_id ≡ t.next_handle_id
    unfolding reclaim_closed_handles
    next-reclaim_closed_handles = elim (Bool-cases (t.closed_count == 0)) [
      | inl skip ↦ rw skip refl
      | inr sweep ↦ rw sweep (next-free_each _ t)
    ]

    pub reclaim_closed_handles-AddsNone : AddsNone t (reclaim_closed_handles has_close J s t).0
    reclaim_closed_handles-AddsNone = record {
      next = next-reclaim_closed_handles;
      absent = λ k a. elim (reclaim_cases has_close J s t k v) [
        | inl e ↦ rw e a
        | inr (h, e, idle, gone) ↦ gone
      ];
    }
