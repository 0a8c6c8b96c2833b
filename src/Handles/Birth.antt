-- ===== src/Handles/Birth.antt =====
-- The birth of a handle (`allocate_handle` and `allocate_op` of src/vfs/vfs.c): its id is in use nowhere,
-- and an id that is still in the map is refused.
use flowi_vfs.Common.{
  ℕ, ◌+◌, ◌%◌, ◌<◌, ◌≤◌, ◌⊎◌, ◌≡◌, refl, sym, ◌∙◌, ◌≢◌, Option, none, some, ◌==◌, arith, inl, inr,
  Bool-cases, Option-cases,
}
use flowi_vfs.Handles.{Handle, Table, handle_invalid, u32_mod}
use flowi_vfs.Handles.Map.{find, lookup_handle}
use flowi_vfs.Handles.Map.Find.{find-insert}
use flowi_vfs.Handles.Jobs.{JobSystem}
use flowi_vfs.Handles.Alloc.{
  OpParams, fresh_handle, allocate_handle, publish_handle, schedule_job, publish_op, allocate_op,
}
use flowi_vfs.Handles.Valid.{IsValid, publish_handle-IsValid}
use flowi_vfs.Handles.Steps.{IsPrivate}

-- A handle that was born, or an id that may not be reused.
pub data Born (t : Table) (params : OpParams) : Option Handle → Table → Type 0 where
  born :
      {h : Handle} {t' : Table}
      → h ≡ fresh_handle h.id params
      → IsPrivate t' h
      → IsValid t'
      → ((k : ℕ) → find k t'.handle_map ≡ find k t.handle_map)
      → t.next_handle_id ≤ t'.next_handle_id
      → (h.id ≡ t.next_handle_id)
        ⊎ ((params.reuse_handle ≢ handle_invalid) × (h.id ≡ params.reuse_handle))
      → Born t params (some h) t'
  still_used : (g : Handle) → find params.reuse_handle t.handle_map ≡ some g → Born t params none t

module _ (t : Table) (params : OpParams) (v : IsValid t) (room : t.next_handle_id + 1 < u32_mod)
    (known : params.reuse_handle < t.next_handle_id) where
  next-Born :
      Born t params
        (some (fresh_handle t.next_handle_id params))
        (record t { next_handle_id = (t.next_handle_id + 1) })
  unfolding fresh_handle
  next-Born =
      born refl
        (record {
          handed_out = omega arith;
          absent = v.handed_out t.next_handle_id (omega arith);
          is_open = refl;
          undispatched = refl;
        })
        (record {
          distinct = v.distinct;
          handed_out = λ k le. v.handed_out k (omega arith);
          counted = v.counted;
        })
        (λ k. refl) (omega arith) (inl refl)

  pub allocate_handle-Born : Born t params (allocate_handle t params).0 (allocate_handle t params).1
  unfolding allocate_handle fresh_handle
  allocate_handle-Born = elim (Bool-cases (params.reuse_handle == handle_invalid)) [
    | inl new ↦
        let same : (t.next_handle_id + 1) % u32_mod ≡ t.next_handle_id + 1 = omega arith in
        rw (new, same) next-Born
    | inr reuse ↦ elim (Option-cases (find params.reuse_handle t.handle_map)) [
      | inr (g, e) ↦ rw (reuse, e) (still_used g e)
      | inl e ↦
          rw (reuse, e)
            (born refl
              (record { handed_out = known; absent = e; is_open = refl; undispatched = refl }) v
              (λ k. refl) (omega arith) (inr ((λ z. ground arith), refl)))
    ]
  ]

  module _ (J : JobSystem) (mount_job : ℕ → ℕ) (scheduled : Handle → Handle)
      (kept : (h : Handle) → ((scheduled h).id ≡ h.id) × ((scheduled h).closed ≡ h.closed))
      (s : J.State) where
    -- An operation that was issued: its id finds it with its job recorded, and no other id changed. Or
    -- the id to reuse is in use, and nothing has changed.
    pub data Issued : ℕ × Table × J.State → Type 0 where
      issued :
          {id : ℕ} {t' : Table} {s' : J.State}
          → (h : Handle) → find id t.handle_map ≡ none
          → lookup_handle t' id ≡ some h
          → h.id ≡ id
          → h.job_handle ≡ (schedule_job J (mount_job params.mount) s).0
          → ((k : ℕ) → k ≢ id → lookup_handle t' k ≡ lookup_handle t k)
          → IsValid t'
          → Issued (id, t', s')
      refused :
          {s' : J.State}
          → (g : Handle) → find params.reuse_handle t.handle_map ≡ some g
          → Issued (handle_invalid, t, s')

    publish_op-Issued :
        (o : Option Handle) (t' : Table)
        → Born t params o t'
        → Issued (publish_op J mount_job scheduled params s (o, t'))
    unfolding publish_handle lookup_handle
    publish_op-Issued (some h) t' (born fresh p v' same grows origin) =
        let job = (schedule_job J (mount_job params.mount) s).0 in
        let h' : Handle = record (scheduled h) { job_handle = job; last_job = job } in
        let name : h'.id ≡ h.id = (kept h).0 in
        let absent : find h'.id t'.handle_map ≡ none = rw name p.absent in
        issued h' (sym (same h.id) ∙ p.absent)
          (ground (arith, name, find-insert h.id h' t'.handle_map)) name refl
          (λ k ne. ground (arith, name, same k, find-insert k h' t'.handle_map))
          (publish_handle-IsValid h' t' (omega (arith, name, p.handed_out)) absent
            ((kept h).1 ∙ p.is_open) v')
    publish_op-Issued none t' (still_used g e) = refused g e

    -- Issuing an operation in a valid table whose next id is below 2^32 - 1, with an id to reuse
    -- that was handed out, when the job leaves the id and the closed flag of its handle alone:
    -- either the id to reuse is still in the map, no handle is issued and the table is as before;
    -- or an id that was in no use finds the new handle with its job recorded, every other id finds
    -- what it found, and the table is valid.
    pub allocate_op-Issued : Issued (allocate_op J mount_job scheduled params s t)
    unfolding allocate_op
    allocate_op-Issued =
        publish_op-Issued (allocate_handle t params).0 (allocate_handle t params).1
          allocate_handle-Born
