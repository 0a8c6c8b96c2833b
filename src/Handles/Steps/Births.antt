-- ===== src/Handles/Steps/Births.antt =====
-- A handle that `allocate_handle` (src/vfs/vfs.c) makes and one that is published, among other threads.
use flowi_vfs.Common.{
  ℕ, ◌+◌, ◌-◌, ◌<◌, ◌≤◌, ◌≡◌, refl, ◌≢◌, ◌∙◌, subst, ◌⊎◌, ◌∷◌, Option, none, some, ◌==◌, arith, inl,
  inr, Bool-cases, eq_of_==,
}
use mathlib.Core.Option.{some-injective}
use flowi_vfs.Handles.{Handle, Table, handle_invalid, u32_mod}
use flowi_vfs.Handles.Map.{find}
use flowi_vfs.Handles.Map.Find.{find-insert}
use flowi_vfs.Handles.Alloc.{OpParams, allocate_handle, publish_handle}
use flowi_vfs.Handles.Birth.{Born, born, still_used, allocate_handle-Born}
use flowi_vfs.Handles.Valid.{IsValid, publish_handle-IsValid}
use flowi_vfs.Handles.Steps.{Run, set_window, IsPrivate, IsFilled}
use flowi_vfs.Handles.Steps.Reserved.{Reserved, AddsNone, Reserved-AddsNone}
use flowi_vfs.Handles.Steps.Windows.{Guarded, IsPrivate-IsFilled}

-- What `allocate_handle` leaves when it hands a handle out.
record Allocation (t : Table) (params : OpParams) (t' : Table) (h : Handle) : Type 0 where
  is_private : IsPrivate t' h
  valid : IsValid t'
  same : (k : ℕ) → find k t'.handle_map ≡ find k t.handle_map
  grows : t.next_handle_id ≤ t'.next_handle_id
  origin :
      (h.id ≡ t.next_handle_id)
      ⊎ ((params.reuse_handle ≢ handle_invalid) × (h.id ≡ params.reuse_handle))

Born-Allocation :
    {t t' : Table} {params : OpParams} {o : Option Handle}
    → Born t params o t'
    → (h : Handle) → o ≡ some h
    → Allocation t params t' h
Born-Allocation {t} {t'} {params} (born fresh p v same grows origin) h e =
    subst (Allocation t params t') (some-injective _ _ e)
      (record { is_private = p; valid = v; same = same; grows = grows; origin = origin })
Born-Allocation (still_used f used) h e = absurd (cc e)

module _ {r : Run} (g : Guarded r) where
  -- No other unpublished handle has the id of an allocated one.
  alone_id :
      {params : OpParams} {t' : Table} {h : Handle}
      → Allocation r.table params t' h
      → (params.reuse_handle ≢ handle_invalid → r.unpublished params.reuse_handle ≡ 0)
      → r.unpublished h.id ≡ 0
  alone_id {params} {t'} {h} a alone = elim a.origin [
    | inr (reused, e) ↦ rw e (alone reused)
    | inl e ↦ elim (Bool-cases (r.unpublished h.id == 0)) [
      | inl none_ ↦ ground arith
      | inr some_ ↦
          let q = g.reserved h.id (ground arith) in absurd (omega (arith, e, q.handed_out))
    ]
  ]

  pub allocate-Guarded :
      (params : OpParams) (h : Handle)
      → (allocate_handle r.table params).0 ≡ some h
      → r.table.next_handle_id + 1 < u32_mod
      → params.reuse_handle < r.table.next_handle_id
      → (params.reuse_handle ≢ handle_invalid → r.unpublished params.reuse_handle ≡ 0)
      → Guarded (record r {
        table = (allocate_handle r.table params).1;
        unpublished = set_window h.id (r.unpublished h.id + 1) r.unpublished;
      })
  allocate-Guarded params h e room known alone =
      let a = Born-Allocation (allocate_handle-Born r.table params g.valid room known) h e in
      record {
        valid = a.valid;
        small = g.small;
        counted = λ k. ground (arith, a.same k, g.counted k);
        quiet = g.quiet;
        reserved = λ k some_. elim (Bool-cases (h.id == k)) [
          | inr other ↦
              let q = g.reserved k (ground arith) in
              record {
                single = ground (arith, q.single);
                handed_out = omega (arith, a.grows, q.handed_out);
                absent = a.same k ∙ q.absent;
              }
          | inl here_ ↦
              let name : h.id ≡ k = eq_of_== h.id k here_ in
              record {
                single = ground (arith, alone_id a alone);
                handed_out = omega (arith, name, a.is_private.handed_out);
                absent =
                    subst (λ j. find j (allocate_handle r.table params).1.handle_map ≡ none) name
                      a.is_private.absent;
              }
        ];
      }

  -- Once a handle is published, no other unpublished one has its id.
  pub published :
      (h : Handle) (k : ℕ) (t : Table)
      → IsFilled r h
      → AddsNone r.table t
      → 0 < set_window h.id (r.unpublished h.id - 1) r.unpublished k
      → Reserved (publish_handle t h) (set_window h.id (r.unpublished h.id - 1) r.unpublished k) k
  unfolding publish_handle
  published h k t p a some_ = elim (Bool-cases (h.id == k)) [
    | inl here_ ↦ absurd (ground (arith, (g.reserved h.id p.allocated).single))
    | inr other ↦
        let q = Reserved-AddsNone a (g.reserved k (ground arith)) in
        record {
          single = ground (arith, q.single);
          handed_out = q.handed_out;
          absent = ground (arith, q.absent, find-insert k h t.handle_map);
        }
  ]

  pub publish-Guarded :
      (h : Handle)
      → IsFilled r h
      → Guarded (record r {
        table = publish_handle r.table h;
        unpublished = set_window h.id (r.unpublished h.id - 1) r.unpublished;
        born = h ∷ r.born;
      })
  publish-Guarded h f =
      let p = IsPrivate-IsFilled g h f in
      record {
        valid = publish_handle-IsValid h r.table p.handed_out p.absent p.is_open g.valid;
        small = g.small;
        counted = λ k.
            unfold publish_handle in
            ground
              (arith, g.counted k, p.absent, p.undispatched, find-insert k h r.table.handle_map);
        quiet = g.quiet;
        reserved =
            λ k some_. published h k r.table f (record { next = refl; absent = λ j e. e }) some_;
      }
