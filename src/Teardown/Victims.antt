-- ===== src/Teardown/Victims.antt =====
-- What closing a mount (src/vfs/vfs.c) does to the handles: no job of a victim is outstanding when they are
-- freed, and exactly the victims go.
use flowi_vfs.Common.{
  ℕ, zero, suc, ◌-◌, ◌<◌, ◌≤◌, ◌≡◌, refl, sym, subst, inl, inr, Bool, true, false, ◌||◌, List, [],
  ◌∷◌, Option, none, some, ◌==◌, if◌then◌else◌, arith, Bool-cases, Option-cases, All, eq_of_==,
}
use flowi_vfs.Handles.{Handle, Table}
use flowi_vfs.Handles.Map.{find, lookup_handle, collect_handles}
use flowi_vfs.Handles.Map.Find.{find-collect_handles, find_id}
use flowi_vfs.Handles.Jobs.{JobSystem, is_idle}
use flowi_vfs.Handles.Release.{free_handle}
use flowi_vfs.Handles.Valid.{IsValid, free_handle-IsValid}
use flowi_vfs.Handles.Reclaim.{find-free_handle}
use flowi_vfs.Teardown.{
  is_on_mount, Victim, victims_of, snapshot_mount_victims, refresh_mount_victims, drain_victims,
  free_mount_victims,
}

module _ (J : JobSystem) where
  -- Nothing that the id names has work outstanding.
  abbrev pub Settles : Table × J.State → ℕ → Type 0
  Settles (t, s) id = (h : Handle) → lookup_handle t id ≡ some h → is_idle J s h ≡ true

  refresh-Settles :
      (t : Table) (s : J.State) (vs : List Victim)
      → (refresh_mount_victims J t s vs).0 ≡ false
      → All (λ v. Settles (t, s) v.id) vs
  unfolding refresh_mount_victims is_idle
  refresh-Settles t s [] e = tt
  refresh-Settles t s (v ∷ vs) e =
      (λ h found. ground (arith, found), refresh-Settles t s vs (ground arith))

  refresh-quiet :
      (t : Table) (s : J.State) (vs : List Victim)
      → All (λ v. Settles (t, s) v.id) vs
      → (refresh_mount_victims J t s vs).0 ≡ false
  unfolding refresh_mount_victims is_idle
  refresh-quiet t s [] all = refl
  refresh-quiet t s (v ∷ vs) all = elim (Option-cases (lookup_handle t v.id)) [
    | inl e ↦ rw e (refresh-quiet t s vs all.1)
    | inr (h, e) ↦
        let idle = all.0 h e in
        let rest = refresh-quiet t s vs all.1 in rw e (ground (arith, idle, rest))
  ]

  -- The refresh keeps the ids.
  refresh-ids :
      (P : ℕ → Type 0) (t : Table) (s : J.State) (vs : List Victim)
      → (All (λ v. P v.id) vs → All (λ v. P v.id) (refresh_mount_victims J t s vs).1)
        × (All (λ v. P v.id) (refresh_mount_victims J t s vs).1 → All (λ v. P v.id) vs)
  unfolding refresh_mount_victims
  refresh-ids P t s [] = (λ all. tt, λ all. tt)
  refresh-ids P t s (v ∷ vs) =
      let (there, back) = refresh-ids P t s vs in
      (λ all. (all.0, there all.1), λ all. (all.0, back all.1))

  -- A drain that ended: at its last look no victim had work outstanding.
  pub record Drained (seen : ℕ → Table × J.State) (vs : List Victim) (o : Option (ℕ × List Victim))
      : Type 0 where
    pub round : ℕ
    pub victims : List Victim
    pub ran : o ≡ some (round, victims)
    pub settled : All (λ v. Settles (seen round) v.id) vs

  -- Draining the handles of a mount, whatever the table and the job system are in each round: if
  -- in some round none of them has work outstanding, the loop ends by then, and in the round in
  -- which it ended none had.
  pub drain_victims-Drained :
      (seen : ℕ → Table × J.State) (rounds n last : ℕ) (vs : List Victim)
      → n ≤ last
      → last - n < rounds
      → All (λ v. Settles (seen last) v.id) vs
      → Drained seen vs (drain_victims J seen rounds n vs)
  unfolding drain_victims
  drain_victims-Drained seen zero n last vs le lt quiet = absurd (omega arith)
  drain_victims-Drained seen (suc rounds) n last vs le lt quiet =
      let r = refresh_mount_victims J (seen n).0 (seen n).1 vs in
      elim (Bool-cases r.0) [
        | inr none_ ↦ rw none_ (record {
          round = n;
          victims = r.1;
          ran = refl;
          settled = refresh-Settles (seen n).0 (seen n).1 vs none_;
        })
        | inl more ↦
            let later : n < last = not_last more in
            let (there, back) = refresh-ids (Settles (seen last)) (seen n).0 (seen n).1 vs in
            let d =
              drain_victims-Drained seen rounds (suc n) last r.1 (omega arith) (omega arith)
                (there quiet) in
            rw more (record {
              round = d.round;
              victims = d.victims;
              ran = d.ran;
              settled = (refresh-ids (Settles (seen d.round)) (seen n).0 (seen n).1 vs).1 d.settled;
            })
      ]
    where
      not_last : (refresh_mount_victims J (seen n).0 (seen n).1 vs).0 ≡ true → n < last
      not_last more = elim (Bool-cases (n == last)) [
        | inr other ↦ ground arith
        | inl same ↦
            let quiet_n : All (λ v. Settles (seen n) v.id) vs =
              subst (λ k. All (λ v. Settles (seen k) v.id) vs) (sym (eq_of_== n last same)) quiet in
            absurd (ground (arith, refresh-quiet (seen n).0 (seen n).1 vs quiet_n))
      ]

module _ (has_close : ℕ → Bool) where
  -- Whether an id is a victim's.
  unfoldable pub is_victim : ℕ → List Victim → Bool
  is_victim k [] = false
  is_victim k (v ∷ vs) = (v.id == k) || is_victim k vs

  pub freed-IsValid :
      (t : Table) (id : ℕ) (h : Handle)
      → find id t.handle_map ≡ some h
      → IsValid t
      → IsValid (free_handle has_close t h).0
  freed-IsValid t id h e v =
      free_handle-IsValid has_close t h (simp (find_id id t.handle_map h e) e) v

  pub free_mount_victims-IsValid :
      (vs : List Victim) (t : Table) → IsValid t → IsValid (free_mount_victims has_close vs t).0
  unfolding free_mount_victims lookup_handle
  free_mount_victims-IsValid [] t v = v
  free_mount_victims-IsValid (x ∷ vs) t v = elim (Option-cases (find x.id t.handle_map)) [
    | inl e ↦ rw e (free_mount_victims-IsValid vs t v)
    | inr (h, e) ↦
        rw e
          (free_mount_victims-IsValid vs (free_handle has_close t h).0 (freed-IsValid t x.id h e v))
  ]

  pub find-free_mount_victims :
      (vs : List Victim) (t : Table) (k : ℕ)
      → IsValid t
      → lookup_handle (free_mount_victims has_close vs t).0 k
        ≡ (if is_victim k vs then none else lookup_handle t k)
  unfolding free_mount_victims lookup_handle is_victim
  find-free_mount_victims [] t k v = refl
  find-free_mount_victims (x ∷ vs) t k v = elim (Option-cases (find x.id t.handle_map)) [
    | inl e ↦ rw e (ground (arith, e, find-free_mount_victims vs t k v))
    | inr (h, e) ↦ rw e (
        ground (
          arith,
          find_id x.id t.handle_map h e,
          find-free_handle has_close t h k v,
          find-free_mount_victims vs (free_handle has_close t h).0 k (freed-IsValid t x.id h e v),
        ))
  ]

  victims_of-is_victim :
      (k : ℕ) (hs : List Handle)
      → is_victim k (victims_of hs) ≡ elim (find k hs) [ none ↦ false | some h ↦ true ]
  unfolding is_victim victims_of find
  victims_of-is_victim k [] = refl
  victims_of-is_victim k (h ∷ hs) = ground (arith, victims_of-is_victim k hs)

  is_victim-snapshot :
      (mount k : ℕ) (t : Table)
      → IsValid t
      → is_victim k (snapshot_mount_victims mount t)
        ≡ elim (lookup_handle t k) [ none ↦ false | some h ↦ is_on_mount mount h ]
  unfolding lookup_handle
  is_victim-snapshot mount k t v =
      rw (victims_of-is_victim k (collect_handles (is_on_mount mount) t.handle_map))
        (ground (arith, find-collect_handles (is_on_mount mount) k t.handle_map v.distinct))

  -- Freeing the handles that a mount had in a valid table, from a valid table that may have
  -- changed since: exactly those ids are gone, and every other id finds what it found.
  pub find-mount_teardown :
      (mount k : ℕ) (t t' : Table)
      → IsValid t
      → IsValid t'
      → lookup_handle (free_mount_victims has_close (snapshot_mount_victims mount t) t').0 k
        ≡ (elim (lookup_handle t k) [
          | none ↦ lookup_handle t' k
          | some h ↦ if is_on_mount mount h then none else lookup_handle t' k
        ])
  find-mount_teardown mount k t t' v v' = ground (
    arith,
    find-free_mount_victims (snapshot_mount_victims mount t) t' k v',
    is_victim-snapshot mount k t v,
  )
