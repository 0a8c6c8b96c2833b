-- ===== src/Handles/Steps/Quiet.antt =====
-- The sections of `vfs_mount_close` (src/vfs/vfs.c) among the other threads: the refresh that finds the
-- handles of the mount quiet, and the section that frees them.
use flowi_vfs.Common.{
  ℕ, ◌+◌, ◌-◌, ◌<◌, ◌≤◌, Bool, true, false, ◌≡◌, List, [], ◌∷◌, ◌++◌, ◌==◌, arith, inl, inr,
  Bool-cases, Option-cases,
}
use flowi_vfs.Handles.{Table}
use flowi_vfs.Handles.Map.{find, lookup_handle}
use flowi_vfs.Handles.Jobs.{JobSystem}
use flowi_vfs.Handles.Release.{run_all}
use flowi_vfs.Handles.Steps.{Run, occurrences}
use flowi_vfs.Handles.Steps.Pending.{pending_of}
use flowi_vfs.Handles.Steps.Reserved.{Reserved-AddsNone, free_mount_victims-AddsNone}
use flowi_vfs.Handles.Steps.Windows.{Guarded}
use flowi_vfs.Teardown.{Victim, refresh_mount_victims, free_mount_victims}
use flowi_vfs.Teardown.Victims.{is_victim, find-free_mount_victims, free_mount_victims-IsValid}

is_victim-occurrences :
    (has_close : ℕ → Bool) (k : ℕ) (vs : List Victim)
    → is_victim has_close k vs ≡ true
    → 0 < occurrences k vs
unfolding is_victim occurrences
is_victim-occurrences has_close k [] e = ground arith
is_victim-occurrences has_close k (v ∷ vs) e = ground (arith, is_victim-occurrences has_close k vs)

-- A refresh that finds no work outstanding saw no open window on a victim.
refresh-pending :
    (J : JobSystem) (t : Table) (s : J.State) (k : ℕ) (vs : List Victim)
    → (refresh_mount_victims J t s vs).0 ≡ false
    → 0 < occurrences k vs
    → pending_of (find k t.handle_map) ≡ 0
unfolding refresh_mount_victims occurrences lookup_handle
refresh-pending J t s k [] e low = absurd (omega arith)
refresh-pending J t s k (v ∷ vs) e low = elim (Bool-cases (v.id == k)) [
  | inr other ↦ refresh-pending J t s k vs (ground arith) (ground arith)
  | inl same ↦ elim (Option-cases (find v.id t.handle_map)) [
    | inl none_ ↦ ground arith
    | inr (h, found) ↦ ground (arith, found)
  ]
]

module _ {r : Run} (g : Guarded r) where
  pub refresh-Guarded :
      (J : JobSystem) (s : J.State) (vs : List Victim)
      → (refresh_mount_victims J r.table s vs).0 ≡ false
      → Guarded (record r { closing = λ k. r.closing k + occurrences k vs })
  refresh-Guarded J s vs e = record {
    valid = g.valid;
    small = g.small;
    counted = g.counted;
    reserved = g.reserved;
    quiet = λ k low. elim (Bool-cases (occurrences k vs == 0)) [
      | inl zero_ ↦ g.quiet k (ground arith)
      | inr some_ ↦ ground (arith, g.counted k, refresh-pending J r.table s k vs e)
    ];
  }

  pub free_victims-Guarded :
      (has_close : ℕ → Bool) (vs : List Victim)
      → ((k : ℕ) → occurrences k vs ≤ r.closing k)
      → Guarded (record r {
        table = (free_mount_victims has_close vs r.table).0;
        closing = λ k. r.closing k - occurrences k vs;
        effects =
            r.effects
            ++ ((free_mount_victims has_close vs r.table).1
                ++ run_all (free_mount_victims has_close vs r.table).2);
      })
  unfolding lookup_handle
  free_victims-Guarded has_close vs within = record {
    valid = free_mount_victims-IsValid has_close vs r.table g.valid;
    small = g.small;
    counted = λ k. elim (Bool-cases (is_victim has_close k vs)) [
      | inr other ↦
          ground (arith, g.counted k, find-free_mount_victims has_close vs r.table k g.valid)
      | inl victim ↦
          let open_ = is_victim-occurrences has_close k vs victim in
          let low : 0 < r.closing k = omega (arith, within k) in
          let gone = g.quiet k low in
          ground (arith, find-free_mount_victims has_close vs r.table k g.valid)
    ];
    quiet = λ k low. g.quiet k (omega arith);
    reserved = λ k low.
        Reserved-AddsNone (free_mount_victims-AddsNone has_close vs r.table g.valid)
          (g.reserved k low);
  }
