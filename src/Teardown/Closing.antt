-- ===== src/Teardown/Closing.antt =====
-- `vfs_mount_close` of src/vfs/vfs.c as a whole: its sections in order, and what a close leaves behind.
-- `vfs_tree_unlink_from_parent` has no part: no code gives a root a parent, so it returns at its first
-- test. The storage that `vfs_destroy_mount` returns to its arena and pool is not modelled.
use flowi_vfs.Common.{
  ℕ, zero, suc, ◌+◌, ◌<◌, ◌≤◌, ◌≡◌, refl, subst, ◌∙◌, ◌≢◌, Bool, true, false, not, ◌&&◌, List, [],
  ◌∷◌, ◌++◌, Option, none, some, ◌==◌, if◌then◌else◌, arith, inl, inr, Option-cases, Bool-cases,
  All,
}
use flowi_vfs.Handles.{Table, null}
use flowi_vfs.Handles.Map.{find, lookup_handle}
use flowi_vfs.Handles.Map.Find.{find_id}
use flowi_vfs.Handles.Jobs.{JobSystem}
use flowi_vfs.Handles.Release.{Effect, run_release, run_all, free_handle}
use flowi_vfs.Handles.Valid.{IsValid}
use flowi_vfs.Handles.Hooks.{hook_runs, hooked, hook_runs-append, hook_runs-free_handle}
use flowi_vfs.Drivers.Ledger.{Owned}
use flowi_vfs.Tree.{Node, cleanup_node}
use flowi_vfs.Tree.Handles.{closes, held_by, closes-cleanup_node}
use flowi_vfs.Teardown.{
  is_on_mount, Victim, snapshot_mount_victims, refresh_mount_victims, drain_victims,
  free_mount_victims, mount_unlist,
}
use flowi_vfs.Teardown.Victims.{Settles, drain_victims-Drained, freed-IsValid, find-mount_teardown}

-- The fields of `FlVfsMount` that its close reads. The address names it.
pub record ClosingMount : Type 0 where
  pub address : ℕ
  pub job_handle : ℕ
  pub watcher_handle : ℕ
  pub watching_enabled : Bool
  pub root_node : Option Node

-- What a close left: the mounts that are still listed, the table, what it freed and then the hooks
-- it ran, the watchers that it stopped, and the driver handles that the tree closed.
pub record Closing (S : Type 0) : Type 0 where
  pub mounts : List ℕ
  pub table : Table
  pub jobs : S
  pub effects : List Effect
  pub stopped : List ℕ
  pub closed : List Owned

-- The watchers that are passed to `file_watcher_stop`.
abbrev pub watchers_stopped : ClosingMount → List ℕ
watchers_stopped m =
    if m.watching_enabled && not (m.watcher_handle == 0) then m.watcher_handle ∷ [] else []

abbrev pub tree_closed : Option Node → List Owned
tree_closed none = []
tree_closed (some root) = (cleanup_node root).1

module _ (has_close : ℕ → Bool) (J : JobSystem) where
  -- The mount's own job, after its operations.
  abbrev pub wait_mount_job : ClosingMount → J.State → J.State
  wait_mount_job m s = if m.job_handle == 0 then s else J.wait m.job_handle s

  -- From the wait for the mount's own job to the end of `vfs_mount_close`.
  unfoldable pub tear_down : ClosingMount → List ℕ → List Victim → J.State → Table → Closing J.State
  tear_down m mounts victims s t =
      let (t', freed, hooks) = free_mount_victims has_close victims t in
      record {
        mounts = mounts;
        table = t';
        jobs = wait_mount_job m s;
        effects = freed ++ run_all hooks;
        stopped = watchers_stopped m;
        closed = tree_closed m.root_node;
      }

  abbrev after_drain :
      ClosingMount
      → List ℕ
      → (ℕ → Table × J.State)
      → Table
      → Option (ℕ × List Victim)
      → Option (Closing J.State)
  after_drain m mounts seen later none = none
  after_drain m mounts seen later (some (n, victims)) =
      some (tear_down m mounts victims (seen n).1 later)

  -- `vfs_mount_close`. Other threads run between the sections: the victims are copied out of the
  -- table `before`, round `n` of the drain sees `seen n`, and the last section finds the table
  -- `later`. None if the mount was not listed, or the rounds run out.
  unfoldable pub mount_close :
      ℕ → ClosingMount → List ℕ → Table → (ℕ → Table × J.State) → Table → Option (Closing J.State)
  mount_close rounds m mounts before seen later =
      let (listed, mounts') = mount_unlist m.address mounts in
      if not listed
      then none
      else after_drain m mounts' seen later
          (drain_victims J seen rounds 0 (snapshot_mount_victims m.address before))

-- How often a mount is listed.
unfoldable pub listings : ℕ → List ℕ → ℕ
listings m [] = 0
listings m (a ∷ as_) = (if a == m then 1 else 0) + listings m as_

listings-mount_unlist :
    (m k : ℕ) (mounts : List ℕ)
    → listings k mounts
      ≡ listings k (mount_unlist m mounts).1
        + (if (mount_unlist m mounts).0 && (m == k) then 1 else 0)
unfolding listings mount_unlist
listings-mount_unlist m k [] = ground arith
listings-mount_unlist m k (a ∷ as_) = ground (arith, listings-mount_unlist m k as_)

mount_unlist-listed :
    (m : ℕ) (mounts : List ℕ) → 1 ≤ listings m mounts → (mount_unlist m mounts).0 ≡ true
unfolding listings mount_unlist
mount_unlist-listed m [] e = absurd (omega arith)
mount_unlist-listed m (a ∷ as_) e = ground (arith, mount_unlist-listed m as_)

mount_unlist-unlisted :
    (m : ℕ) (mounts : List ℕ) → listings m mounts ≡ 0 → (mount_unlist m mounts).0 ≡ false
unfolding listings mount_unlist
mount_unlist-unlisted m [] e = refl
mount_unlist-unlisted m (a ∷ as_) e = ground (arith, mount_unlist-unlisted m as_)

module _ (has_close : ℕ → Bool) (J : JobSystem) where
  free-refresh :
      (t : Table) (s : J.State) (vs : List Victim) (u : Table)
      → free_mount_victims has_close (refresh_mount_victims J t s vs).1 u
        ≡ free_mount_victims has_close vs u
  unfolding free_mount_victims refresh_mount_victims
  free-refresh t s [] u = refl
  free-refresh t s (v ∷ vs) u = elim (Option-cases (lookup_handle u v.id)) [
    | inl e ↦ simp (e, free-refresh t s vs u) refl
    | inr (h, e) ↦ simp (e, free-refresh t s vs (free_handle has_close u h).0) refl
  ]

  -- The drain keeps the ids, which alone the freeing reads.
  free-drain :
      (seen : ℕ → Table × J.State) (rounds n k : ℕ) (vs vs' : List Victim) (u : Table)
      → drain_victims J seen rounds n vs ≡ some (k, vs')
      → free_mount_victims has_close vs' u ≡ free_mount_victims has_close vs u
  unfolding drain_victims
  free-drain seen zero n k vs vs' u e = cc
  free-drain seen (suc rounds) n k vs vs' u e =
      let r = refresh_mount_victims J (seen n).0 (seen n).1 vs in
      elim (Bool-cases r.0) [
        | inl more ↦
            free-drain seen rounds (suc n) k r.1 vs' u (ground (arith, more))
            ∙ free-refresh (seen n).0 (seen n).1 vs u
        | inr none_ ↦
            let same : r.1 ≡ vs' = ground (arith, none_, e) in
            subst (λ x. free_mount_victims has_close x u ≡ free_mount_victims has_close vs u) same
              (free-refresh (seen n).0 (seen n).1 vs u)
      ]

  pub hook_runs-free_mount_victims :
      (fn user_data : ℕ) (vs : List Victim) (t : Table)
      → fn ≢ null
      → IsValid t
      → hook_runs fn user_data (free_mount_victims has_close vs t).1
          + hook_runs fn user_data (run_all (free_mount_victims has_close vs t).2)
          + hooked fn user_data (free_mount_victims has_close vs t).0.handle_map
        ≡ hooked fn user_data t.handle_map
  unfolding free_mount_victims run_all hook_runs lookup_handle
  hook_runs-free_mount_victims fn user_data [] t ne v = omega arith
  hook_runs-free_mount_victims fn user_data (x ∷ vs) t ne v =
      elim (Option-cases (find x.id t.handle_map)) [
        | inl e ↦ rw e (hook_runs-free_mount_victims fn user_data vs t ne v)
        | inr (h, e) ↦
            let t' = (free_handle has_close t h).0 in
            let rest = free_mount_victims has_close vs t' in
            rw e (
              omega (
                arith,
                hook_runs-append fn user_data (free_handle has_close t h).1 rest.1,
                hook_runs-append fn user_data (run_release (free_handle has_close t h).2)
                    (run_all rest.2),
                hook_runs-free_handle fn user_data has_close t h ne
                    (simp (find_id x.id t.handle_map h e) e),
                hook_runs-free_mount_victims fn user_data vs t' ne
                    (freed-IsValid has_close t x.id h e v),
              ))
      ]

  -- What is left of a mount, its handles and its tree, when the close of a mount that is listed
  -- once has ended.
  pub record Closed (m : ClosingMount) (before later : Table) (o : Option (Closing J.State))
      : Type 0 where
    pub left : Closing J.State
    pub ended : o ≡ some left
    pub unlisted : (mount_unlist m.address left.mounts).0 ≡ false
    pub handles :
        (k : ℕ)
        → lookup_handle left.table k ≡ (elim (lookup_handle before k) [
          | none ↦ lookup_handle later k
          | some h ↦ if is_on_mount m.address h then none else lookup_handle later k
        ])
    pub hooks :
        (fn user_data : ℕ)
        → fn ≢ null
        → hook_runs fn user_data left.effects + hooked fn user_data left.table.handle_map
          ≡ hooked fn user_data later.handle_map
    pub tree :
        (root : Node) (entry h : ℕ)
        → m.root_node ≡ some root
        → h ≢ 0
        → closes entry h left.closed ≡ held_by entry h root

  torn_down :
      (m : ClosingMount) (mounts : List ℕ) (before later : Table) (victims : List Victim)
      (s : J.State)
      → (mount_unlist m.address mounts).0 ≡ false
      → IsValid before
      → IsValid later
      → free_mount_victims has_close victims later
        ≡ free_mount_victims has_close (snapshot_mount_victims m.address before) later
      → Closed m before later (some (tear_down has_close J m mounts victims s later))
  unfolding tear_down
  torn_down m mounts before later victims s un v v' same =
      let vs = snapshot_mount_victims m.address before in
      record {
        left = tear_down has_close J m mounts victims s later;
        ended = refl;
        unlisted = un;
        handles = λ k. simp same (find-mount_teardown has_close m.address k before later v v');
        hooks = λ fn user_data ne. simp same (
            omega (
              arith,
              hook_runs-append fn user_data (free_mount_victims has_close vs later).1
                  (run_all (free_mount_victims has_close vs later).2),
              hook_runs-free_mount_victims fn user_data vs later ne v',
            ));
        tree = λ root entry h e live. simp e (closes-cleanup_node entry h live root).0;
      }

  -- Closing a mount that is listed once, when the table is valid at the copy of its handles and at
  -- the last section, and in some round of the drain none of them has work outstanding: the close
  -- ends. The mount is no longer listed; exactly the handles that were copied are gone, and every
  -- other id finds what it found; a release hook that is not null ran once for each handle that
  -- carried it and went; and each driver handle of the tree that is not null is closed once for
  -- each node that held it.
  pub mount_close-Closed :
      (rounds last : ℕ) (m : ClosingMount) (mounts : List ℕ) (before : Table)
      (seen : ℕ → Table × J.State) (later : Table)
      → listings m.address mounts ≡ 1
      → IsValid before
      → IsValid later
      → last < rounds
      → All (λ v. Settles J (seen last) v.id) (snapshot_mount_victims m.address before)
      → Closed m before later (mount_close has_close J rounds m mounts before seen later)
  unfolding mount_close
  mount_close-Closed rounds last m mounts before seen later once v v' lt quiet =
      let vs = snapshot_mount_victims m.address before in
      let listed = mount_unlist-listed m.address mounts (omega (arith, once)) in
      let left = listings-mount_unlist m.address m.address mounts in
      let un =
        mount_unlist-unlisted m.address (mount_unlist m.address mounts).1
          (ground (arith, once, listed, left)) in
      let d = drain_victims-Drained J seen rounds 0 last vs (omega arith) (omega arith) quiet in
      simp (listed, d.ran)
        (torn_down m _ before later d.victims (seen d.round).1 un v v'
          (free-drain seen rounds 0 d.round vs d.victims later d.ran))
