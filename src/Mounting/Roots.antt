-- ===== src/Mounting/Roots.antt =====
-- The mount operation (`vfs_op_mount` of src/vfs/vfs_ops.c): it ends, and leaves either a root that is
-- resolved and owes exactly its slots, or one that is not and owes nothing.
use flowi_vfs.Common.{
  ℕ, ◌≡◌, refl, sym, subst, true, false, ◌&&◌, inl, inr, List, [], ◌∷◌, Option, none, some, ◌==◌,
  if◌then◌else◌, arith, Bool-cases,
}
use flowi_vfs.Status.{state_success, error_mount}
use flowi_vfs.Drivers.{FilePath, PluginEntry}
use flowi_vfs.Drivers.Ledger.{Ledger, Owned, close_handle}
use flowi_vfs.Loading.{FinalDriver, final, failed}
use flowi_vfs.Resolve.Owes.{Owes, close_handle-Owes}
use flowi_vfs.Resolve.Roots.{mount_path-Ends}
use flowi_vfs.Resolve.Descent.{FinalOwes}
use flowi_vfs.Tree.{no_handles, string_equals}
use flowi_vfs.Mounting.{
  slot0, clone_plugin_handle, Mount, local_fs, root_is_resolved, watch, settle_mount, op_mount,
}
use flowi_vfs.Mounting.Clones.{Cloned, filled, refused, clone_plugin_handle-Cloned}

module _ {W : Type 0} where
  -- The handles that the root of a mount holds, of a driver entry.
  abbrev pub root_owns : Mount W → List Owned → List Owned
  root_owns m hs = elim m.root_entry [
    | none ↦ hs
    | some e ↦ elim m.root_handles [
      | [] ↦ hs
      | h ∷ cs ↦ elim cs [
        | [] ↦ hs
        | c ∷ ds ↦ if root_is_resolved m then (e.address, c) ∷ (e.address, h) ∷ hs else hs
      ]
    ]
  ]

  -- A mount operation that ended.
  pub record Mounted (hs : List Owned) (bs : List ℕ) (r : Option (Mount W × ℕ × Ledger W))
      : Type 0 where
    pub mount : Mount W
    pub status : ℕ
    pub after : Ledger W
    pub ran : r ≡ some (mount, status, after)
    pub owes : Owes after (root_owns mount hs) bs
    -- An error leaves an unresolved root; a driver whose clone fails leaves one as well.
    pub reported : status ≡ error_mount → root_is_resolved mount ≡ false
    pub unreported : root_is_resolved mount ≡ true → status ≡ state_success

  module _ (file_watcher_start : FilePath → ℕ) where
    root_owns-watch :
        (e : PluginEntry W) (m : Mount W) (hs : List Owned)
        → root_owns (watch file_watcher_start e m) hs ≡ root_owns m hs
    unfolding watch
    root_owns-watch e m hs =
        elim (Bool-cases (m.enable_file_watching && string_equals e.driver.plugin_name local_fs)) [
          | inl yes_ ↦ rw yes_
          | inr no_ ↦ rw no_
        ]

    settle_final-Mounted :
        (m : Mount W) (e : PluginEntry W) (h : ℕ) (hs : List Owned) (bs : List ℕ) (slots : List ℕ)
        (l : Ledger W)
        → Cloned e h hs bs slots l
        → Mounted hs bs (
            some (
              watch file_watcher_start e (record m { root_entry = some e; root_handles = slots }),
              state_success,
              if slot0 slots == 0 then close_handle e h l else l,
            ))
    settle_final-Mounted m e h hs bs slots l (refused p) = record {
      mount =
          watch file_watcher_start e (record m { root_entry = some e; root_handles = no_handles });
      status = state_success;
      after = close_handle e h l;
      ran = refl;
      owes =
          subst (λ x. Owes (close_handle e h l) x bs)
            (sym
              (root_owns-watch e (record m { root_entry = some e; root_handles = no_handles }) hs))
            (close_handle-Owes e h p);
      reported = λ e. cc;
      unreported = λ e. refl;
    }
    settle_final-Mounted m e h hs bs slots l (filled {c} p) =
        let nz : (h == 0) ≡ false = ground (arith, p.live.1.0) in
        record {
          mount =
              watch file_watcher_start e
                (record m { root_entry = some e; root_handles = h ∷ c ∷ [] });
          status = state_success;
          after = l;
          ran = rw nz refl;
          owes =
              subst (λ x. Owes l x bs)
                (sym (
                  root_owns-watch e (record m { root_entry = some e; root_handles = h ∷ c ∷ [] })
                    hs))
                (rw nz p);
          reported = λ e. cc;
          unreported = λ e. refl;
        }

    settle_mount-Mounted :
        (m : Mount W) (r : FinalDriver W × Ledger W) (hs : List Owned) (bs : List ℕ)
        → FinalOwes hs bs r
        → Mounted hs bs (some (settle_mount file_watcher_start m r))
    unfolding settle_mount
    settle_mount-Mounted m (failed e, l) hs bs o = record {
      mount = (settle_mount file_watcher_start m (failed e, l)).0;
      status = error_mount;
      after = l;
      ran = refl;
      owes = o;
      reported = λ e. refl;
      unreported = λ e. cc;
    }
    settle_mount-Mounted m (final e h, l) hs bs o =
        let c = clone_plugin_handle e h l in
        settle_final-Mounted m e h hs bs c.0 c.1 (clone_plugin_handle-Cloned e h o)

    -- A mount operation that starts with known handles and buffers owed ends, for any drivers and
    -- any path. Afterwards the VFS owes the same and the slots of the root, if the root is
    -- resolved, and nothing else; no handle was closed twice and no foreign buffer freed. An error
    -- status goes with an unresolved root, and a resolved root with success.
    pub op_mount-Mounted :
        (plugins : List (PluginEntry W)) (count : ℕ) (reconstruct : ℕ → ℕ → FilePath) (m : Mount W)
        {l : Ledger W} {hs : List Owned} {bs : List ℕ}
        → Owes l hs bs
        → Mounted hs bs (op_mount file_watcher_start plugins count reconstruct m l)
    unfolding op_mount
    op_mount-Mounted plugins count reconstruct m {l} {hs} {bs} o =
        let e = mount_path-Ends plugins count reconstruct o in
        rw (op_mount, e.ran) (settle_mount-Mounted m (e.outcome, e.after) hs bs e.owes)
