-- ===== src/Handles/Steps/Chains.antt =====
-- The last section of `vfs_chain_file_op` (src/vfs/vfs.c) among other threads: the window on the file closes
-- and the operation is published.
use flowi_vfs.Common.{ℕ, ◌-◌, ◌<◌, Bool, ◌≡◌, ◌∷◌, none, arith, inl, inr, Option-cases}
use flowi_vfs.Handles.{Handle}
use flowi_vfs.Handles.Map.{find, lookup_handle}
use flowi_vfs.Handles.Map.Find.{find-insert}
use flowi_vfs.Handles.Alloc.{publish_handle}
use flowi_vfs.Handles.Chain.{update_handle, chain_end, settle_file}
use flowi_vfs.Handles.Valid.{IsValid, update_handle-IsValid, publish_handle-IsValid}
use flowi_vfs.Handles.Steps.{Run, set_window, IsPrivate, IsFilled}
use flowi_vfs.Handles.Steps.Pending.{
  pending_of, find-update_handle, settle_file-Keeps, pending-settle_file,
}
use flowi_vfs.Handles.Steps.Reserved.{update_handle-AddsNone}
use flowi_vfs.Handles.Steps.Windows.{Guarded, IsPrivate-IsFilled}
use flowi_vfs.Handles.Steps.Births.{published}

module _ {r : Run} (g : Guarded r) where
  pub absent_after_settle :
      (file : ℕ) (refused : Bool) (job : ℕ) (k : ℕ)
      → find k r.table.handle_map ≡ none
      → find k (update_handle file (settle_file refused job) r.table).handle_map ≡ none
  absent_after_settle file refused job k e = ground (
    arith,
    find-update_handle k file (settle_file refused job) r.table (settle_file-Keeps refused job).id,
  )

  pub end_chain-table :
      (file : ℕ) (refused : Bool) (op : Handle)
      → 0 < r.windows file
      → chain_end file refused op r.table
        ≡ publish_handle (update_handle file (settle_file refused op.job_handle) r.table) op
  unfolding chain_end publish_handle lookup_handle
  end_chain-table file refused op low = elim (Option-cases (find file r.table.handle_map)) [
    | inl e ↦ absurd (ground (arith, g.counted file))
    | inr (h, e) ↦ rw e
  ]

  settled-IsValid :
      (file : ℕ) (refused : Bool) (job : ℕ)
      → IsValid (update_handle file (settle_file refused job) r.table)
  settled-IsValid file refused job =
      update_handle-IsValid file (settle_file refused job) r.table (settle_file-Keeps refused job)
        g.valid

  published-IsValid :
      (file : ℕ) (refused : Bool) (op : Handle)
      → IsPrivate r.table op
      → IsValid (publish_handle (update_handle file (settle_file refused op.job_handle) r.table) op)
  unfolding update_handle
  published-IsValid file refused op p =
      publish_handle-IsValid op _ p.handed_out
        (absent_after_settle file refused op.job_handle op.id p.absent) p.is_open
        (settled-IsValid file refused op.job_handle)

  end_chain-counted :
      (file : ℕ) (refused : Bool) (op : Handle) (k : ℕ)
      → 0 < r.windows file
      → IsPrivate r.table op
      → pending_of (
          find k
            (publish_handle
              (update_handle file (settle_file refused op.job_handle) r.table)
              op).handle_map)
        ≡ set_window file (r.windows file - 1) r.windows k
  unfolding publish_handle
  end_chain-counted file refused op k low p = ground (
    arith,
    g.counted k,
    g.counted file,
    p.undispatched,
    p.absent,
    pending-settle_file r.table file k refused op.job_handle (r.windows file) (g.counted file) low
        (g.small file),
    find-insert k op (update_handle file (settle_file refused op.job_handle) r.table).handle_map,
  )

  pub end_chain-Guarded :
      (file : ℕ) (refused : Bool) (op : Handle)
      → 0 < r.windows file
      → IsFilled r op
      → Guarded (record r {
        table = chain_end file refused op r.table;
        windows = set_window file (r.windows file - 1) r.windows;
        unpublished = set_window op.id (r.unpublished op.id - 1) r.unpublished;
        born = op ∷ r.born;
      })
  end_chain-Guarded file refused op low f =
      let p = IsPrivate-IsFilled g op f in
      let job = op.job_handle in
      record {
        valid = rw (end_chain-table file refused op low) (published-IsValid file refused op p);
        small = λ k. ground (arith, g.small k, g.small file);
        counted = λ k.
            rw (end_chain-table file refused op low) (end_chain-counted file refused op k low p);
        quiet = λ k busy. ground (arith, g.quiet k);
        reserved = λ k some_. rw (end_chain-table file refused op low) (
            published g op k _ f
              (update_handle-AddsNone file (settle_file refused job) r.table
                (settle_file-Keeps refused job).id)
              some_);
      }
