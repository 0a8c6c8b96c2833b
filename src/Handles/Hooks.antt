-- ===== src/Handles/Hooks.antt =====
-- Release hooks: a hook runs once, when the handle that carries it is freed.
use flowi_vfs.Common.{
  ℕ, ◌+◌, Bool, ◌&&◌, ◌≡◌, refl, ◌≢◌, List, [], ◌∷◌, ◌++◌, none, some, ◌==◌, if◌then◌else◌, arith,
  inl, inr, Bool-cases,
}
use flowi_vfs.Handles.{Handle, Table, null}
use flowi_vfs.Handles.Map.{find, insert, remove, modify, collect_handles}
use flowi_vfs.Handles.Map.Find.{Distinct, collect_handles-Distinct}
use flowi_vfs.Handles.Jobs.{JobSystem}
use flowi_vfs.Handles.Valid.{IsValid, free_handle-IsValid}
use flowi_vfs.Handles.Reclaim.{Stored, Stored-head, Stored-tail, collected-Stored}
use flowi_vfs.Handles.Release.{
  is_reclaimable, reclaim_closed_handles, Effect, free_result, free_buffer, destroy_arena,
  close_file, free_string, run_hook, Release, run_release, run_all, free_handle_resources,
  free_handle, free_each,
}

module _ (fn user_data : ℕ) where
  abbrev pub is_hook : ℕ → ℕ → ℕ
  is_hook f u = if (f == fn) && (u == user_data) then 1 else 0

  -- How often the hook ran.
  unfoldable pub hook_runs : List Effect → ℕ
  hook_runs [] = 0
  hook_runs (run_hook f u ∷ es) = is_hook f u + hook_runs es
  hook_runs (free_result ∷ es) = hook_runs es
  hook_runs (free_buffer p ∷ es) = hook_runs es
  hook_runs (destroy_arena a ∷ es) = hook_runs es
  hook_runs (close_file d f ∷ es) = hook_runs es
  hook_runs (free_string m x ∷ es) = hook_runs es

  -- How many handles of the map carry the hook.
  unfoldable pub hooked : List Handle → ℕ
  hooked [] = 0
  hooked (h ∷ hs) = is_hook h.release h.user_data + hooked hs

  pub hook_runs-append : (xs ys : List Effect) → hook_runs (xs ++ ys) ≡ hook_runs xs + hook_runs ys
  unfolding hook_runs
  hook_runs-append [] ys = omega arith
  hook_runs-append (run_hook f u ∷ es) ys = omega (arith, hook_runs-append es ys)
  hook_runs-append (_ ∷ es) ys = hook_runs-append es ys

  pub hooked-remove :
      (id : ℕ) (hs : List Handle) (h : Handle)
      → find id hs ≡ some h
      → hooked hs ≡ hooked (remove id hs) + is_hook h.release h.user_data
  unfolding hooked find remove
  hooked-remove id [] h e = cc
  hooked-remove id (g ∷ hs) h e = ground (arith, hooked-remove id hs h)

  pub hooked-modify :
      (id : ℕ) (f : Handle → Handle) (hs : List Handle)
      → ((h : Handle) → ((f h).release ≡ h.release) × ((f h).user_data ≡ h.user_data))
      → hooked (modify id f hs) ≡ hooked hs
  unfolding hooked modify
  hooked-modify id f [] keeps = refl
  hooked-modify id f (g ∷ hs) keeps = ground (arith, keeps g, hooked-modify id f hs)

  pub hooked-insert :
      (h : Handle) (hs : List Handle)
      → find h.id hs ≡ none
      → hooked (insert h hs) ≡ is_hook h.release h.user_data + hooked hs
  unfolding hooked find insert
  hooked-insert h [] e = refl
  hooked-insert h (g ∷ hs) e = ground (arith, hooked-insert h hs)

  module _ (has_close : ℕ → Bool) where
    resources_run_no_hook : (h : Handle) → hook_runs (free_handle_resources has_close h) ≡ 0
    unfolding hook_runs free_handle_resources
    resources_run_no_hook h = ground arith

    hook_runs-run_release :
        (r : Release) → fn ≢ null → hook_runs (run_release r) ≡ is_hook r.fn r.user_data
    unfolding hook_runs run_release
    hook_runs-run_release r ne = ground arith

    pub hook_runs-free_handle :
        (t : Table) (h : Handle)
        → fn ≢ null
        → find h.id t.handle_map ≡ some h
        → hook_runs (free_handle has_close t h).1
            + hook_runs (run_release (free_handle has_close t h).2)
            + hooked (free_handle has_close t h).0.handle_map
          ≡ hooked t.handle_map
    unfolding free_handle
    hook_runs-free_handle t h ne stored = omega (
      arith,
      hook_runs-run_release (record { fn = h.release; user_data = h.user_data }) ne,
      resources_run_no_hook h,
      hooked-remove h.id t.handle_map h stored,
    )

    -- Freeing stored handles one by one runs their hooks, each as often as it leaves the map.
    hook_runs-free_each :
        (gs : List Handle) (t : Table)
        → fn ≢ null
        → Distinct gs
        → Stored gs t.handle_map
        → IsValid t
        → hook_runs (free_each has_close gs t).1
            + hook_runs (run_all (free_each has_close gs t).2)
            + hooked (free_each has_close gs t).0.handle_map
          ≡ hooked t.handle_map
    unfolding free_each run_all hook_runs
    hook_runs-free_each [] t ne d st v = omega arith
    hook_runs-free_each (h ∷ gs) t ne d st v = omega (
      arith,
      hook_runs-append (free_handle has_close t h).1
          (free_each has_close gs (free_handle has_close t h).0).1,
      hook_runs-append (run_release (free_handle has_close t h).2)
          (run_all (free_each has_close gs (free_handle has_close t h).0).2),
      hook_runs-free_handle t h ne (Stored-head h gs t.handle_map st),
      hook_runs-free_each gs (free_handle has_close t h).0 ne d.1
          (Stored-tail has_close t h gs v d st)
          (free_handle-IsValid has_close t h (Stored-head h gs t.handle_map st) v),
    )

    module _ (J : JobSystem) (s : J.State) where
      pub hook_runs-reclaim_closed_handles :
          (t : Table)
          → fn ≢ null
          → IsValid t
          → hook_runs (reclaim_closed_handles has_close J s t).1
              + hooked (reclaim_closed_handles has_close J s t).0.handle_map
            ≡ hooked t.handle_map
      unfolding reclaim_closed_handles hook_runs
      hook_runs-reclaim_closed_handles t ne v = elim (Bool-cases (t.closed_count == 0)) [
        | inl skip ↦ rw skip (omega arith)
        | inr sweep ↦ rw sweep (
            omega (
              arith,
              hook_runs-append
                  (free_each has_close (collect_handles (is_reclaimable J s) t.handle_map) t).1
                  (run_all
                    (free_each has_close (collect_handles (is_reclaimable J s) t.handle_map) t).2),
              hook_runs-free_each (collect_handles (is_reclaimable J s) t.handle_map) t ne
                  (collect_handles-Distinct _ t.handle_map v.distinct)
                  (collected-Stored _ t.handle_map v.distinct) v,
            ))
      ]
