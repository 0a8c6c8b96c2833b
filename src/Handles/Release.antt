-- ===== src/Handles/Release.antt =====
-- Tearing a handle down (src/vfs/vfs.c): what each operation type owns, the release hook, and the
-- sweep over handles that were closed while their jobs ran.
use flowi_vfs.Common.{
  ℕ, Bool, false, not, ◌&&◌, List, [], ◌∷◌, ◌++◌, Option, none, some, ◌==◌, if◌then◌else◌,
}
use flowi_vfs.Handles.{Handle, Table, OpType, Payload, of_data, of_list, null, dec32}
use flowi_vfs.Handles.Map.{remove, collect_handles}
use flowi_vfs.Handles.Jobs.{JobSystem, is_idle}

-- What tearing a handle down does outside the table, in order.
pub data Effect : Type 0 where
  free_result : Effect
  free_buffer : ℕ → Effect
  destroy_arena : ℕ → Effect
  close_file : ℕ → ℕ → Effect
  free_string : ℕ → List ℕ → Effect
  run_hook : ℕ → ℕ → Effect

-- `VfsRelease`
pub record Release : Type 0 where
  pub fn : ℕ
  pub user_data : ℕ

-- `vfs_run_release`
unfoldable pub run_release : Release → List Effect
run_release r = if r.fn == null then [] else run_hook r.fn r.user_data ∷ []

-- `vfs_release_list_run_all`
unfoldable pub run_all : List Release → List Effect
run_all [] = []
run_all (r ∷ rs) = run_release r ++ run_all rs

payload_buffer : Payload → ℕ
payload_buffer (of_data d) = d.buffer
payload_buffer (of_list l) = null

-- `vfs_free_data_result`
pub free_data_result : Payload → Bool → List Effect
unfolding payload_buffer
free_data_result p free_data_buffer =
    (if free_data_buffer && not (payload_buffer p == null)
      then free_buffer (payload_buffer p) ∷ []
      else [])
    ++ free_result ∷ []

abbrev on_result : Option Payload → (Payload → List Effect) → List Effect
on_result none f = []
on_result (some p) f = f p

module _ (J : JobSystem) where
  -- `vfs_handle_is_reclaimable`
  unfoldable pub is_reclaimable : J.State → Handle → Bool
  is_reclaimable s h = h.closed && is_idle J s h

-- `has_close` says whether a driver's vtable has `close`.
module _ (has_close : ℕ → Bool) where
  close_plugin_file : Option ℕ → ℕ → List Effect
  close_plugin_file none file = []
  close_plugin_file (some d) file =
      if not (file == null) && has_close d then close_file d file ∷ [] else []

  -- The switch of `vfs_free_handle_resources`.
  free_op_resources : OpType → Handle → List Effect
  unfolding close_plugin_file free_data_result
  free_op_resources OpType.mount h = []
  free_op_resources OpType.mount_list h =
      on_result h.result_data λ p. if h.result_arena == null then free_result ∷ [] else []
  free_op_resources OpType.file_open h = close_plugin_file h.plugin_entry h.plugin_file_handle
  free_op_resources OpType.file_read h = on_result h.result_data λ p. free_data_result p false
  free_op_resources OpType.file_write h =
      (if not (h.write_data == null) && h.write_data_owned
        then free_buffer h.write_data ∷ []
        else [])
      ++ on_result h.result_data (λ p. free_data_result p false)
  free_op_resources OpType.read_all h =
      on_result h.result_data λ p. free_data_result p (not h.callback_owns_data)

  -- `vfs_free_handle_resources`
  unfoldable pub free_handle_resources : Handle → List Effect
  unfolding free_op_resources
  free_handle_resources h =
      free_op_resources h.op_type h
      ++ (if h.result_arena == null then [] else destroy_arena h.result_arena ∷ [])
      ++ (if h.mount == null
          then []
          else free_string h.mount h.path ∷ free_string h.mount h.filter_needle ∷ [])

  -- `vfs_free_handle_locked`: the table without the handle, what was freed, and the hook to run once
  -- the lock is released.
  unfoldable pub free_handle : Table → Handle → Table × List Effect × Release
  free_handle t h = (
    record t {
      handle_map = remove h.id t.handle_map;
      closed_count = if h.closed then dec32 t.closed_count else t.closed_count;
    },
    free_handle_resources h,
    record { fn = h.release; user_data = h.user_data },
  )

  -- The loop of the sweep: every collected handle is freed, its hook kept for later.
  unfoldable pub free_each : List Handle → Table → Table × List Effect × List Release
  free_each [] t = (t, [], [])
  free_each (h ∷ hs) t =
      let (t', freed, hook) = free_handle t h in
      let (t'', freed', hooks) = free_each hs t' in (t'', freed ++ freed', hook ∷ hooks)

  module _ (J : JobSystem) where
    -- `vfs_reclaim_closed_handles`: the hooks run after everything is freed.
    unfoldable pub reclaim_closed_handles : J.State → Table → Table × List Effect
    reclaim_closed_handles s t =
        if t.closed_count == 0
        then (t, [])
        else (let (t', freed, hooks) =
              free_each (collect_handles (is_reclaimable J s) t.handle_map) t in
            (t', freed ++ run_all hooks))
