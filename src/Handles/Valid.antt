-- ===== src/Handles/Valid.antt =====
-- The invariant of the handle table, and that each section under `handle_lock` keeps it.
use flowi_vfs.Common.{ℕ, ◌%◌, ◌≤◌, ◌<◌, Bool, false, ◌≡◌, refl, none, some, arith}
use flowi_vfs.Handles.{Handle, Table, u32_mod}
use flowi_vfs.Handles.Map.{find}
use flowi_vfs.Handles.Map.Find.{
  Distinct, find-insert, find-remove, find-modify, insert-Distinct, remove-Distinct,
  modify-Distinct,
}
use flowi_vfs.Handles.Map.Closed.{
  closed_in, closed_in-remove, closed_in-insert, closed_in-modify, closed_in-modify_open,
}
use flowi_vfs.Handles.Alloc.{publish_handle}
use flowi_vfs.Handles.Release.{free_handle}
use flowi_vfs.Handles.Close.{mark_closed, defer_close}
use flowi_vfs.Handles.Chain.{update_handle}

-- Ids are distinct and were handed out, and `closed_count` counts the closed handles, as a `u32`.
pub record IsValid (t : Table) : Type 0 where
  pub distinct : Distinct t.handle_map
  pub handed_out : (k : ℕ) → t.next_handle_id ≤ k → find k t.handle_map ≡ none
  pub counted : t.closed_count ≡ closed_in t.handle_map % u32_mod

-- A mutation through a handle's pointer that keeps its id and its closed flag.
pub record Keeps (f : Handle → Handle) : Type 0 where
  pub id : (h : Handle) → (f h).id ≡ h.id
  pub closed : (h : Handle) → (f h).closed ≡ h.closed

pub update_handle-IsValid :
    (id : ℕ) (f : Handle → Handle) (t : Table)
    → Keeps f
    → IsValid t
    → IsValid (update_handle id f t)
unfolding update_handle
update_handle-IsValid id f t k v = record {
  distinct = modify-Distinct id f t.handle_map k.id v.distinct;
  handed_out = λ j le. ground (arith, find-modify j id f t.handle_map k.id, v.handed_out j le);
  counted = omega (arith, v.counted, closed_in-modify id f t.handle_map k.closed);
}

-- Publishing a handle under a handed out id that the map does not hold.
pub publish_handle-IsValid :
    (h : Handle) (t : Table)
    → h.id < t.next_handle_id
    → find h.id t.handle_map ≡ none
    → h.closed ≡ false
    → IsValid t
    → IsValid (publish_handle t h)
unfolding publish_handle
publish_handle-IsValid h t lt absent open_ v = record {
  distinct = insert-Distinct h t.handle_map v.distinct;
  handed_out = λ j le. ground (arith, find-insert j h t.handle_map, v.handed_out j le);
  counted = ground (arith, v.counted, closed_in-insert h t.handle_map);
}

-- Freeing a stored handle.
pub free_handle-IsValid :
    (has_close : ℕ → Bool) (t : Table) (h : Handle)
    → find h.id t.handle_map ≡ some h
    → IsValid t
    → IsValid (free_handle has_close t h).0
unfolding free_handle
free_handle-IsValid has_close t h stored v = record {
  distinct = remove-Distinct h.id t.handle_map v.distinct;
  handed_out =
      λ j le. ground (arith, find-remove j h.id t.handle_map v.distinct, v.handed_out j le);
  counted = ground (arith, v.counted, closed_in-remove h.id t.handle_map h stored);
}

-- Closing an open handle without freeing it.
pub defer_close-IsValid :
    (t : Table) (h : Handle)
    → find h.id t.handle_map ≡ some h
    → h.closed ≡ false
    → IsValid t
    → IsValid (defer_close t h)
unfolding defer_close mark_closed
defer_close-IsValid t h stored open_ v = record {
  distinct = modify-Distinct h.id mark_closed t.handle_map (λ g. refl) v.distinct;
  handed_out = λ j le.
      ground (arith, find-modify j h.id mark_closed t.handle_map (λ g. refl), v.handed_out j le);
  counted =
      ground
        (arith, v.counted, closed_in-modify_open h.id mark_closed t.handle_map h stored open_ refl);
}
