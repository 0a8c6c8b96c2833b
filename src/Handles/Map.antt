-- ===== src/Handles/Map.antt =====
-- `handle_map`: the lookups, updates through the stored pointer, insertion and removal that
-- src/vfs/vfs.c makes of flowi-core's hash map, on an association list keyed by the handle's id.
pub mod Find
pub mod Closed
use flowi_vfs.Common.{ℕ, Bool, List, [], ◌∷◌, Option, none, some, ◌==◌, if◌then◌else◌}
use flowi_vfs.Handles.{Handle, Table}

-- `hashmap_get`
unfoldable pub find : ℕ → List Handle → Option Handle
find id [] = none
find id (h ∷ hs) = if h.id == id then some h else find id hs

-- `hashmap_insert`: a present key gets the new value.
unfoldable pub insert : Handle → List Handle → List Handle
insert h [] = h ∷ []
insert h (g ∷ hs) = if g.id == h.id then h ∷ hs else g ∷ insert h hs

-- `hashmap_remove`
unfoldable pub remove : ℕ → List Handle → List Handle
remove id [] = []
remove id (h ∷ hs) = if h.id == id then hs else h ∷ remove id hs

-- A write to the handle that the key's pointer names.
unfoldable pub modify : ℕ → (Handle → Handle) → List Handle → List Handle
modify id f [] = []
modify id f (h ∷ hs) = if h.id == id then f h ∷ hs else h ∷ modify id f hs

-- `vfs_lookup_handle_locked`: closed handles are found too.
unfoldable pub lookup_handle : Table → ℕ → Option Handle
unfolding find
lookup_handle t id = find id t.handle_map

-- The pointer, or null if the handle is closed.
abbrev pub unless_closed : Option Handle → Option Handle
unless_closed none = none
unless_closed (some h) = if h.closed then none else some h

-- `vfs_lookup_open_handle_locked`: a handle closed while its job ran reads as absent.
unfoldable pub lookup_open_handle : Table → ℕ → Option Handle
unfolding lookup_handle
lookup_open_handle t id = unless_closed (lookup_handle t id)

-- `vfs_collect_handles_locked`
unfoldable pub collect_handles : (Handle → Bool) → List Handle → List Handle
collect_handles pred [] = []
collect_handles pred (h ∷ hs) =
    if pred h then h ∷ collect_handles pred hs else collect_handles pred hs
