-- ===== src/Handles/Map/Closed.antt =====
-- How many handles of the map are closed, after each update.
use flowi_vfs.Common.{
  ℕ, ◌+◌, ◌≤◌, true, false, ◌≡◌, refl, List, [], ◌∷◌, none, some, if◌then◌else◌, arith,
}
use flowi_vfs.Handles.{Handle}
use flowi_vfs.Handles.Map.{find, insert, remove, modify}

abbrev pub closed_bit : Handle → ℕ
closed_bit h = if h.closed then 1 else 0

unfoldable pub closed_in : List Handle → ℕ
closed_in [] = 0
closed_in (h ∷ hs) = closed_bit h + closed_in hs

pub closed_in-remove :
    (id : ℕ) (hs : List Handle) (h : Handle)
    → find id hs ≡ some h
    → closed_in hs ≡ closed_in (remove id hs) + closed_bit h
unfolding find remove closed_in
closed_in-remove id [] h e = cc
closed_in-remove id (g ∷ hs) h e = ground (arith, closed_in-remove id hs h)

pub closed_in-insert :
    (h : Handle) (hs : List Handle)
    → find h.id hs ≡ none
    → closed_in (insert h hs) ≡ closed_in hs + closed_bit h
unfolding find insert closed_in
closed_in-insert h [] e = ground arith
closed_in-insert h (g ∷ hs) e = ground (arith, closed_in-insert h hs)

pub closed_in-modify :
    (id : ℕ) (f : Handle → Handle) (hs : List Handle)
    → ((h : Handle) → (f h).closed ≡ h.closed)
    → closed_in (modify id f hs) ≡ closed_in hs
unfolding modify closed_in
closed_in-modify id f [] keeps = refl
closed_in-modify id f (g ∷ hs) keeps = ground (arith, keeps g, closed_in-modify id f hs)

pub closed_in-modify_open :
    (id : ℕ) (f : Handle → Handle) (hs : List Handle) (h : Handle)
    → find id hs ≡ some h
    → h.closed ≡ false
    → (f h).closed ≡ true
    → closed_in (modify id f hs) ≡ closed_in hs + 1
unfolding find modify closed_in
closed_in-modify_open id f [] h e o c = cc
closed_in-modify_open id f (g ∷ hs) h e o c = ground (arith, closed_in-modify_open id f hs h)

-- A closed handle in the map is counted.
pub closed_in_pos :
    (id : ℕ) (hs : List Handle) (h : Handle)
    → find id hs ≡ some h
    → h.closed ≡ true
    → 1 ≤ closed_in hs
unfolding find closed_in
closed_in_pos id [] h e c = cc
closed_in_pos id (g ∷ hs) h e c = ground (arith, closed_in_pos id hs h)
