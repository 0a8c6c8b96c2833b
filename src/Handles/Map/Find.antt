-- ===== src/Handles/Map/Find.antt =====
-- Lookup after each update of the handle map, and what keeps its keys distinct.
use flowi_vfs.Common.{
  ℕ, Bool, ◌≡◌, refl, ◌≢◌, List, [], ◌∷◌, Option, none, some, ◌==◌, if◌then◌else◌, arith, inl, inr,
  Bool-cases,
}
use flowi_vfs.Handles.{Handle}
use flowi_vfs.Handles.Map.{find, insert, remove, modify, collect_handles}

-- No two handles of the map have the same id.
abbrev pub Distinct : List Handle → Type 0
Distinct [] = Unit
Distinct (h ∷ hs) = (find h.id hs ≡ none) × Distinct hs

abbrev pub update_found : (Handle → Handle) → Option Handle → Option Handle
update_found f none = none
update_found f (some h) = some (f h)

pub find_id : (k : ℕ) (hs : List Handle) (h : Handle) → find k hs ≡ some h → h.id ≡ k
unfolding find
find_id k [] h e = cc
find_id k (g ∷ hs) h e = ground (arith, find_id k hs h)

pub find-insert :
    (k : ℕ) (h : Handle) (hs : List Handle)
    → find k (insert h hs) ≡ (if h.id == k then some h else find k hs)
unfolding find insert
find-insert k h [] = refl
find-insert k h (g ∷ hs) = ground (arith, find-insert k h hs)

pub find-remove_ne : (k id : ℕ) (hs : List Handle) → id ≢ k → find k (remove id hs) ≡ find k hs
unfolding find remove
find-remove_ne k id [] ne = refl
find-remove_ne k id (g ∷ hs) ne = ground (arith, find-remove_ne k id hs)

pub find-remove_self : (id : ℕ) (hs : List Handle) → Distinct hs → find id (remove id hs) ≡ none
unfolding find remove
find-remove_self id [] d = refl
find-remove_self id (g ∷ hs) d = ground (arith, find-remove_self id hs)

pub find-remove :
    (k id : ℕ) (hs : List Handle)
    → Distinct hs
    → find k (remove id hs) ≡ (if id == k then none else find k hs)
find-remove k id hs d = ground (arith, find-remove_self id hs d, find-remove_ne k id hs)

pub find-modify :
    (k id : ℕ) (f : Handle → Handle) (hs : List Handle)
    → ((h : Handle) → (f h).id ≡ h.id)
    → find k (modify id f hs) ≡ (if id == k then update_found f (find k hs) else find k hs)
unfolding find modify
find-modify k id f [] keeps = ground arith
find-modify k id f (g ∷ hs) keeps = ground (arith, keeps g, find-modify k id f hs)

pub insert-Distinct : (h : Handle) (hs : List Handle) → Distinct hs → Distinct (insert h hs)
unfolding find insert
insert-Distinct h [] d = (refl, tt)
insert-Distinct h (g ∷ hs) d = ground (arith, insert-Distinct h hs, find-insert g.id h hs)

pub remove-Distinct : (id : ℕ) (hs : List Handle) → Distinct hs → Distinct (remove id hs)
unfolding find remove
remove-Distinct id [] d = tt
remove-Distinct id (g ∷ hs) d = ground (arith, remove-Distinct id hs, find-remove g.id id hs)

pub modify-Distinct :
    (id : ℕ) (f : Handle → Handle) (hs : List Handle)
    → ((h : Handle) → (f h).id ≡ h.id)
    → Distinct hs
    → Distinct (modify id f hs)
unfolding find modify
modify-Distinct id f [] keeps d = tt
modify-Distinct id f (g ∷ hs) keeps d =
    ground (arith, keeps g, modify-Distinct id f hs, find-modify g.id id f hs)

-- What a sweep over the map selects, seen by lookups.
abbrev pub select : (Handle → Bool) → Option Handle → Option Handle
select p none = none
select p (some h) = if p h then some h else none

find_absent :
    (p : Handle → Bool) (k : ℕ) (hs : List Handle)
    → find k hs ≡ none
    → find k (collect_handles p hs) ≡ none
unfolding find collect_handles
find_absent p k [] e = refl
find_absent p k (g ∷ hs) e = ground (arith, find_absent p k hs)

pub find-collect_handles :
    (p : Handle → Bool) (k : ℕ) (hs : List Handle)
    → Distinct hs
    → find k (collect_handles p hs) ≡ select p (find k hs)
unfolding find collect_handles
find-collect_handles p k [] d = refl
find-collect_handles p k (g ∷ hs) d = elim (Bool-cases (g.id == k)) [
  | inl hit ↦ ground (arith, find_absent p k hs)
  | inr miss ↦ ground (arith, find-collect_handles p k hs)
]

pub collect_handles-Distinct :
    (p : Handle → Bool) (hs : List Handle) → Distinct hs → Distinct (collect_handles p hs)
unfolding collect_handles
collect_handles-Distinct p [] d = tt
collect_handles-Distinct p (g ∷ hs) d =
    ground (arith, collect_handles-Distinct p hs, find_absent p g.id hs)
