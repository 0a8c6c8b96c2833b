-- ===== src/Heap.antt =====
-- What a driver of src/vfs/drivers/ allocates and frees: the addresses that were handed out and those that
-- were given back, in any order. The allocator is a parameter: it may refuse any request.
pub mod Moves
pub mod Sessions
use flowi_vfs.Common.{Option, none, some, ℕ, suc, Bool, List, [], ◌∷◌, ◌==◌, if◌then◌else◌}
use flowi_vfs.Drivers.{FilePath}

-- `serves n` says whether request `n` is served.
pub record Heap : Type 0 where
  pub next : ℕ
  pub serves : ℕ → Bool
  pub acquired : List ℕ
  pub released : List ℕ

-- `heap_alloc`, `mi_malloc` and the constructors of the libraries: null, or an address that is new.
unfoldable pub acquire : Heap → ℕ × Heap
acquire h =
    if h.serves h.next
    then (suc h.next, record h { next = suc h.next; acquired = suc h.next ∷ h.acquired })
    else (0, record h { next = suc h.next })

-- `heap_free`, `mi_free` and the destructors; null is ignored.
unfoldable pub release : ℕ → Heap → Heap
release a h = if a == 0 then h else record h { released = a ∷ h.released }

-- `FlString`; the address of a static string is 0.
pub record Text : Type 0 where
  pub address : ℕ
  pub bytes : FilePath

-- `S("")`
abbrev pub empty_text : Text
empty_text = record { address = 0; bytes = [] }

-- `string_copy_malloc`: a copy of its own, or nothing if the allocator refuses.
unfoldable pub copy_text : FilePath → Heap → Text × Heap
copy_text s h =
    let (a, h') = acquire h in (record { address = a; bytes = if a == 0 then [] else s }, h')

-- An owned thing, if there is one: its destructor ignores null.
abbrev pub free_option : {A : Type 0} → Option (ℕ × A) → Heap → Heap
free_option none heap = heap
free_option (some (a, x)) heap = release a heap
