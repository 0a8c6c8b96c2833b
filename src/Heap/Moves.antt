-- ===== src/Heap/Moves.antt =====
-- How what is allocated changes hands: the addresses that were held before and are held after.
use flowi_vfs.Common.{
  Option, none, some, ℕ, ◌+◌, ◌≡◌, ◌≢◌, List, [], ◌∷◌, ◌==◌, if◌then◌else◌, arith,
}
use flowi_vfs.Drivers.{FilePath}
use flowi_vfs.Heap.{Heap, acquire, release, free_option, copy_text}

unfoldable pub count : ℕ → List ℕ → ℕ
count a [] = 0
count a (x ∷ xs) = (if x == a then 1 else 0) + count a xs

-- One holder of an address.
abbrev pub holds_one : ℕ → ℕ → ℕ
holds_one x a = if x == a then 1 else 0

abbrev pub holds_option : {A : Type 0} → Option (ℕ × A) → ℕ → ℕ
holds_option none a = 0
holds_option (some (x, y)) a = holds_one x a

abbrev pub nothing : ℕ → ℕ
nothing a = 0

-- What is handed out and not given back grew by `to` and shrank by `from`, in the lists that a world keeps of
-- both.
abbrev pub MovesIn : {W : Type 0} → (W → List ℕ) → (W → List ℕ) → W → W → (ℕ → ℕ) → (ℕ → ℕ) → Type 0
MovesIn acquired released w w' from to =
    (a : ℕ)
    → a ≢ 0
    → count a (acquired w') + count a (released w) + from a
      ≡ count a (acquired w) + count a (released w') + to a

abbrev pub Moves : Heap → Heap → (ℕ → ℕ) → (ℕ → ℕ) → Type 0
Moves = MovesIn (λ (w : Heap). w.acquired) (λ (w : Heap). w.released)

pub acquire-Moves : (h : Heap) → Moves h (acquire h).1 nothing (holds_one (acquire h).0)
unfolding acquire count
acquire-Moves h a ne = ground arith

pub release-Moves : (x : ℕ) (h : Heap) → Moves h (release x h) (holds_one x) nothing
unfolding release count
release-Moves x h a ne = ground arith

pub copy_text-Moves :
    (s : FilePath) (h : Heap)
    → Moves h (copy_text s h).1 nothing (holds_one (copy_text s h).0.address)
unfolding copy_text
copy_text-Moves s h = acquire-Moves h

pub free_option-Moves :
    {A : Type 0} (o : Option (ℕ × A)) (heap : Heap)
    → Moves heap (free_option o heap) (holds_option o) nothing
free_option-Moves none heap = λ a ne. omega arith
free_option-Moves (some (x, y)) heap = release-Moves x heap
