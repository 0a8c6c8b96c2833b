-- ===== src/Heap/Sessions.antt =====
-- A driver's handle from the open that gave it to its close (src/vfs/drivers/).
use flowi_vfs.Common.{
  ℕ, ◌≡◌, refl, Bool, false, if◌then◌else◌, List, [], ◌∷◌, Option, none, some, arith,
}
use flowi_vfs.Heap.Moves.{MovesIn, holds_one, nothing}

-- What is held by what an open gives.
abbrev pub owns_opened : {H : Type 0} → (H → ℕ → ℕ) → Option H → ℕ → ℕ
owns_opened owns none a = 0
owns_opened owns (some h) a = owns h a

-- The buffer, if the open took it over.
abbrev pub gives : {H : Type 0} → Bool → ℕ → Option H → ℕ → ℕ
gives owned buffer none a = 0
gives owned buffer (some h) a = if owned then holds_one buffer a else 0

pub gives-nothing : {H : Type 0} (buffer : ℕ) (o : Option H) (a : ℕ) → gives false buffer o a ≡ 0
gives-nothing buffer none a = refl
gives-nothing buffer (some h) a = refl

module _ {C H W : Type 0} (run_call : C → H × W → H × W) (close : H → W → W) where
  unfoldable pub run_calls : List C → H × W → H × W
  run_calls [] s = s
  run_calls (c ∷ cs) s = run_calls cs (run_call c s)

  -- From an open to the close, if the open gave a handle.
  unfoldable pub session : List C → Option H × W → W
  session calls (none, w) = w
  session calls (some h, w) = let (h', w') = run_calls calls (h, w) in close h' w'

  module _ (acquired released : W → List ℕ) (owns : H → ℕ → ℕ)
      (run_call-Moves : (c : C) (h : H) (w : W)
        → MovesIn acquired released w (run_call c (h, w)).1 (owns h) (owns (run_call c (h, w)).0))
      (close-Moves : (h : H) (w : W)
        → MovesIn acquired released w (close h w) (owns h) nothing) where
    run_calls-Moves :
        (cs : List C) (h : H) (w : W)
        → MovesIn acquired released w
            (run_calls cs (h, w)).1
            (owns h)
            (owns (run_calls cs (h, w)).0)
    unfolding run_calls
    run_calls-Moves [] h w a ne = omega arith
    run_calls-Moves (c ∷ cs) h w a ne =
        let s = run_call c (h, w) in
        omega (arith, run_call-Moves c h w a ne, run_calls-Moves cs s.0 s.1 a ne)

    pub session-Moves :
        (cs : List C) (o : Option H) (w w' : W) (from : ℕ → ℕ)
        → MovesIn acquired released w w' from (owns_opened owns o)
        → MovesIn acquired released w (session cs (o, w')) from nothing
    unfolding session
    session-Moves cs none w w' from m a ne = m a ne
    session-Moves cs (some h) w w' from m a ne =
        let r = run_calls cs (h, w') in
        omega (arith, m a ne, run_calls-Moves cs h w' a ne, close-Moves r.0 r.1 a ne)
