-- ===== src/Container/Lows.antt =====
-- Sorted lists of container-local low halves: the payload of an array container.
use frostbit.Base.{ℕ, ◌+◌, ◌^◌, ◌≤◌, ◌<◌, Bool, false, ◌||◌, List, [], ◌∷◌, ◌==◌, arith}

-- Strictly ascending from `k` on, and below 2 ^ 16.
abbrev pub LowsFrom : ℕ → List ℕ → Type 0
LowsFrom k [] = Unit {0}
LowsFrom k (v ∷ vs) = (k ≤ v) × (v < 2 ^ 16) × LowsFrom (v + 1) vs

abbrev pub has : List ℕ → ℕ → Bool
has [] x = false
has (v ∷ vs) x = (v == x) || has vs x

pub LowsFrom-weaken : (k m : ℕ) (vs : List ℕ) → m ≤ k → LowsFrom k vs → LowsFrom m vs
LowsFrom-weaken k m [] h f = tt
LowsFrom-weaken k m (v ∷ vs) h (a, b, c) = (omega arith, b, c)
