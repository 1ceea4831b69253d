-- ===== src/Base/Search.antt =====
-- Rust's `slice::binary_search` on numbers, and what it finds in a strictly ascending list.
use Prim.Native.Nat.{ℕ, zero, suc, ◌+◌, ◌-◌, ◌/◌, ◌≤◌, ◌<◌}
use mathlib.Core.Path.{◌≡◌, refl}
use mathlib.Core.Logic.{◌↔◌}
use mathlib.Core.Option.{Option, none, some}
use mathlib.Core.List.{List, [], ◌∷◌}
use native.Mathlib.Omega.{arith}
use frostbit.Base.Tests.{leb, ltb, ◌==◌, if◌then◌else◌}
use frostbit.Base.Lists.{length, get_elem?, get_or}

-- Each number is above all those before it.
abbrev pub Above : ℕ → List ℕ → Type 0
Above x [] = Unit {0}
Above x (y ∷ ys) = (x < y) × Above y ys

abbrev pub Ascending : List ℕ → Type 0
Ascending [] = Unit {0}
Ascending (x ∷ xs) = Above x xs

-- The position of the last element not above `v` among `size` elements from `base` on, or `base`.
-- The size at least halves, rounding up, in each round.
narrow : ℕ → List ℕ → ℕ → ℕ → ℕ → ℕ
narrow zero xs v base size = base
narrow (suc fuel) xs v base size =
    let half = size / 2 in
    let base' = if ltb v (get_or xs (base + half) 0) then base else base + half in
    let rest = narrow fuel xs v base' (size - half) in if leb size 1 then base else rest

-- The position of `v`, if it is there. As many rounds as there are elements are enough.
unfoldable pub binary_search : List ℕ → ℕ → Option ℕ
unfolding narrow
binary_search xs v =
    let n = length xs in
    let i = narrow n xs v 0 n in
    if n == 0 then none else if get_or xs i 0 == v then some i else none

pub Above-weaken : (x y : ℕ) (xs : List ℕ) → y ≤ x → Above x xs → Above y xs
Above-weaken x y [] h a = tt
Above-weaken x y (z ∷ xs) h a = (omega arith, a.1)

pub Above-get : (x : ℕ) (xs : List ℕ) (j : ℕ) → Above x xs → j < length xs → x < get_or xs j 0
Above-get x [] j a h = absurd (omega arith)
Above-get x (y ∷ xs) zero a h = a.0
Above-get x (y ∷ xs) (suc j) a h =
    Above-get x xs j (Above-weaken y x xs (omega arith) a.1) (omega arith)

pub Ascending-get :
    (xs : List ℕ) (i j : ℕ) → Ascending xs → i < j → j < length xs → get_or xs i 0 < get_or xs j 0
Ascending-get [] i j a h k = absurd (omega arith)
Ascending-get (x ∷ xs) i zero a h k = absurd (omega arith)
Ascending-get (x ∷ xs) zero (suc j) a h k = Above-get x xs j a (omega arith)
Ascending-get (x ∷ []) (suc i) (suc j) a h k = absurd (omega arith)
Ascending-get (x ∷ y ∷ xs) (suc i) (suc j) a h k =
    Ascending-get (y ∷ xs) i j a.1 (omega arith) (omega arith)

-- If `v` stands at `k` between `base` and `base + size`, the search ends at `k`.
narrow-eq :
    (fuel : ℕ) (xs : List ℕ) (v base size k : ℕ)
    → Ascending xs
    → get_or xs k 0 ≡ v
    → size ≤ fuel
    → base ≤ k
    → k < base + size
    → base + size ≤ length xs
    → narrow fuel xs v base size ≡ k
unfolding narrow
narrow-eq zero xs v base size k a e f lo hi n = absurd (omega arith)
narrow-eq (suc fuel) xs v base size k a e f lo hi n =
    let mid = base + size / 2 in
    ground (
      arith,
      Ascending-get xs k mid a,
      Ascending-get xs mid k a,
      narrow-eq fuel xs v base (size - size / 2) k a e,
      narrow-eq fuel xs v mid (size - size / 2) k a e,
    )

narrow-lt :
    (fuel : ℕ) (xs : List ℕ) (v base size : ℕ)
    → 0 < size
    → base + size ≤ length xs
    → narrow fuel xs v base size < length xs
unfolding narrow
narrow-lt zero xs v base size p n = omega arith
narrow-lt (suc fuel) xs v base size p n = ground (
  arith,
  narrow-lt fuel xs v base (size - size / 2),
  narrow-lt fuel xs v (base + size / 2) (size - size / 2),
)

get_elem?-get_or : (xs : List ℕ) (i : ℕ) → i < length xs → get_elem? xs i ≡ some (get_or xs i 0)
get_elem?-get_or [] i h = absurd (omega arith)
get_elem?-get_or (x ∷ xs) zero h = refl
get_elem?-get_or (x ∷ xs) (suc i) h = get_elem?-get_or xs i (omega arith)

get_elem?_inside :
    (xs : List ℕ) (i : ℕ) {v : ℕ} → get_elem? xs i ≡ some v → (i < length xs) × (get_or xs i 0 ≡ v)
get_elem?_inside [] i e = cc
get_elem?_inside (x ∷ xs) zero e = (omega arith, ground arith)
get_elem?_inside (x ∷ xs) (suc i) e = let (h, g) = get_elem?_inside xs i e in (omega arith, g)

-- On a strictly ascending list the search finds exactly the position of the value.
pub binary_search_iff :
    (xs : List ℕ) (v i : ℕ)
    → Ascending xs
    → (binary_search xs v ≡ some i) ↔ (get_elem? xs i ≡ some v)
unfolding binary_search
binary_search_iff xs v i a = (found, finds)
  where
    found : binary_search xs v ≡ some i → get_elem? xs i ≡ some v
    found e = ground (
      arith,
      narrow-lt (length xs) xs v 0 (length xs),
      get_elem?-get_or xs (narrow (length xs) xs v 0 (length xs)),
    )

    finds : get_elem? xs i ≡ some v → binary_search xs v ≡ some i
    finds e =
        let (h, g) = get_elem?_inside xs i e in
        ground (arith, h, g, narrow-eq (length xs) xs v 0 (length xs) i a g)
