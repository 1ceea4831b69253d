-- ===== src/Builder/Fewest.antt =====
-- src/api/builder.rs: `count_runs` is the least number of runs that hold the values.
use frostbit.Base.{
  ℕ, ◌+◌, ◌-◌, ◌%◌, ◌^◌, ◌≤◌, ◌<◌, ◌≡◌, refl, ◌∙◌, Bool, true, false, ◌||◌, List, [], ◌∷◌, length,
  ltb, ◌==◌, if◌then◌else◌, arith, inl, inr, Bool-cases,
}
use frostbit.Container.Run.{Run, covers}
use frostbit.Container.Lows.{LowsFrom, has}
use frostbit.Builder.{breaks_after, count_runs}

-- The runs that start above `a`.
abbrev above : ℕ → List Run → ℕ
above a [] = 0
above a (r ∷ rs) = (if ltb a r.start then 1 else 0) + above a rs

above_mono : (a b : ℕ) (rs : List Run) → a ≤ b → above b rs ≤ above a rs
above_mono a b [] h = omega arith
above_mono a b (r ∷ rs) h = let i = above_mono a b rs h in ground (arith, i)

above_all : (a : ℕ) (rs : List Run) → above a rs ≤ length rs
above_all a [] = omega arith
above_all a (r ∷ rs) = let i = above_all a rs in ground (arith, i)

-- A run starts at a value that is covered, whose predecessor is not.
above-start :
    (a b : ℕ) (rs : List Run)
    → a + 1 ≡ b
    → covers rs b ≡ true
    → covers rs a ≡ false
    → 1 + above b rs ≤ above a rs
above-start a b [] e h n = cc
above-start a b (r ∷ rs) e h n = elim (Bool-cases (covers rs b)) [
  | inl y ↦ let i = above-start a b rs e y (second _ (covers rs a) n) in ground (arith, i)
  | inr m ↦ let i = above_mono a b rs (omega (arith, e)) in ground (arith, i, h, n, m)
]
  where
    second : (p q : Bool) → (p || q) ≡ false → q ≡ false
    second true q e = cc
    second false q e = e

above-covered : (b : ℕ) (rs : List Run) → covers rs b ≡ true → 1 + above b rs ≤ length rs
above-covered b [] h = cc
above-covered b (r ∷ rs) h = elim (Bool-cases (covers rs b)) [
  | inl y ↦ let i = above-covered b rs y in ground (arith, i)
  | inr m ↦ let i = above_all b rs in ground (arith, i, h, m)
]

lacks : (k x : ℕ) (vs : List ℕ) → LowsFrom k vs → x < k → has vs x ≡ false
lacks k x [] f h = refl
lacks k x (v ∷ vs) (a, b, c) h = let i = lacks (v + 1) x vs c (omega arith) in ground (arith, i)

breaks_bound :
    (a : ℕ) (vs : List ℕ) (rs : List Run)
    → LowsFrom (a + 1) vs
    → ((x : ℕ) → a < x → covers rs x ≡ has vs x)
    → breaks_after a vs ≤ above a rs
unfolding breaks_after
breaks_bound a [] rs f same = omega arith
breaks_bound a (b ∷ vs) rs (p, q, c) same =
    let i = breaks_bound b vs rs c (λ x h. same x (omega arith) ∙ skip b x (has vs x) h) in
    elim (Bool-cases (b == (a + 1) % 2 ^ 16)) [
      | inl y ↦ rw y (let m = above_mono a b rs (omega arith) in omega (arith, i, m))
      | inr n ↦
          let apart : a + 1 < b = ground (arith, n) in
          let here : covers rs b ≡ true = same b (omega arith) ∙ first b (has vs b) in
          let before : covers rs (b - 1) ≡ false =
            same (b - 1) (omega arith)
            ∙ lacks b (b - 1) (b ∷ vs) (omega arith, q, c) (omega arith) in
          let s = above-start (b - 1) b rs (omega arith) here before in
          let m = above_mono a (b - 1) rs (omega arith) in rw n (omega (arith, i, s, m))
    ]
  where
    skip : (b x : ℕ) (p : Bool) → b < x → (b == x || p) ≡ p
    skip b x p h = ground arith

    first : (b : ℕ) (p : Bool) → (b == b || p) ≡ true
    first b p = ground arith

-- Whatever runs cover exactly the values of an ascending list, `count_runs` of it is at most their
-- number.
pub count_runs-least :
    (vals : List ℕ) (rs : List Run)
    → LowsFrom 0 vals
    → ((x : ℕ) → covers rs x ≡ has vals x)
    → count_runs vals ≤ length rs
unfolding count_runs
count_runs-least [] rs f same = omega arith
count_runs-least (v ∷ vs) rs (a, b, c) same =
    let i = breaks_bound v vs rs c (λ x h. same x ∙ skip v x (has vs x) h) in
    let s = above-covered v rs (same v ∙ first v (has vs v)) in omega (arith, i, s)
  where
    skip : (b x : ℕ) (p : Bool) → b < x → (b == x || p) ≡ p
    skip b x p h = ground arith

    first : (b : ℕ) (p : Bool) → (b == b || p) ≡ true
    first b p = ground arith
