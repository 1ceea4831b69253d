-- ===== src/Runs/Span.antt =====
-- Runs as closed intervals, in plain numbers: what the kernels compute with.
use frostbit.Base.{
  ℕ, suc, ◌+◌, ◌-◌, ◌%◌, ◌^◌, ◌≤◌, ◌<◌, ◌≡◌, Bool, false, ◌&&◌, ◌||◌, List, [], ◌∷◌, leb, arith,
  refl, ap, length,
}
use frostbit.Container.Run.{Run, end, RunsFrom, covers, total}
use frostbit.Runs.{run}

pub record Span : Type 0 where
  pub lo : ℕ
  pub hi : ℕ

abbrev pub span : Run → Span
span r = record { lo = r.start; hi = end r }

abbrev pub spans : List Run → List Span
spans [] = []
spans (r ∷ rs) = span r ∷ spans rs

abbrev pub to_runs : List Span → List Run
to_runs [] = []
to_runs (s ∷ ss) = run s.lo s.hi ∷ to_runs ss

-- Nonempty intervals below 2 ^ 16, ascending from `k` on without overlap.
abbrev pub From : ℕ → List Span → Type 0
From k [] = Unit {0}
From k (s ∷ ss) = (k ≤ s.lo) × (s.lo ≤ s.hi) × (s.hi < 2 ^ 16) × From (s.hi + 1) ss

abbrev pub holds : List Span → ℕ → Bool
holds [] x = false
holds (s ∷ ss) x = (leb s.lo x && leb x s.hi) || holds ss x

abbrev pub size : List Span → ℕ
size [] = 0
size (s ∷ ss) = s.hi - s.lo + 1 + size ss

pub From_weaken : (k m : ℕ) (ss : List Span) → m ≤ k → From k ss → From m ss
From_weaken k m [] h f = tt
From_weaken k m (s ∷ ss) h (a, b, c, d) = (omega arith, b, c, d)

pub holds_below : (k x : ℕ) (ss : List Span) → From k ss → x < k → holds ss x ≡ false
holds_below k x [] f h = refl
holds_below k x (s ∷ ss) (a, b, c, d) h = ground (arith, holds_below (s.hi + 1) x ss d)

pub size_bound : (k : ℕ) (ss : List Span) → From k ss → k ≤ 2 ^ 16 → k + size ss ≤ 2 ^ 16
size_bound k [] f h = omega arith
size_bound k (s ∷ ss) (a, b, c, d) h = omega (arith, size_bound (s.hi + 1) ss d (omega arith))

pub end_lem : (r : Run) → r.start + r.len < 2 ^ 16 → end r ≡ r.start + r.len
unfolding end
end_lem r h = omega arith

pub From-spans : (k : ℕ) (rs : List Run) → RunsFrom k rs → From k (spans rs)
From-spans k [] f = tt
From-spans k (r ∷ rs) (a, b, c) =
    let e = end_lem r b in
    let e' : end r + 1 ≡ r.start + r.len + 1 = omega (arith, e) in
    (a, omega (arith, e), omega (arith, e), rw e' (From-spans (r.start + r.len + 1) rs c))

pub holds-spans : (k x : ℕ) (rs : List Run) → RunsFrom k rs → holds (spans rs) x ≡ covers rs x
holds-spans k x [] f = refl
holds-spans k x (r ∷ rs) (a, b, c) = rw (end_lem r b, holds-spans (r.start + r.len + 1) x rs c)

pub length-spans : (rs : List Run) → length (spans rs) ≡ length rs
length-spans [] = refl
length-spans (r ∷ rs) = ap suc (length-spans rs)

pub length-to_runs : (ss : List Span) → length (to_runs ss) ≡ length ss
length-to_runs [] = refl
length-to_runs (s ∷ ss) = ap suc (length-to_runs ss)

pub RunsFrom-to_runs : (k : ℕ) (ss : List Span) → From k ss → RunsFrom k (to_runs ss)
unfolding run
RunsFrom-to_runs k [] f = tt
RunsFrom-to_runs k (s ∷ ss) (a, b, c, d) =
    let e : s.lo % 2 ^ 16 + (s.hi - s.lo) % 2 ^ 16 ≡ s.hi = omega arith in
    (omega arith, omega arith, rw e (RunsFrom-to_runs (s.hi + 1) ss d))

pub covers-to_runs : (k x : ℕ) (ss : List Span) → From k ss → covers (to_runs ss) x ≡ holds ss x
unfolding run
covers-to_runs k x [] f = refl
covers-to_runs k x (s ∷ ss) (a, b, c, d) =
    let e : s.lo % 2 ^ 16 + (s.hi - s.lo) % 2 ^ 16 ≡ s.hi = omega arith in
    let e' : s.lo % 2 ^ 16 ≡ s.lo = omega arith in
    ground (arith, e, e', covers-to_runs (s.hi + 1) x ss d)

pub total-to_runs : (k : ℕ) (ss : List Span) → From k ss → total (to_runs ss) ≡ size ss
unfolding run
total-to_runs k [] f = refl
total-to_runs k (s ∷ ss) (a, b, c, d) = omega (arith, total-to_runs (s.hi + 1) ss d)

pub total_bound : (k : ℕ) (rs : List Run) → RunsFrom k rs → k ≤ 2 ^ 16 → k + total rs ≤ 2 ^ 16
total_bound k [] f h = omega arith
total_bound k (r ∷ rs) (a, b, c) h =
    omega (arith, total_bound (r.start + r.len + 1) rs c (omega arith))
