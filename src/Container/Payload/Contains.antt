-- ===== src/Container/Payload/Contains.antt =====
-- What `Data::contains` answers on well-formed payloads.
use frostbit.Base.{
  ℕ, zero, suc, ◌+◌, ◌-◌, ◌/◌, ◌%◌, ◌^◌, ◌≤◌, ◌<◌, ◌≡◌, refl, sym, ap, ◌∙◌, Bool, true, false, ◌&&◌,
  ◌||◌, Option, none, some, List, [], ◌∷◌, get_elem?, get_or, ltb, leb, ◌==◌, arith, inl, inr, ◌⊎◌,
  Bool-cases, ==_iff, Option-cases,
}
use frostbit.Base.Bits.{bit_and-mask}
use frostbit.Base.BitSet.{test_bit}
use frostbit.Base.Search.{Above, Ascending, binary_search, binary_search_iff}
use frostbit.Container.Run.{Run, end, RunsFrom, covers}
use frostbit.Container.Lows.{LowsFrom, has}
use frostbit.Container.Payload.{array, bitmap, runs, is_some, contains, partition_point, run_at}

LowsFrom-Above : (k x : ℕ) (vs : List ℕ) → LowsFrom k vs → x < k → Above x vs
LowsFrom-Above k x [] f h = tt
LowsFrom-Above k x (v ∷ vs) (a, b, c) h = (omega arith, LowsFrom-Above (v + 1) v vs c (omega arith))

pub LowsFrom-Ascending : (k : ℕ) (vs : List ℕ) → LowsFrom k vs → Ascending vs
LowsFrom-Ascending k [] f = tt
LowsFrom-Ascending k (v ∷ vs) (a, b, c) = LowsFrom-Above (v + 1) v vs c (omega arith)

has-position : (vs : List ℕ) (x : ℕ) → has vs x ≡ true → (i : ℕ) × (get_elem? vs i ≡ some x)
has-position [] x h = cc
has-position (v ∷ vs) x h = elim (Bool-cases (v == x)) [
  | inl e ↦ (0, ap some ((==_iff v x).0 e))
  | inr e ↦ let (i, p) = has-position vs x (rw e at h) in (suc i, p)
]

position-has : (vs : List ℕ) (x i : ℕ) → get_elem? vs i ≡ some x → has vs x ≡ true
position-has [] x i p = cc
position-has (v ∷ vs) x zero p = ground arith
position-has (v ∷ vs) x (suc i) p = ground (arith, position-has vs x i p)

-- The binary search answers on a strictly ascending list exactly when the value is in it.
pub is_some-binary_search :
    (vs : List ℕ) (x : ℕ) → Ascending vs → is_some (binary_search vs x) ≡ has vs x
is_some-binary_search vs x a = elim (Option-cases (binary_search vs x)) [
  | inr (i, e) ↦ rw e (sym (position-has vs x i ((binary_search_iff vs x i a).0 e)))
  | inl e ↦ elim (Bool-cases (has vs x)) [
    | inr n ↦ rw e (sym n)
    | inl y ↦
        let (i, p) = has-position vs x y in absurd (clash e ((binary_search_iff vs x i a).1 p))
  ]
]
  where
    clash : {o : Option ℕ} {i : ℕ} → o ≡ none → o ≡ some i → ⊥
    clash p q = cc

-- `Data::contains` on an array of strictly ascending lows, by binary search, tells whether the value
-- is in it.
pub contains-array : (vs : List ℕ) (x : ℕ) → LowsFrom 0 vs → contains (array vs) x ≡ has vs x
unfolding contains
contains-array vs x f = is_some-binary_search vs x (LowsFrom-Ascending 0 vs f)

pub contains-bitmap : (words : List ℕ) (x : ℕ) → contains (bitmap words) x ≡ (test_bit words x == 1)
unfolding contains
contains-bitmap words x = ap (λ t. t == 1) (bit_and-mask 1 (get_or words (x / 64) 0 / 2 ^ (x % 64)))

covers_below : (k x : ℕ) (rs : List Run) → RunsFrom k rs → x < k → covers rs x ≡ false
covers_below k x [] f h = refl
covers_below k x (r ∷ rs) (a, b, c) h = ground (arith, covers_below (r.start + r.len + 1) x rs c)

-- No run at the front starts at `x` or before.
partition_point-zero :
    (k x : ℕ) (rs : List Run) → RunsFrom k rs → partition_point rs x ≡ 0 → covers rs x ≡ false
unfolding partition_point
partition_point-zero k x [] f e = refl
partition_point-zero k x (r ∷ rs) (a, b, c) e =
    covers_below (r.start) x (r ∷ rs) (omega arith, b, c)
      (elim (Bool-cases (leb r.start x)) [
        | inl y ↦ absurd (clash (rw y at e))
        | inr n ↦ ground (arith, n)
      ])
  where
    clash : {n : ℕ} → suc n ≡ 0 → ⊥
    clash p = omega arith

partition_point-suc :
    (k x i : ℕ) (rs : List Run) → RunsFrom k rs → partition_point rs x ≡ suc i → k ≤ x
unfolding partition_point
partition_point-suc k x i [] f e = absurd (omega arith)
partition_point-suc k x i (r ∷ rs) (a, b, c) e = elim (Bool-cases (leb r.start x)) [
  | inl y ↦ ground (arith, y)
  | inr n ↦ absurd (clash (rw n at e))
]
  where
    clash : 0 ≡ suc i → ⊥
    clash p = omega arith

sub_one : (n : ℕ) → suc n - 1 ≡ n
sub_one n = omega arith

in_u16 : (x n : ℕ) → n < 2 ^ 16 → leb x (n % 2 ^ 16) ≡ (leb x n || false)
in_u16 x n h = ground arith

skip_first : (x n : ℕ) (b : Bool) → n + 1 ≤ x → (leb x n || b) ≡ b
skip_first x n b h = ground arith

zero_or_suc : (n : ℕ) → (n ≡ 0) ⊎ ((i : ℕ) × (n ≡ suc i))
zero_or_suc zero = inl refl
zero_or_suc (suc n) = inr (n, refl)

-- `Data::contains` on ascending runs, probing the last run that starts at `x` or before, tells
-- whether some run covers `x`.
pub contains-runs : (k x : ℕ) (rs : List Run) → RunsFrom k rs → contains (runs rs) x ≡ covers rs x
unfolding contains end partition_point run_at
contains-runs k x [] f = refl
contains-runs k x (r ∷ rs) (a, b, c) = elim (Bool-cases (leb r.start x)) [
  | inr n ↦ rw n (sym (covers_below (r.start + r.len + 1) x rs c (ground (arith, n))))
  | inl y ↦ elim (zero_or_suc (partition_point rs x)) [
    | inl z ↦
        let off : covers rs x ≡ false = partition_point-zero (r.start + r.len + 1) x rs c z in
        rw (y, z, off) (in_u16 x (r.start + r.len) b)
    | inr (i, s) ↦
        let past : r.start + r.len + 1 ≤ x = partition_point-suc (r.start + r.len + 1) x i rs c s in
        let rest : contains (runs rs) x ≡ covers rs x =
          contains-runs (r.start + r.len + 1) x rs c in
        rw (y, s, sub_one (suc i))
          (probe i
            ∙ rw (s, sub_one i) at rest
            ∙ sym (skip_first x (r.start + r.len) (covers rs x) past))
  ]
]
  where
    probe :
        (i : ℕ)
        → (ltb 0 (suc (suc i)) && leb x (end (run_at rs i)))
          ≡ (ltb 0 (suc i) && leb x (end (run_at rs i)))
    probe i = ground arith
