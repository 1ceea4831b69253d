-- ===== src/Decide/Promotion.antt =====
-- src/ops/analyze/plan.rs: the promotion rules as inequalities.
use frostbit.Base.{
  ℕ, ◌+◌, ◌-◌, ◌*◌, ◌%◌, ◌^◌, ◌≤◌, ◌≡◌, ◌∙◌, ap, Bool, Bool-cases, inl, inr, true, false, ◌&&◌,
  ◌||◌, ltb, leb, arith,
}
use native.Mathlib.Nat.{mul-le-mul, mul_assoc, mul-add}
use frostbit.Decide.{sub_u64, union_promotes, union_dense_card, max_union_fanin}

-- `s · (85n(n+1) − 86n − 170) > 40000·n`, over all the numbers.
abbrev pub profitable : ℕ → ℕ → Bool
profitable n sum_card =
    ltb (40000 * n + sum_card * (86 * n + 170)) (sum_card * (85 * (n * (n + 1))))

square_bound : (n : ℕ) → n ≤ 2 ^ 20 → n * (n + 1) ≤ 2 ^ 20 * (2 ^ 20 + 1)
square_bound n h = mul-le-mul {m₁ = n + 1} {m₂ = 2 ^ 20 + 1} h (omega (arith, h))

square_least : (n : ℕ) → 2 ≤ n → n * 3 ≤ n * (n + 1)
square_least n h =
    mul-le-mul {n₁ = n} {m₁ = 3} {n₂ = n} {m₂ = n + 1} (omega arith) (omega (arith, h))

coef : ℕ → ℕ
coef n = 85 * (n * (n + 1)) - (86 * n + 170)

coef_in_u64 :
    (n : ℕ)
    → 2 ≤ n
    → n ≤ 2 ^ 20
    → (sub_u64 (sub_u64 (85 * n * (n + 1) % 2 ^ 64) (86 * n % 2 ^ 64)) 170 ≡ coef n)
      × (coef n ≤ 2 ^ 47)
      × (86 * n + 170 ≤ 85 * (n * (n + 1)))
unfolding coef
coef_in_u64 n h g = (
  omega (arith, square_bound n g, square_least n h, mul_assoc 85 n (n + 1)),
  omega (arith, square_bound n g),
  omega (arith, square_least n h),
)

product_in_u64 : (s c : ℕ) → s ≤ 4096 → c ≤ 2 ^ 47 → s * c % 2 ^ 64 ≡ s * c
product_in_u64 s c h g = omega (arith, mul-le-mul h g)

-- The subtraction on the other side.
spread : (a s q m : ℕ) → m ≤ q → ltb a (s * (q - m)) ≡ ltb (a + s * m) (s * q)
spread a s q m h = ground (arith, parts)
  where
    whole : q ≡ q - m + m
    whole = omega arith

    parts : s * q ≡ s * (q - m) + s * m
    parts = ap (λ t. s * t) whole ∙ mul-add s (q - m) m

-- Where `union_key` asks it, at a merged cardinality of an array's at most, `union_promotes` is the
-- inequality of its comment for 2 to 2 ^ 20 inputs, its `u64` arithmetic neither overflowing nor
-- underflowing; it is false for fewer inputs and true for more.
pub union_promotes_lem :
    (n sum_card : ℕ)
    → sum_card ≤ union_dense_card
    → union_promotes n sum_card ≡ (ltb max_union_fanin n || (leb 2 n && profitable n sum_card))
unfolding union_promotes coef
union_promotes_lem n s h = elim (Bool-cases (leb 2 n && leb n max_union_fanin)) [
  | inr out ↦ rw out (outside n (profitable n s) out)
  | inl inside ↦
      let a : 2 ≤ n = ground (arith, inside) in
      let b : n ≤ 2 ^ 20 = ground (arith, inside) in
      let (e, c, d) = coef_in_u64 n a b in
      let left : 40000 * n % 2 ^ 64 ≡ 40000 * n = omega (arith, b) in
      rw (inside, e, left)
        (ap (ltb (40000 * n)) (product_in_u64 s (coef n) h c)
          ∙ spread (40000 * n) s (85 * (n * (n + 1))) (86 * n + 170) d
          ∙ within n (profitable n s) inside)
]
  where
    outside :
        (n : ℕ) (p : Bool)
        → (leb 2 n && leb n max_union_fanin) ≡ false
        → ltb max_union_fanin n ≡ (ltb max_union_fanin n || (leb 2 n && p))
    outside n p e = ground (arith, e)

    within :
        (n : ℕ) (p : Bool)
        → (leb 2 n && leb n max_union_fanin) ≡ true
        → p ≡ (ltb max_union_fanin n || (leb 2 n && p))
    within n p e = ground (arith, e)
