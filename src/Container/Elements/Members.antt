-- ===== src/Container/Elements/Members.antt =====
-- The lows of a payload are the values that it holds.
use frostbit.Base.{
  ℕ, zero, suc, ◌+◌, ◌-◌, ◌*◌, ◌/◌, ◌%◌, ◌<◌, ◌≤◌, ◌≡◌, refl, ap₂, ◌∙◌, Bool, true, false, ◌&&◌,
  ◌||◌, List, [], ◌∷◌, ◌++◌, ltb, leb, ◌==◌, arith, inl, inr, ◌⊎◌, Bool-cases,
}
use frostbit.Base.Bits.{bit, bit-suc, bit-zero}
use frostbit.Base.BitSet.{test_bit}
use frostbit.Base.Ones.{ones_from}
use frostbit.Container.Run.{Run, covers}
use frostbit.Container.Lows.{has}
use frostbit.Container.Payload.{Data, array, bitmap, runs, inline}
use frostbit.Container.Content.{holds}
use frostbit.Container.Elements.{count_up, run_values, word_values, lows}

pub has-append : (xs ys : List ℕ) (x : ℕ) → has (xs ++ ys) x ≡ (has xs x || has ys x)
has-append [] ys x = refl
has-append (v ∷ xs) ys x = ground (arith, has-append xs ys x)

has-count_up : (n v x : ℕ) → has (count_up (n + 1) v) x ≡ (leb v x && leb x (v + n))
has-count_up zero v x = ground arith
has-count_up (suc n) v x =
    let e : suc n + 1 ≡ suc (n + 1) = omega arith in rw e (ground (arith, has-count_up n (v + 1) x))

has-run_values : (rs : List Run) (x : ℕ) → has (run_values rs) x ≡ covers rs x
has-run_values [] x = refl
has-run_values (r ∷ rs) x =
    has-append (count_up (r.len + 1) r.start) (run_values rs) x
    ∙ ap₂ (λ a b. a || b) (has-count_up r.len r.start x) (has-run_values rs x)

has-ones_from_outside :
    (digits word off x : ℕ)
    → (x < off) ⊎ (off + digits ≤ x)
    → has (ones_from digits word off) x ≡ false
unfolding ones_from
has-ones_from_outside zero word off x h = refl
has-ones_from_outside (suc digits) word off x h =
    let rest = has-ones_from_outside digits (word / 2) (off + 1) x (nearer h) in
    elim (Bool-cases (word % 2 == 1)) [ inl y ↦ rw (y, rest, off_place h) refl | inr n ↦ rw n rest ]
  where
    nearer : (x < off) ⊎ (off + suc digits ≤ x) → (x < off + 1) ⊎ (off + 1 + digits ≤ x)
    nearer (inl h) = inl (omega arith)
    nearer (inr h) = inr (omega arith)

    off_place : (x < off) ⊎ (off + suc digits ≤ x) → (off == x) ≡ false
    off_place (inl h) = ground arith
    off_place (inr h) = ground arith

-- At the place `off + j` stands bit `j`.
has-ones_from :
    (digits word off j : ℕ)
    → j < digits
    → has (ones_from digits word off) (off + j) ≡ (bit word j == 1)
unfolding ones_from
has-ones_from zero word off j h = absurd (omega arith)
has-ones_from (suc digits) word off zero h =
    let rest = has-ones_from_outside digits (word / 2) (off + 1) (off + 0) (inl (omega arith)) in
    let low : bit word 0 ≡ word % 2 = omega arith in
    let same : (off == off + 0) ≡ true = ground arith in
    elim (Bool-cases (word % 2 == 1)) [
      | inl y ↦ rw (y, low, same, y) refl
      | inr n ↦ rw (n, low, rest, n) refl
    ]
has-ones_from (suc digits) word off (suc j) h =
    let further : off + suc j ≡ off + 1 + j = omega arith in
    let other : (off == off + 1 + j) ≡ false = ground arith in
    let rest = has-ones_from digits (word / 2) (off + 1) j (omega arith) in
    elim (Bool-cases (word % 2 == 1)) [
      | inl y ↦ rw (y, further, other, bit-suc word j) rest
      | inr n ↦ rw (n, further, bit-suc word j) rest
    ]

has-word_values_below :
    (words : List ℕ) (w x : ℕ) → x < w * 64 → has (word_values words w) x ≡ false
has-word_values_below [] w x h = refl
has-word_values_below (word ∷ words) w x h =
    has-append (ones_from 64 word (w * 64)) (word_values words (w + 1)) x
    ∙ ap₂ (λ a b. a || b) (has-ones_from_outside 64 word (w * 64) x (inl h))
        (has-word_values_below words (w + 1) x (omega arith))

has-word_values :
    (words : List ℕ) (w j : ℕ) → has (word_values words w) (w * 64 + j) ≡ (test_bit words j == 1)
has-word_values [] w j = let e = bit-zero (j % 64) in rw e refl
has-word_values (word ∷ words) w j =
    has-append (ones_from 64 word (w * 64)) (word_values words (w + 1)) (w * 64 + j)
    ∙ (elim (Bool-cases (ltb j 64)) [
      | inl y ↦
          let here : j / 64 ≡ 0 = ground (arith, y) in
          let place : j % 64 ≡ j = ground (arith, y) in
          let inside = has-ones_from 64 word (w * 64) j (ground (arith, y)) in
          let rest = has-word_values_below words (w + 1) (w * 64 + j) (ground (arith, y)) in
          rw (inside, rest, here, place) (or_false (bit word j == 1))
      | inr n ↦
          let further : w * 64 + j ≡ (w + 1) * 64 + (j - 64) = ground (arith, n) in
          let word_of : j / 64 ≡ suc ((j - 64) / 64) = ground (arith, n) in
          let place : j % 64 ≡ (j - 64) % 64 = ground (arith, n) in
          let outside =
            has-ones_from_outside 64 word (w * 64) (w * 64 + j) (inr (ground (arith, n))) in
          rw (outside, further, word_of, place) (has-word_values words (w + 1) (j - 64))
    ])
  where
    or_false : (b : Bool) → (b || false) ≡ b
    or_false true = refl
    or_false false = refl

-- Enumerating a payload gives exactly what it holds.
pub has-lows : (d : Data) (x : ℕ) → has (lows d) x ≡ holds d x
has-lows (array values) x = refl
has-lows (bitmap words) x =
    let e : 0 * 64 + x ≡ x = omega arith in rw e at (has-word_values words 0 x)
has-lows (runs rs) x = has-run_values rs x
has-lows (inline ids) x = refl
