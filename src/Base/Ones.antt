-- ===== src/Base/Ones.antt =====
-- The bits of a word that are set, from the lowest on.
use Prim.Native.Nat.{ℕ, zero, suc, ◌+◌, ◌-◌, ◌*◌, ◌/◌, ◌%◌, ◌^◌, ◌≤◌, ◌<◌, bit_and}
use mathlib.Core.Path.{◌≡◌, refl, ap}
use mathlib.Core.Logic.{inl, inr}
use mathlib.Core.Bool.{false}
use mathlib.Core.List.{List, [], ◌∷◌}
use native.Mathlib.Omega.{arith}
use frostbit.Base.Tests.{◌==◌, if◌then◌else◌, Bool-cases, ==_iff}
use frostbit.Base.Lists.{length}
use frostbit.Base.Bits.{bit_and_halves, zero-bit_and, pow2_suc}
use frostbit.Base.BitSet.{count_ones}

-- `u64::trailing_zeros` counts over 64 digits.
unfoldable pub trailing_zeros : ℕ → ℕ → ℕ
trailing_zeros zero word = 0
trailing_zeros (suc digits) word =
    let after = 1 + trailing_zeros digits (word / 2) in if word % 2 == 1 then 0 else after

-- `u64::leading_zeros`, of 64 digits: those above the highest bit that is set.
unfoldable pub leading_zeros : ℕ → ℕ → ℕ
leading_zeros zero word = 0
leading_zeros (suc digits) word =
    let after = leading_zeros digits (word / 2) in if word == 0 then suc digits else after

-- The places of the bits that are set among the lowest `digits`, the lowest standing at `off`.
unfoldable pub ones_from : ℕ → ℕ → ℕ → List ℕ
ones_from zero word off = []
ones_from (suc digits) word off =
    let after = ones_from digits (word / 2) (off + 1) in
    if word % 2 == 1 then off ∷ after else after

pub ones_from-zero : (digits off : ℕ) → ones_from digits 0 off ≡ []
unfolding ones_from
ones_from-zero zero off = refl
ones_from-zero (suc digits) off = ones_from-zero digits (off + 1)

-- Strong induction on a bound.
bit_and_self : (k a : ℕ) → a < k → bit_and a a ≡ a
bit_and_self zero a h = absurd (omega arith)
bit_and_self (suc k) zero h = zero-bit_and 0
bit_and_self (suc k) (suc a) h =
    omega (arith, bit_and_halves (suc a) (suc a), bit_and_self k (suc a / 2) (omega arith))

pub bit_and-le : (k a b : ℕ) → a < k → bit_and a b ≤ a
bit_and-le zero a b h = absurd (omega arith)
bit_and-le (suc k) zero b h = omega (arith, zero-bit_and b)
bit_and-le (suc k) (suc a) b h =
    omega (arith, bit_and_halves (suc a) b, bit_and-le k (suc a / 2) (b / 2) (omega arith))

-- `word & (word - 1)`: without the lowest bit that is set.
clear_odd : (w : ℕ) → w % 2 ≡ 1 → bit_and w (w - 1) ≡ 2 * (w / 2)
clear_odd w h =
    let half : (w - 1) / 2 ≡ w / 2 = omega arith in
    omega (
      arith,
      bit_and_halves w (w - 1),
      ap (bit_and (w / 2)) half,
      bit_and_self (suc (w / 2)) (w / 2) (omega arith),
    )

clear_even : (w : ℕ) → w % 2 ≡ 0 → 0 < w → bit_and w (w - 1) ≡ 2 * bit_and (w / 2) (w / 2 - 1)
clear_even w h p =
    let half : (w - 1) / 2 ≡ w / 2 - 1 = omega arith in
    omega (arith, bit_and_halves w (w - 1), ap (bit_and (w / 2)) half)

-- The lowest bit is the first place, and clearing it leaves the others.
pub ones_from-step :
    (digits word off : ℕ)
    → 0 < word
    → word < 2 ^ digits
    → ones_from digits word off
      ≡ (off + trailing_zeros digits word) ∷ ones_from digits (bit_and word (word - 1)) off
unfolding ones_from trailing_zeros
ones_from-step zero word off p h = absurd (omega arith)
ones_from-step (suc digits) word off p h = elim (Bool-cases (word % 2 == 1)) [
  | inl y ↦
      let odd : word % 2 ≡ 1 = (==_iff (word % 2) 1).0 y in
      let cleared : bit_and word (word - 1) ≡ 2 * (word / 2) = clear_odd word odd in
      let low : (2 * (word / 2) % 2 == 1) ≡ false = ground arith in
      let half : 2 * (word / 2) / 2 ≡ word / 2 = omega arith in
      let here : off + 0 ≡ off = omega arith in rw (y, cleared, low, half, here) refl
  | inr n ↦
      let even : word % 2 ≡ 0 = ground (arith, n) in
      let cleared = clear_even word even p in
      let m = bit_and (word / 2) (word / 2 - 1) in
      let low : (2 * m % 2 == 1) ≡ false = ground arith in
      let half : 2 * m / 2 ≡ m = omega arith in
      let place : off + (1 + trailing_zeros digits (word / 2))
          ≡ off + 1 + trailing_zeros digits (word / 2) =
        omega arith in
      rw (n, cleared, low, half, place)
        (ones_from-step digits (word / 2) (off + 1) (omega (arith, even))
          (omega (arith, pow2_suc digits)))
]

pub length-ones_from :
    (digits word off : ℕ) → length (ones_from digits word off) ≡ count_ones digits word
unfolding ones_from count_ones
length-ones_from zero word off = refl
length-ones_from (suc digits) word off = elim (Bool-cases (word % 2 == 1)) [
  | inl y ↦
      rw y (omega (arith, length-ones_from digits (word / 2) (off + 1), (==_iff (word % 2) 1).0 y))
  | inr n ↦ rw n (ground (arith, n, length-ones_from digits (word / 2) (off + 1)))
]
