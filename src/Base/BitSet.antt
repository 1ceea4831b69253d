-- ===== src/Base/BitSet.antt =====
-- A set of small numbers as a list of 64-bit words, a bit for each number.
use Prim.Native.Nat.{ℕ, zero, suc, ◌+◌, ◌/◌, ◌%◌, ◌^◌, ◌<◌, bit_or}
use mathlib.Core.Path.{◌≡◌, refl, sym, ap, ◌∙◌}
use mathlib.Core.Logic.{◌≢◌, inl, inr}
use mathlib.Core.List.{List, [], ◌∷◌}
use native.Mathlib.Omega.{arith}
use frostbit.Base.Tests.{◌==◌, if◌then◌else◌, Bool-cases, ==_iff}
use frostbit.Base.Lists.{length, get_or, set, replicate}
use frostbit.Base.Bits.{bit, bit-bit_or, bit-pow2_self, bit-pow2_ne, bit-le-one}

abbrev pub test_bit : List ℕ → ℕ → ℕ
test_bit words j = bit (get_or words (j / 64) 0) (j % 64)

-- `words[v / 64] |= 1 << (v % 64)`
abbrev pub set_bit : ℕ → List ℕ → List ℕ
set_bit v words = set words (v / 64) (bit_or (get_or words (v / 64) 0) (2 ^ (v % 64)))

-- How many of the lowest `digits` bits are set; `u64::count_ones` counts 64.
unfoldable pub count_ones : ℕ → ℕ → ℕ
count_ones zero word = 0
count_ones (suc digits) word = word % 2 + count_ones digits (word / 2)

-- `words.iter().map(|w| w.count_ones()).sum()`
unfoldable pub sum_ones : List ℕ → ℕ
unfolding count_ones
sum_ones [] = 0
sum_ones (word ∷ words) = count_ones 64 word + sum_ones words

get_or-set_self : (xs : List ℕ) (i v d : ℕ) → i < length xs → get_or (set xs i v) i d ≡ v
get_or-set_self [] i v d h = absurd (omega arith)
get_or-set_self (x ∷ xs) zero v d h = refl
get_or-set_self (x ∷ xs) (suc i) v d h = get_or-set_self xs i v d (omega arith)

get_or-set_ne : (xs : List ℕ) (i j v d : ℕ) → i ≢ j → get_or (set xs i v) j d ≡ get_or xs j d
get_or-set_ne [] i j v d h = refl
get_or-set_ne (x ∷ xs) zero zero v d h = absurd (h refl)
get_or-set_ne (x ∷ xs) zero (suc j) v d h = refl
get_or-set_ne (x ∷ xs) (suc i) zero v d h = refl
get_or-set_ne (x ∷ xs) (suc i) (suc j) v d h = get_or-set_ne xs i j v d (λ e. h (ap suc e))

pub get_or-replicate : (n i : ℕ) → get_or (replicate {A = ℕ} n 0) i 0 ≡ 0
get_or-replicate zero i = refl
get_or-replicate (suc n) zero = refl
get_or-replicate (suc n) (suc i) = get_or-replicate n i

bit_of_word : (w k j : ℕ) → bit (bit_or w (2 ^ k)) j ≡ (if k == j then 1 else bit w j)
bit_of_word w k j = elim (Bool-cases (k == j)) [
  | inl e ↦
      let e' : k ≡ j = (==_iff k j).0 e in
      rw e (
        bit-bit_or j w (2 ^ k)
        ∙ omega (arith, ap (λ t. bit (2 ^ t) j) e', bit-pow2_self j, bit-le-one w j))
  | inr e ↦
      rw e (bit-bit_or j w (2 ^ k) ∙ omega (arith, bit-pow2_ne k j (λ p. ground (arith, e, p))))
]

pub test_bit-set_bit :
    (words : List ℕ) (v j : ℕ)
    → v / 64 < length words
    → test_bit (set_bit v words) j ≡ (if v == j then 1 else test_bit words j)
test_bit-set_bit words v j h = elim (Bool-cases (v / 64 == j / 64)) [
  | inl same ↦
      let e : v / 64 ≡ j / 64 = (==_iff (v / 64) (j / 64)).0 same in
      ap (λ t. bit (get_or (set words (v / 64) word) t 0) (j % 64)) (sym e)
      ∙ ap (λ t. bit t (j % 64)) (get_or-set_self words (v / 64) word 0 h)
      ∙ bit_of_word (get_or words (v / 64) 0) (v % 64) (j % 64)
      ∙ ground (arith, e)
  | inr other ↦
      ap (λ t. bit t (j % 64))
        (get_or-set_ne words (v / 64) (j / 64) word 0 (λ p. ground (arith, other, p)))
      ∙ ground (arith, other)
]
  where
    word : ℕ
    word = bit_or (get_or words (v / 64) 0) (2 ^ (v % 64))
