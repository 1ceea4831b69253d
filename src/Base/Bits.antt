-- ===== src/Base/Bits.antt =====
-- Laws of the native bit operations at variables, from their digit recursion: masks, disjoint
-- fields and single bits, for every width.
use Prim.Native.Nat.{
  ℕ, zero, suc, ◌+◌, ◌-◌, ◌*◌, ◌/◌, ◌%◌, ◌^◌, ◌≤◌, ◌<◌, min, max, bit_and, bit_or, digits,
  bit_and-bitwise, bit_or-bitwise,
}
use mathlib.Core.Path.{◌≡◌, refl, ap, ◌∙◌}
use mathlib.Core.Logic.{◌≢◌}
use native.Mathlib.Nat.{div-div-eq-div-mul, div-add-mod, zero-add}
use native.Mathlib.Omega.{arith}

-- The digit recursion of the native operations stops at 0, so any fuel from the first number on
-- gives the same.
module _ (z : ℕ → ℕ) (f : ℕ → ℕ → ℕ) where
  enough : (b a n m : ℕ) → a ≤ n → a ≤ m → digits z f n a b ≡ digits z f m a b
  enough b zero zero zero below low = refl
  enough b zero zero (suc m) below low = refl
  enough b zero (suc n) zero below low = refl
  enough b zero (suc n) (suc m) below low = refl
  enough b (suc a) zero m below low = absurd (omega (arith, below))
  enough b (suc a) (suc n) zero below low = absurd (omega (arith, low))
  enough b (suc a) (suc n) (suc m) below low =
      omega (arith, enough (b / 2) (suc a / 2) n m (omega (arith, below)) (omega (arith, low)))

pub zero-bit_and : (b : ℕ) → bit_and 0 b ≡ 0
zero-bit_and b = bit_and-bitwise 0 b

pub zero-bit_or : (b : ℕ) → bit_or 0 b ≡ b
zero-bit_or b = bit_or-bitwise 0 b

-- Both operations, by the lowest digit and the halves.
pub bit_and_halves : (a b : ℕ) → bit_and a b ≡ min (a % 2) (b % 2) + 2 * bit_and (a / 2) (b / 2)
bit_and_halves zero b = omega (arith, zero-bit_and b, zero-bit_and (b / 2))
bit_and_halves (suc a) b =
    let half : suc a / 2 ≤ a = omega arith in
    let refuel = enough (λ y. 0) min (b / 2) (suc a / 2) a (suc a / 2) half (omega arith) in
    omega (arith, refuel, bit_and-bitwise (suc a / 2) (b / 2), bit_and-bitwise (suc a) b)

pub bit_or_halves : (a b : ℕ) → bit_or a b ≡ max (a % 2) (b % 2) + 2 * bit_or (a / 2) (b / 2)
bit_or_halves zero b = omega (arith, zero-bit_or b, zero-bit_or (b / 2))
bit_or_halves (suc a) b =
    let half : suc a / 2 ≤ a = omega arith in
    let refuel = enough (λ y. y) max (b / 2) (suc a / 2) a (suc a / 2) half (omega arith) in
    omega (arith, refuel, bit_or-bitwise (suc a / 2) (b / 2), bit_or-bitwise (suc a) b)

-- Bit `i` of `a`, as the code reads it: `(a >> i) & 1`.
abbrev pub bit : ℕ → ℕ → ℕ
bit a i = a / 2 ^ i % 2

pub pow2_suc : (k : ℕ) → 2 ^ suc k ≡ 2 * 2 ^ k
pow2_suc k = omega arith

pub pow2_pos : (k : ℕ) → 0 < 2 ^ k
pow2_pos zero = omega arith
pow2_pos (suc k) = omega (arith, pow2_suc k, pow2_pos k)

pub div-pow2_suc : (a k : ℕ) → a / 2 ^ suc k ≡ a / 2 / 2 ^ k
div-pow2_suc a k = rw (pow2_suc k, ← div-div-eq-div-mul a 2 (2 ^ k))

pub bit-suc : (a i : ℕ) → bit a (suc i) ≡ bit (a / 2) i
bit-suc a i = ap (λ t. t % 2) (div-pow2_suc a i)

pub bit-le-one : (a i : ℕ) → bit a i ≤ 1
bit-le-one a i = omega arith

pub bit-bit_or : (i a b : ℕ) → bit (bit_or a b) i ≡ max (bit a i) (bit b i)
bit-bit_or zero a b = omega (arith, bit_or_halves a b)
bit-bit_or (suc i) a b =
    rw (bit-suc (bit_or a b) i, bit-suc a i, bit-suc b i, half) (bit-bit_or i (a / 2) (b / 2))
  where
    half : bit_or a b / 2 ≡ bit_or (a / 2) (b / 2)
    half = omega (arith, bit_or_halves a b)

pub bit-pow2_self : (j : ℕ) → bit (2 ^ j) j ≡ 1
bit-pow2_self zero = refl
bit-pow2_self (suc j) = rw (bit-suc (2 ^ suc j) j, half) (bit-pow2_self j)
  where
    half : 2 ^ suc j / 2 ≡ 2 ^ j
    half = omega (arith, pow2_suc j)

pub bit-zero : (i : ℕ) → bit 0 i ≡ 0
bit-zero zero = refl
bit-zero (suc i) = rw (bit-suc 0 i) (bit-zero i)

pub bit-pow2_ne : (j i : ℕ) → i ≢ j → bit (2 ^ j) i ≡ 0
bit-pow2_ne zero zero h = absurd (h refl)
bit-pow2_ne zero (suc i) h = rw (bit-suc 1 i) (bit-zero i)
bit-pow2_ne (suc j) zero h = omega (arith, pow2_suc j)
bit-pow2_ne (suc j) (suc i) h =
    rw (bit-suc (2 ^ suc j) i, half) (bit-pow2_ne j i (λ e. h (ap suc e)))
  where
    half : 2 ^ suc j / 2 ≡ 2 ^ j
    half = omega (arith, pow2_suc j)

-- The second number is 0; `k` bounds the first.
no_digits : (k a : ℕ) → a < k → (bit_and a 0 ≡ 0) × (bit_or a 0 ≡ a)
no_digits zero a below = absurd (omega arith)
no_digits (suc k) zero below = (zero-bit_and 0, zero-bit_or 0)
no_digits (suc k) (suc a) below =
    let (both, either) = no_digits k (suc a / 2) (omega arith) in
    (omega (arith, both, bit_and_halves (suc a) 0), omega (arith, either, bit_or_halves (suc a) 0))

pub bit_and-zero : (a : ℕ) → bit_and a 0 ≡ 0
bit_and-zero a = (no_digits (suc a) a (omega arith)).0

pub bit_or-zero : (a : ℕ) → bit_or a 0 ≡ a
bit_or-zero a = (no_digits (suc a) a (omega arith)).1

mod_unique : (q r m : ℕ) → r < m → (m * q + r) % m ≡ r
mod_unique q r m h = grind arith

pub mod-two_mul : (a m : ℕ) → 0 < m → a % (2 * m) ≡ a / 2 % m * 2 + a % 2
mod-two_mul a m h =
    let split : a ≡ 2 * m * (a / 2 / m) + (a / 2 % m * 2 + a % 2) =
      omega (arith, div-add-mod (a / 2) m, div-add-mod a 2) in
    ap (λ t. t % (2 * m)) split
    ∙ mod_unique (a / 2 / m) (a / 2 % m * 2 + a % 2) (2 * m) (omega arith)

pub bit_and-mask : (k a : ℕ) → bit_and a (2 ^ k - 1) ≡ a % 2 ^ k
bit_and-mask zero a = omega (arith, bit_and-zero a)
bit_and-mask (suc k) a = omega (
  arith,
  bit_and_halves a (2 ^ suc k - 1),
  step,
  bit_and-mask k (a / 2),
  mod-two_mul a (2 ^ k) (pow2_pos k),
  pow2_suc k,
  pow2_pos k,
  ap (λ t. a % t) (pow2_suc k),
)
  where
    step : bit_and (a / 2) ((2 ^ suc k - 1) / 2) ≡ bit_and (a / 2) (2 ^ k - 1)
    step = ap (bit_and (a / 2)) (omega (arith, pow2_suc k, pow2_pos k))

double : (m j : ℕ) → m * 2 ^ suc j ≡ 2 * (m * 2 ^ j)
double m j = omega (arith, ap (λ (t : ℕ). m * t) (pow2_suc j))

-- A mask `m` shifted up by `j` keeps the bits from `j` on.
pub bit_and-shifted : (j a m : ℕ) → bit_and a (m * 2 ^ j) ≡ bit_and (a / 2 ^ j) m * 2 ^ j
bit_and-shifted zero a m =
    let left : m * 1 ≡ m = omega arith in
    let right : a / 1 ≡ a = omega arith in
    omega (arith, ap (bit_and a) left, ap (λ t. bit_and t m) right)
bit_and-shifted (suc j) a m =
    let half : m * 2 ^ suc j / 2 ≡ m * 2 ^ j = omega (arith, double m j) in
    omega (
      arith,
      bit_and_halves a (m * 2 ^ suc j),
      ap (bit_and (a / 2)) half,
      bit_and-shifted j (a / 2) m,
      ap (λ t. bit_and t m * 2 ^ suc j) (div-pow2_suc a j),
      double m j,
      double (bit_and (a / 2 / 2 ^ j) m) j,
    )

-- Fields that do not overlap are added.
pub bit_or-shifted : (k a b : ℕ) → b < 2 ^ k → bit_or (a * 2 ^ k) b ≡ a * 2 ^ k + b
bit_or-shifted zero a b h =
    let none : b ≡ 0 = omega arith in
    let left : a * 1 ≡ a = omega arith in rw none (rw left (omega (arith, bit_or-zero a)))
bit_or-shifted (suc k) a b h =
    let half : a * 2 ^ suc k / 2 ≡ a * 2 ^ k = omega (arith, double a k) in
    omega (
      arith,
      bit_or_halves (a * 2 ^ suc k) b,
      ap (λ t. bit_or t (b / 2)) half,
      bit_or-shifted k a (b / 2) (omega (arith, pow2_suc k)),
      double a k,
    )

pub pow2-mul : (j k : ℕ) → 2 ^ j * 2 ^ k ≡ 2 ^ (j + k)
pow2-mul zero k = rw (zero-add k) (omega arith)
pow2-mul (suc j) k =
    let e : suc j + k ≡ suc (j + k) = omega arith in
    rw e (omega (arith, pow2-mul j k, pow2_suc (j + k), ap (λ (t : ℕ). t * 2 ^ k) (pow2_suc j)))

pub sub_one-mul : (a b : ℕ) → (a - 1) * b ≡ a * b - b
sub_one-mul zero b = omega arith
sub_one-mul (suc a) b = let e : suc a - 1 ≡ a = omega arith in rw e (omega arith)
