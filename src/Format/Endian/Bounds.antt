-- ===== src/Format/Endian/Bounds.antt =====
-- What numbers made of bytes are below.
use frostbit.Base.{ℕ, zero, suc, ◌*◌, ◌^◌, ◌≡◌, ◌<◌, [], ◌∷◌, take, drop, arith}
use frostbit.Format.Endian.{Bytes, from_le}

-- What `u8` promises of each element of a `&[u8]`.
abbrev pub AreBytes : Bytes → Type 0
AreBytes [] = Unit {0}
AreBytes (b ∷ bytes) = (b < 256) × AreBytes bytes

pub take-AreBytes : (n : ℕ) (bytes : Bytes) → AreBytes bytes → AreBytes (take n bytes)
take-AreBytes zero bytes a = tt
take-AreBytes (suc n) [] a = tt
take-AreBytes (suc n) (b ∷ bytes) (h, a) = (h, take-AreBytes n bytes a)

pub drop-AreBytes : (n : ℕ) (bytes : Bytes) → AreBytes bytes → AreBytes (drop n bytes)
drop-AreBytes zero bytes a = a
drop-AreBytes (suc n) [] a = tt
drop-AreBytes (suc n) (b ∷ bytes) (h, a) = drop-AreBytes n bytes a

pow256_suc : (n : ℕ) → 256 ^ suc n ≡ 256 * 256 ^ n
pow256_suc n = omega arith

pow256_pos : (n : ℕ) → 0 < 256 ^ n
pow256_pos zero = omega arith
pow256_pos (suc n) = omega (arith, pow256_suc n, pow256_pos n)

from_le-lt : (n : ℕ) (bytes : Bytes) → AreBytes bytes → from_le (take n bytes) < 256 ^ n
from_le-lt zero bytes a = omega arith
from_le-lt (suc n) [] a = pow256_pos (suc n)
from_le-lt (suc n) (b ∷ bytes) (h, a) = omega (arith, pow256_suc n, from_le-lt n bytes a)

pub from_le-u16 : (bytes : Bytes) → AreBytes bytes → from_le (take 2 bytes) < 2 ^ 16
from_le-u16 bytes a = omega (arith, from_le-lt 2 bytes a)

pub from_le-u32 : (bytes : Bytes) → AreBytes bytes → from_le (take 4 bytes) < 2 ^ 32
from_le-u32 bytes a = omega (arith, from_le-lt 4 bytes a)

pub from_le-u64 : (bytes : Bytes) → AreBytes bytes → from_le (take 8 bytes) < 2 ^ 64
from_le-u64 bytes a = omega (arith, from_le-lt 8 bytes a)
