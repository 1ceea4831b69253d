-- ===== src/Format/Endian/Laws.antt =====
-- Reading back what was written, and leaving the rest of the buffer alone.
use frostbit.Base.{
  ℕ, zero, suc, ◌+◌, ◌/◌, ◌^◌, ◌≤◌, ◌<◌, ◌≡◌, refl, ap, ◌⊎◌, inl, inr, [], ◌∷◌, length, take, drop,
  arith,
}
use frostbit.Base.Exec.{ok}
use frostbit.Format.Endian.{
  Bytes, to_le, from_le, slice, overwrite, copy_at, read_u16, read_u32, write_u16, write_u32,
}

pub length-overwrite : (off : ℕ) (src buf : Bytes) → length (overwrite off src buf) ≡ length buf
unfolding overwrite
length-overwrite zero [] buf = refl
length-overwrite zero (x ∷ src) [] = refl
length-overwrite zero (x ∷ src) (b ∷ buf) = ap suc (length-overwrite zero src buf)
length-overwrite (suc off) src [] = refl
length-overwrite (suc off) src (b ∷ buf) = ap suc (length-overwrite off src buf)

take-overwrite_self :
    (off : ℕ) (src buf : Bytes)
    → off + length src ≤ length buf
    → take (length src) (drop off (overwrite off src buf)) ≡ src
unfolding overwrite
take-overwrite_self zero [] buf h = refl
take-overwrite_self zero (x ∷ src) [] h = absurd (omega arith)
take-overwrite_self zero (x ∷ src) (b ∷ buf) h =
    ap (λ t. x ∷ t) (take-overwrite_self zero src buf (omega arith))
take-overwrite_self (suc off) [] [] h = refl
take-overwrite_self (suc off) (x ∷ src) [] h = absurd (omega arith)
take-overwrite_self (suc off) src (b ∷ buf) h = take-overwrite_self off src buf (omega arith)

take-overwrite_before :
    (off p n : ℕ) (src buf : Bytes)
    → p + n ≤ off
    → take n (drop p (overwrite off src buf)) ≡ take n (drop p buf)
unfolding overwrite
take-overwrite_before zero zero zero src buf h = refl
take-overwrite_before zero zero (suc n) src buf h = absurd (omega arith)
take-overwrite_before zero (suc p) n src buf h = absurd (omega arith)
take-overwrite_before (suc off) p n src [] h = refl
take-overwrite_before (suc off) zero zero src (b ∷ buf) h = refl
take-overwrite_before (suc off) zero (suc n) src (b ∷ buf) h =
    ap (λ t. b ∷ t) (take-overwrite_before off zero n src buf (omega arith))
take-overwrite_before (suc off) (suc p) n src (b ∷ buf) h =
    take-overwrite_before off p n src buf (omega arith)

take-overwrite_after :
    (off p n : ℕ) (src buf : Bytes)
    → off + length src ≤ p
    → take n (drop p (overwrite off src buf)) ≡ take n (drop p buf)
unfolding overwrite
take-overwrite_after zero p n [] buf h = refl
take-overwrite_after zero p n (x ∷ src) [] h = refl
take-overwrite_after zero zero n (x ∷ src) (b ∷ buf) h = absurd (omega arith)
take-overwrite_after zero (suc p) n (x ∷ src) (b ∷ buf) h =
    take-overwrite_after zero p n src buf (omega arith)
take-overwrite_after (suc off) p n src [] h = refl
take-overwrite_after (suc off) zero n src (b ∷ buf) h = absurd (omega arith)
take-overwrite_after (suc off) (suc p) n src (b ∷ buf) h =
    take-overwrite_after off p n src buf (omega arith)

pub from_le-to_le : (w v : ℕ) → v < 256 ^ w → from_le (to_le w v) ≡ v
from_le-to_le zero v h = omega arith
from_le-to_le (suc w) v h = omega (arith, from_le-to_le w (v / 256) (omega arith))

-- A write inside the buffer does not panic.
pub copy_at-ok :
    (buf : Bytes) (off : ℕ) (src : Bytes)
    → off + length src ≤ length buf
    → copy_at buf off src ≡ ok (overwrite off src buf)
unfolding copy_at
copy_at-ok buf off src h = ground arith

pub slice-ok :
    (buf : Bytes) (off n : ℕ) → off + n ≤ length buf → slice buf off n ≡ ok (take n (drop off buf))
unfolding slice
slice-ok buf off n h = ground arith

pub slice-overwrite_self :
    (buf : Bytes) (off n : ℕ) (src : Bytes)
    → length src ≡ n
    → off + n ≤ length buf
    → slice (overwrite off src buf) off n ≡ ok src
unfolding slice
slice-overwrite_self buf off n src e h =
    ground (arith, length-overwrite off src buf, take-overwrite_self off src buf)

pub slice-overwrite_before :
    (buf : Bytes) (off p n : ℕ) (src : Bytes)
    → p + n ≤ off
    → slice (overwrite off src buf) p n ≡ slice buf p n
unfolding slice
slice-overwrite_before buf off p n src h =
    rw (length-overwrite off src buf, take-overwrite_before off p n src buf h)

pub slice-overwrite_after :
    (buf : Bytes) (off p n : ℕ) (src : Bytes)
    → off + length src ≤ p
    → slice (overwrite off src buf) p n ≡ slice buf p n
unfolding slice
slice-overwrite_after buf off p n src h =
    rw (length-overwrite off src buf, take-overwrite_after off p n src buf h)

pub read_u16-overwrite_self :
    (buf : Bytes) (off val : ℕ)
    → val < 2 ^ 16
    → off + 2 ≤ length buf
    → read_u16 (overwrite off (to_le 2 val) buf) off ≡ ok val
unfolding read_u16
read_u16-overwrite_self buf off val hv h =
    rw (slice-overwrite_self buf off 2 (to_le 2 val) refl h)
      (ap ok (from_le-to_le 2 val (omega arith)))

pub read_u32-overwrite_self :
    (buf : Bytes) (off val : ℕ)
    → val < 2 ^ 32
    → off + 4 ≤ length buf
    → read_u32 (overwrite off (to_le 4 val) buf) off ≡ ok val
unfolding read_u32
read_u32-overwrite_self buf off val hv h =
    rw (slice-overwrite_self buf off 4 (to_le 4 val) refl h)
      (ap ok (from_le-to_le 4 val (omega arith)))

-- The two lists of bytes that a read at `p` and a write at `off` touch do not meet.
abbrev pub Apart : ℕ → ℕ → ℕ → Bytes → Type 0
Apart p n off src = (p + n ≤ off) ⊎ (off + length src ≤ p)

pub slice-overwrite-Apart :
    (buf : Bytes) (off p n : ℕ) (src : Bytes)
    → Apart p n off src
    → slice (overwrite off src buf) p n ≡ slice buf p n
slice-overwrite-Apart buf off p n src (inl h) = slice-overwrite_before buf off p n src h
slice-overwrite-Apart buf off p n src (inr h) = slice-overwrite_after buf off p n src h

pub read_u16-overwrite-Apart :
    (buf : Bytes) (off p : ℕ) (src : Bytes)
    → Apart p 2 off src
    → read_u16 (overwrite off src buf) p ≡ read_u16 buf p
unfolding read_u16
read_u16-overwrite-Apart buf off p src h = rw (slice-overwrite-Apart buf off p 2 src h)

pub read_u32-overwrite-Apart :
    (buf : Bytes) (off p : ℕ) (src : Bytes)
    → Apart p 4 off src
    → read_u32 (overwrite off src buf) p ≡ read_u32 buf p
unfolding read_u32
read_u32-overwrite-Apart buf off p src h = rw (slice-overwrite-Apart buf off p 4 src h)

pub write_u16-ok :
    (buf : Bytes) (off val : ℕ)
    → off + 2 ≤ length buf
    → write_u16 buf off val ≡ ok (overwrite off (to_le 2 val) buf)
unfolding write_u16
write_u16-ok buf off val h = copy_at-ok buf off (to_le 2 val) h

pub write_u32-ok :
    (buf : Bytes) (off val : ℕ)
    → off + 4 ≤ length buf
    → write_u32 buf off val ≡ ok (overwrite off (to_le 4 val) buf)
unfolding write_u32
write_u32-ok buf off val h = copy_at-ok buf off (to_le 4 val) h

-- A read inside the buffer does not panic.
pub read_u16_total :
    (buf : Bytes) (off : ℕ) → off + 2 ≤ length buf → (v : ℕ) × (read_u16 buf off ≡ ok v)
unfolding read_u16
read_u16_total buf off h = (from_le (take 2 (drop off buf)), rw (slice-ok buf off 2 h))

pub read_u32_total :
    (buf : Bytes) (off : ℕ) → off + 4 ≤ length buf → (v : ℕ) × (read_u32 buf off ≡ ok v)
unfolding read_u32
read_u32_total buf off h = (from_le (take 4 (drop off buf)), rw (slice-ok buf off 4 h))
