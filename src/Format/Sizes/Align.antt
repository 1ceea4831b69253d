-- ===== src/Format/Sizes/Align.antt =====
-- `align_up` is the least multiple of a power of two that is not below its argument.
use frostbit.Base.{ℕ, ◌+◌, ◌-◌, ◌*◌, ◌/◌, ◌%◌, ◌^◌, ◌≤◌, ◌<◌, ◌≡◌, ap, arith}
use frostbit.Base.{Bool, true, false, if◌then◌else◌}
use frostbit.Base.Bits.{bit_and-mask, bit_and-shifted, pow2_pos, pow2-mul, sub_one-mul}
use native.Mathlib.Nat.{mod-eq_of_lt, mod-lt, div-lt_iff_lt-mul, mul-mod_left, div-add-mod'}
use frostbit.Format.Sizes.{
  align_up, inline_size, data_section_off, index_size, header_size, inline_header_size, buf_align,
  word_align,
}

not_mask : (j k : ℕ) → j + k ≡ 64 → 2 ^ 64 - 1 - (2 ^ j - 1) ≡ (2 ^ k - 1) * 2 ^ j
not_mask j k e =
    omega (arith, sub_one-mul (2 ^ k) (2 ^ j), pow2-mul k j, ap (λ t. 2 ^ t) sum, pow2_pos j)
  where
    sum : k + j ≡ 64
    sum = omega arith

align_up-div :
    (n j : ℕ) → j ≤ 64 → n + 2 ^ j ≤ 2 ^ 64 → align_up n (2 ^ j) ≡ (n + 2 ^ j - 1) / 2 ^ j * 2 ^ j
unfolding align_up
align_up-div n j hj h =
    rw (not_mask j (64 - j) (omega arith), mod-eq_of_lt below)
      (rw (bit_and-shifted j (n + 2 ^ j - 1), bit_and-mask (64 - j), mod-eq_of_lt high))
  where
    below : n + 2 ^ j - 1 < 2 ^ 64
    below = omega (arith, pow2_pos j)

    sum : 64 - j + j ≡ 64
    sum = omega arith

    high : (n + 2 ^ j - 1) / 2 ^ j < 2 ^ (64 - j)
    high =
        (div-lt_iff_lt-mul (pow2_pos j)).1
          (omega (arith, below, pow2-mul (64 - j) j, ap (λ t. 2 ^ t) sum))

-- For an alignment of `2 ^ j` the result is a multiple of it, not below `n`, and less than one
-- step above `n`, where the sum fits in 64 bits.
align_up_least :
    (n j : ℕ)
    → j ≤ 64
    → n + 2 ^ j ≤ 2 ^ 64
    → (align_up n (2 ^ j) % 2 ^ j ≡ 0) × (n ≤ align_up n (2 ^ j)) × (align_up n (2 ^ j) < n + 2 ^ j)
align_up_least n j hj h = rw (align_up-div n j hj h) (
  mul-mod_left _ (2 ^ j),
  omega (arith, whole, rest, pow2_pos j),
  omega (arith, whole, rest, pow2_pos j),
)
  where
    whole : (n + 2 ^ j - 1) / 2 ^ j * 2 ^ j + (n + 2 ^ j - 1) % 2 ^ j ≡ n + 2 ^ j - 1
    whole = div-add-mod' (n + 2 ^ j - 1) (2 ^ j)

    rest : (n + 2 ^ j - 1) % 2 ^ j < 2 ^ j
    rest = mod-lt (n + 2 ^ j - 1) (pow2_pos j)

-- The data section starts at or after the end of the index and pads by less than its alignment,
-- 64 bytes if there is a bitmap container and else 8, to which it is aligned.
data_section_off_aligned :
    (n : ℕ) (has_bitmap : Bool)
    → n < 2 ^ 32
    → (header_size + index_size n ≤ data_section_off n has_bitmap)
      × (data_section_off n has_bitmap % (if has_bitmap then buf_align else word_align) ≡ 0)
      × (data_section_off n has_bitmap
          < header_size + index_size n + (if has_bitmap then buf_align else word_align))
data_section_off_aligned n true h =
    let (r, lo, hi) = align_up_least (16 + 8 * n) 6 (omega arith) (omega arith) in (lo, r, hi)
data_section_off_aligned n false h =
    let (r, lo, hi) = align_up_least (16 + 8 * n) 3 (omega arith) (omega arith) in (lo, r, hi)

-- An inline bitmap has room for its header and its values, and pads by less than eight bytes.
inline_size_bounds :
    (n : ℕ)
    → n < 2 ^ 32
    → (inline_header_size + 4 * n ≤ inline_size n)
      × (inline_size n < inline_header_size + 4 * n + 8)
      × (inline_size n % 8 ≡ 0)
inline_size_bounds n h =
    let (r, lo, hi) = align_up_least (4 + 4 * n) 3 (omega arith) (omega arith) in (lo, hi, r)
