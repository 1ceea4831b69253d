-- ===== src/View/Extrema/LastBit.antt =====
-- src/api/view.rs: `bitmap_last` finds the last value of the words.
use frostbit.Base.{
  ℕ, zero, suc, ◌+◌, ◌-◌, ◌*◌, ◌/◌, ◌%◌, ◌^◌, ◌<◌, ◌≤◌, ◌≡◌, refl, sym, ap, ◌∙◌, true, false, some,
  List, [], ◌++◌, length, take, drop, ltb, ◌==◌, arith, inl, inr, ◌⊎◌, Bool-cases,
}
use frostbit.Base.Exec.{ok}
use frostbit.Base.Bits.{pow2_suc}
use frostbit.Base.Ones.{leading_zeros, ones_from, ones_from-zero}
use frostbit.Format.Cast.{cast_slice}
use frostbit.Format.Endian.{Bytes, from_le, read_u64}
use frostbit.Format.Endian.Laws.{slice-ok}
use frostbit.Format.Endian.Bounds.{AreBytes, drop-AreBytes, from_le-u64}
use frostbit.Format.Index.Borrow.{cast_slice-cons}
use frostbit.Container.Elements.{word_values}
use frostbit.View.Extrema.{last_bit}
use frostbit.View.Extrema.Last.{
  last, last-append, last-cons, append-nil, nil_or_last, unlike, same_some,
}

leading_zeros-zero : (digits : ℕ) → leading_zeros digits 0 ≡ digits
unfolding leading_zeros
leading_zeros-zero zero = refl
leading_zeros-zero (suc digits) = refl

-- The highest bit that is set is the last.
last-ones_from :
    (digits word off : ℕ)
    → 0 < word
    → word < 2 ^ digits
    → last (ones_from digits word off) ≡ some (off + digits - 1 - leading_zeros digits word)
unfolding ones_from leading_zeros
last-ones_from zero word off p h = absurd (omega arith)
last-ones_from (suc digits) word off p h =
    let some_bit : (word == 0) ≡ false = ground (arith, p) in
    elim (Bool-cases (word / 2 == 0)) [
      | inl z ↦
          let above : word / 2 ≡ 0 = ground (arith, z) in
          let odd : (word % 2 == 1) ≡ true = ground (arith, above, p) in
          let place : off + suc digits - 1 - digits ≡ off = omega arith in
          rw
            (
              some_bit,
              odd,
              above,
              ones_from-zero digits (off + 1),
              leading_zeros-zero digits,
              place,
            )
            refl
      | inr nz ↦
          let rest =
            last-ones_from digits (word / 2) (off + 1) (ground (arith, nz))
              (omega (arith, pow2_suc digits)) in
          let place : off + 1 + digits - 1 - leading_zeros digits (word / 2)
              ≡ off + suc digits - 1 - leading_zeros digits (word / 2) =
            omega arith in
          let tail = rw place at rest in
          elim (Bool-cases (word % 2 == 1)) [
            | inl y ↦ rw (some_bit, y) (last-cons off (ones_from digits (word / 2) (off + 1)) tail)
            | inr n ↦ rw (some_bit, n) tail
          ]
    ]

module _ (bytes : Bytes) (start : ℕ) (are : AreBytes bytes)
    (room : start + 8192 ≤ length bytes) where
  values_from : ℕ → ℕ → List ℕ
  values_from k w = word_values (cast_slice 8 k (take (8 * k) (drop (start + w * 8) bytes))) w

  -- One round of the loop, at the word `w`.
  last_bit-step :
      (w : ℕ)
      → w < 1024
      → let word = from_le (take 8 (drop (start + w * 8) bytes)) in
        ((0 < word)
          × ((lo : ℕ)
              → last (ones_from 64 word (w * 64)) ≡ some lo
              → lo < 2 ^ 16
              → last_bit (suc w) bytes start ≡ ok lo)
          × ((v : ℕ) × (last (ones_from 64 word (w * 64)) ≡ some v)))
        ⊎ ((ones_from 64 word (w * 64) ≡ [])
            × (last_bit (suc w) bytes start ≡ last_bit w bytes start))
  unfolding last_bit read_u64
  last_bit-step w h =
      let off = start + w * 8 in
      let word = from_le (take 8 (drop off bytes)) in
      let read = slice-ok bytes off 8 (omega (arith, room)) in
      let fits = from_le-u64 (drop off bytes) (drop-AreBytes off bytes are) in
      elim (Bool-cases (ltb 0 word)) [
        | inl y ↦
            let high = last-ones_from 64 word (w * 64) (ground (arith, y)) fits in
            inl (
              ground (arith, y),
              (λ lo e small.
                  rw (read, y)
                    (ap ok (in_u16 w (leading_zeros 64 word) lo (same_some (sym high ∙ e)) small))),
              (w * 64 + 64 - 1 - leading_zeros 64 word, high),
            )
        | inr n ↦
            let empty : word ≡ 0 = ground (arith, n) in
            inr (rw (empty, ones_from-zero 64 (w * 64)) refl, rw (read, n) refl)
      ]
    where
      in_u16 :
          (w z lo : ℕ) → w * 64 + 64 - 1 - z ≡ lo → lo < 2 ^ 16 → (w * 64 + 63 - z) % 2 ^ 16 ≡ lo
      in_u16 w z lo e small =
          let same : w * 64 + 63 - z ≡ lo = omega (arith, e) in rw same (omega (arith, small))

  values_from-split :
      (k w : ℕ)
      → values_from (suc k) w
        ≡ ones_from 64 (from_le (take 8 (drop (start + w * 8) bytes))) (w * 64)
          ++ values_from k (w + 1)
  unfolding values_from
  values_from-split k w =
      let next : start + w * 8 + 8 ≡ start + (w + 1) * 8 = omega arith in
      rw (cast_slice-cons 8 k (start + w * 8) bytes, next) refl

  nothing_left : (w : ℕ) → values_from zero w ≡ []
  unfolding values_from cast_slice
  nothing_left w = refl

  -- Down from the last word: the last value of the words from `w` on, and no value, no change.
  last_bit-suffix :
      (k w : ℕ)
      → w + k ≡ 1024
      → ((lo : ℕ)
          → last (values_from k w) ≡ some lo
          → lo < 2 ^ 16
          → last_bit 1024 bytes start ≡ ok lo)
        × (values_from k w ≡ [] → last_bit 1024 bytes start ≡ last_bit w bytes start)
  last_bit-suffix zero w e =
      let all_words : 1024 ≡ w = omega (arith, e) in
      (
        (λ lo h small. absurd (unlike (ap last (sym (nothing_left w)) ∙ h))),
        (λ h. ap (λ t. last_bit t bytes start) all_words),
      )
  last_bit-suffix (suc k) w e =
      let (found, skipped) = last_bit-suffix k (w + 1) (omega (arith, e)) in
      let split = values_from-split k w in
      let up : w + 1 ≡ suc w = omega arith in
      elim (nil_or_last (values_from k (w + 1))) [
        | inr (v, l) ↦
            let whole =
              ap last split
              ∙ last-append (ones_from 64 (from_le (take 8 (drop (start + w * 8) bytes))) (w * 64))
                  (values_from k (w + 1)) l in
            (
              (λ lo h small. found lo (l ∙ sym whole ∙ h) small),
              (λ h. absurd (unlike (ap last (sym h) ∙ whole))),
            )
        | inl none_after ↦
            let here =
              split
              ∙ ap (λ t. ones_from 64 (from_le (take 8 (drop (start + w * 8) bytes))) (w * 64) ++ t)
                  none_after
              ∙ append-nil _ in
            let down = skipped none_after ∙ ap (λ t. last_bit t bytes start) up in
            elim (last_bit-step w (omega (arith, e))) [
              | inl (p, hit, (v, high)) ↦ (
                (λ lo h small. down ∙ hit lo (sym (ap last here) ∙ h) small),
                (λ h. absurd (unlike (ap last (sym h ∙ here) ∙ high))),
              )
              | inr (empty, miss) ↦ (
                (λ lo h small. absurd (unlike (ap last (sym (here ∙ empty)) ∙ h))),
                (λ h. down ∙ miss),
              )
            ]
      ]

  -- The loop finds the last value of all the words.
  pub last_bit-word_values :
      (lo : ℕ)
      → last (word_values (cast_slice 8 1024 (take (8 * 1024) (drop start bytes))) 0) ≡ some lo
      → lo < 2 ^ 16
      → last_bit 1024 bytes start ≡ ok lo
  last_bit-word_values lo h small =
      let here : start + 0 * 8 ≡ start = omega arith in
      (last_bit-suffix 1024 0 (omega arith)).0 lo (unfold values_from in rw here h) small
