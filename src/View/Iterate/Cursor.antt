-- ===== src/View/Iterate/Cursor.antt =====
-- What a cursor over one container yields.
use frostbit.Base.{
  ℕ, zero, suc, ◌+◌, ◌-◌, ◌*◌, ◌^◌, ◌<◌, ◌≤◌, ◌≡◌, refl, sym, ap, ◌∙◌, true, false, bit_and, Option,
  none, some, List, [], ◌∷◌, ◌++◌, length, take, drop, ltb, leb, arith, drop-drop,
}
use frostbit.Base.Exec.{Exec, ok}
use frostbit.Base.Ones.{trailing_zeros, ones_from, ones_from-zero, ones_from-step, bit_and-le}
use frostbit.Format.Cast.{cast_slice}
use frostbit.Format.Endian.{Bytes, from_le, read_u16, read_u64}
use frostbit.Format.Endian.Laws.{slice-ok}
use frostbit.Format.Endian.Bounds.{AreBytes, drop-AreBytes, from_le-u64}
use frostbit.Format.Index.Borrow.{cast_slice-cons}
use frostbit.Container.Read.{runs_of}
use frostbit.Container.Elements.{count_up, run_values, word_values}
use frostbit.View.Iterate.{Cont, array, bitmap, run, Next, next_bit, next_run, next_lo}

-- `next_lo` gives these values, one by one, and then none.
pub data Yields (bytes : Bytes) : Cont → List ℕ → Type 0 where
  stop : (c c' : Cont) → next_lo bytes c ≡ ok (none, c') → Yields bytes c []
  step :
      (c c' : Cont) (v : ℕ) (vs : List ℕ)
      → next_lo bytes c ≡ ok (some v, c')
      → Yields bytes c' vs
      → Yields bytes c (v ∷ vs)

-- A cursor that takes its next step as another does yields the same.
pub same_step :
    (bytes : Bytes) (c : Cont) {d : Cont} {vs : List ℕ}
    → next_lo bytes c ≡ next_lo bytes d
    → Yields bytes d vs
    → Yields bytes c vs
same_step bytes c e (stop d d' h) = stop c d' (e ∙ h)
same_step bytes c e (step d d' v ws h y) = step c d' v ws (e ∙ h) y

module _ (bytes : Bytes) (start : ℕ) where
  pub array-Yields :
      (k i card : ℕ)
      → i + k ≡ card
      → start + card * 2 ≤ length bytes
      → Yields bytes
          (array start card i)
          (cast_slice 2 k (take (2 * k) (drop (start + i * 2) bytes)))
  unfolding next_lo read_u16
  array-Yields zero i card e room =
      let over : leb card i ≡ true = ground (arith, e) in
      unfold cast_slice in stop (array start card i) (array start card i) (rw over refl)
  array-Yields (suc k) i card e room =
      let off = start + i * 2 in
      let under : leb card i ≡ false = ground (arith, e) in
      let next : start + (i + 1) * 2 ≡ off + 2 = omega arith in
      rw (cast_slice-cons 2 k off bytes) (
        step (array start card i) (array start card (i + 1)) (from_le (take 2 (drop off bytes)))
          (cast_slice 2 k (take (2 * k) (drop (off + 2) bytes)))
          (rw (under, slice-ok bytes off 2 (omega (arith, e))) refl)
          (rw next at (array-Yields k (i + 1) card (omega (arith, e)) room)))

  -- The current run first, then those that follow.
  pub run-Yields :
      (k ri nr cur finish m : ℕ)
      → ri + 1 + k ≡ nr
      → cur + m ≡ finish + 1
      → start + 2 + nr * 4 ≤ length bytes
      → Yields bytes
          (run start nr ri cur finish)
          (count_up m cur ++ run_values (runs_of k (drop (start + 2 + (ri + 1) * 4) bytes)))
  unfolding next_lo next_run read_u16 runs_of
  run-Yields zero ri nr cur finish zero e f room =
      let through : ltb finish cur ≡ true = ground (arith, f) in
      let over : leb nr (ri + 1) ≡ true = ground (arith, e) in
      stop (run start nr ri cur finish) (run start nr (ri + 1) cur finish) (rw (through, over) refl)
  run-Yields (suc k) ri nr cur finish zero e f room =
      let off = start + 2 + (ri + 1) * 4 in
      let r = from_le (take 2 (drop off bytes)) in
      let l = from_le (take 2 (drop (off + 2) bytes)) in
      let through : ltb finish cur ≡ true = ground (arith, f) in
      let under : leb nr (ri + 1) ≡ false = ground (arith, e) in
      let inside : ltb (r + l) r ≡ false = ground arith in
      let after : off + 4 ≡ start + 2 + (ri + 1 + 1) * 4 = omega arith in
      let loaded : next_lo bytes (run start nr ri cur finish)
          ≡ next_lo bytes (run start nr (ri + 1) r (r + l)) =
        rw
          (
            through,
            under,
            slice-ok bytes off 2 (omega (arith, e)),
            slice-ok bytes (off + 2) 2 (omega (arith, e)),
            inside,
          )
          refl in
      let y = run-Yields k (ri + 1) nr r (r + l) (l + 1) (omega (arith, e)) (omega arith) room in
      same_step bytes (run start nr ri cur finish) {d = run start nr (ri + 1) r (r + l)} loaded
        (rw (drop-drop 2 off bytes, drop-drop 4 off bytes, after) y)
  run-Yields k ri nr cur finish (suc m) e f room =
      let under : ltb finish cur ≡ false = ground (arith, f) in
      step (run start nr ri cur finish) (run start nr ri (cur + 1) finish) cur
        (count_up m (cur + 1) ++ run_values (runs_of k (drop (start + 2 + (ri + 1) * 4) bytes)))
        (rw under refl) (run-Yields k ri nr (cur + 1) finish m e (omega (arith, f)) room)

  -- Every bit of the current word first, then those of the words that follow.
  pub bitmap-Yields :
      (k wi word : ℕ) (bits : List ℕ)
      → wi + 1 + k ≡ 1024
      → word < 2 ^ 64
      → AreBytes bytes
      → start + 8192 ≤ length bytes
      → ones_from 64 word (wi * 64) ≡ bits
      → Yields bytes (bitmap start wi word) (
          bits
          ++ word_values
              (cast_slice 8 k (take (8 * k) (drop (start + (wi + 1) * 8) bytes)))
              (wi + 1))
  unfolding next_lo next_bit read_u64
  bitmap-Yields zero wi zero [] e w are room b =
      let rounds : 1024 - wi ≡ 1 = omega arith in
      let over : leb 1024 (wi + 1) ≡ true = ground (arith, e) in
      unfold cast_slice in
      stop (bitmap start wi 0) (bitmap start (wi + 1) 0) (rw (rounds, over) refl)
  bitmap-Yields (suc k) wi zero [] e w are room b =
      let off = start + (wi + 1) * 8 in
      let word = from_le (take 8 (drop off bytes)) in
      let rounds : 1024 - wi ≡ suc (suc k) = omega arith in
      let fewer : 1024 - (wi + 1) ≡ suc k = omega arith in
      let under : leb 1024 (wi + 1) ≡ false = ground (arith, e) in
      let after : off + 8 ≡ start + (wi + 1 + 1) * 8 = omega arith in
      let loaded : next_lo bytes (bitmap start wi 0) ≡ next_lo bytes (bitmap start (wi + 1) word) =
        rw (rounds, fewer, under, slice-ok bytes off 8 (omega (arith, e))) refl in
      rw (cast_slice-cons 8 k off bytes) (
        same_step bytes (bitmap start wi 0) {d = bitmap start (wi + 1) word} loaded (
          rw after (
            bitmap-Yields k (wi + 1) word (ones_from 64 word ((wi + 1) * 64)) (omega (arith, e))
              (from_le-u64 (drop off bytes) (drop-AreBytes off bytes are)) are room refl)))
  bitmap-Yields k wi zero (v ∷ vs) e w are room b =
      absurd (clash (sym (ones_from-zero 64 (wi * 64)) ∙ b))
    where
      clash : [] ≡ v ∷ vs → ⊥
      clash p = cc
  bitmap-Yields k wi (suc word) [] e w are room b =
      absurd (clash (sym b ∙ ones_from-step 64 (suc word) (wi * 64) (omega arith) w))
    where
      clash : {v : ℕ} {vs : List ℕ} → [] ≡ v ∷ vs → ⊥
      clash p = cc
  bitmap-Yields k wi (suc word) (v ∷ vs) e w are room b =
      let cleared = bit_and (suc word) (suc word - 1) in
      let rounds : 1024 - wi ≡ suc k = omega arith in
      let some_bit : ltb 0 (suc word) ≡ true = ground arith in
      let split = sym (ones_from-step 64 (suc word) (wi * 64) (omega arith) w) ∙ b in
      let first : some v ≡ some (wi * 64 + trailing_zeros 64 (suc word)) = head_of (sym split) in
      step (bitmap start wi (suc word)) (bitmap start wi cleared) v
        (vs
          ++ word_values (cast_slice 8 k (take (8 * k) (drop (start + (wi + 1) * 8) bytes)))
              (wi + 1))
        (rw (rounds, some_bit) (emitted (sym first)))
        (bitmap-Yields k wi cleared vs e
          (omega (arith, bit_and-le (suc (suc word)) (suc word) (suc word - 1) (omega arith))) are
          room (tail_of split))
    where
      found : Option ℕ → Cont → Exec Next
      found t c = ok (t, c)

      emitted : {t u : Option ℕ} {c : Cont} → t ≡ u → found t c ≡ found u c
      emitted {c = c} p = ap (λ (t : Option ℕ). found t c) p

      head_of : {a b : ℕ} {xs ys : List ℕ} → a ∷ xs ≡ b ∷ ys → some a ≡ some b
      head_of p = cc

      tail_of : {a b : ℕ} {xs ys : List ℕ} → a ∷ xs ≡ b ∷ ys → xs ≡ ys
      tail_of p = cc
