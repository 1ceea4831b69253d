-- ===== src/Container/Elements/Order.antt =====
-- The lows of a well-formed payload ascend, and there are as many as its cardinality says.
use frostbit.Base.{
  ℕ, zero, suc, ◌+◌, ◌*◌, ◌/◌, ◌%◌, ◌≤◌, ◌≡◌, refl, ap, ◌∙◌, List, [], ◌∷◌, ◌++◌, length,
  length-append, ◌==◌, arith, inl, inr, Bool-cases,
}
use frostbit.Base.BitSet.{sum_ones}
use frostbit.Base.Ones.{ones_from, length-ones_from}
use frostbit.Container.Run.{Run, RunsFrom, total}
use frostbit.Container.Lows.{LowsFrom, LowsFrom-weaken}
use frostbit.Container.Payload.{Data, array, bitmap, runs, inline}
use frostbit.Container.Content.{IsSound}
use frostbit.Container.Elements.{count_up, run_values, word_values, lows}

count_up-LowsFrom :
    (n v k : ℕ) (ys : List ℕ)
    → k ≤ v
    → v + n ≤ 65536
    → LowsFrom (v + n) ys
    → LowsFrom k (count_up n v ++ ys)
count_up-LowsFrom zero v k ys h room f = LowsFrom-weaken (v + 0) k ys (omega arith) f
count_up-LowsFrom (suc n) v k ys h room f =
    let e : v + suc n ≡ v + 1 + n = omega arith in
    (h, omega arith, count_up-LowsFrom n (v + 1) (v + 1) ys (omega arith) (omega arith) (rw e at f))

run_values-LowsFrom : (k : ℕ) (rs : List Run) → RunsFrom k rs → LowsFrom k (run_values rs)
run_values-LowsFrom k [] f = tt
run_values-LowsFrom k (r ∷ rs) (a, b, f) =
    let e : r.start + r.len + 1 ≡ r.start + (r.len + 1) = omega arith in
    count_up-LowsFrom (r.len + 1) r.start k (run_values rs) a (omega arith)
      (rw e at (run_values-LowsFrom (r.start + r.len + 1) rs f))

ones_from-LowsFrom :
    (digits word off k : ℕ) (ys : List ℕ)
    → k ≤ off
    → off + digits ≤ 65536
    → LowsFrom (off + digits) ys
    → LowsFrom k (ones_from digits word off ++ ys)
unfolding ones_from
ones_from-LowsFrom zero word off k ys h room f = LowsFrom-weaken (off + 0) k ys (omega arith) f
ones_from-LowsFrom (suc digits) word off k ys h room f =
    let e : off + suc digits ≡ off + 1 + digits = omega arith in
    let after = rw e at f in
    elim (Bool-cases (word % 2 == 1)) [
      | inl y ↦ rw y (
        h,
        omega arith,
        ones_from-LowsFrom digits (word / 2) (off + 1) (off + 1) ys (omega arith) (omega arith)
            after,
      )
      | inr n ↦
          rw n
            (ones_from-LowsFrom digits (word / 2) (off + 1) k ys (omega arith) (omega arith) after)
    ]

word_values-LowsFrom :
    (words : List ℕ) (w k : ℕ)
    → w + length words ≤ 1024
    → k ≤ w * 64
    → LowsFrom k (word_values words w)
word_values-LowsFrom [] w k room h = tt
word_values-LowsFrom (word ∷ words) w k room h =
    ones_from-LowsFrom 64 word (w * 64) k (word_values words (w + 1)) h (omega arith)
      (word_values-LowsFrom words (w + 1) (w * 64 + 64) (omega arith) (omega arith))

pub lows-LowsFrom : (card : ℕ) (d : Data) → IsSound card d → LowsFrom 0 (lows d)
lows-LowsFrom card (array values) (f, l) = f
lows-LowsFrom card (bitmap words) (l, t) =
    word_values-LowsFrom words 0 0 (omega (arith, l)) (omega arith)
lows-LowsFrom card (runs rs) (f, t, p, m) = run_values-LowsFrom 0 rs f
lows-LowsFrom card (inline ids) s = absurd s

length-count_up : (n v : ℕ) → length (count_up n v) ≡ n
length-count_up zero v = refl
length-count_up (suc n) v = ap suc (length-count_up n (v + 1))

length-run_values : (rs : List Run) → length (run_values rs) ≡ total rs
length-run_values [] = refl
length-run_values (r ∷ rs) = omega (
  arith,
  length-append (count_up (r.len + 1) r.start) (run_values rs),
  length-count_up (r.len + 1) r.start,
  length-run_values rs,
)

length-word_values : (words : List ℕ) (w : ℕ) → length (word_values words w) ≡ sum_ones words
unfolding sum_ones
length-word_values [] w = refl
length-word_values (word ∷ words) w = omega (
  arith,
  length-append (ones_from 64 word (w * 64)) (word_values words (w + 1)),
  length-ones_from 64 word (w * 64),
  length-word_values words (w + 1),
)

pub length-lows : (card : ℕ) (d : Data) → IsSound card d → length (lows d) ≡ card
length-lows card (array values) (f, l) = l
length-lows card (bitmap words) (l, t) = length-word_values words 0 ∙ t
length-lows card (runs rs) (f, t, p, m) = length-run_values rs ∙ t
length-lows card (inline ids) s = absurd s
