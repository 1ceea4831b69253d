-- ===== src/Container/Elements.antt =====
-- src/container.rs: the lows of a typed payload, one by one.
pub mod Order
pub mod Members
use frostbit.Base.{ℕ, zero, suc, ◌+◌, ◌*◌, ◌%◌, ◌^◌, List, [], ◌∷◌, ◌++◌, map}
use frostbit.Base.Ones.{ones_from}
use frostbit.Container.Run.{Run}
use frostbit.Container.Payload.{Data, array, bitmap, runs, inline}

abbrev pub count_up : ℕ → ℕ → List ℕ
count_up zero v = []
count_up (suc n) v = v ∷ count_up n (v + 1)

abbrev pub run_values : List Run → List ℕ
run_values [] = []
run_values (r ∷ rs) = count_up (r.len + 1) r.start ++ run_values rs

-- The bits of the words, the first of which holds the values from `64 * w` on.
abbrev pub word_values : List ℕ → ℕ → List ℕ
word_values [] w = []
word_values (word ∷ words) w = ones_from 64 word (w * 64) ++ word_values words (w + 1)

abbrev pub lows : Data → List ℕ
lows (array values) = values
lows (bitmap words) = word_values words 0
lows (runs rs) = run_values rs
lows (inline ids) = map (λ v. v % 2 ^ 16) ids
