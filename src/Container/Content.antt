-- ===== src/Container/Content.antt =====
-- src/container.rs: what a typed payload holds, and when it is well formed.
use frostbit.Base.{ℕ, ◌%◌, ◌^◌, ◌<◌, ◌≤◌, ◌≡◌, Bool, map, length, ◌==◌}
use frostbit.Base.BitSet.{test_bit, sum_ones}
use frostbit.Format.Sizes.{bitmap_words, max_runs}
use frostbit.Container.Run.{IsRuns, covers, total}
use frostbit.Container.Lows.{LowsFrom, has}
use frostbit.Container.Payload.{Data, array, bitmap, runs, inline, contains}
use frostbit.Container.Payload.Contains.{contains-array, contains-bitmap, contains-runs}

abbrev pub holds : Data → ℕ → Bool
holds (array values) x = has values x
holds (bitmap words) x = test_bit words x == 1
holds (runs rs) x = covers rs x
holds (inline ids) x = has (map (λ v. v % 2 ^ 16) ids) x

-- The payload of a stored container of `card` values: sorted, in range, and as long as it says.
abbrev pub IsSound : ℕ → Data → Type 0
IsSound card (array values) = LowsFrom 0 values × (length values ≡ card)
IsSound card (bitmap words) = (length words ≡ bitmap_words) × (sum_ones words ≡ card)
IsSound card (runs rs) = IsRuns rs × (total rs ≡ card) × (0 < length rs) × (length rs ≤ max_runs)
IsSound card (inline ids) = ⊥

-- On a well-formed payload the probe answers what it holds.
pub contains-holds : (card x : ℕ) (d : Data) → IsSound card d → contains d x ≡ holds d x
contains-holds card x (array values) (a, l) = contains-array values x a
contains-holds card x (bitmap words) s = contains-bitmap words x
contains-holds card x (runs rs) (r, t, p, m) = contains-runs 0 x rs r
contains-holds card x (inline ids) s = absurd s
