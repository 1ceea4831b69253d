-- ===== src/Runs/Tests.antt =====
-- The run kernels on two small run lists.
use frostbit.Base.{ℕ, ◌+◌, ◌&&◌, ◌||◌, not, List, [], ◌∷◌, ◌≡◌, refl, length, arith}
use frostbit.Base.Exec.{ok}
use frostbit.Container.Run.{Run, IsRuns, covers}
use frostbit.Container.Lows.{LowsFrom, has}
use frostbit.Runs.{intersect, union, diff, diff_array}
use frostbit.Runs.Emit.{Delivers}
use frostbit.Runs.Intersect.{intersect_lem}
use frostbit.Runs.Union.{union_lem}
use frostbit.Runs.Diff.Loop.{diff_lem, diff_array_lem}

abbrev run_of : ℕ → ℕ → Run
run_of start len = record { start = start; len = len }

abbrev left : List Run
left = run_of 2 7 ∷ run_of 20 0 ∷ run_of 65500 35 ∷ []

abbrev right : List Run
right = run_of 0 3 ∷ run_of 5 1 ∷ run_of 10 10 ∷ []

abbrev points : List ℕ
points = 2 ∷ 5 ∷ 20 ∷ []

left-IsRuns : IsRuns left
left-IsRuns = (omega arith, omega arith, (omega arith, omega arith, (omega arith, omega arith, tt)))

right-IsRuns : IsRuns right
right-IsRuns =
    (omega arith, omega arith, (omega arith, omega arith, (omega arith, omega arith, tt)))

points-LowsFrom : LowsFrom 0 points
points-LowsFrom =
    (omega arith, omega arith, (omega arith, omega arith, (omega arith, omega arith, tt)))

intersect_run :
    intersect 6 left right
    ≡ ok (record { runs = run_of 2 1 ∷ run_of 5 1 ∷ run_of 20 0 ∷ []; card = 5 })
unfolding intersect frostbit.Container.Run.end frostbit.Runs.emit frostbit.Runs.run
intersect_run = refl

intersect_example :
    Delivers
      (intersect 6 left right)
      (length left + length right)
      (λ x. covers left x && covers right x)
intersect_example = intersect_lem 6 left right left-IsRuns right-IsRuns (omega arith)

union_example :
    Delivers
      (union 6 left right)
      (length left + length right)
      (λ x. covers left x || covers right x)
union_example = union_lem 6 left right left-IsRuns right-IsRuns (omega arith)

diff_example :
    Delivers
      (diff 6 left right)
      (length left + length right)
      (λ x. covers left x && not (covers right x))
diff_example = diff_lem 6 left right left-IsRuns right-IsRuns (omega arith)

diff_array_example :
    Delivers
      (diff_array 6 left points)
      (length left + length points)
      (λ x. covers left x && not (has points x))
diff_array_example = diff_array_lem 6 left points left-IsRuns points-LowsFrom (omega arith)
