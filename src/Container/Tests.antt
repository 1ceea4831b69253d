-- ===== src/Container/Tests.antt =====
-- Membership in small payloads.
use frostbit.Base.{◌≡◌, List, [], ◌∷◌, arith}
use frostbit.Container.Run.{Run, covers}
use frostbit.Container.Payload.{runs, contains}
use frostbit.Container.Payload.Contains.{contains-runs}

abbrev two_runs : List Run
two_runs = record { start = 2; len = 3 } ∷ record { start = 9; len = 0 } ∷ []

contains-runs_example : contains (runs two_runs) 5 ≡ covers two_runs 5
contains-runs_example =
    contains-runs 0 5 two_runs (omega arith, omega arith, (omega arith, omega arith, tt))
