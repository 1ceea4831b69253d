-- ===== src/Builder/Tests.antt =====
-- Small builds.
use frostbit.Base.{ℕ, ◌*◌, ◌≤◌, ◌≡◌, refl, List, [], ◌∷◌, length, arith}
use frostbit.Base.Exec.{ok, panic, ◌>>=◌}
use frostbit.Format.Sizes.{run_bytes, bitmap_bytes}
use frostbit.Container.Run.{Run, covers}
use frostbit.Container.Lows.{has}
use frostbit.Builder.{Built, Builder, byte_len, build_container, extend_sorted, new, close}
use frostbit.Builder.Build.{Represents, build_container_lem}
use frostbit.Builder.Push.{holds_in}
use frostbit.Builder.Push.Sorted.{extend_sorted_lem, extend_sorted-eq-panic}

abbrev lows : List ℕ
lows = 4 ∷ 5 ∷ 6 ∷ 7 ∷ 90 ∷ []

-- Their runs, split once more than they need be.
abbrev low_runs : List Run
low_runs =
    record { start = 90; len = 0 }
    ∷ record { start = 4; len = 1 }
    ∷ record { start = 6; len = 1 }
    ∷ []

low_runs_cover : (x : ℕ) → covers low_runs x ≡ has lows x
low_runs_cover x = ground arith

build_container_example :
    (built : Built) × (build_container 7 lows ≡ ok built)
    × Represents 7 lows built
    × (byte_len built.data_of ≤ length lows * 2)
    × (byte_len built.data_of ≤ run_bytes (length low_runs))
    × (byte_len built.data_of ≤ bitmap_bytes)
build_container_example =
    build_container_lem 7 lows low_runs
      (
        omega arith,
        omega arith,
        (
          omega arith,
          omega arith,
          (omega arith, omega arith, (omega arith, omega arith, (omega arith, omega arith, tt))),
        ),
      )
      low_runs_cover

-- Values under three keys.
abbrev values : List ℕ
values = 10 ∷ 20 ∷ 70000 ∷ 4294967295 ∷ []

extend_sorted_example :
    (b : Builder) × ((extend_sorted new values >>= close) ≡ ok b)
    × ((x : ℕ) → holds_in b.containers x ≡ has values x)
    × (b.total ≡ length values)
extend_sorted_example =
    extend_sorted_lem values (omega arith, (omega arith, (omega arith, (omega arith, tt)))) refl

extend_sorted-eq-panic_example : extend_sorted new (10 ∷ 70000 ∷ 70000 ∷ []) ≡ panic
extend_sorted-eq-panic_example =
    extend_sorted-eq-panic (10 ∷ 70000 ∷ 70000 ∷ []) (omega arith, (omega arith, (omega arith, tt)))
      refl
