-- ===== src/Container/Payload.antt =====
-- src/container.rs: `Data`, the typed view of a payload, and `Data::contains`.
pub mod Contains
use frostbit.Base.{
  ℕ, zero, suc, ◌+◌, ◌-◌, ◌*◌, ◌/◌, ◌%◌, ◌^◌, bit_and, Bool, true, false, ◌&&◌, Option, none, some,
  List, [], ◌∷◌, length, get_elem?, get_or, map, ltb, leb, ◌==◌, if◌then◌else◌,
}
use frostbit.Base.Search.{binary_search}
use frostbit.Container.Run.{Run, end}

pub data Data : Type 0 where
  array : List ℕ → Data
  bitmap : List ℕ → Data
  runs : List Run → Data
  inline : List ℕ → Data

abbrev pub is_some : Option ℕ → Bool
is_some none = false
is_some (some i) = true

-- `runs.partition_point(|r| r.start <= lo)`: how many runs at the front start at `lo` or before.
partition_point : List Run → ℕ → ℕ
partition_point [] lo = 0
partition_point (r ∷ rs) lo = if leb r.start lo then suc (partition_point rs lo) else 0

run_at : List Run → ℕ → Run
run_at [] i = record { start = 0; len = 0 }
run_at (r ∷ rs) zero = r
run_at (r ∷ rs) (suc i) = run_at rs i

-- `Data::contains`. The bitmap's word index is below 1024 for a `u16`.
unfoldable pub contains : Data → ℕ → Bool
unfolding partition_point run_at
contains (array a) lo = is_some (binary_search a lo)
contains (bitmap b) lo = bit_and (get_or b (lo / 64) 0 / 2 ^ (lo % 64)) 1 == 1
contains (runs rs) lo = let i = partition_point rs lo in ltb 0 i && leb lo (end (run_at rs (i - 1)))
contains (inline ids) lo = is_some (binary_search (map (λ v. v % 2 ^ 16) ids) lo)
