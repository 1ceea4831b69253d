-- ===== src/Container/Run.antt =====
-- src/container.rs: `Run`, one run of consecutive values, and what a list of runs holds.
use frostbit.Base.{ℕ, ◌+◌, ◌%◌, ◌^◌, ◌≤◌, ◌<◌, Bool, false, ◌&&◌, ◌||◌, List, [], ◌∷◌, leb}

pub record Run : Type 0 where
  pub start : ℕ
  pub len : ℕ

-- `Run::end`, in `u16`.
unfoldable pub end : Run → ℕ
end r = (r.start + r.len) % 2 ^ 16

-- The runs ascend from `lo` on, do not overlap, and stay below 2 ^ 16; adjacent runs are allowed.
abbrev pub RunsFrom : ℕ → List Run → Type 0
RunsFrom lo [] = Unit {0}
RunsFrom lo (r ∷ rs) =
    (lo ≤ r.start) × (r.start + r.len < 2 ^ 16) × RunsFrom (r.start + r.len + 1) rs

abbrev pub IsRuns : List Run → Type 0
IsRuns rs = RunsFrom 0 rs

-- Whether a run covers `x`.
abbrev pub covers : List Run → ℕ → Bool
covers [] x = false
covers (r ∷ rs) x = (leb r.start x && leb x (r.start + r.len)) || covers rs x

-- How many values the runs cover, counted run by run.
abbrev pub total : List Run → ℕ
total [] = 0
total (r ∷ rs) = r.len + 1 + total rs
