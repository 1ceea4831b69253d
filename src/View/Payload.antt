-- ===== src/View/Payload.antt =====
-- src/api/view.rs: `payload_is_valid`, the checks of one container's payload.
pub mod Sound
pub mod SoundRuns
use frostbit.Base.{
  ℕ, ◌+◌, Bool, true, false, not, ◌&&◌, ◌||◌, Option, none, some, List, [], ◌∷◌, length, ltb, leb,
  ◌==◌, if◌then◌else◌,
}
use frostbit.Base.Exec.{Exec, ok, ◌>>=◌}
use frostbit.Base.BitSet.{sum_ones}
use frostbit.Format.Cast.{Castable, try_cast}
use frostbit.Format.Sizes.{ct_array, ct_bitmap, ct_run, max_runs, run_bytes}
use frostbit.Format.Endian.{Bytes, read_u16}
use frostbit.Container.Run.{Run}
use frostbit.Container.Read.{tail, try_cast_runs}

-- `vals.windows(2).all(|w| w[0] < w[1])`
unfoldable pub ascends : List ℕ → Bool
ascends [] = true
ascends (v ∷ []) = true
ascends (v ∷ w ∷ vals) = ltb v w && ascends (w ∷ vals)

abbrev pub start_not_past : Option ℕ → ℕ → Bool
start_not_past none start = false
start_not_past (some prev_end) start = leb start prev_end

-- The loop over the runs: how many values they cover, unless one is out of range or not past the one
-- before. At most 2047 runs cover less than 2 ^ 32.
unfoldable pub runs_total : List Run → Option ℕ → ℕ → Option ℕ
runs_total [] prev_end sum = some sum
runs_total (r ∷ rs) prev_end sum =
    let finish = r.start + r.len in
    let after = runs_total rs (some finish) (sum + (r.len + 1)) in
    if ltb 65535 finish || start_not_past prev_end r.start then none else after

abbrev pub is_sum : Option ℕ → ℕ → Bool
is_sum none card = false
is_sum (some sum) card = sum == card

module _ (castable : Castable) where
  -- The arms of `payload_is_valid`.
  unfoldable pub array_is_valid : ℕ → Bytes → Bool
  unfolding ascends
  array_is_valid addr payload = elim (try_cast castable 2 addr payload) [
    | none ↦ false
    | some vals ↦ ascends vals
  ]

  unfoldable pub bitmap_is_valid : ℕ → Bytes → ℕ → Bool
  unfolding sum_ones
  bitmap_is_valid addr payload card = elim (try_cast castable 8 addr payload) [
    | none ↦ false
    | some words ↦ sum_ones words == card
  ]

  unfoldable pub runs_are_valid : ℕ → Bytes → ℕ → Exec Bool
  unfolding runs_total
  runs_are_valid addr payload card = do
    nr ← read_u16 payload 0
    if nr == 0 || ltb max_runs nr || not (length payload == run_bytes nr) then ok false else do
      pairs ← tail payload 2
      ok (elim (try_cast_runs castable (addr + 2) pairs) [
        | none ↦ false
        | some rs ↦ is_sum (runs_total rs none 0) card
      ])

  -- On a payload that stands at `addr`.
  unfoldable pub payload_is_valid : ℕ → Bytes → ℕ → ℕ → Exec Bool
  unfolding array_is_valid bitmap_is_valid runs_are_valid
  payload_is_valid addr payload typ card =
      if typ == ct_array
      then ok (array_is_valid addr payload)
      else if typ == ct_bitmap
      then ok (bitmap_is_valid addr payload card)
      else if typ == ct_run
      then runs_are_valid addr payload card
      else ok false
