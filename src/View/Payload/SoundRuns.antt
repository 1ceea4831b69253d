-- ===== src/View/Payload/SoundRuns.antt =====
-- Runs that `payload_is_valid` accepts are cast to well-formed runs.
use frostbit.Base.{
  ℕ, zero, suc, ◌+◌, ◌/◌, ◌<◌, ◌≤◌, ◌≡◌, refl, ap, ◌∙◌, true, false, Option, none, some, List, [],
  ◌∷◌, length, drop, ltb, ◌==◌, arith, inl, inr, Bool-cases, Option-cases, ==_iff, not, ◌||◌, leb,
  length-drop,
}
use frostbit.Base.Exec.{ok, Exec-cases, ok-injective, ok-ne-panic}
use frostbit.Format.Cast.{Castable}
use frostbit.Format.Sizes.{max_runs, run_bytes}
use frostbit.Format.Endian.{Bytes, read_u16}
use frostbit.Container.Run.{Run, RunsFrom, total}
use frostbit.Container.Payload.{runs}
use frostbit.Container.Content.{IsSound}
use frostbit.Container.Read.{tail, try_cast_runs, runs_of}
use frostbit.View.Payload.{start_not_past, runs_total, is_sum, runs_are_valid}
use frostbit.View.Payload.Sound.{refused}

-- The first place that a run after `prev_end` can start at.
abbrev first : Option ℕ → ℕ
first none = 0
first (some p) = p + 1

runs_total-RunsFrom :
    (rs : List Run) (prev_end : Option ℕ) (sum sum' : ℕ)
    → runs_total rs prev_end sum ≡ some sum'
    → RunsFrom (first prev_end) rs × (sum + total rs ≡ sum')
unfolding runs_total
runs_total-RunsFrom [] prev_end sum sum' e = (tt, ground arith)
runs_total-RunsFrom (r ∷ rs) prev_end sum sum' e = elim (Bool-cases (ltb 65535 (r.start + r.len))) [
  | inl y ↦ absurd (clash (rw y at e))
  | inr n ↦ elim (Bool-cases (start_not_past prev_end r.start)) [
    | inl y ↦ absurd (clash (rw (n, y) at e))
    | inr m ↦
        let (f, s) =
          runs_total-RunsFrom rs (some (r.start + r.len)) (sum + (r.len + 1)) sum'
            (rw (n, m) at e) in
        ((past prev_end m, ground (arith, n), f), omega (arith, s))
  ]
]
  where
    clash : none ≡ some sum' → ⊥
    clash p = cc

    past : (prev : Option ℕ) → start_not_past prev r.start ≡ false → first prev ≤ r.start
    past none m = omega arith
    past (some p) m = ground (arith, m)

pub length-runs_of : (n : ℕ) (bytes : Bytes) → length (runs_of n bytes) ≡ n
unfolding runs_of
length-runs_of zero bytes = refl
length-runs_of (suc n) bytes = ap suc (length-runs_of n (drop 4 bytes))

try_cast_runs-length :
    (castable : Castable) (addr : ℕ) (bytes : Bytes) {rs : List Run}
    → try_cast_runs castable addr bytes ≡ some rs
    → length rs ≡ length bytes / 4
unfolding try_cast_runs
try_cast_runs-length castable addr bytes e = elim (Bool-cases (castable 2 4 addr (length bytes))) [
  | inl y ↦
      rw (some-injective (rw (try_cast_runs, y) at e)) at (length-runs_of (length bytes / 4) bytes)
  | inr n ↦ absurd (clash (rw (try_cast_runs, n) at e))
]
  where
    clash : {rs : List Run} → none ≡ some rs → ⊥
    clash p = cc

    some-injective : {a b : List Run} → some a ≡ some b → a ≡ b
    some-injective p = cc

module _ (castable : Castable) (addr card : ℕ) (payload : Bytes) where
  -- What the checks of a run container have seen, from the count `nr` to the runs.
  pub record RunsSeen (nr : ℕ) (rs : List Run) : Type 0 where
    pub count_read : read_u16 payload 0 ≡ ok nr
    pub long : length payload ≡ run_bytes nr
    pub cast : try_cast_runs castable (addr + 2) (drop 2 payload) ≡ some rs
    pub sound : IsSound card (runs rs)

  seen :
      (nr : ℕ) (rs : List Run)
      → read_u16 payload 0 ≡ ok nr
      → length payload ≡ run_bytes nr
      → 0 < nr
      → nr ≤ max_runs
      → try_cast_runs castable (addr + 2) (drop 2 payload) ≡ some rs
      → is_sum (runs_total rs none 0) card ≡ true
      → RunsSeen nr rs
  seen nr rs c l p m t e = record {
    count_read = c;
    long = l;
    cast = t;
    sound = elim (Option-cases (runs_total rs none 0)) [
      | inl n ↦ absurd (refused (rw n at e))
      | inr (sum, y) ↦
          let (f, s) = runs_total-RunsFrom rs none 0 sum y in
          let many : length rs ≡ nr =
            try_cast_runs-length castable (addr + 2) (drop 2 payload) t ∙ quarter in
          (
            f,
            omega (arith, s, (==_iff sum card).0 (rw y at e)),
            omega (arith, many),
            omega (arith, many),
          )
    ];
  }
    where
      quarter : length (drop 2 payload) / 4 ≡ nr
      quarter = omega (arith, length-drop 2 payload)

  pub runs-IsSound :
      runs_are_valid castable addr payload card ≡ ok true
      → (nr : ℕ) × (rs : List Run) × RunsSeen nr rs
  unfolding runs_are_valid tail
  runs-IsSound e = elim (Exec-cases (read_u16 payload 0)) [
    | inl p ↦ absurd (ok-ne-panic (rw p at e))
    | inr (nr, c) ↦
        elim (Bool-cases (nr == 0 || ltb max_runs nr || not (length payload == run_bytes nr))) [
          | inl y ↦ absurd (refused (ok-injective (rw (c, y) at e)))
          | inr n ↦
              let l : length payload ≡ run_bytes nr = ground (arith, n) in
              let room : leb 2 (length payload) ≡ true = ground (arith, l) in
              elim (Option-cases (try_cast_runs castable (addr + 2) (drop 2 payload))) [
                | inl o ↦ absurd (refused (ok-injective (rw (c, n, room, o) at e)))
                | inr (rs, t) ↦ (
                  nr,
                  rs,
                  seen nr rs c l (ground (arith, n)) (ground (arith, n)) t
                      (ok-injective (rw (c, n, room, t) at e)),
                )
              ]
        ]
  ]
