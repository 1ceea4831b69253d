-- ===== src/Runs.antt =====
-- src/ops/kernels/run.rs: native operations on run containers. The indices `ai`, `bi` stand for
-- the lists that are still to be read; the first `nr` entries of `out` are the runs emitted so far.
pub mod Span
pub mod Emit
pub mod Intersect
pub mod Union
pub mod Diff
mod Tests
use frostbit.Base.{
  ℕ, ◌+◌, ◌-◌, ◌%◌, ◌^◌, min, max, Bool, true, false, List, [], ◌∷◌, ◌++◌, length, ltb, leb,
  if◌then◌else◌,
}
use frostbit.Base.Exec.{Exec, ok, panic, ◌>>=◌}
use frostbit.Container.Run.{Run, end}

-- `run(start, end)`: the casts keep the low 16 bits.
unfoldable pub run : ℕ → ℕ → Run
run start end = record { start = start % 2 ^ 16; len = (end - start) % 2 ^ 16 }

-- What a kernel has written to `out` and counted in `card` (a `u32`).
pub record Output : Type 0 where
  pub runs : List Run
  pub card : ℕ

abbrev pub nothing : Output
nothing = record { runs = []; card = 0 }

-- `out[nr] = run(lo, hi); nr += 1; card += hi - lo + 1`, where `out` has `room` entries.
unfoldable pub emit : ℕ → ℕ → ℕ → Output → Exec Output
emit room lo hi o =
    if ltb (length o.runs) room
    then ok (record { runs = o.runs ++ (run lo hi ∷ []); card = (o.card + (hi - lo + 1)) % 2 ^ 32 })
    else panic

abbrev pub emit_if : Bool → ℕ → ℕ → ℕ → Output → Exec Output
emit_if b room lo hi o = if b then emit room lo hi o else ok o

-- `copy`: `out[..src.len()].copy_from_slice(src)`, and the sum of the `len + 1`.
unfoldable pub sum_card : List Run → ℕ
sum_card [] = 0
sum_card (r ∷ rs) = (r.len + 1 + sum_card rs) % 2 ^ 32

unfoldable pub copy : ℕ → List Run → Exec Output
unfolding sum_card
copy room src =
    if leb (length src) room then ok (record { runs = src; card = sum_card src }) else panic

-- The loop of `intersect`.
intersect_loop : ℕ → List Run → List Run → Output → Exec Output
intersect_loop room [] ys o = ok o
intersect_loop room (a ∷ xs) [] o = ok o
intersect_loop room (a ∷ xs) (b ∷ ys) o =
    let lo = max a.start b.start in
    let hi = min (end a) (end b) in
    emit_if (leb lo hi) room lo hi o >>= λ o'. elim (leb (end a) (end b)) [
      | true ↦ intersect_loop room xs (b ∷ ys) o'
      | false ↦ intersect_loop room (a ∷ xs) ys o'
    ]

unfoldable pub intersect : ℕ → List Run → List Run → Exec Output
unfolding intersect_loop
intersect room a b = intersect_loop room a b nothing

-- One round of `union`'s loop on the next run `ns..=ne`: it joins the run under construction
-- `cs..=ce`, or that one is emitted and replaced; `next` is what follows.
absorb : ℕ → ℕ → ℕ → ℕ → ℕ → Output → (ℕ → ℕ → Output → Exec Output) → Exec Output
absorb room ns ne cs ce o next = elim (leb ns (ce + 1)) [
  | true ↦ next cs (max ce ne) o
  | false ↦ emit room cs ce o >>= λ o'. next ns ne o'
]

-- The loop of `union`: of the two lists the one whose head starts first is read next, and an
-- exhausted list counts as starting at `u32::MAX`. The last run is emitted behind the loop.
union_loop : ℕ → List Run → List Run → ℕ → ℕ → Output → Exec Output
union_loop room [] [] cs ce o = emit room cs ce o
union_loop room (a ∷ xs) [] cs ce o = absorb room a.start (end a) cs ce o (union_loop room xs [])
union_loop room [] (b ∷ ys) cs ce o = absorb room b.start (end b) cs ce o (union_loop room [] ys)
union_loop room (a ∷ xs) (b ∷ ys) cs ce o = elim (leb a.start b.start) [
  | true ↦ absorb room a.start (end a) cs ce o (union_loop room xs (b ∷ ys))
  | false ↦ absorb room b.start (end b) cs ce o (union_loop room (a ∷ xs) ys)
]

unfoldable pub union : ℕ → List Run → List Run → Exec Output
unfolding absorb union_loop
union room [] b = copy room b
union room (a ∷ xs) [] = copy room (a ∷ xs)
union room (a ∷ xs) (b ∷ ys) =
    if leb a.start b.start
    then union_loop room xs (b ∷ ys) a.start (end a) nothing
    else union_loop room (a ∷ xs) ys b.start (end b) nothing

-- `while bi < b.len() && b[bi].end() < lo { bi += 1 }`
skip_below : ℕ → List Run → List Run
skip_below lo [] = []
skip_below lo (b ∷ ys) = if ltb (end b) lo then skip_below lo ys else b ∷ ys

-- The inner loop of `diff` over `b[bj..]`, and the last fragment behind it.
diff_cut : ℕ → ℕ → ℕ → List Run → Output → Exec Output
diff_cut room lo hi [] o = emit_if (leb lo hi) room lo hi o
diff_cut room lo hi (b ∷ ys) o = elim (leb lo hi) [
  | false ↦ ok o
  | true ↦ elim (ltb hi b.start) [
    | true ↦ emit room lo hi o
    | false ↦ emit_if (ltb lo b.start) room lo (b.start - 1) o >>= λ o'.
        diff_cut room (end b + 1) hi ys o'
  ]
]

diff_loop : ℕ → List Run → List Run → Output → Exec Output
diff_loop room [] ys o = ok o
diff_loop room (a ∷ xs) ys o =
    let rest = skip_below a.start ys in
    diff_cut room a.start (end a) rest o >>= λ o'. diff_loop room xs rest o'

unfoldable pub diff : ℕ → List Run → List Run → Exec Output
unfolding skip_below diff_cut diff_loop
diff room a [] = copy room a
diff room a (b ∷ ys) = diff_loop room a (b ∷ ys) nothing

-- `diff_array`: `b` is a list of points.
skip_points : ℕ → List ℕ → List ℕ
skip_points lo [] = []
skip_points lo (v ∷ vs) = if ltb v lo then skip_points lo vs else v ∷ vs

cut_points : ℕ → ℕ → ℕ → List ℕ → Output → Exec Output
cut_points room lo hi [] o = emit_if (leb lo hi) room lo hi o
cut_points room lo hi (v ∷ vs) o = elim (leb lo hi) [
  | false ↦ ok o
  | true ↦ elim (ltb hi v) [
    | true ↦ emit room lo hi o
    | false ↦ emit_if (ltb lo v) room lo (v - 1) o >>= λ o'. cut_points room (v + 1) hi vs o'
  ]
]

diff_array_loop : ℕ → List Run → List ℕ → Output → Exec Output
diff_array_loop room [] vs o = ok o
diff_array_loop room (a ∷ xs) vs o =
    let rest = skip_points a.start vs in
    cut_points room a.start (end a) rest o >>= λ o'. diff_array_loop room xs rest o'

unfoldable pub diff_array : ℕ → List Run → List ℕ → Exec Output
unfolding skip_points cut_points diff_array_loop
diff_array room a [] = copy room a
diff_array room a (v ∷ vs) = diff_array_loop room a (v ∷ vs) nothing
