-- ===== src/Builder/Build.antt =====
-- src/api/builder.rs: what `build_container` returns.
use frostbit.Base.{
  ℕ, ◌*◌, ◌/◌, ◌%◌, ◌≤◌, ◌≡◌, refl, ap, ◌∙◌, min, Bool, true, false, ◌&&◌, ◌||◌, List, [], ◌∷◌,
  length, replicate, length-replicate, leb, ◌==◌, if◌then◌else◌, arith, inl, inr, Bool-cases,
}
use frostbit.Base.Bits.{bit, bit-zero}
use frostbit.Base.BitSet.{get_or-replicate}
use frostbit.Base.Exec.{ok}
use frostbit.Format.Sizes.{bitmap_bytes, bitmap_words, run_bytes, ct_array, ct_bitmap, ct_run}
use frostbit.Container.Run.{Run, covers}
use frostbit.Container.Lows.{LowsFrom, has}
use frostbit.Container.Payload.{contains}
use frostbit.Container.Payload
use frostbit.Container.Payload.Contains.{contains-array, contains-bitmap, contains-runs}
use frostbit.Builder.{
  ContainerData, array, bitmap, run, Built, view, byte_len, count_runs, extract_loop, extract_runs,
  fill, choose, build_container,
}
use frostbit.Builder.Fewest.{count_runs-least}
use frostbit.Builder.Extract.{
  covers-extract_loop, extract_loop-RunsFrom, length-extract_loop, test_bit-fill,
}

-- The container type code of a representation.
abbrev pub type_code : ContainerData → ℕ
type_code (array vals) = ct_array
type_code (bitmap words) = ct_bitmap
type_code (run runs) = ct_run

-- The cheapest of the three encodings of `vals`, in bytes, as `choose` weighs them.
abbrev pub least_cost : List ℕ → ℕ
least_cost vals = min (length vals * 2) (min (run_bytes (count_runs vals)) bitmap_bytes)

-- The representation answers as the sorted list does, with its own type code and at least cost.
abbrev pub Encodes : List ℕ → ℕ × ContainerData → Type 0
Encodes vals (typ, d) =
    (typ ≡ type_code d)
    × (byte_len d ≡ least_cost vals)
    × ((x : ℕ) → contains (view d) x ≡ has vals x)

Encodes-array :
    (vals : List ℕ)
    → LowsFrom 0 vals
    → length vals * 2 ≤ bitmap_bytes
    → length vals * 2 ≤ run_bytes (count_runs vals)
    → Encodes vals (ct_array, array vals)
unfolding byte_len view
Encodes-array vals f a b = (refl, omega (arith, a, b), λ x. contains-array vals x f)

one_or_zero : (b : Bool) → ((if b then 1 else 0) == 1) ≡ b
one_or_zero true = refl
one_or_zero false = refl

Encodes-bitmap :
    (vals : List ℕ)
    → LowsFrom 0 vals
    → bitmap_bytes ≤ length vals * 2
    → bitmap_bytes ≤ run_bytes (count_runs vals)
    → Encodes vals (ct_bitmap, bitmap (fill vals (replicate bitmap_words 0)))
unfolding byte_len view
Encodes-bitmap vals f a b = (refl, omega (arith, a, b), holds)
  where
    zeros : List ℕ
    zeros = replicate bitmap_words 0

    holds : (x : ℕ) → contains (Payload.bitmap (fill vals zeros)) x ≡ has vals x
    holds x =
        contains-bitmap (fill vals zeros) x
        ∙ ap (λ t. t == 1)
            (test_bit-fill 0 x vals zeros f (length-replicate {A = ℕ} bitmap_words 0))
        ∙ ap (λ t. (if has vals x then 1 else t) == 1)
            (ap (λ w. bit w (x % 64)) (get_or-replicate bitmap_words (x / 64)) ∙ bit-zero (x % 64))
        ∙ one_or_zero (has vals x)

between : (v x : ℕ) → (leb v x && leb x v) ≡ (v == x)
between v x = ground arith

Encodes-run :
    (v : ℕ) (vs : List ℕ)
    → LowsFrom 0 (v ∷ vs)
    → run_bytes (count_runs (v ∷ vs)) ≤ length (v ∷ vs) * 2
    → run_bytes (count_runs (v ∷ vs)) ≤ bitmap_bytes
    → Encodes (v ∷ vs) (ct_run, run (extract_loop v v vs))
unfolding byte_len view count_runs
Encodes-run v vs (a, b, c) p q = (refl, omega (arith, p, q, length-extract_loop v v vs), holds)
  where
    rs : List Run
    rs = extract_loop v v vs

    holds : (x : ℕ) → contains (Payload.runs rs) x ≡ has (v ∷ vs) x
    holds x =
        contains-runs 0 x rs (extract_loop-RunsFrom 0 v v vs (omega arith) (omega arith) b c)
        ∙ covers-extract_loop v v x vs (omega arith) c
        ∙ ap (λ t. t || has vs x) (between v x)

-- The guard of the run encoding, for values that are not none.
choose-run :
    (v : ℕ) (vs : List ℕ)
    → (leb (run_bytes (count_runs (v ∷ vs))) (length (v ∷ vs) * 2)
        && leb (run_bytes (count_runs (v ∷ vs))) bitmap_bytes)
      ≡ true
    → choose (v ∷ vs) ≡ ok (ct_run, run (extract_loop v v vs))
unfolding choose extract_runs
choose-run v vs e = rw e refl

both : (a b c : ℕ) → (leb a b && leb a c) ≡ true → (a ≤ b) × (a ≤ c)
both a b c e = (ground (arith, e), ground (arith, e))

choose_lem :
    (vals : List ℕ)
    → LowsFrom 0 vals
    → (c : ℕ × ContainerData) × (choose vals ≡ ok c) × Encodes vals c
unfolding choose count_runs
choose_lem [] f = ((ct_array, array []), refl, Encodes-array [] f (omega arith) (omega arith))
choose_lem (v ∷ vs) f =
    elim (Bool-cases (
      leb (run_bytes (count_runs (v ∷ vs))) (length (v ∷ vs) * 2)
      && leb (run_bytes (count_runs (v ∷ vs))) bitmap_bytes)) [
        | inl y ↦
            let (p, q) =
              both (run_bytes (count_runs (v ∷ vs))) (length (v ∷ vs) * 2) bitmap_bytes y in
            ((ct_run, run (extract_loop v v vs)), choose-run v vs y, Encodes-run v vs f p q)
        | inr n ↦ elim (Bool-cases (leb (length (v ∷ vs) * 2) bitmap_bytes)) [
          | inl y ↦ (
            (ct_array, array (v ∷ vs)),
            rw (n, y) refl,
            Encodes-array (v ∷ vs) f (ground (arith, y)) (ground (arith, n, y)),
          )
          | inr m ↦ (
            (ct_bitmap, bitmap (fill (v ∷ vs) (replicate bitmap_words 0))),
            rw (n, m) refl,
            Encodes-bitmap (v ∷ vs) f (ground (arith, m)) (ground (arith, n, m)),
          )
        ]
      ]

-- `built` is container `key` of the values `vals`.
abbrev pub Represents : ℕ → List ℕ → Built → Type 0
Represents key vals built =
    (built.key ≡ key) × (built.card ≡ length vals) × Encodes vals (built.typ, built.data_of)

pub build_container-Represents :
    (key : ℕ) (vals : List ℕ)
    → LowsFrom 0 vals
    → (built : Built) × (build_container key vals ≡ ok built) × Represents key vals built
unfolding build_container
build_container-Represents key vals f =
    let ((typ, d), e, enc) = choose_lem vals f in
    (record { key = key; typ = typ; card = length vals; data_of = d }, rw e refl, (refl, refl, enc))

-- From any ascending list of `u16` values, `build_container` returns, without a panic, a container
-- of the given key and of the list's length, whose type code is its representation's, which contains
-- exactly the listed values, and whose payload is no longer than the list of the values, no longer
-- than the encoding of whatever runs cover exactly these values, and no longer than a bitmap.
pub build_container_lem :
    (key : ℕ) (vals : List ℕ) (rs : List Run)
    → LowsFrom 0 vals
    → ((x : ℕ) → covers rs x ≡ has vals x)
    → (built : Built) × (build_container key vals ≡ ok built)
      × Represents key vals built
      × (byte_len built.data_of ≤ length vals * 2)
      × (byte_len built.data_of ≤ run_bytes (length rs))
      × (byte_len built.data_of ≤ bitmap_bytes)
build_container_lem key vals rs f same =
    let (built, e, rep) = build_container-Represents key vals f in
    let (t, cost, holds) = rep.2 in
    let few = count_runs-least vals rs f same in
    (built, e, rep, omega (arith, cost), omega (arith, cost, few), omega (arith, cost))
