-- ===== src/Builder.antt =====
-- src/api/builder.rs: a bitmap built from values pushed in strictly ascending order, up to the
-- finished containers. `Vec::push` is an append.
pub mod Extract
pub mod Fewest
pub mod Build
pub mod Push
mod Tests
use frostbit.Base.{
  ℕ, ◌+◌, ◌-◌, ◌*◌, ◌/◌, ◌%◌, ◌^◌, bit_and, Bool, true, false, not, ◌&&◌, List, [], ◌∷◌, ◌++◌,
  length, replicate, ltb, leb, ◌==◌, if◌then◌else◌,
}
use frostbit.Base.BitSet.{set_bit}
use frostbit.Base.Exec.{Exec, ok, panic, ◌>>=◌, ◌>>◌, assert}
use frostbit.Container.Run.{Run}
use frostbit.Container.Payload.{Data}
use frostbit.Container.Payload
use frostbit.Format.Sizes.{bitmap_bytes, bitmap_words, run_bytes, ct_array, ct_bitmap, ct_run}

pub data ContainerData : Type 0 where
  array : List ℕ → ContainerData
  bitmap : List ℕ → ContainerData
  run : List Run → ContainerData

pub record Built : Type 0 where
  pub key : ℕ
  pub typ : ℕ
  pub card : ℕ
  pub data_of : ContainerData

pub record Builder : Type 0 where
  pub containers : List Built
  pub cur_key : ℕ
  pub cur : List ℕ
  pub have_cur : Bool
  pub total : ℕ

unfoldable pub view : ContainerData → Data
view (array vals) = Payload.array vals
view (bitmap words) = Payload.bitmap words
view (run runs) = Payload.runs runs

unfoldable pub byte_len : ContainerData → ℕ
byte_len (array vals) = length vals * 2
byte_len (bitmap words) = bitmap_bytes
byte_len (run runs) = run_bytes (length runs)

-- The pairs of neighbours, from `a` on, of which the second does not continue the first.
unfoldable pub breaks_after : ℕ → List ℕ → ℕ
breaks_after a [] = 0
breaks_after a (b ∷ vs) = (if b == (a + 1) % 2 ^ 16 then 0 else 1) + breaks_after b vs

unfoldable pub count_runs : List ℕ → ℕ
count_runs [] = 0
count_runs (v ∷ vs) = 1 + breaks_after v vs

-- The loop of `extract_runs`, its `start` and `prev` threaded.
unfoldable pub extract_loop : ℕ → ℕ → List ℕ → List Run
extract_loop start prev [] = record { start = start; len = prev - start } ∷ []
extract_loop start prev (v ∷ vs) = elim (v == (prev + 1) % 2 ^ 16) [
  | true ↦ extract_loop start v vs
  | false ↦ record { start = start; len = prev - start } ∷ extract_loop v v vs
]

-- `vals[0]` is out of bounds for no values; `run_count` is a capacity alone.
unfoldable pub extract_runs : List ℕ → Exec (List Run)
extract_runs [] = panic
extract_runs (v ∷ vs) = ok (extract_loop v v vs)

-- `words[v / 64] |= 1 << (v % 64)` for each value.
unfoldable pub fill : List ℕ → List ℕ → List ℕ
fill [] words = words
fill (v ∷ vs) words = fill vs (set_bit v words)

unfoldable pub choose : List ℕ → Exec (ℕ × ContainerData)
choose vals =
    let array_cost = length vals * 2 in
    let run_cost = run_bytes (count_runs vals) in
    if leb run_cost array_cost && leb run_cost bitmap_bytes
    then (extract_runs vals >>= λ runs. ok (ct_run, run runs))
    else (if leb array_cost bitmap_bytes
        then ok (ct_array, array vals)
        else ok (ct_bitmap, bitmap (fill vals (replicate bitmap_words 0))))

unfoldable pub build_container : ℕ → List ℕ → Exec Built
build_container key vals = choose vals >>= λ (typ, chosen).
    ok (record { key = key; typ = typ; card = length vals; data_of = chosen })

unfoldable pub new : Builder
new = record { containers = []; cur_key = 0; cur = []; have_cur = false; total = 0 }

unfoldable pub flush : Builder → Exec Builder
flush b = build_container b.cur_key b.cur >>= λ built.
    ok (record b {
      containers = b.containers ++ (built ∷ []);
      cur = [];
      total = b.total + built.card;
    })

-- `*self.cur.last().unwrap()`
unfoldable pub last : List ℕ → Exec ℕ
last [] = panic
last (v ∷ []) = ok v
last (v ∷ w ∷ vs) = last (w ∷ vs)

unfoldable pub push : Builder → ℕ → Exec Builder
push b value =
    let key = value / 2 ^ 16 % 2 ^ 16 in
    let lo = bit_and value 0xFFFF in
    if b.have_cur && key == b.cur_key
    then (last b.cur >>= λ top. assert (ltb top lo) >> ok (record b { cur = b.cur ++ (lo ∷ []) }))
    else ((if b.have_cur then (assert (ltb b.cur_key key) >> flush b) else ok b) >>= λ b.
        ok (record b { cur_key = key; cur = b.cur ++ (lo ∷ []); have_cur = true }))

unfoldable pub extend_sorted : Builder → List ℕ → Exec Builder
extend_sorted b [] = ok b
extend_sorted b (v ∷ vs) = push b v >>= λ b. extend_sorted b vs

-- The flush that `finish` and `finish_standard` start with.
unfoldable pub close : Builder → Exec Builder
close b = if b.have_cur then flush b else ok b
