-- ===== src/Shape/Tests.antt =====
-- Shapes at concrete inputs.
use frostbit.Base.{
  ℕ, ◌*◌, ◌≡◌, ◌&&◌, refl, true, false, List, [], ◌∷◌, map, length, if◌then◌else◌, arith,
}
use frostbit.Format.Sizes.{ct_array, ct_bitmap, ct_run}
use frostbit.Shape.{
  Meta, Shape, intersect_shape, intersect_meta, union_shape_agg, union_meta, diff_shape, diff_meta,
}
use frostbit.Shape.Keys.{From, AllFrom, has_key, all_have, any_has, is_cons}
use frostbit.Shape.Combine.{intersect_shape-has_key, union_shape_agg-has_key}
use frostbit.Shape.Differences.{all_with_key, less, diff_shape_lem}

abbrev array_at : ℕ → ℕ → Meta
array_at key card = record { key = key; capacity = 2 * card; card = card; runs = 0; typ = ct_array }

abbrev bitmap_at : ℕ → Meta
bitmap_at key = record { key = key; capacity = 8192; card = 50000; runs = 0; typ = ct_bitmap }

abbrev run_at : ℕ → Meta
run_at key = record { key = key; capacity = 10; card = 300; runs = 2; typ = ct_run }

abbrev inputs : List Shape
inputs =
    (array_at 1 10 ∷ bitmap_at 2 ∷ run_at 5 ∷ [])
    ∷ (array_at 2 100 ∷ array_at 5 7 ∷ run_at 6 ∷ [])
    ∷ []

inputs_AllFrom : AllFrom 0 inputs
inputs_AllFrom = (
  (omega arith, (omega arith, (omega arith, tt))),
  ((omega arith, (omega arith, (omega arith, tt))), tt),
)

intersect_shape-has_key_example :
    From 0 (intersect_shape inputs)
    × ((k : ℕ) → has_key (intersect_shape inputs) k ≡ (is_cons inputs && all_have inputs k))
intersect_shape-has_key_example = intersect_shape-has_key inputs inputs_AllFrom

union_shape_agg-has_key_example :
    From 0 (union_shape_agg inputs (true ∷ false ∷ [])).0
    × ((k : ℕ) → has_key (union_shape_agg inputs (true ∷ false ∷ [])).0 k ≡ any_has inputs k)
    × (length (union_shape_agg inputs (true ∷ false ∷ [])).1 ≡ (
        if is_cons (true ∷ false ∷ [])
        then length (union_shape_agg inputs (true ∷ false ∷ [])).0
        else 0))
union_shape_agg-has_key_example = union_shape_agg-has_key inputs (true ∷ false ∷ []) inputs_AllFrom

diff_shape_example :
    diff_shape inputs
    ≡ map
        (λ l. less l (all_with_key l.key ((array_at 2 100 ∷ array_at 5 7 ∷ run_at 6 ∷ []) ∷ [])))
        (array_at 1 10 ∷ bitmap_at 2 ∷ run_at 5 ∷ [])
diff_shape_example =
    diff_shape_lem (array_at 1 10 ∷ bitmap_at 2 ∷ run_at 5 ∷ [])
      ((array_at 2 100 ∷ array_at 5 7 ∷ run_at 6 ∷ []) ∷ []) inputs_AllFrom.0 inputs_AllFrom.1

abbrev key_list : Shape → List ℕ
key_list s = map (λ m. m.key) s

intersect_keys : key_list (intersect_shape inputs) ≡ 2 ∷ 5 ∷ []
unfolding intersect_shape intersect_meta
intersect_keys = refl

union_keys : key_list (union_shape_agg inputs []).0 ≡ 1 ∷ 2 ∷ 5 ∷ 6 ∷ []
unfolding union_shape_agg union_meta
union_keys = refl

diff_keys : key_list (diff_shape inputs) ≡ 1 ∷ 2 ∷ 5 ∷ []
unfolding diff_shape diff_meta
diff_keys = refl
