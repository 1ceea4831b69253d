-- ===== src/Decide/Tests.antt =====
-- Decisions at one key.
use frostbit.Base.{◌≤◌, ◌≡◌, ◌&&◌, ◌||◌, true, false, ltb, leb, arith}
use frostbit.Format.Sizes.{bitmap_bytes}
use frostbit.Decide.{
  UnionKey, flat, DiffLhs, intersect_key, union_key, union_promotes, max_union_fanin, diff_cap,
  diff_key_shape,
}
use frostbit.Decide.Capacity.{
  Fits, HoldsUnion, intersect_key-Fits, union_key-HoldsUnion, diff_key_shape_lem,
}
use frostbit.Decide.Promotion.{profitable, union_promotes_lem}

intersect_key_example : Fits (intersect_key 5000 true 12) 4096
intersect_key_example = intersect_key-Fits 5000 12 4096 true (omega arith)

abbrev three : UnionKey
three = record {
  sum_card = 190;
  total_runs = 7;
  any_bitmap = false;
  all_run = false;
  max_single = 300;
  n = 3;
}

union_key_example : HoldsUnion three (union_key three flat) 150
union_key_example = union_key-HoldsUnion three flat 150 (omega arith) (omega arith)

union_promotes_example :
    union_promotes 3 204 ≡ (ltb max_union_fanin 3 || (leb 2 3 && profitable 3 204))
union_promotes_example = union_promotes_lem 3 204 (omega arith)

abbrev long_run : DiffLhs
long_run = record { card = 6000; typ = 2; runs = 4; stored = 18 }

diff_key_shape_example :
    (diff_cap 6000 18 true ≤ (diff_key_shape long_run true true 9).capacity)
    × (diff_cap 6000 18 false ≤ (diff_key_shape long_run false true 9).capacity)
    × ((diff_key_shape long_run true true 9).capacity ≤ bitmap_bytes)
diff_key_shape_example = diff_key_shape_lem long_run true true 9 (omega arith)
