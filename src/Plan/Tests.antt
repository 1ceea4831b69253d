-- ===== src/Plan/Tests.antt =====
-- Plans at concrete inputs.
use frostbit.Base.{ℕ, ◌≡◌, refl, true, List, [], ◌∷◌, arith}
use frostbit.Base.Exec.{ok}
use frostbit.Format.Sizes.{ct_array}
use frostbit.Cursor.{ContainerRef, stored_bytes}
use frostbit.Plan.{Op, no_agg, Plan, scratch_bytes, plan_union_observed}
use frostbit.Plan.Observed.{AreStored, AllStored}
use frostbit.Plan.Refold.{all_with_key, refolded_slots, plan_union_observed-slots}
use frostbit.Plan.Diff.{plan_diff, wanted_slots, plan_diff-slots}

abbrev base : Plan
base = record {
  op = Op.union;
  slots = record { key = 3; capacity = 8192 } ∷ record { key = 9; capacity = 8192 } ∷ [];
  scratch_bytes = scratch_bytes;
  double = true;
  leaf_agg = no_agg ∷ no_agg ∷ [];
}

abbrev operands : List (List ContainerRef)
operands =
    (record { key = 1; typ = ct_array; card = 4; data_len = 8; run_count = 0 }
      ∷ record { key = 3; typ = ct_array; card = 12; data_len = 24; run_count = 0 }
      ∷ [])
    ∷ []

operands_AllStored : AllStored operands
unfolding stored_bytes
operands_AllStored = (((8, refl), ((24, refl), tt)), tt)

plan_union_observed-slots_example :
    (plan : Plan) × (plan_union_observed base operands ≡ ok plan)
    × (plan.op ≡ Op.union)
    × (plan.slots ≡ refolded_slots (λ k. all_with_key k operands) base.slots base.leaf_agg)
plan_union_observed-slots_example =
    plan_union_observed-slots base operands refl (omega arith, (omega arith, tt))
      ((omega arith, omega arith, omega arith), ((omega arith, omega arith, omega arith), tt))
      ((omega arith, (omega arith, tt)), tt) operands_AllStored

abbrev block : ℕ → ℕ → ContainerRef
block key card = record { key = key; typ = ct_array; card = card; data_len = 0; run_count = 0 }

abbrev minuend : List ContainerRef
minuend = block 3 10 ∷ block 8 20 ∷ []

abbrev subtrahends : List (List ContainerRef)
subtrahends = (block 3 1 ∷ []) ∷ (block 2 5 ∷ block 8 6 ∷ []) ∷ []

minuend_AreStored : AreStored minuend
unfolding stored_bytes
minuend_AreStored = ((20, refl), ((40, refl), tt))

plan_diff-slots_example :
    (plan : Plan) × (plan_diff (minuend ∷ subtrahends) ≡ ok plan)
    × (plan.op ≡ Op.diff)
    × (plan.slots ≡ wanted_slots minuend minuend_AreStored subtrahends)
plan_diff-slots_example =
    plan_diff-slots minuend subtrahends minuend_AreStored (omega arith, (omega arith, tt))
      ((omega arith, tt), ((omega arith, (omega arith, tt)), tt))
