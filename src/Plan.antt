-- ===== src/Plan.antt =====
-- src/ops/analyze/plan.rs: the layout that an op's arena is made for, and the one that a union is
-- given again when its operands have been computed. The pooled buffers are lists.
pub mod Observed
pub mod Refold
pub mod Diff
mod Tests
use frostbit.Base.{
  ℕ, zero, suc, ◌+◌, ◌-◌, ◌*◌, ◌%◌, ◌^◌, min, max, Bool, true, false, not, ◌&&◌, ◌||◌, List, [],
  ◌∷◌, map, ltb, leb, ◌==◌, if◌then◌else◌,
}
use frostbit.Base.Exec.{Exec, ok, panic, ◌>>=◌}
use frostbit.Format.Sizes.{bitmap_bytes, ct_bitmap, ct_run}
use frostbit.Cursor.{ContainerRef, stored_bytes, num_runs}
use frostbit.Decide.{UnionKey, interior, union_key}

pub data Op : Type 0 where
  intersect : Op
  union : Op
  diff : Op

pub record SlotPlan : Type 0 where
  pub key : ℕ
  pub capacity : ℕ

pub record UnionAgg : Type 0 where
  pub sum_card : ℕ
  pub total_runs : ℕ
  pub max_single : ℕ
  pub n : ℕ
  pub any_bitmap : Bool
  pub all_run : Bool

abbrev pub no_agg : UnionAgg
no_agg = record {
  sum_card = 0;
  total_runs = 0;
  max_single = 0;
  n = 0;
  any_bitmap = false;
  all_run = true;
}

pub record Plan : Type 0 where
  pub op : Op
  pub slots : List SlotPlan
  pub scratch_bytes : ℕ
  pub double : Bool
  pub leaf_agg : List UnionAgg

abbrev pub scratch_bytes : ℕ
scratch_bytes = 2 * bitmap_bytes

abbrev pub partner_major_max_acc_bytes : ℕ
partner_major_max_acc_bytes = 64 * 2 ^ 10

abbrev pub saturating_add : ℕ → ℕ → ℕ
saturating_add a b = min (a + b) (2 ^ 32 - 1)

-- `slots.iter().map(|s| s.capacity as usize).sum()`
unfoldable pub sum_capacity : List SlotPlan → ℕ
sum_capacity [] = 0
sum_capacity (s ∷ ss) = s.capacity + sum_capacity ss

unfoldable pub wants_partner_major : Op → List SlotPlan → Bool
unfolding sum_capacity
wants_partner_major intersect slots = false
wants_partner_major union slots = leb (sum_capacity slots) partner_major_max_acc_bytes
wants_partner_major diff slots = leb (sum_capacity slots) partner_major_max_acc_bytes

-- The aggregate of a key with one more container, which stores `stored` bytes.
unfoldable pub observe : ℕ → ContainerRef → UnionAgg → UnionAgg
observe stored c a = record {
  sum_card = saturating_add a.sum_card c.card;
  total_runs = (a.total_runs + num_runs c % 2 ^ 32) % 2 ^ 32;
  max_single = max a.max_single (stored % 2 ^ 32);
  n = (a.n + 1) % 2 ^ 16;
  any_bitmap = a.any_bitmap || c.typ == ct_bitmap;
  all_run = a.all_run && c.typ == ct_run;
}

-- The walk of one intermediate operand along the slots, each with its aggregate. A slot below the
-- container's key is passed, as `j` passes it; containers behind the last slot are not read.
unfoldable pub observe_all :
    List (SlotPlan × UnionAgg) → List ContainerRef → Exec (List (SlotPlan × UnionAgg))
observe_all [] cs = ok []
observe_all ((s, a) ∷ ss) [] = ok ((s, a) ∷ ss)
observe_all ((s, a) ∷ ss) (c ∷ cs) = elim (ltb s.key c.key) [
  | true ↦ observe_all ss (c ∷ cs) >>= λ rest. ok ((s, a) ∷ rest)
  | false ↦ elim (s.key == c.key) [
    | true ↦ stored_bytes c >>= λ stored. observe_all ((s, observe stored c a) ∷ ss) cs
    | false ↦ observe_all ((s, a) ∷ ss) cs
  ]
]

unfoldable pub observe_operands :
    List (SlotPlan × UnionAgg) → List (List ContainerRef) → Exec (List (SlotPlan × UnionAgg))
observe_operands ss [] = ok ss
observe_operands ss (cs ∷ operands) = observe_all ss cs >>= λ ss. observe_operands ss operands

-- The slot of a key that some operand has, by the merged aggregate; of no bytes where none has it.
unfoldable pub observed_slot : SlotPlan × UnionAgg → SlotPlan
observed_slot (s, a) = record s {
  capacity =
      if a.n == 0
      then 0
      else (union_key
          (record {
            sum_card = a.sum_card;
            total_runs = a.total_runs;
            any_bitmap = a.any_bitmap;
            all_run = a.all_run;
            max_single = a.max_single;
            n = a.n;
          })
          interior).capacity;
}

-- `agg[j]` beside slot `j`, for each slot; out of bounds where there are fewer aggregates.
unfoldable pub with_agg : List SlotPlan → List UnionAgg → Exec (List (SlotPlan × UnionAgg))
with_agg [] as' = ok []
with_agg (s ∷ ss) [] = panic
with_agg (s ∷ ss) (a ∷ as') = with_agg ss as' >>= λ rest. ok ((s, a) ∷ rest)

abbrev pub observed_plan : List (SlotPlan × UnionAgg) → Plan
observed_plan ss =
    let slots = map observed_slot ss in
    record {
      op = union;
      double = wants_partner_major union slots;
      slots = slots;
      scratch_bytes = scratch_bytes;
      leaf_agg = [];
    }

-- `operands` are the containers of the intermediate operands, in order.
unfoldable pub plan_union_observed : Plan → List (List ContainerRef) → Exec Plan
plan_union_observed base operands = with_agg base.slots base.leaf_agg >>= λ ss.
    observe_operands ss operands >>= λ ss. ok (observed_plan ss)
