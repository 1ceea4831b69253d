-- ===== src/Expr/Execute.antt =====
-- src/api/expr.rs: the execution of a plan over the operand stack, whose top is the head of the list.
-- The pool that the stack's buffer comes from holds it empty, so an execution starts from no operands.
use frostbit.Base.{
  ℕ, zero, suc, Bool, true, false, Option, none, some, List, [], ◌∷◌, length, ◌==◌, if◌then◌else◌,
}
use frostbit.Base.Exec.{Exec, ok, panic, ◌>>=◌}
use frostbit.Cursor.{ContainerRef}
use frostbit.KeyMask.{KeyMask, mask_of, contains}
use frostbit.Plan.{UnionAgg, Plan, plan_union_observed}
use frostbit.Expr.{Fold, Step, FoldPlan, Expr, steps}
use frostbit.Expr.Interface.{Kernels, Acc}

-- `MaskSrc::mask` of a fold's slot; a mask is the same at every use, so its cache is not modelled.
abbrev pub fold_mask : Option (List ℕ) → Option KeyMask
fold_mask none = none
fold_mask (some keys) = some (mask_of keys)

abbrev none_of {ℓ} : {A : Type ℓ} → List A → Bool
none_of [] = true
none_of (x ∷ xs) = false

-- The containers that a cursor yields under a mask.
unfoldable pub live_containers : Option KeyMask → List ContainerRef → List ContainerRef
live_containers none cs = cs
live_containers (some m) [] = []
live_containers (some m) (c ∷ cs) =
    let rest = live_containers (some m) cs in if contains m c.key then c ∷ rest else rest

-- The last `n` operands, in the order they were pushed, in front of `taken`; and the stack below.
unfoldable pub split_top {ℓ} : {A : Type ℓ} → ℕ → List A → List A → Exec (List A × List A)
split_top zero stack taken = ok (taken, stack)
split_top (suc n) [] taken = panic
split_top (suc n) (a ∷ stack) taken = split_top n stack (a ∷ taken)

module _ (K : Kernels) where
  abbrev pub Operand : Type 0
  Operand = Acc K.View K.Arena

  unfoldable pub is_empty : Operand → Bool
  is_empty (Acc.leaf v) = length (K.containers v) == 0
  is_empty (Acc.arena a) = length (K.arena_containers a) == 0
  is_empty Acc.empty = true

  unfoldable pub has_intermediate : List Operand → Bool
  has_intermediate [] = false
  has_intermediate (Acc.leaf v ∷ accs) = has_intermediate accs
  has_intermediate (Acc.arena a ∷ accs) = true
  has_intermediate (Acc.empty ∷ accs) = has_intermediate accs

  unfoldable pub intermediates : Option KeyMask → List Operand → List (List ContainerRef)
  unfolding live_containers
  intermediates m [] = []
  intermediates m (Acc.leaf v ∷ accs) = intermediates m accs
  intermediates m (Acc.arena a ∷ accs) =
      live_containers m (K.arena_containers a) ∷ intermediates m accs
  intermediates m (Acc.empty ∷ accs) = intermediates m accs

  abbrev pub replans : List UnionAgg → Bool → Bool
  replans [] intermediate = false
  replans (a ∷ as') intermediate = intermediate

  -- The plan that the arena is made from: the one of the manifest, or for a union with a predicted
  -- operand the one that its operands are observed to need.
  unfoldable pub executed_plan : Fold → List Operand → Exec Plan
  unfolding intermediates has_intermediate
  executed_plan f accs =
      if replans f.plan.leaf_agg (has_intermediate accs)
      then plan_union_observed f.plan (intermediates (fold_mask f.mask) accs)
      else ok f.plan

  unfoldable pub fold_step : Fold → List Operand → Exec Operand
  unfolding executed_plan
  fold_step f accs = executed_plan f accs >>= λ plan.
      ok (Acc.arena (K.fold f.plan.op plan (fold_mask f.mask) accs))

  unfoldable pub top_is_empty : List Operand → Bool
  unfolding is_empty
  top_is_empty [] = false
  top_is_empty (a ∷ stack) = is_empty a

  -- The loop of `execute` with `skip` instructions still to be jumped over. A guard whose skip is 0
  -- would run for ever; it counts as a panic.
  unfoldable pub run : ℕ → List (Step K) → List Operand → Exec (List Operand)
  unfolding split_top top_is_empty fold_step
  run skip [] stack = ok stack
  run (suc skip) (s ∷ ss) stack = run skip ss stack
  run zero (Step.leaf v ∷ ss) stack = run zero ss (Acc.leaf v ∷ stack)
  run zero (Step.owned b ∷ ss) stack = run zero ss (Acc.leaf (K.view b) ∷ stack)
  run zero (Step.combine f ∷ ss) stack = split_top f.arity stack [] >>= λ (accs, below).
      fold_step f accs >>= λ a. run zero ss (a ∷ below)
  run zero (Step.guard zero pop ∷ ss) stack = elim (top_is_empty stack) [
    | true ↦ panic
    | false ↦ run zero ss stack
  ]
  run zero (Step.guard (suc skip) pop ∷ ss) stack = elim (top_is_empty stack) [
    | true ↦ split_top pop stack [] >>= λ (dropped, below). run skip ss (Acc.empty ∷ below)
    | false ↦ run zero ss stack
  ]

  abbrev pub finish : List Operand → Exec K.Bitmap
  finish [] = panic
  finish (Acc.leaf v ∷ stack) = ok (K.from_bytes_trusted v)
  finish (Acc.arena a ∷ stack) = ok (K.serialize_compact a)
  finish (Acc.empty ∷ stack) = ok K.empty_bitmap

  unfoldable pub execute : FoldPlan K → Exec K.Bitmap
  unfolding run
  execute p = run 0 (steps K p) [] >>= finish

  unfoldable pub materialize : Expr K → Exec K.Bitmap
  unfolding execute
  materialize (Expr.leaf v) = ok (K.from_bytes_trusted v)
  materialize (Expr.owned b) = ok b
  materialize (Expr.combined p) = execute p
