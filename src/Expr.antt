-- ===== src/Expr.antt =====
-- src/api/expr.rs: expressions and their compilation to flat stack code.
pub mod Interface
pub mod Execute
pub mod Meaning
pub mod Laws
pub mod Code
pub mod Shapes
pub mod Stack
pub mod Sound
pub mod Splice
pub mod Guard
pub mod Children
pub mod Gather
pub mod Combine
pub mod Difference
pub mod Masks
pub mod Narrow
pub mod Leaves
pub mod Subtract
pub mod JoinValue
pub mod Correct
pub mod Flatten
mod Model
mod Tests
use frostbit.Base.{
  ℕ, zero, suc, ◌+◌, ◌-◌, ◌%◌, ◌^◌, max, Bool, true, false, not, ◌&&◌, ◌||◌, Option, none, some,
  List, [], ◌∷◌, ◌++◌, map, length, ltb, leb, ◌==◌, if◌then◌else◌,
}
use frostbit.Format.Sizes.{bitmap_bytes}
use frostbit.Plan.{Op, Plan, UnionAgg}
use frostbit.Shape.{Meta, Shape, to_plan, intersect_shape, union_shape, union_shape_agg, diff_shape}
use frostbit.Expr.Interface.{Kernels}

-- The operations that `combine` folds, and the position of a child: `op` of the source, where
-- `Op::And` and `Op::Or` are `child_of and` and `child_of or`.
pub data Join : Type 0 where
  and : Join
  or : Join

pub data Position : Type 0 where
  child_of : Join → Position
  diff : Position
  diff_lhs : Position

-- The operands of `Step::Combine`; a `MaskSrc` is its list of surviving keys.
pub record Fold : Type 0 where
  pub arity : ℕ
  pub plan : Plan
  pub mask : Option (List ℕ)

pub data Step (K : Kernels) : Type 0 where
  leaf : K.View → Step K
  owned : K.Bitmap → Step K
  combine : Fold → Step K
  guard : ℕ → ℕ → Step K

-- `steps` without its last instruction, which is the `Step::Combine` of `root`: what the source calls
-- unreachable, a plan that ends otherwise, is no value of this type.
pub record FoldPlan (K : Kernels) : Type 0 where
  pub body : List (Step K)
  pub root : Fold
  pub shape : Shape
  pub operands : List Shape
  pub operand_exact : List Bool
  pub max_depth : ℕ

pub data Expr (K : Kernels) : Type 0 where
  leaf : K.View → Expr K
  owned : K.Bitmap → Expr K
  combined : FoldPlan K → Expr K

-- `u32::MAX`, the skip of a guard whose target is not known yet.
abbrev pub unresolved : ℕ
unresolved = 2 ^ 32 - 1

-- What `splice` appends to the steps, the shapes and the exactness flags, and what it returns.
pub record Spliced (K : Kernels) : Type 0 where
  pub steps : List (Step K)
  pub shapes : List Shape
  pub exact : List Bool
  pub net : ℕ
  pub depth : ℕ
  pub guardable : Bool

module _ (K : Kernels) where
  abbrev pub steps : FoldPlan K → List (Step K)
  steps p = p.body ++ (Step.combine p.root ∷ [])

  -- Some guard at or behind step `i` that aims at `target`.
  unfoldable pub aims_at : ℕ → ℕ → List (Step K) → Bool
  aims_at target i [] = false
  aims_at target i (leaf v ∷ ss) = aims_at target (i + 1) ss
  aims_at target i (owned b ∷ ss) = aims_at target (i + 1) ss
  aims_at target i (combine f ∷ ss) = aims_at target (i + 1) ss
  aims_at target i (guard skip pop ∷ ss) = i + skip == target || aims_at target (i + 1) ss

  unfoldable pub chain_guarded : FoldPlan K → Bool
  unfolding aims_at
  chain_guarded p = aims_at (length (steps p) - 1) 0 (steps p)

  unfoldable pub flattens : Position → Op → Bool → Bool
  flattens (child_of and) Op.intersect guarded = true
  flattens (child_of and) Op.union guarded = false
  flattens (child_of and) Op.diff guarded = false
  flattens (child_of or) Op.intersect guarded = false
  flattens (child_of or) Op.union guarded = true
  flattens (child_of or) Op.diff guarded = false
  flattens diff op guarded = false
  flattens diff_lhs Op.intersect guarded = false
  flattens diff_lhs Op.union guarded = false
  flattens diff_lhs Op.diff guarded = not guarded

  -- `fp.steps.retain(|s| !matches!(s, Step::Guard { .. }))`
  unfoldable pub drop_guards : List (Step K) → List (Step K)
  drop_guards [] = []
  drop_guards (leaf v ∷ ss) = Step.leaf v ∷ drop_guards ss
  drop_guards (owned b ∷ ss) = Step.owned b ∷ drop_guards ss
  drop_guards (combine f ∷ ss) = Step.combine f ∷ drop_guards ss
  drop_guards (guard skip pop ∷ ss) = drop_guards ss

  abbrev pub flattened : FoldPlan K → Spliced K
  flattened p = record {
    steps = drop_guards p.body;
    shapes = p.operands;
    exact = p.operand_exact;
    net = p.root.arity;
    depth = p.max_depth;
    guardable = false;
  }

  abbrev pub nested : FoldPlan K → Spliced K
  nested p = record {
    steps = steps p;
    shapes = p.shape ∷ [];
    exact = false ∷ [];
    net = 1;
    depth = p.max_depth;
    guardable = true;
  }

  abbrev pub one_step : Step K → Shape → Spliced K
  one_step s shape = record {
    steps = s ∷ [];
    shapes = shape ∷ [];
    exact = true ∷ [];
    net = 1;
    depth = 1;
    guardable = false;
  }

  unfoldable pub splice : Expr K → Position → Spliced K
  unfolding chain_guarded flattens drop_guards
  splice (leaf v) parent = one_step (Step.leaf v) (K.view_shape v)
  splice (owned b) parent = one_step (Step.owned b) (K.view_shape (K.view b))
  splice (combined p) parent =
      if flattens parent p.root.plan.op (chain_guarded p) then flattened p else nested p

  -- `skip` of a guard at step `i`, once the step behind its fold is known.
  unfoldable pub patch_guards : ℕ → ℕ → List (Step K) → List (Step K)
  patch_guards target i [] = []
  patch_guards target i (leaf v ∷ ss) = Step.leaf v ∷ patch_guards target (i + 1) ss
  patch_guards target i (owned b ∷ ss) = Step.owned b ∷ patch_guards target (i + 1) ss
  patch_guards target i (combine f ∷ ss) = Step.combine f ∷ patch_guards target (i + 1) ss
  patch_guards target i (guard skip pop ∷ ss) =
      Step.guard (if skip == unresolved then (target - i) % 2 ^ 32 else skip) pop
      ∷ patch_guards target (i + 1) ss

  abbrev pub guarded_by : Join → Bool → Bool
  guarded_by and guardable = guardable
  guarded_by or guardable = false

  abbrev pub guard_if : Bool → ℕ → List (Step K) → List (Step K)
  guard_if true pop ss = Step.guard unresolved (pop % 2 ^ 32) ∷ ss
  guard_if false pop ss = ss

  -- The loop over the children, which starts with `base` operands and returns what it appends;
  -- `arity` counts as `base` does.
  pub record Gathered : Type 0 where
    pub steps : List (Step K)
    pub shapes : List Shape
    pub exact : List Bool
    pub arity : ℕ
    pub depth : ℕ

  unfoldable pub gather : Join → ℕ → List (Expr K) → Gathered
  unfolding splice
  gather op base [] = record { steps = []; shapes = []; exact = []; arity = base; depth = 0 }
  gather op base (child ∷ children) =
      let s = splice child (child_of op) in
      let rest = gather op (base + s.net) children in
      record {
        steps = s.steps ++ guard_if (guarded_by op s.guardable) (base + s.net) rest.steps;
        shapes = s.shapes ++ rest.shapes;
        exact = s.exact ++ rest.exact;
        arity = rest.arity;
        depth = max (base + s.depth) rest.depth;
      }

  -- `sh.iter().any(|m| m.cap as usize >= BITMAP_BYTES)`
  unfoldable pub is_wide : Shape → Bool
  is_wide [] = false
  is_wide (m ∷ ms) = leb bitmap_bytes m.capacity || is_wide ms

  unfoldable pub predicts_wide : List Shape → List Bool → Bool
  unfolding is_wide
  predicts_wide [] exact = false
  predicts_wide (s ∷ ss) [] = false
  predicts_wide (s ∷ ss) (e ∷ es) = (not e && is_wide s) || predicts_wide ss es

  -- The shape and the leaf half of the aggregates.
  unfoldable pub joined_shape : Join → List Shape → List Bool → Shape × List UnionAgg
  unfolding predicts_wide
  joined_shape and shapes exact = (intersect_shape shapes, [])
  joined_shape or shapes exact =
      if predicts_wide shapes exact then union_shape_agg shapes exact else (union_shape shapes, [])

  abbrev pub plan_op : Join → Op
  plan_op and = Op.intersect
  plan_op or = Op.union

  unfoldable pub widest : List Shape → ℕ
  widest [] = 0
  widest (s ∷ ss) = max (length s) (widest ss)

  unfoldable pub narrows : Join → ℕ → List Shape → Shape → Bool
  unfolding widest
  narrows and arity shapes shape = leb 2 arity && ltb (length shape) (widest shapes)
  narrows or arity shapes shape = false

  -- `if let Step::Combine(_, _, slot @ None)`
  abbrev pub inner_or : Option (List ℕ) → Option (List ℕ) → Option (List ℕ)
  inner_or none m = m
  inner_or (some keys) m = some keys

  abbrev pub fill_fold : Option (List ℕ) → Fold → Fold
  fill_fold m f = record f { mask = inner_or f.mask m }

  -- Every fold without a mask gets `m`.
  unfoldable pub fill : Option (List ℕ) → List (Step K) → List (Step K)
  fill m [] = []
  fill m (leaf v ∷ ss) = Step.leaf v ∷ fill m ss
  fill m (owned b ∷ ss) = Step.owned b ∷ fill m ss
  fill m (combine f ∷ ss) = Step.combine (fill_fold m f) ∷ fill m ss
  fill m (guard skip pop ∷ ss) = Step.guard skip pop ∷ fill m ss

  abbrev pub keys_of : Shape → List ℕ
  keys_of shape = map (λ m. m.key) shape

  abbrev pub mask_for : Bool → Shape → Option (List ℕ)
  mask_for true shape = some (keys_of shape)
  mask_for false shape = none

  unfoldable pub joined_plan : Join → List Shape → List Bool → Plan
  unfolding joined_shape
  joined_plan op shapes exact =
      let made = joined_shape op shapes exact in
      record (to_plan (plan_op op) made.0) { leaf_agg = made.1 }

  unfoldable pub combine_all : Join → List (Expr K) → FoldPlan K
  unfolding gather joined_shape joined_plan narrows fill patch_guards
  combine_all op children =
      let g = gather op 0 children in
      let shape = (joined_shape op g.shapes g.exact).0 in
      let m = mask_for (narrows op g.arity g.shapes shape) shape in
      record {
        body = fill m (patch_guards (length g.steps + 1) 0 g.steps);
        root = record { arity = g.arity; plan = joined_plan op g.shapes g.exact; mask = m };
        shape = shape;
        operands = g.shapes;
        operand_exact = g.exact;
        max_depth = max (max g.depth g.arity) 1;
      }

  unfoldable pub difference : Expr K → Expr K → FoldPlan K
  unfolding splice patch_guards
  difference lhs rhs =
      let l = splice lhs diff_lhs in
      let r = splice rhs diff in
      let ss = l.steps ++ guard_if l.guardable 1 r.steps in
      let shapes = l.shapes ++ r.shapes in
      let shape = diff_shape shapes in
      record {
        body = patch_guards (length ss + 1) 0 ss;
        root = record { arity = l.net + 1; plan = to_plan Op.diff shape; mask = none };
        shape = shape;
        operands = shapes;
        operand_exact = l.exact ++ r.exact;
        max_depth = max (max l.depth (l.net + r.depth)) (l.net + 1);
      }
