-- ===== src/Expr/Laws.antt =====
-- What src/api/expr.rs relies on in the kernels that it calls: the shapes of leaves, one fold, and the
-- conversions of results. A fold is only promised to be right on the plans that the compiler makes, or
-- makes again from what it observes where `execute` does so, on fewer than 2 ^ 16 operands, which the
-- aggregates count in a `u16`, and on operands that fit the shapes these were made from.
use frostbit.Base.{
  ℕ, ◌/◌, ◌^◌, ◌<◌, ◌≤◌, ◌≡◌, ◌⊎◌, Bool, true, false, ◌&&◌, Option, none, some, List, [], ◌∷◌, map,
  length,
}
use frostbit.Base.Exec.{ok}
use frostbit.Cursor.{ContainerRef}
use frostbit.KeyMask.{KeyMask, contains}
use frostbit.Plan.{Op, Plan, plan_union_observed}
use frostbit.Plan.Observed.{AreStored}
use frostbit.Shape.{Shape, diff_shape, to_plan}
use frostbit.Shape.Keys.{From, AllFrom, has_key}
use frostbit.Expr.{Join, joined_shape, joined_plan}
use frostbit.Expr.Interface.{Kernels, Acc}
use frostbit.Expr.Execute.{Operand, intermediates}
use frostbit.Expr.Meaning.{apply}

-- The container key of a value.
abbrev pub key_of : ℕ → ℕ
key_of x = x / 2 ^ 16

abbrev pub is_live : Option KeyMask → ℕ → Bool
is_live none k = true
is_live (some m) k = contains m k

module _ (K : Kernels) where
  -- The shape and the plan of an operation, as the compiler makes them.
  unfoldable pub made_shape : Op → List Shape → List Bool → Shape
  unfolding joined_shape
  made_shape Op.intersect shapes exact = (joined_shape K Join.and shapes exact).0
  made_shape Op.union shapes exact = (joined_shape K Join.or shapes exact).0
  made_shape Op.diff shapes exact = diff_shape shapes

  unfoldable pub made_plan : Op → List Shape → List Bool → Plan
  unfolding joined_plan
  made_plan Op.intersect shapes exact = joined_plan K Join.and shapes exact
  made_plan Op.union shapes exact = joined_plan K Join.or shapes exact
  made_plan Op.diff shapes exact = to_plan Op.diff (diff_shape shapes)

  -- The plan as it was made; or, where it has leaf aggregates and there are observed operands, made
  -- again from these.
  abbrev pub IsPlanned : Op → List Shape → List Bool → List (List ContainerRef) → Plan → Type 0
  IsPlanned op shapes exact observed plan =
      (plan ≡ made_plan op shapes exact)
      ⊎ ((1 ≤ length (made_plan op shapes exact).leaf_agg)
          × (1 ≤ length observed)
          × (plan_union_observed (made_plan op shapes exact) observed ≡ ok plan))

  module _ (Describes : K.Arena → Shape → Type 0) where
    -- An operand that fits its shape, which is exact for a leaf and only for a leaf.
    abbrev pub Fits : Operand K → Shape → Bool → Type 0
    Fits (Acc.leaf v) s e = (e ≡ true) × (s ≡ K.view_shape v)
    Fits (Acc.arena a) s e = (e ≡ false) × Describes a s
    Fits Acc.empty s e = e ≡ false

    abbrev pub AllFit : List (Operand K) → List Shape → List Bool → Type 0
    AllFit [] [] [] = Unit {0}
    AllFit [] [] (e ∷ es) = ⊥
    AllFit [] (s ∷ ss) es = ⊥
    AllFit (a ∷ accs) [] es = ⊥
    AllFit (a ∷ accs) (s ∷ ss) [] = ⊥
    AllFit (a ∷ accs) (s ∷ ss) (e ∷ es) = Fits a s e × AllFit accs ss es

  module _ (has : K.View → ℕ → Bool) (arena_has : K.Arena → ℕ → Bool) where
    abbrev pub member : ℕ → Operand K → Bool
    member x (Acc.leaf v) = has v x
    member x (Acc.arena a) = arena_has a x
    member x Acc.empty = false

pub record Laws (K : Kernels) : Type 1 where
  pub has : K.View → ℕ → Bool
  pub arena_has : K.Arena → ℕ → Bool
  pub Describes : K.Arena → Shape → Type 0
  pub view_shape_lem :
      (v : K.View) → frostbit.Shape.view_shape (K.containers v) ≡ ok (K.view_shape v)
  pub view_shape-From : (v : K.View) → From 0 (K.view_shape v)
  pub view_key : (v : K.View) (k : ℕ) → has_key (K.view_shape v) k ≡ true → k < 2 ^ 16
  pub has-key : (v : K.View) (x : ℕ) → has v x ≡ true → has_key (K.view_shape v) (key_of x) ≡ true
  pub arena_has-key :
      (a : K.Arena) (s : Shape) (x : ℕ)
      → Describes a s
      → arena_has a x ≡ true
      → has_key s (key_of x) ≡ true
  pub no_containers :
      (a : K.Arena) (x : ℕ) → length (K.arena_containers a) ≡ 0 → arena_has a x ≡ false
  pub arena_stored : (a : K.Arena) → AreStored (K.arena_containers a)
  pub fold-Describes :
      (op : Op) (shapes : List Shape) (exact : List Bool) (plan : Plan) (m : Option KeyMask)
      (accs : List (Operand K))
      → length accs < 2 ^ 16
      → AllFrom 0 shapes
      → AllFit K Describes accs shapes exact
      → IsPlanned K op shapes exact (intermediates K m accs) plan
      → Describes (K.fold op plan m accs) (made_shape K op shapes exact)
  pub fold_lem :
      (op : Op) (shapes : List Shape) (exact : List Bool) (plan : Plan) (m : Option KeyMask)
      (accs : List (Operand K)) (x : ℕ)
      → length accs < 2 ^ 16
      → AllFrom 0 shapes
      → AllFit K Describes accs shapes exact
      → IsPlanned K op shapes exact (intermediates K m accs) plan
      → x < 2 ^ 32
      → arena_has (K.fold op plan m accs) x
        ≡ (is_live m (key_of x) && apply op (map (member K has arena_has x) accs))
  pub serialize_lem : (a : K.Arena) (x : ℕ) → has (K.view (K.serialize_compact a)) x ≡ arena_has a x
  pub trusted_lem : (v : K.View) (x : ℕ) → has (K.view (K.from_bytes_trusted v)) x ≡ has v x
  pub empty_lem : (x : ℕ) → has (K.view K.empty_bitmap) x ≡ false
