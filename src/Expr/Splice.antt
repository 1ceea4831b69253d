-- ===== src/Expr/Splice.antt =====
-- src/api/expr.rs: a child that is spliced into its parent, nested or flattened.
use mathlib.Core.Path.{subst}
use frostbit.Base.{
  ℕ, ◌^◌, ◌<◌, ◌≡◌, refl, sym, ap, ◌∙◌, Bool, true, false, Option, List, [], ◌∷◌, length,
  length-append, arith, inl, inr, Bool-cases, if◌then◌else◌, length-map,
}
use frostbit.Plan.{Op}
use frostbit.Shape.{Shape}
use frostbit.Shape.Keys.{From, has_key}
use frostbit.Expr.{
  Join, Position, Step, FoldPlan, Expr, steps, chain_guarded, flattens, drop_guards, flattened,
  nested, splice, fill,
}
use frostbit.Expr.Interface.{Kernels}
use frostbit.Expr.Execute.{Operand}
use frostbit.Expr.Meaning.{apply, any_true}
use frostbit.Expr.Laws.{Laws, made_shape}
use frostbit.Expr.Code.{append-IsResolved, drop_guards-IsResolved}
use frostbit.Expr.Masks.{
  drop_guards-append, drop_guards-drop_guards, fill-append, length-drop_guards,
}
use frostbit.Expr.Shapes.{over, made_shape-From, made_shape-over, made_shape-key}
use frostbit.Expr.Stack.{mem, mems}
use frostbit.Expr.Sound.{
  value_at, keys_at, IsFilled, HasOperands, Delivers, SplicedOk, PlanOk, keys_at-single,
  single-IsFilled, one-Delivers, combine-Delivers, AllSuit-length,
}

-- The positions that flatten an operation.
flattens-value :
    (K : Kernels) (p : Position) (op : Op) (g : Bool) (ss : List Shape) (bs : List Bool)
    → flattens K p op g ≡ true
    → HasOperands op ss
    → length bs ≡ length ss
    → value_at p bs ≡ apply op bs
unfolding flattens apply
flattens-value K (Position.child_of Join.and) Op.intersect g [] bs e h l = cc
flattens-value K (Position.child_of Join.and) Op.intersect g (s ∷ ss) [] e h l =
    absurd (omega (arith, l))
flattens-value K (Position.child_of Join.and) Op.intersect g (s ∷ ss) (b ∷ bs) e h l = refl
flattens-value K (Position.child_of Join.and) Op.union g ss bs e h l = cc
flattens-value K (Position.child_of Join.and) Op.diff g ss bs e h l = cc
flattens-value K (Position.child_of Join.or) Op.intersect g ss bs e h l = cc
flattens-value K (Position.child_of Join.or) Op.union g ss [] e h l = refl
flattens-value K (Position.child_of Join.or) Op.union g ss (b ∷ bs) e h l = refl
flattens-value K (Position.child_of Join.or) Op.diff g ss bs e h l = cc
flattens-value K Position.diff op g ss bs e h l = cc
flattens-value K Position.diff_lhs Op.intersect g ss bs e h l = cc
flattens-value K Position.diff_lhs Op.union g ss bs e h l = cc
flattens-value K Position.diff_lhs Op.diff g ss bs e h l = refl

flattens-keys :
    (K : Kernels) (p : Position) (op : Op) (g : Bool) (ss : List Shape) (k : ℕ)
    → flattens K p op g ≡ true
    → over op ss k ≡ true
    → keys_at p ss k ≡ true
unfolding flattens
flattens-keys K (Position.child_of Join.and) Op.intersect g [] k e h = refl
flattens-keys K (Position.child_of Join.and) Op.intersect g (s ∷ ss) k e h = h
flattens-keys K (Position.child_of Join.and) Op.union g ss k e h = cc
flattens-keys K (Position.child_of Join.and) Op.diff g ss k e h = cc
flattens-keys K (Position.child_of Join.or) Op.intersect g ss k e h = cc
flattens-keys K (Position.child_of Join.or) Op.union g [] k e h = cc
flattens-keys K (Position.child_of Join.or) Op.union g (s ∷ ss) k e h = h
flattens-keys K (Position.child_of Join.or) Op.diff g ss k e h = cc
flattens-keys K Position.diff op g ss k e h = cc
flattens-keys K Position.diff_lhs Op.intersect g ss k e h = cc
flattens-keys K Position.diff_lhs Op.union g ss k e h = cc
flattens-keys K Position.diff_lhs Op.diff g ss k e h = h

flattens-IsFilled :
    (K : Kernels) (p : Position) (op : Op) (g : Bool) (ss : List Shape)
    → flattens K p op g ≡ true
    → HasOperands op ss
    → IsFilled p ss
unfolding flattens
flattens-IsFilled K (Position.child_of Join.and) Op.intersect g ss e h = h
flattens-IsFilled K (Position.child_of Join.and) Op.union g ss e h = cc
flattens-IsFilled K (Position.child_of Join.and) Op.diff g ss e h = cc
flattens-IsFilled K (Position.child_of Join.or) op g ss e h = tt
flattens-IsFilled K Position.diff op g ss e h = cc
flattens-IsFilled K Position.diff_lhs Op.intersect g ss e h = cc
flattens-IsFilled K Position.diff_lhs Op.union g ss e h = cc
flattens-IsFilled K Position.diff_lhs Op.diff g ss e h = h

module _ (K : Kernels) (L : Laws K) (op : Op) (f : ℕ → Bool) (n : ℕ) (q : FoldPlan K)
    (ok : PlanOk K L op f n q) (few : n < 2 ^ 16) where
  shape-has_key : (k : ℕ) → has_key q.shape k ≡ over op q.operands k
  shape-has_key k =
      ap (λ s. has_key s k) ok.shape_lem
      ∙ made_shape-over K op q.operands q.operand_exact k ok.operands_From

  pub shape_key : (k : ℕ) → has_key q.shape k ≡ true → k < 2 ^ 16
  shape_key k e =
      made_shape-key K op q.operands q.operand_exact k ok.operands_From ok.operands_keys
        (ap (λ s. has_key s k) (sym ok.shape_lem) ∙ e)

  pub shape-From : From 0 q.shape
  shape-From =
      subst (From 0) (sym ok.shape_lem)
        (made_shape-From K op q.operands q.operand_exact ok.operands_From)

  -- A nested child without its guards: its operands, then its own fold.
  nested-inlined :
      (m : Option (List ℕ)) (S : List (Operand K))
      → Delivers K L
          (fill K m (drop_guards K (steps K q)))
          S
          (q.shape ∷ [])
          (false ∷ [])
          m
          any_true
          f
  unfolding fill drop_guards
  nested-inlined m S =
      subst
        (λ s.
          Delivers K L (fill K m (drop_guards K (steps K q))) S (s ∷ []) (false ∷ []) m any_true f)
        (sym ok.shape_lem)
        (subst
          (λ c.
            Delivers K L c S (made_shape K op q.operands q.operand_exact ∷ []) (false ∷ []) m
              any_true f)
          (sym (
            ap (fill K m) (drop_guards-append K q.body (Step.combine q.root ∷ []))
            ∙ fill-append K m (drop_guards K q.body) (Step.combine q.root ∷ [])))
          (combine-Delivers K L f op q.operands q.operand_exact m q.root
            (fill K m (drop_guards K q.body)) S (omega (arith, few, ok.operands_bound)) ok.arity_lem
            ok.plan_lem ok.operands_From ok.root_live (ok.inlined m S)))

  nested-SplicedOk : (p : Position) → SplicedOk K L p f n (nested K q)
  nested-SplicedOk p = record {
    shapes_From = (shape-From, tt);
    shapes_keys = λ k e. shape_key k (ground (arith, e));
    filled = single-IsFilled p q.shape;
    net_lem = refl;
    alone = λ e. refl;
    resolved = append-IsResolved K q.body (Step.combine q.root ∷ []) ok.resolved tt;
    steps_bound = omega (arith, length-append q.body (Step.combine q.root ∷ []), ok.steps_bound);
    shapes_bound = omega (arith, ok.steps_bound);
    covered = λ x h e. keys_at-single p q.shape _ (shape-has_key _ ∙ ok.covered x h e);
    inlined = λ m S. one-Delivers K L _ S q.shape false m f p (nested-inlined m S);
    guarded = λ m S. one-Delivers K L _ S q.shape false m f p (ok.guarded m S);
  }

  flattened-Delivers :
      (p : Position) (g : Bool) (code : List (Step K)) (S : List (Operand K)) (m : Option (List ℕ))
      → flattens K p op g ≡ true
      → Delivers K L code S q.operands q.operand_exact m (apply op) f
      → Delivers K L code S q.operands q.operand_exact m (value_at p) f
  flattened-Delivers p g code S m e (accs, runs, fit, value) = (
    accs,
    runs,
    fit,
    λ x h.
        flattens-value K p op g q.operands (mems K L x accs) e ok.has_operands
          (length-map accs (mem K L x) ∙ AllSuit-length K L accs q.operands q.operand_exact fit)
        ∙ value x h,
  )

  flattened-SplicedOk :
      (p : Position) (g : Bool) → flattens K p op g ≡ true → SplicedOk K L p f n (flattened K q)
  flattened-SplicedOk p g e = record {
    shapes_From = ok.operands_From;
    shapes_keys = ok.operands_keys;
    filled = flattens-IsFilled K p op g q.operands e ok.has_operands;
    net_lem = ok.arity_lem;
    alone = λ e. cc;
    resolved = drop_guards-IsResolved K q.body;
    steps_bound = omega (arith, length-drop_guards K q.body, ok.steps_bound);
    shapes_bound = ok.operands_bound;
    covered = λ x h t. flattens-keys K p op g q.operands _ e (ok.covered x h t);
    inlined = λ m S. flattened-Delivers p g _ S m e (
        subst (λ c. Delivers K L (fill K m c) S q.operands q.operand_exact m (apply op) f)
          (sym (drop_guards-drop_guards K q.body)) (ok.inlined m S));
    guarded = λ m S. flattened-Delivers p g _ S m e (ok.inlined m S);
  }

  -- A plan that is sound is spliced soundly, wherever it goes.
  pub splice-SplicedOk : (p : Position) → SplicedOk K L p f n (splice K (Expr.combined q) p)
  unfolding splice
  splice-SplicedOk p = elim (Bool-cases (flattens K p q.root.plan.op (chain_guarded K q))) [
    | inl e ↦
        subst (λ b. SplicedOk K L p f n (if b then flattened K q else nested K q)) (sym e)
          (flattened-SplicedOk p (chain_guarded K q)
            (ap (λ o. flattens K p o (chain_guarded K q)) (sym ok.plan_op_lem) ∙ e))
    | inr e ↦
        subst (λ b. SplicedOk K L p f n (if b then flattened K q else nested K q)) (sym e)
          (nested-SplicedOk p)
  ]
