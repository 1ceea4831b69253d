-- ===== src/Expr/Combine.antt =====
-- src/api/expr.rs: FoldPlan::combine, of sound children, is sound.
use mathlib.Core.Path.{subst}
use frostbit.Base.{
  ℕ, ◌+◌, ◌^◌, ◌<◌, ◌≡◌, refl, sym, ap, ◌∙◌, Bool, true, false, Option, List, [], ◌∷◌, ◌++◌, length,
  length-map, arith,
}
use frostbit.Shape.{Shape}
use frostbit.Shape.Keys.{has_key, is_cons}
use frostbit.Expr.{
  Join, Position, Fold, Step, Gathered, drop_guards, splice, fill, inner_or, gather, plan_op,
  patch_guards, combine_all, mask_for, narrows, joined_shape, joined_plan,
}
use frostbit.Expr.Interface.{Kernels}
use frostbit.Expr.Execute.{Operand}
use frostbit.Expr.Meaning.{apply, any_true}
use frostbit.Expr.Laws.{Laws, key_of}
use frostbit.Expr.Code.{
  IsResolved, resolve, patch_guards-resolve, resolve-IsResolved, fill-IsResolved, length-resolve,
}
use frostbit.Expr.Masks.{fill-append, length-fill, drop_guards-fill, drop_guards-resolve, fill-fill}
use frostbit.Expr.Shapes.{over, made_shape-over, made_shape-key, apply-over, Fits-has_key}
use frostbit.Expr.Stack.{mem, mems, Suits}
use frostbit.Expr.Sound.{keys_at, HasOperands, Delivers, PlanOk, AllSuit-length, any_true-single}
use frostbit.Expr.Children.{
  Child, exprs, values, weight, ChildrenOk, gather-shapes, gather-bounds, gather-covered,
  gather-inlined,
}
use frostbit.Expr.JoinValue.{join_value}
use frostbit.Expr.Gather.{gather-Finishes, apply-join_value}
use frostbit.Expr.Narrow.{
  made_shape-joined, made_plan-joined, joined_plan-op, mask_for-is_live, widen,
}

-- An AND has a child.
abbrev pub HasChild : (K : Kernels) → Join → List (Child K) → Type 0
HasChild K Join.and [] = ⊥
HasChild K Join.and (c ∷ cs) = Unit {0}
HasChild K Join.or cs = Unit {0}

apply-values :
    (K : Kernels) (op : Join) (cs : List (Child K)) (x : ℕ)
    → HasChild K op cs
    → apply (plan_op K op) (values K x cs) ≡ join_value op (values K x cs)
unfolding apply
apply-values K Join.and [] x h = absurd h
apply-values K Join.and ((e, f, n) ∷ cs) x h = refl
apply-values K Join.or [] x h = refl
apply-values K Join.or ((e, f, n) ∷ cs) x h = refl

pub is_cons-append : (ss ts : List Shape) → is_cons ss ≡ true → is_cons (ss ++ ts) ≡ true
is_cons-append [] ts h = cc
is_cons-append (s ∷ ss) ts h = refl

gather-HasOperands :
    (K : Kernels) (L : Laws K) (op : Join) (cs : List (Child K))
    → HasChild K op cs
    → ChildrenOk K L op cs
    → HasOperands (plan_op K op) (gather K op 0 (exprs K cs)).shapes
unfolding gather
gather-HasOperands K L Join.and [] h g = absurd h
gather-HasOperands K L Join.and ((e, f, n) ∷ cs) h (ok, g) =
    is_cons-append (splice K e (Position.child_of Join.and)).shapes _ ok.filled
gather-HasOperands K L Join.or cs h g = tt

keys_at-over :
    (K : Kernels) (op : Join) (ss : List Shape) (k : ℕ)
    → HasOperands (plan_op K op) ss
    → keys_at (Position.child_of op) ss k ≡ over (plan_op K op) ss k
keys_at-over K Join.and [] k h = cc
keys_at-over K Join.and (s ∷ ss) k h = refl
keys_at-over K Join.or [] k h = refl
keys_at-over K Join.or (s ∷ ss) k h = refl

module _ (K : Kernels) (L : Laws K) (op : Join) (cs : List (Child K)) where
  abbrev gathered : Gathered K
  gathered = gather K op 0 (exprs K cs)

  abbrev own_shape : Shape
  own_shape = (joined_shape K op gathered.shapes gathered.exact).0

  abbrev own_mask : Option (List ℕ)
  own_mask = mask_for K (narrows K op gathered.arity gathered.shapes own_shape) own_shape

  abbrev own_fold : Option (List ℕ) → Fold
  own_fold m = record {
    arity = gathered.arity;
    plan = joined_plan K op gathered.shapes gathered.exact;
    mask = m;
  }

  abbrev wanted : ℕ → Bool
  wanted x = apply (plan_op K op) (values K x cs)

  module _ (child : HasChild K op cs) (h : ChildrenOk K L op cs)
      (small : 1 + weight K cs < 2 ^ 16) where
    operands_lem : HasOperands (plan_op K op) gathered.shapes
    operands_lem = gather-HasOperands K L op cs child h

    own_key : (k : ℕ) → has_key own_shape k ≡ true → k < 2 ^ 16
    own_key k e =
        made_shape-key K (plan_op K op) gathered.shapes gathered.exact k
          (gather-shapes K L op 0 cs h).0 (gather-shapes K L op 0 cs h).1
          (ap (λ s. has_key s k) (sym (made_shape-joined K op gathered.shapes gathered.exact)) ∙ e)

    own_shape-over : (k : ℕ) → has_key own_shape k ≡ over (plan_op K op) gathered.shapes k
    own_shape-over k =
        ap (λ s. has_key s k) (made_shape-joined K op gathered.shapes gathered.exact)
        ∙ made_shape-over K (plan_op K op) gathered.shapes gathered.exact k
            (gather-shapes K L op 0 cs h).0

    arity_lem : gathered.arity ≡ length gathered.shapes
    arity_lem = omega (arith, (gather-shapes K L op 0 cs h).2)

    wanted-over :
        (x : ℕ)
        → x < 2 ^ 32
        → wanted x ≡ true
        → over (plan_op K op) gathered.shapes (key_of x) ≡ true
    wanted-over x l e =
        sym (keys_at-over K op gathered.shapes (key_of x) operands_lem)
        ∙ gather-covered K L op 0 cs x h l (sym (apply-values K op cs x child) ∙ e)

    -- The operands of the child plans, whose values the inner and the outer mask allow.
    combine-inlined :
        (m : Option (List ℕ)) (S : List (Operand K))
        → Delivers K L
            (fill K (inner_or K own_mask m) (drop_guards K gathered.steps))
            S
            gathered.shapes
            gathered.exact
            m
            (apply (plan_op K op))
            wanted
    combine-inlined m S =
        let (accs, runs, fit, value) = gather-inlined K L op 0 cs (inner_or K own_mask m) S h in
        let counts =
          length-map accs (mem K L 0)
          ∙ AllSuit-length K L accs gathered.shapes gathered.exact fit in
        (
          accs,
          runs,
          fit,
          λ x l.
              widen K (narrows K op gathered.arity gathered.shapes own_shape) own_shape m x
                (apply (plan_op K op) (mems K L x accs)) (wanted x) own_key
                (λ l'.
                  apply-join_value K op gathered.shapes (mems K L x accs) operands_lem (
                    length-map accs (mem K L x)
                    ∙ AllSuit-length K L accs gathered.shapes gathered.exact fit)
                  ∙ value x l'
                  ∙ sym (apply-values K op cs x child))
                (λ e.
                  own_shape-over (key_of x)
                  ∙ apply-over K L (plan_op K op) accs gathered.shapes gathered.exact x fit e)
                (λ e. own_shape-over (key_of x) ∙ wanted-over x l.0 e) l,
        )

    combine-guarded :
        (m : Option (List ℕ)) (S : List (Operand K))
        → Delivers K L
            (fill K (inner_or K own_mask m) (resolve K gathered.steps)
              ++ (Step.combine (own_fold (inner_or K own_mask m)) ∷ []))
            S
            (own_shape ∷ [])
            (false ∷ [])
            m
            any_true
            wanted
    combine-guarded m S =
        let (a, run, suits, value) =
          gather-Finishes K L op (inner_or K own_mask m) S 0 cs [] [] gathered.shapes []
            gathered.exact (own_fold (inner_or K own_mask m)) h refl (omega (arith, small))
            (omega (arith, small)) tt refl refl operands_lem (gather-shapes K L op 0 cs h).0
            arity_lem (made_plan-joined K op gathered.shapes gathered.exact) refl in
        let here : Suits K L a own_shape false =
          subst (λ s. Suits K L a s false)
            (sym (made_shape-joined K op gathered.shapes gathered.exact)) suits in
        (
          a ∷ [],
          run,
          (here, tt),
          λ x l.
              any_true-single (mem K L x a)
              ∙ widen K (narrows K op gathered.arity gathered.shapes own_shape) own_shape m x
                  (mem K L x a) (wanted x) own_key
                  (λ l'. value x l' ∙ sym (apply-values K op cs x child))
                  (Fits-has_key K L a own_shape false x here)
                  (λ e. own_shape-over (key_of x) ∙ wanted-over x l.0 e) l,
        )

    -- The plan of an AND or OR.
    pub combine-PlanOk :
        PlanOk K L (plan_op K op) wanted (1 + weight K cs) (combine_all K op (exprs K cs))
    unfolding combine_all fill
    combine-PlanOk =
        let g = gathered in
        let (asc, keys, arity) = gather-shapes K L op 0 cs h in
        let (bound, operands) = gather-bounds K L op 0 cs h in
        let patched = patch_guards-resolve K (length g.steps + 1) 0 g.steps (omega arith) in
        record {
          operands_From = asc;
          operands_keys = keys;
          has_operands = operands_lem;
          arity_lem = arity_lem;
          plan_op_lem = joined_plan-op K op g.shapes g.exact;
          plan_lem = made_plan-joined K op g.shapes g.exact;
          shape_lem = made_shape-joined K op g.shapes g.exact;
          resolved = fill-IsResolved K own_mask (patch_guards K (length g.steps + 1) 0 g.steps) (
              subst (IsResolved K) (sym patched)
                (resolve-IsResolved K g.steps (omega (arith, bound, small))));
          steps_bound = omega (
            arith,
            bound,
            length-fill K own_mask (patch_guards K (length g.steps + 1) 0 g.steps),
            ap length patched,
            length-resolve K g.steps,
          );
          operands_bound = omega (arith, operands);
          covered = wanted-over;
          root_live = λ x l e.
              mask_for-is_live K (narrows K op g.arity g.shapes own_shape) own_shape (key_of x)
                own_key (own_shape-over (key_of x) ∙ wanted-over x l e);
          inlined = λ m S.
              subst (λ c. Delivers K L c S g.shapes g.exact m (apply (plan_op K op)) wanted)
                (sym (
                  ap (fill K m) (
                    drop_guards-fill K own_mask (patch_guards K (length g.steps + 1) 0 g.steps)
                    ∙ ap (fill K own_mask)
                        (ap (drop_guards K) patched ∙ drop_guards-resolve K g.steps))
                  ∙ fill-fill K m own_mask (drop_guards K g.steps)))
                (combine-inlined m S);
          guarded = λ m S.
              subst (λ c. Delivers K L c S (own_shape ∷ []) (false ∷ []) m any_true wanted)
                (sym (
                  fill-append K m (fill K own_mask (patch_guards K (length g.steps + 1) 0 g.steps))
                    (Step.combine (own_fold own_mask) ∷ [])
                  ∙ ap (λ c. c ++ (Step.combine (own_fold (inner_or K own_mask m)) ∷ []))
                      (fill-fill K m own_mask (patch_guards K (length g.steps + 1) 0 g.steps)
                        ∙ ap (fill K (inner_or K own_mask m)) patched)))
                (combine-guarded m S);
        }
