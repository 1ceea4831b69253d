-- ===== src/Expr/Difference.antt =====
-- src/api/expr.rs: FoldPlan::diff, of sound operands, is sound.
use mathlib.Core.Path.{subst}
use frostbit.Base.{
  ℕ, ◌+◌, ◌*◌, ◌^◌, ◌≤◌, ◌<◌, ◌≡◌, refl, sym, ap, ap₂, ◌∙◌, Bool, false, not, ◌&&◌, Option, none,
  List, [], ◌∷◌, ◌++◌, length, length-append, length-map, arith,
}
use frostbit.Shape.{Shape, diff_shape, to_plan}
use frostbit.Shape.Keys.{AllFrom}
use frostbit.Plan.{Op}
use frostbit.Expr.{
  Position, Fold, Step, Spliced, Expr, drop_guards, splice, fill, guard_if, patch_guards,
  difference,
}
use frostbit.Expr.Interface.{Kernels}
use frostbit.Expr.Execute.{Operand}
use frostbit.Expr.Meaning.{apply, any_true}
use frostbit.Expr.Laws.{Laws, made_shape, made_plan, key_of}
use frostbit.Expr.Code.{
  IsResolved, Runs, Runs-append, resolve, resolve-resolved, patch_guards-resolve,
  resolve-IsResolved, length-resolve,
}
use frostbit.Expr.Masks.{fill-append, drop_guards-append, drop_guards-guard_if, drop_guards-resolve}
use frostbit.Expr.Shapes.{both}
use frostbit.Expr.Stack.{push_all, push_all-append, mem, mems, AllSuit, run-combine}
use frostbit.Expr.Sound.{Live, Delivers, SplicedOk, PlanOk, AllSuit-length, any_true-single}
use frostbit.Expr.Guard.{Finishes, Runs-behind, guard-Finishes}
use frostbit.Expr.Children.{AllSuit-append, length-guard_if}
use frostbit.Expr.JoinValue.{AllFrom-append, AllKeys-append, map-append}
use frostbit.Expr.Gather.{guard_empty}
use frostbit.Expr.Combine.{is_cons-append}
use frostbit.Expr.Subtract.{apply-diff_append, over-diff_append, is_cons-length, and_false}

module _ (K : Kernels) (L : Laws K) (lhs rhs : Expr K) (f g : ℕ → Bool) (n1 n2 : ℕ) where
  abbrev left : Spliced K
  left = splice K lhs Position.diff_lhs

  abbrev right : Spliced K
  right = splice K rhs Position.diff

  abbrev code : List (Step K)
  code = left.steps ++ guard_if K left.guardable 1 right.steps

  abbrev both_shapes : List Shape
  both_shapes = left.shapes ++ right.shapes

  abbrev both_exact : List Bool
  both_exact = left.exact ++ right.exact

  abbrev own_fold : Option (List ℕ) → Fold
  own_fold m = record {
    arity = left.net + 1;
    plan = to_plan Op.diff (diff_shape both_shapes);
    mask = m;
  }

  abbrev wanted : ℕ → Bool
  wanted x = f x && not (g x)

  module _ (l : SplicedOk K L Position.diff_lhs f n1 left)
      (r : SplicedOk K L Position.diff g n2 right) (small : 1 + n1 + n2 < 2 ^ 16) where
    ascending : AllFrom 0 both_shapes
    ascending = AllFrom-append 0 left.shapes right.shapes l.shapes_From r.shapes_From

    arity_lem : left.net + 1 ≡ length both_shapes
    arity_lem = omega (arith, l.net_lem, r.filled, length-append left.shapes right.shapes)

    -- What the operands of both sides make up.
    both_value :
        (accs accs' : List (Operand K)) (m : Option (List ℕ)) (x : ℕ)
        → AllSuit K L accs left.shapes left.exact
        → apply Op.diff (mems K L x accs) ≡ f x
        → any_true (mems K L x accs') ≡ g x
        → apply Op.diff (mems K L x (accs ++ accs')) ≡ wanted x
    both_value accs accs' m x fit e e' =
        let (n, p) = is_cons-length left.shapes l.filled in
        ap (apply Op.diff) (map-append (mem K L x) accs accs')
        ∙ apply-diff_append (mems K L x accs) (mems K L x accs') n
            (length-map accs (mem K L x) ∙ AllSuit-length K L accs left.shapes left.exact fit ∙ p)
        ∙ ap₂ (λ a b. a && not b) e e'

    diff-inlined :
        (m : Option (List ℕ)) (S : List (Operand K))
        → Delivers K L
            (fill K m (drop_guards K left.steps) ++ fill K m (drop_guards K right.steps))
            S
            both_shapes
            both_exact
            m
            (apply Op.diff)
            wanted
    diff-inlined m S =
        let (accs, runs, fit, value) = l.inlined m S in
        let (accs', runs', fit', value') = r.inlined m (push_all accs S) in
        (
          accs ++ accs',
          subst
              (λ S'.
                Runs K (fill K m (drop_guards K left.steps) ++ fill K m (drop_guards K right.steps))
                  S S')
              (sym (push_all-append accs accs' S))
              (Runs-append K (fill K m (drop_guards K left.steps))
                (fill K m (drop_guards K right.steps)) S (push_all accs S)
                (push_all accs' (push_all accs S)) runs runs'),
          AllSuit-append K L accs accs' left.shapes right.shapes left.exact right.exact fit fit',
          λ x live. both_value accs accs' m x fit (value x live) (value' x live),
        )

    -- The subtrahend and the fold, behind the operands of the minuend.
    tail-Finishes :
        (m : Option (List ℕ)) (S accs : List (Operand K))
        → AllSuit K L accs left.shapes left.exact
        → ((x : ℕ) → Live m x → apply Op.diff (mems K L x accs) ≡ f x)
        → Finishes K L
            (fill K m (resolve K right.steps) ++ (Step.combine (own_fold m) ∷ []))
            (push_all accs S)
            S
            (made_shape K Op.diff both_shapes both_exact)
            m
            wanted
    unfolding made_shape made_plan
    tail-Finishes m S accs fit value =
        let (accs', runs', fit', value') = r.guarded m (push_all accs S) in
        let fits =
          AllSuit-append K L accs accs' left.shapes right.shapes left.exact right.exact fit fit' in
        let (a, run, suits, folded) =
          run-combine K L (own_fold m) Op.diff both_shapes both_exact (accs ++ accs') S
            (arity_lem ∙ sym (AllSuit-length K L (accs ++ accs') both_shapes both_exact fits))
            (omega (
              arith,
              AllSuit-length K L (accs ++ accs') both_shapes both_exact fits,
              small,
              l.shapes_bound,
              r.shapes_bound,
              length-append left.shapes right.shapes,
            ))
            refl ascending fits in
        (
          a,
          subst
              (λ c.
                Runs K (fill K m c ++ (Step.combine (own_fold m) ∷ [])) (push_all accs S) (a ∷ S))
              (sym (resolve-resolved K right.steps r.resolved))
              (Runs-append K (fill K m right.steps) (Step.combine (own_fold m) ∷ [])
                (push_all accs S) (push_all accs' (push_all accs S)) (a ∷ S) runs'
                (subst (λ st. Runs K (Step.combine (own_fold m) ∷ []) st (a ∷ S))
                  (push_all-append accs accs' S) run)),
          suits,
          λ x live.
              folded x live.0
              ∙ ap (λ b. b && apply Op.diff (mems K L x (accs ++ accs'))) live.1
              ∙ both_value accs accs' m x fit (value x live) (value' x live),
        )

    diff-guarded :
        (m : Option (List ℕ)) (S : List (Operand K))
        → Delivers K L
            (fill K m (resolve K code) ++ (Step.combine (own_fold m) ∷ []))
            S
            (diff_shape both_shapes ∷ [])
            (false ∷ [])
            m
            any_true
            wanted
    unfolding made_shape
    diff-guarded m S =
        let (accs, runs, fit, value) = l.guarded m S in
        let counts = AllSuit-length K L accs left.shapes left.exact fit in
        let (a, run, suits, want) =
          guard-Finishes K L left.guardable 1 right.steps (Step.combine (own_fold m)) accs S
            (made_shape K Op.diff both_shapes both_exact) m wanted
            (omega (arith, r.steps_bound, small)) (omega (arith, counts, l.shapes_bound, small))
            (λ t. sym (counts ∙ l.alone t))
            (λ t top x live. and_false (f x) (not (g x)) (
              sym (value x live)
              ∙ guard_empty K L [] accs S left.shapes left.exact x Position.diff_lhs fit (l.alone t)
                  top))
            (tail-Finishes m S accs fit value) in
        (
          a ∷ [],
          Runs-behind K m left.steps (guard_if K left.guardable 1 right.steps)
              (Step.combine (own_fold m)) S (push_all accs S) (a ∷ S) l.resolved runs run,
          (suits, tt),
          λ x live. any_true-single (mem K L x a) ∙ want x live,
        )

    -- The plan of a difference.
    pub difference-PlanOk : PlanOk K L Op.diff wanted (1 + n1 + n2) (difference K lhs rhs)
    unfolding difference fill made_shape made_plan to_plan
    difference-PlanOk =
        let patched = patch_guards-resolve K (length code + 1) 0 code (omega arith) in
        let bound : length code + 1 ≤ 2 * (n1 + n2) = omega (
          arith,
          l.steps_bound,
          r.steps_bound,
          length-append left.steps (guard_if K left.guardable 1 right.steps),
          length-guard_if K L left.guardable 1 right.steps,
        ) in
        record {
          operands_From = ascending;
          operands_keys = AllKeys-append left.shapes right.shapes l.shapes_keys r.shapes_keys;
          has_operands = is_cons-append left.shapes right.shapes l.filled;
          arity_lem = arity_lem;
          plan_op_lem = refl;
          plan_lem = refl;
          shape_lem = refl;
          resolved =
              subst (IsResolved K) (sym patched)
                (resolve-IsResolved K code (omega (arith, bound, small)));
          steps_bound = omega (arith, bound, ap length patched, length-resolve K code);
          operands_bound =
              omega (arith, l.shapes_bound, r.shapes_bound, length-append left.shapes right.shapes);
          covered = λ x h e.
              over-diff_append left.shapes right.shapes (key_of x)
                (l.covered x h (both (f x) (not (g x)) e).0);
          root_live = λ x h e. refl;
          inlined = λ m S.
              subst (λ c. Delivers K L c S both_shapes both_exact m (apply Op.diff) wanted)
                (sym (
                  ap (fill K m) (
                    ap (drop_guards K) patched
                    ∙ drop_guards-resolve K code
                    ∙ drop_guards-append K left.steps (guard_if K left.guardable 1 right.steps)
                    ∙ ap (λ c. drop_guards K left.steps ++ c)
                        (drop_guards-guard_if K left.guardable 1 right.steps))
                  ∙ fill-append K m (drop_guards K left.steps) (drop_guards K right.steps)))
                (diff-inlined m S);
          guarded = λ m S.
              subst
                (λ c. Delivers K L c S (diff_shape both_shapes ∷ []) (false ∷ []) m any_true wanted)
                (sym (
                  fill-append K m (patch_guards K (length code + 1) 0 code)
                    (Step.combine (own_fold none) ∷ [])
                  ∙ ap (λ c. fill K m c ++ (Step.combine (own_fold m) ∷ [])) patched))
                (diff-guarded m S);
        }
