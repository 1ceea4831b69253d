-- ===== src/Expr/Gather.antt =====
-- src/api/expr.rs: the guarded code of the children of an AND or OR, and their fold behind it.
use mathlib.Core.Path.{subst}
use mathlib.Core.List.{append_assoc}
use frostbit.Base.{
  ℕ, ◌+◌, ◌*◌, ◌^◌, ◌<◌, ◌≡◌, refl, sym, ap, ◌∙◌, Bool, true, false, ◌&&◌, Option, List, [], ◌∷◌,
  ◌++◌, length, length-append, length-map, arith,
}
use frostbit.Shape.{Shape}
use frostbit.Shape.Keys.{AllFrom}
use frostbit.Expr.{
  Join, Position, Fold, Step, splice, fill, gather, guarded_by, guard_if, plan_op, unresolved,
}
use frostbit.Expr.Interface.{Kernels}
use frostbit.Expr.Execute.{Operand, top_is_empty, fold_mask}
use frostbit.Expr.Meaning.{apply}
use frostbit.Expr.Laws.{Laws, made_shape, made_plan, key_of, is_live}
use frostbit.Expr.Code.{Runs, resolve}
use frostbit.Expr.Stack.{push_all, push_all-append, mem, mems, AllSuit, run-combine, is_empty-mem}
use frostbit.Expr.Sound.{value_at, HasOperands, AllSuit-length, value_at-single}
use frostbit.Expr.Guard.{Finishes, Runs-behind, guard-Finishes}
use frostbit.Expr.Children.{Child, exprs, values, weight, ChildrenOk, AllSuit-append, gather-bounds}
use frostbit.Expr.JoinValue.{joined, join_value, join_value-append, join_value-cons, map-append}

-- Operands of which there are enough make up what the operation makes of them.
pub apply-join_value :
    (K : Kernels) (op : Join) (ss : List Shape) (bs : List Bool)
    → HasOperands (plan_op K op) ss
    → length bs ≡ length ss
    → apply (plan_op K op) bs ≡ join_value op bs
unfolding apply
apply-join_value K Join.and [] bs h l = cc
apply-join_value K Join.and (s ∷ ss) [] h l = absurd (omega (arith, l))
apply-join_value K Join.and (s ∷ ss) (b ∷ bs) h l = refl
apply-join_value K Join.or ss [] h l = refl
apply-join_value K Join.or ss (b ∷ bs) h l = refl

append_nil {ℓ} : {A : Type ℓ} (xs : List A) → xs ++ [] ≡ xs
append_nil [] = refl
append_nil (x ∷ xs) = ap (λ r. x ∷ r) (append_nil xs)

-- An operand without members empties an intersection.
false_within : (as' bs : List Bool) → join_value Join.and (as' ++ (false ∷ bs)) ≡ false
false_within [] bs = refl
false_within (true ∷ as') bs = false_within as' bs
false_within (false ∷ as') bs = refl

joined_assoc :
    (op : Join) (a b c : Bool) → joined op (joined op a b) c ≡ joined op a (joined op b c)
joined_assoc Join.and true b c = refl
joined_assoc Join.and false b c = refl
joined_assoc Join.or true b c = refl
joined_assoc Join.or false b c = refl

-- A child's operands count as its value.
regroup :
    (op : Join) (as0 as1 rest : List Bool) (b : Bool)
    → join_value op as1 ≡ b
    → join_value op ((as0 ++ as1) ++ rest) ≡ join_value op (as0 ++ (b ∷ rest))
regroup op as0 as1 rest b e =
    join_value-append op (as0 ++ as1) rest
    ∙ ap (λ v. joined op v (join_value op rest)) (join_value-append op as0 as1)
    ∙ joined_assoc op (join_value op as0) (join_value op as1) (join_value op rest)
    ∙ ap (λ v. joined op (join_value op as0) (joined op v (join_value op rest))) e
    ∙ ap (joined op (join_value op as0)) (sym (join_value-cons op b rest))
    ∙ sym (join_value-append op as0 (b ∷ rest))

emptied :
    (K : Kernels) (op : Join) (g : Bool) (as0 as1 rest : List Bool)
    → guarded_by K op g ≡ true
    → join_value op as1 ≡ false
    → join_value op ((as0 ++ as1) ++ rest) ≡ false
emptied K Join.and g as0 as1 rest h e =
    regroup Join.and as0 as1 rest false e ∙ false_within as0 rest
emptied K Join.or g as0 as1 rest h e = cc

module _ (K : Kernels) (L : Laws K) where
  -- The operand that was just pushed decides a guard.
  pub guard_empty :
      (accs0 accs S : List (Operand K)) (ss : List Shape) (es : List Bool) (x : ℕ) (p : Position)
      → AllSuit K L accs ss es
      → length ss ≡ 1
      → top_is_empty K (push_all (accs0 ++ accs) S) ≡ true
      → value_at p (mems K L x accs) ≡ false
  unfolding top_is_empty
  guard_empty accs0 [] S [] es x p f n e = absurd (omega (arith, n))
  guard_empty accs0 [] S (s ∷ ss) es x p f n e = absurd f
  guard_empty accs0 (a ∷ []) S ss es x p f n e =
      value_at-single p (mem K L x a)
      ∙ is_empty-mem K L a x (ap (top_is_empty K) (sym (push_all-append accs0 (a ∷ []) S)) ∙ e)
  guard_empty accs0 (a ∷ b ∷ accs) S [] es x p f n e = absurd f
  guard_empty accs0 (a ∷ b ∷ accs) S (s ∷ ss) es x p f n e =
      absurd (omega (arith, n, AllSuit-length K L (a ∷ b ∷ accs) (s ∷ ss) es f))

  guarded_by-true : (op : Join) (b : Bool) → guarded_by K op b ≡ true → b ≡ true
  guarded_by-true Join.and b e = e
  guarded_by-true Join.or b e = cc

  module _ (op : Join) (m : Option (List ℕ)) (S : List (Operand K)) where
    -- The guarded code of the children that are left, behind that of `accs0`, and the fold.
    pub gather-Finishes :
        (base : ℕ) (cs : List (Child K)) (accs0 : List (Operand K)) (ss0 ss : List Shape)
        (es0 es : List Bool) (r : Fold)
        → ChildrenOk K L op cs
        → length accs0 ≡ base
        → base + weight K cs < 2 ^ 16
        → 2 * weight K cs + 2 < unresolved
        → AllSuit K L accs0 ss0 es0
        → ss0 ++ (gather K op base (exprs K cs)).shapes ≡ ss
        → es0 ++ (gather K op base (exprs K cs)).exact ≡ es
        → HasOperands (plan_op K op) ss
        → AllFrom 0 ss
        → r.arity ≡ length ss
        → r.plan ≡ made_plan K (plan_op K op) ss es
        → r.mask ≡ m
        → Finishes K L
            (fill K m (resolve K (gather K op base (exprs K cs)).steps) ++ (Step.combine r ∷ []))
            (push_all accs0 S)
            S
            (made_shape K (plan_op K op) ss es)
            m
            (λ x. join_value op (mems K L x accs0 ++ values K x cs))
    unfolding gather resolve fill
    gather-Finishes base [] accs0 ss0 ss es0 es r h n few small fit es_ss es_es operands asc arity
          plan mask =
        let fits : AllSuit K L accs0 ss es =
          subst (λ ss. AllSuit K L accs0 ss es) (sym (append_nil ss0) ∙ es_ss)
            (subst (AllSuit K L accs0 ss0) (sym (append_nil es0) ∙ es_es) fit) in
        let counts = AllSuit-length K L accs0 ss es fits in
        let (a, run, suits, value) =
          run-combine K L r (plan_op K op) ss es accs0 S (arity ∙ sym counts)
            (omega (arith, few, n)) plan asc fits in
        (
          a,
          run,
          suits,
          λ x l.
              value x l.0
              ∙ ap (λ b. b && apply (plan_op K op) (mems K L x accs0))
                  (ap (λ m. is_live (fold_mask m) (key_of x)) mask ∙ l.1)
              ∙ apply-join_value K op ss (mems K L x accs0) operands
                  (length-map accs0 (mem K L x) ∙ counts)
              ∙ ap (join_value op) (sym (append_nil (mems K L x accs0))),
        )
    gather-Finishes base ((e, f, n) ∷ cs) accs0 ss0 ss es0 es r (ok, h) len few small fit es_ss
          es_es operands asc arity plan mask =
        let s = splice K e (Position.child_of op) in
        let g = gather K op (base + s.net) (exprs K cs) in
        let (accs, runs, fits, value) = ok.guarded m (push_all accs0 S) in
        let counted = AllSuit-length K L accs s.shapes s.exact fits in
        let total : length (accs0 ++ accs) ≡ base + s.net =
          omega (arith, len, ok.net_lem, counted, length-append accs0 accs) in
        let (bound, _) = gather-bounds K L op (base + s.net) cs h in
        let later =
          gather-Finishes (base + s.net) cs (accs0 ++ accs) (ss0 ++ s.shapes) ss (es0 ++ s.exact) es
            r h total (omega (arith, few, ok.net_lem, ok.shapes_bound)) (omega (arith, small))
            (AllSuit-append K L accs0 accs ss0 s.shapes es0 s.exact fit fits)
            (append_assoc ss0 s.shapes g.shapes ∙ es_ss) (append_assoc es0 s.exact g.exact ∙ es_es)
            operands asc arity plan mask in
        let (a, run, suits, want) =
          guard-Finishes K L (guarded_by K op s.guardable) (base + s.net) g.steps (Step.combine r)
            (accs0 ++ accs) S (made_shape K (plan_op K op) ss es) m
            (λ x. join_value op (mems K L x (accs0 ++ accs) ++ values K x cs))
            (omega (arith, bound, small)) (omega (arith, total, few, ok.net_lem, ok.shapes_bound))
            (λ t. sym total)
            (λ t top x l.
              ap (λ bs. join_value op (bs ++ values K x cs)) (map-append (mem K L x) accs0 accs)
              ∙ emptied K op s.guardable (mems K L x accs0) (mems K L x accs) (values K x cs) t (
                  guard_empty accs0 accs S s.shapes s.exact x (Position.child_of op) fits
                    (ok.alone (guarded_by-true op s.guardable t)) top))
            later in
        (
          a,
          Runs-behind K m s.steps (guard_if K (guarded_by K op s.guardable) (base + s.net) g.steps)
              (Step.combine r) (push_all accs0 S) (push_all accs (push_all accs0 S)) (a ∷ S)
              ok.resolved runs
              (subst
                (λ st.
                  Runs K
                    (fill K m (
                        resolve K (guard_if K (guarded_by K op s.guardable) (base + s.net) g.steps))
                      ++ (Step.combine r ∷ []))
                    st (a ∷ S))
                (push_all-append accs0 accs S) run),
          suits,
          λ x l.
              want x l
              ∙ ap (λ bs. join_value op (bs ++ values K x cs)) (map-append (mem K L x) accs0 accs)
              ∙ regroup op (mems K L x accs0) (mems K L x accs) (values K x cs) (f x) (value x l),
        )
