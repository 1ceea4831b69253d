-- ===== src/Expr/Stack.antt =====
-- The operand stack of src/api/expr.rs: what one fold does to it, and what an empty operand means.
use mathlib.Core.Path.{subst}
use frostbit.Base.{
  ℕ, suc, ◌+◌, ◌^◌, ◌<◌, ◌≤◌, ◌≡◌, refl, sym, ap, ◌∙◌, Bool, true, false, ◌&&◌, Option, none, some,
  List, [], ◌∷◌, ◌++◌, map, length, if◌then◌else◌, arith, inl, inr, Bool-cases,
}
use frostbit.Base.Exec.{ok, ◌>>=◌}
use frostbit.Cursor.{ContainerRef}
use frostbit.KeyMask.{KeyMask, contains}
use frostbit.Plan.{Op, UnionAgg, Plan, plan_union_observed}
use frostbit.Plan.Observed.{AreStored, AllStored, plan_union_observed-keys}
use frostbit.Shape.{Shape, to_plan, slot_of, union_shape_agg}
use frostbit.Shape.Keys.{AllFrom, has_key}
use frostbit.Expr.{Join, Fold, Step, joined_plan, predicts_wide}
use frostbit.Expr.Shapes.{joined_plan-leaf_agg}
use frostbit.Expr.Interface.{Kernels, Acc}
use frostbit.Expr.Execute.{
  Operand, run, split_top, fold_step, executed_plan, replans, has_intermediate, intermediates,
  live_containers, fold_mask, is_empty,
}
use frostbit.Expr.Meaning.{apply}
use frostbit.Expr.Laws.{
  Laws, made_shape, made_plan, IsPlanned, Fits, AllFit, member, key_of, is_live,
}

-- Operands pushed in order.
abbrev pub push_all {ℓ} : {A : Type ℓ} → List A → List A → List A
push_all [] S = S
push_all (a ∷ as') S = push_all as' (a ∷ S)

pub push_all-append {ℓ} :
    {A : Type ℓ} (as' bs S : List A) → push_all (as' ++ bs) S ≡ push_all bs (push_all as' S)
push_all-append [] bs S = refl
push_all-append (a ∷ as') bs S = push_all-append as' bs (a ∷ S)

split_top-push_all {ℓ} :
    {A : Type ℓ} (as' S taken : List A) (n : ℕ)
    → split_top (length as' + n) (push_all as' S) taken ≡ split_top n S (as' ++ taken)
unfolding split_top
split_top-push_all [] S taken n = ap (λ m. split_top m S taken) (omega arith)
split_top-push_all (a ∷ as') S taken n =
    ap (λ m. split_top m (push_all as' (a ∷ S)) taken) (omega arith)
    ∙ split_top-push_all as' (a ∷ S) taken (suc n)

-- The operands on top are taken in the order in which they were pushed.
pub split_top-pushed {ℓ} :
    {A : Type ℓ} (as' S : List A) → split_top (length as') (push_all as' S) [] ≡ ok (as', S)
unfolding split_top
split_top-pushed {A = A} as' S =
    ap (λ m. split_top m (push_all as' S) []) (omega arith)
    ∙ split_top-push_all as' S [] 0
    ∙ ap (λ as'. ok (as', S)) (append_nil as')
  where
    append_nil : (as' : List A) → as' ++ [] ≡ as'
    append_nil [] = refl
    append_nil (a ∷ as') = ap (λ r. a ∷ r) (append_nil as')

live_containers-AreStored :
    (m : Option KeyMask) (cs : List ContainerRef) → AreStored cs → AreStored (live_containers m cs)
unfolding live_containers
live_containers-AreStored none cs h = h
live_containers-AreStored (some m) [] h = tt
live_containers-AreStored (some m) (c ∷ cs) (e, h) = elim (Bool-cases (contains m c.key)) [
  | inl y ↦
      subst AreStored
        (sym
          (ap (λ b. if b then c ∷ live_containers (some m) cs else live_containers (some m) cs) y))
        (e, live_containers-AreStored (some m) cs h)
  | inr n ↦
      subst AreStored
        (sym
          (ap (λ b. if b then c ∷ live_containers (some m) cs else live_containers (some m) cs) n))
        (live_containers-AreStored (some m) cs h)
]

module _ (K : Kernels) (L : Laws K) where
  abbrev pub mem : ℕ → Operand K → Bool
  mem x a = member K L.has L.arena_has x a

  abbrev pub mems : ℕ → List (Operand K) → List Bool
  mems x accs = map (mem x) accs

  abbrev pub Suits : Operand K → Shape → Bool → Type 0
  Suits a s e = Fits K L.Describes a s e

  abbrev pub AllSuit : List (Operand K) → List Shape → List Bool → Type 0
  AllSuit accs ss es = AllFit K L.Describes accs ss es

  empty_shape :
      (cs : List ContainerRef) (s : Shape) (k : ℕ)
      → frostbit.Shape.view_shape cs ≡ ok s
      → length cs ≡ 0
      → has_key s k ≡ false
  unfolding frostbit.Shape.view_shape
  empty_shape [] s k e h = ap (λ s. has_key s k) (same e)
    where
      same : ok [] ≡ ok s → s ≡ []
      same p = cc
  empty_shape (c ∷ cs) s k e h = absurd (omega (arith, h))

  -- An operand that `Acc::is_empty` calls empty has no members.
  pub is_empty-mem : (a : Operand K) (x : ℕ) → is_empty K a ≡ true → mem x a ≡ false
  unfolding is_empty
  is_empty-mem (Acc.leaf v) x h = elim (Bool-cases (L.has v x)) [
    | inl y ↦
        let none_there =
          empty_shape (K.containers v) (K.view_shape v) (key_of x) (L.view_shape_lem v)
            (ground (arith, h)) in
        absurd (clash (sym (L.has-key v x y) ∙ none_there))
    | inr n ↦ n
  ]
    where
      clash : true ≡ false → ⊥
      clash p = cc
  is_empty-mem (Acc.arena a) x h = L.no_containers a x (ground (arith, h))
  is_empty-mem Acc.empty x h = refl

  intermediates-AllStored :
      (m : Option KeyMask) (accs : List (Operand K)) → AllStored (intermediates K m accs)
  unfolding intermediates
  intermediates-AllStored m [] = tt
  intermediates-AllStored m (Acc.leaf v ∷ accs) = intermediates-AllStored m accs
  intermediates-AllStored m (Acc.arena a ∷ accs) = (
    live_containers-AreStored m (K.arena_containers a) (L.arena_stored a),
    intermediates-AllStored m accs,
  )
  intermediates-AllStored m (Acc.empty ∷ accs) = intermediates-AllStored m accs

  made_plan-op : (op : Op) (ss : List Shape) (es : List Bool) → (made_plan K op ss es).op ≡ op
  unfolding made_plan joined_plan to_plan
  made_plan-op Op.intersect ss es = refl
  made_plan-op Op.union ss es = refl
  made_plan-op Op.diff ss es = refl

  -- An aggregate for each slot, where there are any.
  leaf_agg-slots :
      (op : Op) (ss : List Shape) (es : List Bool)
      → AllFrom 0 ss
      → 1 ≤ length (made_plan K op ss es).leaf_agg
      → length (made_plan K op ss es).leaf_agg ≡ length (made_plan K op ss es).slots
  unfolding made_plan joined_plan to_plan
  leaf_agg-slots Op.intersect ss es asc h = absurd (omega (arith, h))
  leaf_agg-slots Op.diff ss es asc h = absurd (omega (arith, h))
  leaf_agg-slots Op.union ss es asc h =
      by_wide (predicts_wide K ss es) (joined_plan-leaf_agg K Join.or ss es asc)
    where
      by_wide :
          (b : Bool)
          → length (joined_plan K Join.or ss es).leaf_agg
            ≡ (if b then length (joined_plan K Join.or ss es).slots else 0)
          → length (joined_plan K Join.or ss es).leaf_agg
            ≡ length (joined_plan K Join.or ss es).slots
      by_wide true e = e
      by_wide false e = absurd (omega (arith, h, e))

  observed_some :
      (m : Option KeyMask) (accs : List (Operand K))
      → has_intermediate K accs ≡ true
      → 1 ≤ length (intermediates K m accs)
  unfolding has_intermediate intermediates
  observed_some m [] h = cc
  observed_some m (Acc.leaf v ∷ accs) h = observed_some m accs h
  observed_some m (Acc.arena a ∷ accs) h = omega arith
  observed_some m (Acc.empty ∷ accs) h = observed_some m accs h

  replans-both :
      (as' : List UnionAgg) (b : Bool) → replans K as' b ≡ true → (1 ≤ length as') × (b ≡ true)
  replans-both [] b h = cc
  replans-both (a ∷ as') b h = (omega arith, h)

  executed_plan-IsPlanned :
      (f : Fold) (op : Op) (ss : List Shape) (es : List Bool) (accs : List (Operand K))
      → f.plan ≡ made_plan K op ss es
      → AllFrom 0 ss
      → (plan : Plan) × (executed_plan K f accs ≡ ok plan)
        × IsPlanned K op ss es (intermediates K (fold_mask f.mask) accs) plan
  unfolding executed_plan
  executed_plan-IsPlanned f op ss es accs e asc =
      elim (Bool-cases (replans K f.plan.leaf_agg (has_intermediate K accs))) [
        | inl y ↦
            let (some_agg, predicted) = replans-both f.plan.leaf_agg (has_intermediate K accs) y in
            let planned : 1 ≤ length (made_plan K op ss es).leaf_agg =
              subst (λ q. 1 ≤ length q.leaf_agg) e some_agg in
            let (plan, p, same, keys) =
              plan_union_observed-keys f.plan (intermediates K (fold_mask f.mask) accs)
                (subst (λ q. length q.leaf_agg ≡ length q.slots) (sym e)
                  (leaf_agg-slots op ss es asc planned))
                (intermediates-AllStored (fold_mask f.mask) accs) in
            (
              plan,
              chosen y ∙ p,
              inr (
                planned,
                observed_some (fold_mask f.mask) accs predicted,
                ap (λ q. plan_union_observed q (intermediates K (fold_mask f.mask) accs)) (sym e)
                    ∙ p,
              ),
            )
        | inr n ↦ (f.plan, chosen n, inl e)
      ]
    where
      chosen :
          {b : Bool}
          → replans K f.plan.leaf_agg (has_intermediate K accs) ≡ b
          → executed_plan K f accs ≡ (
              if b
              then plan_union_observed f.plan (intermediates K (fold_mask f.mask) accs)
              else ok f.plan)
      chosen p =
          ap
            (λ b.
              if b
              then plan_union_observed f.plan (intermediates K (fold_mask f.mask) accs)
              else ok f.plan)
            p

  run_combine :
      (f : Fold) (accs st S : List (Operand K)) (a : Operand K) (rest : List (Step K))
      → split_top f.arity st [] ≡ ok (accs, S)
      → fold_step K f accs ≡ ok a
      → run K 0 (Step.combine f ∷ rest) st ≡ run K 0 rest (a ∷ S)
  unfolding run
  run_combine f accs st S a rest p q = rw (p, q) refl

  -- A fold whose plan was made from the shapes that its operands suit.
  pub run-combine :
      (f : Fold) (op : Op) (ss : List Shape) (es : List Bool) (accs S : List (Operand K))
      → f.arity ≡ length accs
      → length accs < 2 ^ 16
      → f.plan ≡ made_plan K op ss es
      → AllFrom 0 ss
      → AllSuit accs ss es
      → (a : Operand K) × ((rest : List (Step K))
          → run K 0 (Step.combine f ∷ rest) (push_all accs S) ≡ run K 0 rest (a ∷ S))
        × Suits a (made_shape K op ss es) false
        × ((x : ℕ)
            → x < 2 ^ 32
            → mem x a ≡ (is_live (fold_mask f.mask) (key_of x) && apply op (mems x accs)))
  unfolding fold_step
  run-combine f op ss es accs S n few e from fit =
      let (plan, p, planned) = executed_plan-IsPlanned f op ss es accs e from in
      let same : f.plan.op ≡ op = ap (λ q. q.op) e ∙ made_plan-op op ss es in
      (
        Acc.arena (K.fold op plan (fold_mask f.mask) accs),
        λ rest.
            run_combine f accs (push_all accs S) S _ rest
              (ap (λ k. split_top k (push_all accs S) []) n ∙ split_top-pushed accs S)
              (ap
                  (λ q.
                    q >>= λ plan. ok (Acc.arena (K.fold f.plan.op plan (fold_mask f.mask) accs)))
                  p
                ∙ ap (λ o. ok (Acc.arena (K.fold o plan (fold_mask f.mask) accs))) same),
        (refl, L.fold-Describes op ss es plan (fold_mask f.mask) accs few from fit planned),
        λ x h. L.fold_lem op ss es plan (fold_mask f.mask) accs x few from fit planned h,
      )
