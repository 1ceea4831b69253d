-- ===== src/Plan/Observed.antt =====
-- src/ops/analyze/plan.rs: planning a union again from its operands.
use frostbit.Base.{
  ℕ, ◌≡◌, refl, sym, ap, ◌∙◌, List, [], ◌∷◌, map, length, ltb, ◌==◌, arith, inl, inr, Bool-cases,
}
use frostbit.Base.Exec.{ok, ◌>>=◌, ok-injective, ok-ne-panic, bind-inverse}
use frostbit.Cursor.{ContainerRef, stored_bytes}
use frostbit.Plan.{
  Op, SlotPlan, UnionAgg, Plan, observe, observe_all, observe_operands, observed_slot,
  observed_plan, with_agg, plan_union_observed,
}

-- Every container has a type that the format knows.
abbrev pub AreStored : List ContainerRef → Type 0
AreStored [] = Unit {0}
AreStored (c ∷ cs) = ((n : ℕ) × (stored_bytes c ≡ ok n)) × AreStored cs

abbrev pub AllStored : List (List ContainerRef) → Type 0
AllStored [] = Unit {0}
AllStored (cs ∷ css) = AreStored cs × AllStored css

abbrev pub slot_keys : List SlotPlan → List ℕ
slot_keys [] = []
slot_keys (s ∷ ss) = s.key ∷ slot_keys ss

abbrev paired_keys : List (SlotPlan × UnionAgg) → List ℕ
paired_keys [] = []
paired_keys ((s, a) ∷ ss) = s.key ∷ paired_keys ss

observe_all_lem :
    (ss : List (SlotPlan × UnionAgg)) (cs : List ContainerRef)
    → AreStored cs
    → (r : List (SlotPlan × UnionAgg)) × (observe_all ss cs ≡ ok r)
      × (paired_keys r ≡ paired_keys ss)
unfolding observe_all
observe_all_lem [] cs h = ([], refl, refl)
observe_all_lem ((s, a) ∷ ss) [] h = ((s, a) ∷ ss, refl, refl)
observe_all_lem ((s, a) ∷ ss) (c ∷ cs) ((n, e), h) = elim (Bool-cases (ltb s.key c.key)) [
  | inl y ↦
      let (r, p, q) = observe_all_lem ss (c ∷ cs) ((n, e), h) in
      ((s, a) ∷ r, rw (y, observe_all) (rw p refl), ap (λ ks. s.key ∷ ks) q)
  | inr y ↦ elim (Bool-cases (s.key == c.key)) [
    | inl z ↦
        let (r, p, q) = observe_all_lem ((s, observe n c a) ∷ ss) cs h in
        (r, rw (y, observe_all) (rw (z, observe_all) (rw e p)), q)
    | inr z ↦
        let (r, p, q) = observe_all_lem ((s, a) ∷ ss) cs h in
        (r, rw (y, observe_all) (rw (z, observe_all) p), q)
  ]
]

observe_operands_lem :
    (ss : List (SlotPlan × UnionAgg)) (operands : List (List ContainerRef))
    → AllStored operands
    → (r : List (SlotPlan × UnionAgg)) × (observe_operands ss operands ≡ ok r)
      × (paired_keys r ≡ paired_keys ss)
unfolding observe_operands
observe_operands_lem ss [] h = (ss, refl, refl)
observe_operands_lem ss (cs ∷ operands) (a, h) =
    let (r, p, q) = observe_all_lem ss cs a in
    let (r', p', q') = observe_operands_lem r operands h in (r', rw p p', q' ∙ q)

slot_keys-observed_slot :
    (ss : List (SlotPlan × UnionAgg)) → slot_keys (map observed_slot ss) ≡ paired_keys ss
unfolding observed_slot
slot_keys-observed_slot [] = refl
slot_keys-observed_slot ((s, a) ∷ ss) = ap (λ ks. s.key ∷ ks) (slot_keys-observed_slot ss)

with_agg-ok :
    (ss : List SlotPlan) (as' : List UnionAgg)
    → length as' ≡ length ss
    → (r : List (SlotPlan × UnionAgg)) × (with_agg ss as' ≡ ok r) × (paired_keys r ≡ slot_keys ss)
unfolding with_agg
with_agg-ok [] as' e = ([], refl, refl)
with_agg-ok (s ∷ ss) [] e = absurd (omega (arith, e))
with_agg-ok (s ∷ ss) (a ∷ as') e =
    let (r, p, q) = with_agg-ok ss as' (omega (arith, e)) in
    ((s, a) ∷ r, rw p refl, ap (λ ks. s.key ∷ ks) q)

-- Where a union's plan has a leaf aggregate for each slot and every container of the intermediate
-- operands has a known type, planning it again does not panic, and gives a plan for the same
-- operation, with a slot for each key that the first plan has one for, in order.
pub plan_union_observed-keys :
    (base : Plan) (operands : List (List ContainerRef))
    → length base.leaf_agg ≡ length base.slots
    → AllStored operands
    → (plan : Plan) × (plan_union_observed base operands ≡ ok plan)
      × (plan.op ≡ Op.union)
      × (slot_keys plan.slots ≡ slot_keys base.slots)
unfolding plan_union_observed
plan_union_observed-keys base operands e h =
    let (ss, w, k) = with_agg-ok base.slots base.leaf_agg e in
    let (r, p, q) = observe_operands_lem ss operands h in
    (
      observed_plan r,
      ap (λ m. m >>= λ ss. observe_operands ss operands >>= λ ss. ok (observed_plan ss)) w
          ∙ ap (λ m. m >>= λ ss. ok (observed_plan ss)) p,
      refl,
      slot_keys-observed_slot r ∙ q ∙ k,
    )

-- A plan that is made again has the slots of the first one, at the same keys.
with_agg-keys :
    (ss : List SlotPlan) (as' : List UnionAgg) {r : List (SlotPlan × UnionAgg)}
    → with_agg ss as' ≡ ok r
    → paired_keys r ≡ slot_keys ss
unfolding with_agg
with_agg-keys [] as' e = ap paired_keys (sym (ok-injective e))
with_agg-keys (s ∷ ss) [] e = absurd (ok-ne-panic e)
with_agg-keys (s ∷ ss) (a ∷ as') e =
    let (r, p, q) = bind-inverse (with_agg ss as') _ e in
    ap paired_keys (sym (ok-injective q)) ∙ ap (λ ks. s.key ∷ ks) (with_agg-keys ss as' p)

observe_all-keys :
    (ss : List (SlotPlan × UnionAgg)) (cs : List ContainerRef) {r : List (SlotPlan × UnionAgg)}
    → observe_all ss cs ≡ ok r
    → paired_keys r ≡ paired_keys ss
unfolding observe_all
observe_all-keys [] cs e = ap paired_keys (sym (ok-injective e))
observe_all-keys ((s, a) ∷ ss) [] e = ap paired_keys (sym (ok-injective e))
observe_all-keys ((s, a) ∷ ss) (c ∷ cs) e = elim (Bool-cases (ltb s.key c.key)) [
  | inl y ↦
      let (r, p, q) = bind-inverse (observe_all ss (c ∷ cs)) _ (rw (y, observe_all) at e) in
      ap paired_keys (sym (ok-injective q)) ∙ ap (λ ks. s.key ∷ ks) (observe_all-keys ss (c ∷ cs) p)
  | inr y ↦ elim (Bool-cases (s.key == c.key)) [
    | inl z ↦
        let (n, p, q) = bind-inverse (stored_bytes c) _ (rw (y, z, observe_all) at e) in
        observe_all-keys ((s, observe n c a) ∷ ss) cs q
    | inr z ↦ observe_all-keys ((s, a) ∷ ss) cs (rw (y, z, observe_all) at e)
  ]
]

observe_operands-keys :
    (ss : List (SlotPlan × UnionAgg)) (operands : List (List ContainerRef))
    {r : List (SlotPlan × UnionAgg)}
    → observe_operands ss operands ≡ ok r
    → paired_keys r ≡ paired_keys ss
unfolding observe_operands
observe_operands-keys ss [] e = ap paired_keys (sym (ok-injective e))
observe_operands-keys ss (cs ∷ operands) e =
    let (r, p, q) = bind-inverse (observe_all ss cs) _ e in
    observe_operands-keys r operands q ∙ observe_all-keys ss cs p

pub slot_keys-plan_union_observed :
    (base : Plan) (operands : List (List ContainerRef)) (plan : Plan)
    → plan_union_observed base operands ≡ ok plan
    → slot_keys plan.slots ≡ slot_keys base.slots
unfolding plan_union_observed
slot_keys-plan_union_observed base operands plan e =
    let (ss, p, q) = bind-inverse (with_agg base.slots base.leaf_agg) _ e in
    let (r, p', q') = bind-inverse (observe_operands ss operands) _ q in
    ap (λ t. slot_keys t.slots) (sym (ok-injective q'))
    ∙ slot_keys-observed_slot r
    ∙ observe_operands-keys ss operands p'
    ∙ with_agg-keys base.slots base.leaf_agg p
