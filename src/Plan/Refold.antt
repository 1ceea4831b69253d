-- ===== src/Plan/Refold.antt =====
-- src/ops/analyze/plan.rs: the aggregates that `plan_union_observed` refolds, against what the observed
-- operands have at each key.
use frostbit.Base.{
  ℕ, ◌+◌, ◌-◌, ◌%◌, ◌^◌, ◌≤◌, ◌<◌, ◌≡◌, refl, sym, ap, ap₂, ◌∙◌, min, max, Bool, true, false, ◌&&◌,
  ◌||◌, List, [], ◌∷◌, ◌++◌, map, length, length-append, ltb, ◌==◌, if◌then◌else◌, arith, inl, inr,
  Bool-cases,
}
use frostbit.Base.Exec.{ok, panic, ◌>>=◌}
use frostbit.Format.Sizes.{ct_bitmap, ct_run}
use frostbit.Cursor.{ContainerRef, stored_bytes, num_runs}
use frostbit.Plan.{
  Op, SlotPlan, UnionAgg, Plan, observe, observe_all, observe_operands, observed_slot,
  observed_plan, with_agg, plan_union_observed,
}
use frostbit.Plan.Observed.{AreStored, AllStored}

-- The containers at a key, of one operand and of all.
abbrev pub with_key : ℕ → List ContainerRef → List ContainerRef
with_key k [] = []
with_key k (c ∷ cs) = if c.key == k then c ∷ with_key k cs else with_key k cs

abbrev pub all_with_key : ℕ → List (List ContainerRef) → List ContainerRef
all_with_key k [] = []
all_with_key k (cs ∷ operands) = with_key k cs ++ all_with_key k operands

abbrev stored : ContainerRef → ℕ
stored c = elim (stored_bytes c) [ ok n ↦ n | panic ↦ 0 ]

abbrev sum_cards : List ContainerRef → ℕ
sum_cards [] = 0
sum_cards (c ∷ cs) = c.card + sum_cards cs

abbrev sum_runs : List ContainerRef → ℕ
sum_runs [] = 0
sum_runs (c ∷ cs) = num_runs c + sum_runs cs

abbrev most_stored : List ContainerRef → ℕ
most_stored [] = 0
most_stored (c ∷ cs) = max (stored c % 2 ^ 32) (most_stored cs)

abbrev some_bitmap : List ContainerRef → Bool
some_bitmap [] = false
some_bitmap (c ∷ cs) = (c.typ == ct_bitmap) || some_bitmap cs

abbrev only_runs : List ContainerRef → Bool
only_runs [] = true
only_runs (c ∷ cs) = (c.typ == ct_run) && only_runs cs

-- An aggregate with containers added to it: the sum of the cardinalities, which saturates, that of the
-- runs, the most bytes that one of them stores, their number, and of which types they are.
abbrev pub merged : UnionAgg → List ContainerRef → UnionAgg
merged a cs = record {
  sum_card = min (a.sum_card + sum_cards cs) (2 ^ 32 - 1);
  total_runs = (a.total_runs + sum_runs cs) % 2 ^ 32;
  max_single = max a.max_single (most_stored cs);
  n = (a.n + length cs) % 2 ^ 16;
  any_bitmap = a.any_bitmap || some_bitmap cs;
  all_run = a.all_run && only_runs cs;
}

-- The slots that the merged aggregates come to.
abbrev pub refolded_slots : (ℕ → List ContainerRef) → List SlotPlan → List UnionAgg → List SlotPlan
refolded_slots found [] as' = []
refolded_slots found (s ∷ ss) [] = []
refolded_slots found (s ∷ ss) (a ∷ as') =
    observed_slot (s, merged a (found s.key)) ∷ refolded_slots found ss as'

-- The numbers of an aggregate fit their types.
abbrev pub IsAgg : UnionAgg → Type 0
IsAgg a = (a.sum_card < 2 ^ 32) × (a.total_runs < 2 ^ 32) × (a.n < 2 ^ 16)

abbrev pub AreAggs : List UnionAgg → Type 0
AreAggs [] = Unit {0}
AreAggs (a ∷ as') = IsAgg a × AreAggs as'

-- Keys ascend strictly from `lo` on.
abbrev pub SlotsFrom : ℕ → List SlotPlan → Type 0
SlotsFrom lo [] = Unit {0}
SlotsFrom lo (s ∷ ss) = (lo ≤ s.key) × SlotsFrom (s.key + 1) ss

abbrev pub RefsFrom : ℕ → List ContainerRef → Type 0
RefsFrom lo [] = Unit {0}
RefsFrom lo (c ∷ cs) = (lo ≤ c.key) × RefsFrom (c.key + 1) cs

abbrev pub AllRefsFrom : List (List ContainerRef) → Type 0
AllRefsFrom [] = Unit {0}
AllRefsFrom (cs ∷ operands) = RefsFrom 0 cs × AllRefsFrom operands

same_agg :
    {s s' t t' m m' n n' : ℕ} {b b' r r' : Bool}
    → s ≡ s'
    → t ≡ t'
    → m ≡ m'
    → n ≡ n'
    → b ≡ b'
    → r ≡ r'
    → ◌≡◌ {A = UnionAgg}
        (record {
          sum_card = s;
          total_runs = t;
          max_single = m;
          n = n;
          any_bitmap = b;
          all_run = r;
        })
        (record {
          sum_card = s';
          total_runs = t';
          max_single = m';
          n = n';
          any_bitmap = b';
          all_run = r';
        })
same_agg e1 e2 e3 e4 e5 e6 = rw (e1, e2, e3, e4, e5, e6) refl

or_false : (b : Bool) → (b || false) ≡ b
or_false true = refl
or_false false = refl

and_true : (b : Bool) → (b && true) ≡ b
and_true true = refl
and_true false = refl

or_assoc : (a b c : Bool) → ((a || b) || c) ≡ (a || (b || c))
or_assoc true b c = refl
or_assoc false b c = refl

and_assoc : (a b c : Bool) → ((a && b) && c) ≡ (a && (b && c))
and_assoc true b c = refl
and_assoc false b c = refl

merged-nil : (a : UnionAgg) → IsAgg a → merged a [] ≡ a
merged-nil a (s, t, n) =
    same_agg (omega arith) (omega arith) (omega arith) (omega arith) (or_false a.any_bitmap)
      (and_true a.all_run)

merged-IsAgg : (a : UnionAgg) (cs : List ContainerRef) → IsAgg (merged a cs)
merged-IsAgg a cs = (omega arith, omega arith, omega arith)

-- One more container.
merged-observe :
    (n : ℕ) (c : ContainerRef) (a : UnionAgg) (cs : List ContainerRef)
    → stored_bytes c ≡ ok n
    → merged (observe n c a) cs ≡ merged a (c ∷ cs)
unfolding observe
merged-observe n c a cs e =
    same_agg (omega arith) (omega arith) (omega (arith, stored-ok c e)) (omega arith)
      (or_assoc a.any_bitmap (c.typ == ct_bitmap) (some_bitmap cs))
      (and_assoc a.all_run (c.typ == ct_run) (only_runs cs))
  where
    stored-ok : (c : ContainerRef) {n : ℕ} → stored_bytes c ≡ ok n → stored c ≡ n
    stored-ok c e = rw (e, stored) refl

sum_cards-append : (cs ds : List ContainerRef) → sum_cards (cs ++ ds) ≡ sum_cards cs + sum_cards ds
sum_cards-append [] ds = omega arith
sum_cards-append (c ∷ cs) ds = omega (arith, sum_cards-append cs ds)

sum_runs-append : (cs ds : List ContainerRef) → sum_runs (cs ++ ds) ≡ sum_runs cs + sum_runs ds
sum_runs-append [] ds = omega arith
sum_runs-append (c ∷ cs) ds = omega (arith, sum_runs-append cs ds)

most_stored-append :
    (cs ds : List ContainerRef) → most_stored (cs ++ ds) ≡ max (most_stored cs) (most_stored ds)
most_stored-append [] ds = omega arith
most_stored-append (c ∷ cs) ds = omega (arith, most_stored-append cs ds)

some_bitmap-append :
    (cs ds : List ContainerRef) → some_bitmap (cs ++ ds) ≡ (some_bitmap cs || some_bitmap ds)
some_bitmap-append [] ds = refl
some_bitmap-append (c ∷ cs) ds =
    ap (λ b. (c.typ == ct_bitmap) || b) (some_bitmap-append cs ds)
    ∙ sym (or_assoc (c.typ == ct_bitmap) (some_bitmap cs) (some_bitmap ds))

only_runs-append :
    (cs ds : List ContainerRef) → only_runs (cs ++ ds) ≡ (only_runs cs && only_runs ds)
only_runs-append [] ds = refl
only_runs-append (c ∷ cs) ds =
    ap (λ b. (c.typ == ct_run) && b) (only_runs-append cs ds)
    ∙ sym (and_assoc (c.typ == ct_run) (only_runs cs) (only_runs ds))

-- One operand after the other.
merged-append :
    (a : UnionAgg) (cs ds : List ContainerRef) → merged (merged a cs) ds ≡ merged a (cs ++ ds)
merged-append a cs ds =
    same_agg (omega (arith, sum_cards-append cs ds)) (omega (arith, sum_runs-append cs ds))
      (omega (arith, most_stored-append cs ds)) (omega (arith, length-append cs ds))
      (or_assoc a.any_bitmap (some_bitmap cs) (some_bitmap ds)
        ∙ ap (λ b. a.any_bitmap || b) (sym (some_bitmap-append cs ds)))
      (and_assoc a.all_run (only_runs cs) (only_runs ds)
        ∙ ap (λ b. a.all_run && b) (sym (only_runs-append cs ds)))

-- Slots, each with its aggregate, which takes what is found at its key.
abbrev refolded : (ℕ → List ContainerRef) → List (SlotPlan × UnionAgg) → List (SlotPlan × UnionAgg)
refolded found [] = []
refolded found ((s, a) ∷ ss) = (s, merged a (found s.key)) ∷ refolded found ss

-- Slots with aggregates in their range, at keys from `lo` on.
abbrev PairsFrom : ℕ → List (SlotPlan × UnionAgg) → Type 0
PairsFrom lo [] = Unit {0}
PairsFrom lo ((s, a) ∷ ss) = (lo ≤ s.key) × IsAgg a × PairsFrom (s.key + 1) ss

with_key-below : (k lo : ℕ) (cs : List ContainerRef) → k < lo → RefsFrom lo cs → with_key k cs ≡ []
with_key-below k lo [] h f = refl
with_key-below k lo (c ∷ cs) h (a, f) =
    let n : (c.key == k) ≡ false = ground arith in
    rw n (with_key-below k (c.key + 1) cs (omega arith) f)

-- A container below all the slots.
refolded-skip :
    (lo : ℕ) (c : ContainerRef) (cs : List ContainerRef) (ss : List (SlotPlan × UnionAgg))
    → c.key < lo
    → PairsFrom lo ss
    → refolded (λ k. with_key k cs) ss ≡ refolded (λ k. with_key k (c ∷ cs)) ss
refolded-skip lo c cs [] h f = refl
refolded-skip lo c cs ((s, a) ∷ ss) h (b, g, f) =
    let n : (c.key == s.key) ≡ false = ground arith in
    rw n (
      ap (λ r. (s, merged a (with_key s.key cs)) ∷ r)
        (refolded-skip (s.key + 1) c cs ss (omega arith) f))

refolded-nil :
    (lo : ℕ) (ss : List (SlotPlan × UnionAgg)) → PairsFrom lo ss → refolded (λ k. []) ss ≡ ss
refolded-nil lo [] f = refl
refolded-nil lo ((s, a) ∷ ss) (b, g, f) =
    ap₂ (λ m r. (s, m) ∷ r) (merged-nil a g) (refolded-nil (s.key + 1) ss f)

refolded-PairsFrom :
    (lo : ℕ) (found : ℕ → List ContainerRef) (ss : List (SlotPlan × UnionAgg))
    → PairsFrom lo ss
    → PairsFrom lo (refolded found ss)
refolded-PairsFrom lo found [] f = tt
refolded-PairsFrom lo found ((s, a) ∷ ss) (b, g, f) =
    (b, merged-IsAgg a (found s.key), refolded-PairsFrom (s.key + 1) found ss f)

refolded-append :
    (found more : ℕ → List ContainerRef) (ss : List (SlotPlan × UnionAgg))
    → refolded more (refolded found ss) ≡ refolded (λ k. found k ++ more k) ss
refolded-append found more [] = refl
refolded-append found more ((s, a) ∷ ss) =
    ap₂ (λ m r. (s, m) ∷ r) (merged-append a (found s.key) (more s.key))
      (refolded-append found more ss)

-- The walk of one operand.
observe_all-refolded :
    (lo from : ℕ) (ss : List (SlotPlan × UnionAgg)) (cs : List ContainerRef)
    → PairsFrom lo ss
    → RefsFrom from cs
    → AreStored cs
    → observe_all ss cs ≡ ok (refolded (λ k. with_key k cs) ss)
unfolding observe_all
observe_all-refolded lo from [] cs f r h = refl
observe_all-refolded lo from ((s, a) ∷ ss) [] f r h = ap ok (sym (refolded-nil lo ((s, a) ∷ ss) f))
observe_all-refolded lo from ((s, a) ∷ ss) (c ∷ cs) (b, g, f) (p, r) ((n, e), h) =
    elim (Bool-cases (ltb s.key c.key)) [
      | inl y ↦
          let i = observe_all-refolded (s.key + 1) from ss (c ∷ cs) f (p, r) ((n, e), h) in
          let q = with_key-below s.key c.key (c ∷ cs) (ground (arith, y)) (omega arith, r) in
          rw (y, observe_all)
            (rw i (
              ap (λ t. ok (t ∷ refolded (λ k. with_key k (c ∷ cs)) ss))
                (ap (λ m. (s, m)) (sym (ap (merged a) q ∙ merged-nil a g)))))
      | inr y ↦ elim (Bool-cases (s.key == c.key)) [
        | inl z ↦
            let i =
              observe_all-refolded lo (c.key + 1) ((s, observe n c a) ∷ ss) cs
                (b, observed_IsAgg n c a, f) r h in
            let here : (c.key == s.key) ≡ true = ground (arith, z) in
            let skip = refolded-skip (s.key + 1) c cs ss (ground (arith, z)) f in
            rw (y, observe_all)
              (rw (z, observe_all)
                (rw e (
                  i
                  ∙ ap ok (
                      ap₂ (λ m t. (s, m) ∷ t)
                        (merged-observe n c a (with_key s.key cs) e
                          ∙ ap (merged a) (sym (taken c s.key cs here)))
                        skip))))
        | inr z ↦
            let i = observe_all-refolded lo (c.key + 1) ((s, a) ∷ ss) cs (b, g, f) r h in
            let skip =
              refolded-skip s.key c cs ((s, a) ∷ ss) (ground (arith, y, z)) (omega arith, g, f) in
            rw (y, observe_all) (rw (z, observe_all) (i ∙ ap ok skip))
      ]
    ]
  where
    observed_IsAgg : (n : ℕ) (c : ContainerRef) (a : UnionAgg) → IsAgg (observe n c a)
    observed_IsAgg n c a = unfold observe in (omega arith, omega arith, omega arith)

    taken :
        (c : ContainerRef) (k : ℕ) (cs : List ContainerRef)
        → (c.key == k) ≡ true
        → with_key k (c ∷ cs) ≡ c ∷ with_key k cs
    taken c k cs e = rw e refl

observe_operands-refolded :
    (lo : ℕ) (ss : List (SlotPlan × UnionAgg)) (operands : List (List ContainerRef))
    → PairsFrom lo ss
    → AllRefsFrom operands
    → AllStored operands
    → observe_operands ss operands ≡ ok (refolded (λ k. all_with_key k operands) ss)
unfolding observe_operands
observe_operands-refolded lo ss [] f r h = ap ok (sym (refolded-nil lo ss f))
observe_operands-refolded lo ss (cs ∷ operands) f (p, r) (a, h) =
    ap (λ m. m >>= λ ss. observe_operands ss operands) (observe_all-refolded lo 0 ss cs f p a)
    ∙ observe_operands-refolded lo (refolded (λ k. with_key k cs) ss) operands
        (refolded-PairsFrom lo (λ k. with_key k cs) ss f) r h
    ∙ ap ok (refolded-append (λ k. with_key k cs) (λ k. all_with_key k operands) ss)

with_agg-PairsFrom :
    (lo : ℕ) (found : ℕ → List ContainerRef) (ss : List SlotPlan) (as' : List UnionAgg)
    → length as' ≡ length ss
    → SlotsFrom lo ss
    → AreAggs as'
    → (r : List (SlotPlan × UnionAgg)) × (with_agg ss as' ≡ ok r)
      × PairsFrom lo r
      × (map observed_slot (refolded found r) ≡ refolded_slots found ss as')
unfolding with_agg
with_agg-PairsFrom lo found [] as' e f g = ([], refl, tt, refl)
with_agg-PairsFrom lo found (s ∷ ss) [] e f g = absurd (omega (arith, e))
with_agg-PairsFrom lo found (s ∷ ss) (a ∷ as') e (b, f) (i, g) =
    let (r, p, q, same) = with_agg-PairsFrom (s.key + 1) found ss as' (omega (arith, e)) f g in
    ((s, a) ∷ r, rw p refl, (b, i, q), ap (λ t. observed_slot (s, merged a (found s.key)) ∷ t) same)

-- Where a union's plan has slots at ascending keys and a leaf aggregate in its range for each, and the
-- intermediate operands have containers of known types at ascending keys, planning it again does not
-- panic, and gives the plan of a union whose slots are the ones decided at each key by its leaf
-- aggregate together with all the containers that the operands have at that key.
pub plan_union_observed-slots :
    (base : Plan) (operands : List (List ContainerRef))
    → length base.leaf_agg ≡ length base.slots
    → SlotsFrom 0 base.slots
    → AreAggs base.leaf_agg
    → AllRefsFrom operands
    → AllStored operands
    → (plan : Plan) × (plan_union_observed base operands ≡ ok plan)
      × (plan.op ≡ Op.union)
      × (plan.slots ≡ refolded_slots (λ k. all_with_key k operands) base.slots base.leaf_agg)
unfolding plan_union_observed
plan_union_observed-slots base operands e f g r h =
    let found : ℕ → List ContainerRef = λ k. all_with_key k operands in
    let (ss, p, q, same) = with_agg-PairsFrom 0 found base.slots base.leaf_agg e f g in
    (
      observed_plan (refolded found ss),
      ap (λ m. m >>= λ ss. observe_operands ss operands >>= λ ss. ok (observed_plan ss)) p
          ∙ ap (λ m. m >>= λ ss. ok (observed_plan ss))
              (observe_operands-refolded 0 ss operands q r h),
      refl,
      same,
    )
