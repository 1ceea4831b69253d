-- ===== src/Expr/Model.antt =====
-- Kernels for src/api/expr.rs in which a bitmap is a function, on values of two containers, and a fold
-- keeps what its plan has a slot for.
use frostbit.Base.{
  ℕ, ◌^◌, ◌<◌, ◌≡◌, refl, sym, ap, ◌∙◌, Bool, true, false, ◌&&◌, ◌||◌, Option, List, [], ◌∷◌, map,
  length, ltb, ◌==◌, arith, inl, inr, Bool-cases,
}
use frostbit.Base.Exec.{ok}
use frostbit.Format.Sizes.{ct_array}
use frostbit.Cursor.{ContainerRef, stored_bytes, num_runs}
use frostbit.KeyMask.{KeyMask}
use frostbit.Plan.{Op, Plan}
use frostbit.Plan.Observed.{AreStored, slot_keys, slot_keys-plan_union_observed}
use frostbit.Container.Lows.{has}
use frostbit.Shape.{Shape, slot_of, diff_shape, to_plan}
use frostbit.Shape.Keys.{From, AllFrom, has_key}
use frostbit.Expr.{Join, joined_shape, joined_plan}
use frostbit.Expr.Interface.{Kernels, Acc}
use frostbit.Expr.Execute.{Operand, intermediates}
use frostbit.Expr.Meaning.{apply, any_true}
use frostbit.Expr.Laws.{Laws, made_shape, made_plan, IsPlanned, AllFit, member, key_of, is_live}
use frostbit.Expr.Shapes.{both, apply-over_by, made_shape-over}

-- Two containers, at keys 0 and 1, or none of any.
pub data Sparse : Type 0 where
  nothing : Sparse
  two : (ℕ → Bool) → Sparse

abbrev container : ℕ → ContainerRef
container key = record { key = key; typ = ct_array; card = 0; data_len = 0; run_count = 0 }

abbrev containers : Sparse → List ContainerRef
containers nothing = []
containers (two f) = container 0 ∷ container 1 ∷ []

abbrev shape : Sparse → Shape
shape nothing = []
shape (two f) =
    record { key = 0; capacity = 0; card = 0; runs = 0; typ = ct_array }
    ∷ record { key = 1; capacity = 0; card = 0; runs = 0; typ = ct_array }
    ∷ []

-- A value above the two containers is no member.
abbrev holds : Sparse → ℕ → Bool
holds nothing x = false
holds (two f) x = ltb (key_of x) 2 && f x

abbrev holds_in : ℕ → Acc Sparse Sparse → Bool
holds_in x (Acc.leaf v) = holds v x
holds_in x (Acc.arena a) = holds a x
holds_in x Acc.empty = false

-- A fold has nowhere to put a value whose key has no slot.
abbrev fold : Op → Plan → Option KeyMask → List (Acc Sparse Sparse) → Sparse
fold op plan m accs = two (λ x.
    has (slot_keys plan.slots) (key_of x)
    && (is_live m (key_of x) && apply op (map (holds_in x) accs)))

abbrev pub model : Kernels
model = record {
  View = Sparse;
  Bitmap = Sparse;
  Arena = Sparse;
  view = λ b. b;
  containers = containers;
  arena_containers = containers;
  view_shape = shape;
  fold = fold;
  serialize_compact = λ a. a;
  from_bytes_trusted = λ v. v;
  empty_bitmap = nothing;
}

abbrev IsCovering : Sparse → Shape → Type 0
IsCovering a s = (x : ℕ) → holds a x ≡ true → has_key s (key_of x) ≡ true

shape_lem : (v : Sparse) → frostbit.Shape.view_shape (containers v) ≡ ok (shape v)
unfolding frostbit.Shape.view_shape stored_bytes num_runs
shape_lem nothing = refl
shape_lem (two f) = refl

shape_key : (v : Sparse) (k : ℕ) → has_key (shape v) k ≡ true → k < 2 ^ 16
shape_key nothing k h = cc
shape_key (two f) k h = ground (arith, h)

holds-key : (v : Sparse) (x : ℕ) → holds v x ≡ true → has_key (shape v) (key_of x) ≡ true
holds-key nothing x h = cc
holds-key (two f) x h = ground (arith, (both (ltb (key_of x) 2) (f x) h).0)

apply-false : (op : Op) (bs : List Bool) → any_true bs ≡ false → apply op bs ≡ false
unfolding apply
apply-false op [] h = refl
apply-false op (true ∷ bs) h = cc
apply-false Op.intersect (false ∷ bs) h = refl
apply-false Op.union (false ∷ bs) h = h
apply-false Op.diff (false ∷ bs) h = refl

above : (x : ℕ) (v : Sparse) → ltb (key_of x) 2 ≡ false → holds v x ≡ false
above x nothing h = refl
above x (two f) h = rw h refl

all_above :
    (x : ℕ) (accs : List (Acc Sparse Sparse))
    → ltb (key_of x) 2 ≡ false
    → any_true (map (holds_in x) accs) ≡ false
all_above x [] h = refl
all_above x (Acc.leaf v ∷ accs) h = rw (above x v h) (all_above x accs h)
all_above x (Acc.arena a ∷ accs) h = rw (above x a h) (all_above x accs h)
all_above x (Acc.empty ∷ accs) h = all_above x accs h

same_member :
    (x : ℕ) (accs : List (Acc Sparse Sparse))
    → map (member model holds holds x) accs ≡ map (holds_in x) accs
same_member x [] = refl
same_member x (Acc.leaf v ∷ accs) = ap (λ bs. holds v x ∷ bs) (same_member x accs)
same_member x (Acc.arena a ∷ accs) = ap (λ bs. holds a x ∷ bs) (same_member x accs)
same_member x (Acc.empty ∷ accs) = ap (λ bs. false ∷ bs) (same_member x accs)

has-slot_of : (s : Shape) (k : ℕ) → has (slot_keys (map slot_of s)) k ≡ has_key s k
has-slot_of [] k = refl
has-slot_of (m ∷ s) k = ap (λ b. m.key == k || b) (has-slot_of s k)

made-has_key :
    (op : Op) (shapes : List Shape) (exact : List Bool) (k : ℕ)
    → has (slot_keys (made_plan model op shapes exact).slots) k
      ≡ has_key (made_shape model op shapes exact) k
unfolding made_plan made_shape joined_plan to_plan
made-has_key Op.intersect shapes exact k =
    has-slot_of (joined_shape model Join.and shapes exact).0 k
made-has_key Op.union shapes exact k = has-slot_of (joined_shape model Join.or shapes exact).0 k
made-has_key Op.diff shapes exact k = has-slot_of (diff_shape shapes) k

-- The slots that a fold is given are at the keys of the shape.
planned-has_key :
    (op : Op) (shapes : List Shape) (exact : List Bool) (observed : List (List ContainerRef))
    (plan : Plan) (k : ℕ)
    → IsPlanned model op shapes exact observed plan
    → has (slot_keys plan.slots) k ≡ has_key (made_shape model op shapes exact) k
planned-has_key op shapes exact observed plan k (inl e) =
    ap (λ p. has (slot_keys p.slots) k) e ∙ made-has_key op shapes exact k
planned-has_key op shapes exact observed plan k (inr (a, b, e)) =
    ap (λ ks. has ks k)
      (slot_keys-plan_union_observed (made_plan model op shapes exact) observed plan e)
    ∙ made-has_key op shapes exact k

all_false : (a b c : Bool) → (a && (b && (c && false))) ≡ false
all_false true true true = refl
all_false true true false = refl
all_false true false c = refl
all_false false b c = refl

and_false : (b : Bool) → (b && false) ≡ false
and_false true = refl
and_false false = refl

module _ (op : Op) (shapes : List Shape) (exact : List Bool) (plan : Plan) (m : Option KeyMask)
    (accs : List (Operand model)) (asc : AllFrom 0 shapes)
    (fit : AllFit model IsCovering accs shapes exact)
    (planned : IsPlanned model op shapes exact (intermediates model m accs) plan) where
  -- What the operands make up has its key in the plan.
  has_slot :
      (x : ℕ)
      → apply op (map (member model holds holds x) accs) ≡ true
      → has_key (made_shape model op shapes exact) (key_of x) ≡ true
  has_slot x h =
      made_shape-over model op shapes exact (key_of x) asc
      ∙ apply-over_by model holds holds IsCovering holds-key (λ a s x f e. f x e) op accs shapes
          exact x fit h

  fold-holds :
      (x : ℕ)
      → holds (fold op plan m accs) x
        ≡ (is_live m (key_of x) && apply op (map (member model holds holds x) accs))
  fold-holds x = elim (Bool-cases (apply op (map (member model holds holds x) accs))) [
    | inl y ↦
        let slot = planned-has_key op shapes exact _ plan (key_of x) planned ∙ has_slot x y in
        ap (λ b. b && (has (slot_keys plan.slots) (key_of x) && there)) (low x y)
        ∙ ap (λ b. b && there) slot
        ∙ ap (λ bs. is_live m (key_of x) && apply op bs) (sym (same_member x accs))
    | inr n ↦
        ap
          (λ b.
            ltb (key_of x) 2
            && (has (slot_keys plan.slots) (key_of x) && (is_live m (key_of x) && b)))
          (ap (apply op) (sym (same_member x accs)) ∙ n)
        ∙ all_false (ltb (key_of x) 2) (has (slot_keys plan.slots) (key_of x))
            (is_live m (key_of x))
        ∙ sym (and_false (is_live m (key_of x)))
        ∙ ap (λ b. is_live m (key_of x) && b) (sym n)
  ]
    where
      there : Bool
      there = is_live m (key_of x) && apply op (map (holds_in x) accs)

      clash : true ≡ false → ⊥
      clash p = cc

      low :
          (x : ℕ)
          → apply op (map (member model holds holds x) accs) ≡ true
          → ltb (key_of x) 2 ≡ true
      low x y = elim (Bool-cases (ltb (key_of x) 2)) [
        | inl l ↦ l
        | inr n ↦ absurd (
            clash (
              sym y
              ∙ ap (apply op) (same_member x accs)
              ∙ apply-false op (map (holds_in x) accs) (all_above x accs n)))
      ]

  fold-IsCovering : IsCovering (fold op plan m accs) (made_shape model op shapes exact)
  fold-IsCovering x h =
      has_slot x
        (both (is_live m (key_of x)) (apply op (map (member model holds holds x) accs))
          (sym (fold-holds x) ∙ h)).1

no_containers_lem : (a : Sparse) (x : ℕ) → length (containers a) ≡ 0 → holds a x ≡ false
no_containers_lem nothing x h = refl
no_containers_lem (two f) x h = absurd (omega (arith, h))

shape-From : (v : Sparse) → From 0 (shape v)
shape-From nothing = tt
shape-From (two f) = (omega arith, (omega arith, tt))

containers-AreStored : (a : Sparse) → AreStored (containers a)
unfolding stored_bytes
containers-AreStored nothing = tt
containers-AreStored (two f) = ((0, refl), ((0, refl), tt))

-- They keep the laws.
pub model_laws : Laws model
model_laws = record {
  has = holds;
  arena_has = holds;
  Describes = IsCovering;
  view_shape_lem = shape_lem;
  view_shape-From = shape-From;
  view_key = shape_key;
  has-key = holds-key;
  arena_has-key = λ a s x f h. f x h;
  no_containers = no_containers_lem;
  arena_stored = containers-AreStored;
  fold-Describes = λ op shapes exact plan m accs few asc fit planned.
      fold-IsCovering op shapes exact plan m accs asc fit planned;
  fold_lem = λ op shapes exact plan m accs x few asc fit planned small.
      fold-holds op shapes exact plan m accs asc fit planned x;
  serialize_lem = λ a x. refl;
  trusted_lem = λ v x. refl;
  empty_lem = λ x. refl;
}
