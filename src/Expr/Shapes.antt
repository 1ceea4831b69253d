-- ===== src/Expr/Shapes.antt =====
-- The keys that the compiler of src/api/expr.rs predicts for an operation, and those of its operands.
use frostbit.Base.{
  ℕ, ◌^◌, ◌<◌, ◌≡◌, refl, sym, ap, ◌∙◌, Bool, true, false, ◌&&◌, ◌||◌, some, List, [], ◌∷◌, map,
  length, length-map, ◌==◌, if◌then◌else◌, arith, inl, inr, Bool-cases,
}
use mathlib.Core.Path.{subst}
use frostbit.KeyMask.{elem, AreKeys, contains-mask_of}
use frostbit.Plan.{Op, UnionAgg}
use frostbit.Shape.{Shape, union_shape, union_shape_agg, to_plan, slot_of}
use frostbit.Shape.Keys.{From, AllFrom, has_key, all_have, any_has, is_cons}
use frostbit.Shape.Combine.{intersect_shape-has_key, union_shape_agg-has_key, diff_shape-has_key}
use frostbit.Expr.{Join, joined_plan, joined_shape, predicts_wide, keys_of}
use frostbit.Expr.Interface.{Kernels, Acc}
use frostbit.Expr.Execute.{Operand, fold_mask}
use frostbit.Expr.Meaning.{apply, all_true, any_true}
use frostbit.Expr.Laws.{Laws, made_shape, Fits, AllFit, member, key_of, is_live}

pub both : (p q : Bool) → (p && q) ≡ true → (p ≡ true) × (q ≡ true)
both true q h = (refl, h)
both false q h = cc

-- The keys of an operation's shape, by those of its operands'.
abbrev pub over : Op → List Shape → ℕ → Bool
over op [] k = false
over Op.intersect (s ∷ ss) k = has_key s k && all_have ss k
over Op.union (s ∷ ss) k = has_key s k || any_has ss k
over Op.diff (s ∷ ss) k = has_key s k

abbrev pub is_or : Join → Bool
is_or Join.and = false
is_or Join.or = true

-- Every key is a `u16`.
abbrev pub AllKeys : List Shape → Type 0
AllKeys shapes = (k : ℕ) → any_has shapes k ≡ true → k < 2 ^ 16

over-any_has : (op : Op) (ss : List Shape) (k : ℕ) → over op ss k ≡ true → any_has ss k ≡ true
over-any_has op [] k h = cc
over-any_has Op.intersect (s ∷ ss) k h = ground (arith, h)
over-any_has Op.union (s ∷ ss) k h = h
over-any_has Op.diff (s ∷ ss) k h = rw h refl

elem-keys_of : (K : Kernels) (s : Shape) (k : ℕ) → elem (keys_of K s) k ≡ has_key s k
elem-keys_of K [] k = refl
elem-keys_of K (m ∷ s) k = ap (λ b. m.key == k || b) (elem-keys_of K s k)

keys_of-AreKeys :
    (K : Kernels) (s : Shape) → ((k : ℕ) → has_key s k ≡ true → k < 2 ^ 16) → AreKeys (keys_of K s)
keys_of-AreKeys K [] h = tt
keys_of-AreKeys K (m ∷ s) h =
    let self : (m.key == m.key) ≡ true = ground arith in
    (h m.key (rw self refl), keys_of-AreKeys K s (λ k e. h k (ground (arith, e))))

-- The mask of a shape is live at its keys.
pub is_live-keys_of :
    (K : Kernels) (s : Shape) (k : ℕ)
    → ((k : ℕ) → has_key s k ≡ true → k < 2 ^ 16)
    → is_live (fold_mask (some (keys_of K s))) k ≡ has_key s k
is_live-keys_of K s k h =
    contains-mask_of (keys_of K s) k (keys_of-AreKeys K s h) ∙ elem-keys_of K s k

module _ (K : Kernels) where
  -- With or without the aggregates, a union's shape is that of one loop.
  made_shape-union :
      (shapes : List Shape) (exact : List Bool)
      → (es : List Bool) × (made_shape K Op.union shapes exact ≡ (union_shape_agg shapes es).0)
  unfolding made_shape joined_shape frostbit.Shape.union_shape
  made_shape-union shapes exact = elim (Bool-cases (predicts_wide K shapes exact)) [
    | inl e ↦ (
      exact,
      ap (λ b. (if b then union_shape_agg shapes exact else ((union_shape_agg shapes []).0, [])).0)
          e,
    )
    | inr e ↦ (
      [],
      ap (λ b. (if b then union_shape_agg shapes exact else ((union_shape_agg shapes []).0, [])).0)
          e,
    )
  ]

  wide_is_cons :
      (shapes : List Shape) (exact : List Bool)
      → predicts_wide K shapes exact ≡ true
      → is_cons exact ≡ true
  unfolding predicts_wide
  wide_is_cons [] exact h = cc
  wide_is_cons (s ∷ ss) [] h = cc
  wide_is_cons (s ∷ ss) (e ∷ es) h = refl

  -- Where the compiler records the leaf half of a union's aggregates, there is one for each slot of
  -- the plan; elsewhere there are none.
  pub joined_plan-leaf_agg :
      (op : Join) (shapes : List Shape) (exact : List Bool)
      → AllFrom 0 shapes
      → length (joined_plan K op shapes exact).leaf_agg ≡ (
          if is_or op && predicts_wide K shapes exact
          then length (joined_plan K op shapes exact).slots
          else 0)
  unfolding joined_plan joined_shape to_plan union_shape
  joined_plan-leaf_agg Join.and shapes exact asc = refl
  joined_plan-leaf_agg Join.or shapes exact asc = by_wide (predicts_wide K shapes exact) refl
    where
      made : Bool → Shape × List UnionAgg
      made b = if b then union_shape_agg shapes exact else ((union_shape_agg shapes []).0, [])

      by_wide :
          (b : Bool)
          → predicts_wide K shapes exact ≡ b
          → length (made b).1 ≡ (if b then length (map slot_of (made b).0) else 0)
      by_wide false e = refl
      by_wide true e =
          (union_shape_agg-has_key shapes exact asc).2
          ∙ ap (λ c. if c then length (union_shape_agg shapes exact).0 else 0)
              (wide_is_cons shapes exact e)
          ∙ sym (length-map (union_shape_agg shapes exact).0 slot_of)

  pub made_shape-From :
      (op : Op) (shapes : List Shape) (exact : List Bool)
      → AllFrom 0 shapes
      → From 0 (made_shape K op shapes exact)
  unfolding made_shape joined_shape frostbit.Shape.union_shape frostbit.Shape.diff_shape
  made_shape-From Op.intersect shapes exact f = (intersect_shape-has_key shapes f).0
  made_shape-From Op.union shapes exact f =
      let (es, e) = made_shape-union shapes exact in
      subst (From 0) (sym e) (union_shape_agg-has_key shapes es f).0
  made_shape-From Op.diff [] exact f = tt
  made_shape-From Op.diff (s ∷ ss) exact (f, g) = (diff_shape-has_key s ss 0 f).0

  pub made_shape-over :
      (op : Op) (shapes : List Shape) (exact : List Bool) (k : ℕ)
      → AllFrom 0 shapes
      → has_key (made_shape K op shapes exact) k ≡ over op shapes k
  unfolding made_shape joined_shape frostbit.Shape.union_shape frostbit.Shape.diff_shape
  made_shape-over Op.intersect [] exact k f = (intersect_shape-has_key [] f).1 k
  made_shape-over Op.intersect (s ∷ ss) exact k f = (intersect_shape-has_key (s ∷ ss) f).1 k
  made_shape-over Op.union shapes exact k f =
      let (es, e) = made_shape-union shapes exact in
      ap (λ s. has_key s k) e ∙ (union_shape_agg-has_key shapes es f).1 k ∙ over_union shapes
    where
      over_union : (ss : List Shape) → any_has ss k ≡ over Op.union ss k
      over_union [] = refl
      over_union (s ∷ ss) = refl
  made_shape-over Op.diff [] exact k f = refl
  made_shape-over Op.diff (s ∷ ss) exact k (f, g) = (diff_shape-has_key s ss 0 f).1 k

  pub made_shape-key :
      (op : Op) (shapes : List Shape) (exact : List Bool) (k : ℕ)
      → AllFrom 0 shapes
      → AllKeys shapes
      → has_key (made_shape K op shapes exact) k ≡ true
      → k < 2 ^ 16
  made_shape-key op shapes exact k f h e =
      h k (over-any_has op shapes k (sym (made_shape-over op shapes exact k f) ∙ e))

-- Of operands whose members have their keys in the shapes that they fit.
module _ (K : Kernels) (has : K.View → ℕ → Bool) (arena_has : K.Arena → ℕ → Bool)
    (Describes : K.Arena → Shape → Type 0)
    (has-key : (v : K.View) (x : ℕ) → has v x ≡ true → has_key (K.view_shape v) (key_of x) ≡ true)
    (arena_has-key : (a : K.Arena) (s : Shape) (x : ℕ)
      → Describes a s
      → arena_has a x ≡ true
      → has_key s (key_of x) ≡ true) where
  pub Fits-has_key_by :
      (a : Operand K) (s : Shape) (e : Bool) (x : ℕ)
      → Fits K Describes a s e
      → member K has arena_has x a ≡ true
      → has_key s (key_of x) ≡ true
  Fits-has_key_by (Acc.leaf v) s e x (p, f) h = ap (λ s. has_key s (key_of x)) f ∙ has-key v x h
  Fits-has_key_by (Acc.arena a) s e x (p, f) h = arena_has-key a s x f h
  Fits-has_key_by Acc.empty s e x f h = cc

  AllFit-all_have :
      (accs : List (Operand K)) (ss : List Shape) (es : List Bool) (x : ℕ)
      → AllFit K Describes accs ss es
      → all_true (map (member K has arena_has x) accs) ≡ true
      → all_have ss (key_of x) ≡ true
  AllFit-all_have [] [] es x f h = refl
  AllFit-all_have [] (s ∷ ss) es x f h = absurd f
  AllFit-all_have (a ∷ accs) [] es x f h = refl
  AllFit-all_have (a ∷ accs) (s ∷ ss) [] x f h = absurd f
  AllFit-all_have (a ∷ accs) (s ∷ ss) (e ∷ es) x (f, g) h =
      let (p, q) = both (member K has arena_has x a) _ h in
      rw (Fits-has_key_by a s e x f p) (AllFit-all_have accs ss es x g q)

  AllFit-any_has :
      (accs : List (Operand K)) (ss : List Shape) (es : List Bool) (x : ℕ)
      → AllFit K Describes accs ss es
      → any_true (map (member K has arena_has x) accs) ≡ true
      → any_has ss (key_of x) ≡ true
  AllFit-any_has [] ss es x f h = cc
  AllFit-any_has (a ∷ accs) [] es x f h = absurd f
  AllFit-any_has (a ∷ accs) (s ∷ ss) [] x f h = absurd f
  AllFit-any_has (a ∷ accs) (s ∷ ss) (e ∷ es) x (f, g) h =
      elim (Bool-cases (member K has arena_has x a)) [
        | inl p ↦ rw (Fits-has_key_by a s e x f p) refl
        | inr p ↦ ground (arith, AllFit-any_has accs ss es x g (rw p at h))
      ]

  -- A value of an operation's result has its key in the operation's shape.
  pub apply-over_by :
      (op : Op) (accs : List (Operand K)) (ss : List Shape) (es : List Bool) (x : ℕ)
      → AllFit K Describes accs ss es
      → apply op (map (member K has arena_has x) accs) ≡ true
      → over op ss (key_of x) ≡ true
  unfolding apply
  apply-over_by op [] ss es x f h = cc
  apply-over_by op (a ∷ accs) [] es x f h = absurd f
  apply-over_by Op.intersect (a ∷ accs) (s ∷ ss) es x f h =
      AllFit-all_have (a ∷ accs) (s ∷ ss) es x f h
  apply-over_by Op.union (a ∷ accs) (s ∷ ss) es x f h = AllFit-any_has (a ∷ accs) (s ∷ ss) es x f h
  apply-over_by Op.diff (a ∷ accs) (s ∷ ss) [] x f h = absurd f
  apply-over_by Op.diff (a ∷ accs) (s ∷ ss) (e ∷ es) x (f, g) h =
      Fits-has_key_by a s e x f (both (member K has arena_has x a) _ h).0

module _ (K : Kernels) (L : Laws K) where
  pub Fits-has_key :
      (a : Operand K) (s : Shape) (e : Bool) (x : ℕ)
      → Fits K L.Describes a s e
      → member K L.has L.arena_has x a ≡ true
      → has_key s (key_of x) ≡ true
  Fits-has_key = Fits-has_key_by K L.has L.arena_has L.Describes L.has-key L.arena_has-key

  -- A value of an operation's result has its key in the operation's shape.
  pub apply-over :
      (op : Op) (accs : List (Operand K)) (ss : List Shape) (es : List Bool) (x : ℕ)
      → AllFit K L.Describes accs ss es
      → apply op (map (member K L.has L.arena_has x) accs) ≡ true
      → over op ss (key_of x) ≡ true
  apply-over = apply-over_by K L.has L.arena_has L.Describes L.has-key L.arena_has-key
