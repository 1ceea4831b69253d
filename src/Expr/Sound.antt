-- ===== src/Expr/Sound.antt =====
-- What the compiler of src/api/expr.rs keeps for every plan and for every child that it splices: the
-- instructions, with their guards and without them, compute the set that the tree denotes.
use frostbit.Base.{
  ℕ, suc, ◌+◌, ◌*◌, ◌^◌, ◌≤◌, ◌<◌, ◌≡◌, refl, sym, ap, ◌∙◌, Bool, true, false, ◌&&◌, Option, none,
  some, List, [], ◌∷◌, ◌++◌, length, arith,
}
use frostbit.Plan.{Op}
use frostbit.Shape.{Shape}
use frostbit.Shape.Keys.{AllFrom, has_key, all_have, any_has, is_cons}
use frostbit.Expr.{
  Join, Position, Fold, Step, FoldPlan, Spliced, steps, drop_guards, fill, fill_fold, inner_or,
}
use frostbit.Expr.Interface.{Kernels}
use frostbit.Expr.Execute.{Operand, run, fold_mask}
use frostbit.Expr.Meaning.{apply, all_true, any_true}
use frostbit.Expr.Laws.{Laws, made_shape, made_plan, key_of, is_live}
use frostbit.Expr.Code.{IsResolved, Runs, Runs-append}
use frostbit.Expr.Shapes.{over, AllKeys}
use frostbit.Expr.Stack.{push_all, mem, mems, AllSuit, run-combine}

-- How the operands that a child leaves make up its set, at one value.
abbrev pub value_at : Position → List Bool → Bool
value_at (Position.child_of Join.and) bs = all_true bs
value_at (Position.child_of Join.or) bs = any_true bs
value_at Position.diff bs = any_true bs
value_at Position.diff_lhs bs = apply Op.diff bs

abbrev pub keys_at : Position → List Shape → ℕ → Bool
keys_at (Position.child_of Join.and) ss k = all_have ss k
keys_at (Position.child_of Join.or) ss k = any_has ss k
keys_at Position.diff ss k = any_has ss k
keys_at Position.diff_lhs ss k = over Op.diff ss k

-- How many operands a child leaves.
abbrev pub IsFilled : Position → List Shape → Type 0
IsFilled (Position.child_of Join.and) ss = is_cons ss ≡ true
IsFilled (Position.child_of Join.or) ss = Unit {0}
IsFilled Position.diff ss = length ss ≡ 1
IsFilled Position.diff_lhs ss = is_cons ss ≡ true

abbrev pub HasOperands : Op → List Shape → Type 0
HasOperands Op.intersect ss = is_cons ss ≡ true
HasOperands Op.union ss = Unit {0}
HasOperands Op.diff ss = is_cons ss ≡ true

abbrev pub Live : Option (List ℕ) → ℕ → Type 0
Live m x = (x < 2 ^ 32) × (is_live (fold_mask m) (key_of x) ≡ true)

-- Code that pushes operands which make up the set `f` wherever the mask is live.
abbrev pub Delivers :
    (K : Kernels)
    → Laws K
    → List (Step K)
    → List (Operand K)
    → List Shape
    → List Bool
    → Option (List ℕ)
    → (List Bool → Bool)
    → (ℕ → Bool)
    → Type 0
Delivers K L code S ss es m value f =
    (accs : List (Operand K)) × Runs K code S (push_all accs S)
    × AllSuit K L accs ss es
    × ((x : ℕ) → Live m x → value (mems K L x accs) ≡ f x)

pub record SplicedOk (K : Kernels) (L : Laws K) (p : Position) (f : ℕ → Bool) (n : ℕ)
    (s : Spliced K) : Type 0 where
  pub shapes_From : AllFrom 0 s.shapes
  pub shapes_keys : AllKeys s.shapes
  pub filled : IsFilled p s.shapes
  pub net_lem : s.net ≡ length s.shapes
  pub alone : s.guardable ≡ true → length s.shapes ≡ 1
  pub resolved : IsResolved K s.steps
  pub steps_bound : length s.steps + 1 ≤ 2 * n
  pub shapes_bound : length s.shapes ≤ n
  pub covered : (x : ℕ) → x < 2 ^ 32 → f x ≡ true → keys_at p s.shapes (key_of x) ≡ true
  pub inlined :
      (m : Option (List ℕ)) (S : List (Operand K))
      → Delivers K L (fill K m (drop_guards K s.steps)) S s.shapes s.exact m (value_at p) f
  pub guarded :
      (m : Option (List ℕ)) (S : List (Operand K))
      → Delivers K L (fill K m s.steps) S s.shapes s.exact m (value_at p) f

pub record PlanOk (K : Kernels) (L : Laws K) (op : Op) (f : ℕ → Bool) (n : ℕ) (p : FoldPlan K)
    : Type 0 where
  pub operands_From : AllFrom 0 p.operands
  pub operands_keys : AllKeys p.operands
  pub has_operands : HasOperands op p.operands
  pub arity_lem : p.root.arity ≡ length p.operands
  pub plan_op_lem : p.root.plan.op ≡ op
  pub plan_lem : p.root.plan ≡ made_plan K op p.operands p.operand_exact
  pub shape_lem : p.shape ≡ made_shape K op p.operands p.operand_exact
  pub resolved : IsResolved K p.body
  pub steps_bound : length p.body + 2 ≤ 2 * n
  pub operands_bound : length p.operands ≤ n
  pub covered : (x : ℕ) → x < 2 ^ 32 → f x ≡ true → over op p.operands (key_of x) ≡ true
  pub root_live :
      (x : ℕ) → x < 2 ^ 32 → f x ≡ true → is_live (fold_mask p.root.mask) (key_of x) ≡ true
  pub inlined :
      (m : Option (List ℕ)) (S : List (Operand K))
      → Delivers K L (fill K m (drop_guards K p.body)) S p.operands p.operand_exact m (apply op) f
  pub guarded :
      (m : Option (List ℕ)) (S : List (Operand K))
      → Delivers K L (fill K m (steps K p)) S (p.shape ∷ []) (false ∷ []) m any_true f

pub value_at-single : (p : Position) (b : Bool) → value_at p (b ∷ []) ≡ b
unfolding apply
value_at-single (Position.child_of Join.and) true = refl
value_at-single (Position.child_of Join.and) false = refl
value_at-single (Position.child_of Join.or) true = refl
value_at-single (Position.child_of Join.or) false = refl
value_at-single Position.diff true = refl
value_at-single Position.diff false = refl
value_at-single Position.diff_lhs true = refl
value_at-single Position.diff_lhs false = refl

pub any_true-single : (b : Bool) → any_true (b ∷ []) ≡ b
any_true-single true = refl
any_true-single false = refl

pub keys_at-single :
    (p : Position) (s : Shape) (k : ℕ) → has_key s k ≡ true → keys_at p (s ∷ []) k ≡ true
keys_at-single (Position.child_of Join.and) s k h = rw h refl
keys_at-single (Position.child_of Join.or) s k h = rw h refl
keys_at-single Position.diff s k h = rw h refl
keys_at-single Position.diff_lhs s k h = h

pub single-IsFilled : (p : Position) (s : Shape) → IsFilled p (s ∷ [])
single-IsFilled (Position.child_of Join.and) s = refl
single-IsFilled (Position.child_of Join.or) s = tt
single-IsFilled Position.diff s = refl
single-IsFilled Position.diff_lhs s = refl

and_covered : (b v c : Bool) → v ≡ c → (c ≡ true → b ≡ true) → (b && v) ≡ c
and_covered true v c e h = e
and_covered false v true e h = cc (h refl)
and_covered false v false e h = refl

-- A value of the set is live under the mask that the fold is read through.
filled_live :
    (K : Kernels) (slot m : Option (List ℕ)) (k : ℕ)
    → is_live (fold_mask m) k ≡ true
    → is_live (fold_mask slot) k ≡ true
    → is_live (fold_mask (inner_or K slot m)) k ≡ true
filled_live K none m k h g = h
filled_live K (some keys) m k h g = g

module _ (K : Kernels) (L : Laws K) where
  pub AllSuit-length :
      (accs : List (Operand K)) (ss : List Shape) (es : List Bool)
      → AllSuit K L accs ss es
      → length accs ≡ length ss
  AllSuit-length [] [] es f = refl
  AllSuit-length [] (s ∷ ss) es f = absurd f
  AllSuit-length (a ∷ accs) [] es f = absurd f
  AllSuit-length (a ∷ accs) (s ∷ ss) [] f = absurd f
  AllSuit-length (a ∷ accs) (s ∷ ss) (e ∷ es) (f, g) = ap suc (AllSuit-length accs ss es g)

  -- One operand, whichever position reads it.
  pub one-Delivers :
      (code : List (Step K)) (S : List (Operand K)) (s : Shape) (e : Bool) (m : Option (List ℕ))
      (f : ℕ → Bool) (p : Position)
      → Delivers K L code S (s ∷ []) (e ∷ []) m any_true f
      → Delivers K L code S (s ∷ []) (e ∷ []) m (value_at p) f
  one-Delivers code S s e m f p ([], r, fit, g) = absurd fit
  one-Delivers code S s e m f p (a ∷ [], r, fit, g) = (
    a ∷ [],
    r,
    fit,
    λ x h. value_at-single p (mem K L x a) ∙ sym (any_true-single (mem K L x a)) ∙ g x h,
  )
  one-Delivers code S s e m f p (a ∷ b ∷ accs, r, fit, g) = absurd fit.1

  -- A fold behind the code of its operands.
  pub combine-Delivers :
      (f : ℕ → Bool) (op : Op) (ss : List Shape) (es : List Bool) (m : Option (List ℕ)) (r : Fold)
      (code : List (Step K)) (S : List (Operand K))
      → length ss < 2 ^ 16
      → r.arity ≡ length ss
      → r.plan ≡ made_plan K op ss es
      → AllFrom 0 ss
      → ((x : ℕ) → x < 2 ^ 32 → f x ≡ true → is_live (fold_mask r.mask) (key_of x) ≡ true)
      → Delivers K L code S ss es m (apply op) f
      → Delivers K L
          (code ++ (Step.combine (fill_fold K m r) ∷ []))
          S
          (made_shape K op ss es ∷ [])
          (false ∷ [])
          m
          any_true
          f
  combine-Delivers f op ss es m r code S few n e asc live (accs, runs, fit, g) =
      let (a, run, suits, value) =
        run-combine K L (fill_fold K m r) op ss es accs S (n ∙ sym (AllSuit-length accs ss es fit))
          (omega (arith, few, AllSuit-length accs ss es fit)) e asc fit in
      (
        a ∷ [],
        Runs-append K code (Step.combine (fill_fold K m r) ∷ []) S (push_all accs S) (a ∷ S) runs
            run,
        (suits, tt),
        λ x h.
            any_true-single (mem K L x a)
            ∙ value x h.0
            ∙ and_covered (is_live (fold_mask (inner_or K r.mask m)) (key_of x))
                (apply op (mems K L x accs)) (f x) (g x h)
                (λ t. filled_live K r.mask m (key_of x) h.1 (live x h.0 t)),
      )
