-- ===== src/Expr/Narrow.antt =====
-- src/api/expr.rs: the mask of an AND whose keys are fewer than some child has.
use frostbit.Base.{
  ℕ, ◌^◌, ◌<◌, ◌≡◌, refl, sym, ◌∙◌, Bool, true, false, Option, List, inl, inr, Bool-cases,
}
use frostbit.Shape.{Shape}
use frostbit.Shape.Keys.{has_key}
use frostbit.Expr.{Join, inner_or, plan_op, mask_for, joined_shape, joined_plan}
use frostbit.Expr.Interface.{Kernels}
use frostbit.Expr.Execute.{fold_mask}
use frostbit.Expr.Laws.{made_shape, made_plan, key_of, is_live}
use frostbit.Expr.Shapes.{is_live-keys_of}
use frostbit.Expr.Sound.{Live}

pub made_shape-joined :
    (K : Kernels) (op : Join) (ss : List Shape) (es : List Bool)
    → (joined_shape K op ss es).0 ≡ made_shape K (plan_op K op) ss es
unfolding made_shape
made_shape-joined K Join.and ss es = refl
made_shape-joined K Join.or ss es = refl

pub made_plan-joined :
    (K : Kernels) (op : Join) (ss : List Shape) (es : List Bool)
    → joined_plan K op ss es ≡ made_plan K (plan_op K op) ss es
unfolding made_plan
made_plan-joined K Join.and ss es = refl
made_plan-joined K Join.or ss es = refl

pub joined_plan-op :
    (K : Kernels) (op : Join) (ss : List Shape) (es : List Bool)
    → (joined_plan K op ss es).op ≡ plan_op K op
unfolding joined_plan frostbit.Shape.to_plan
joined_plan-op K op ss es = refl

pub mask_for-is_live :
    (K : Kernels) (b : Bool) (s : Shape) (k : ℕ)
    → ((k : ℕ) → has_key s k ≡ true → k < 2 ^ 16)
    → has_key s k ≡ true
    → is_live (fold_mask (mask_for K b s)) k ≡ true
mask_for-is_live K true s k h e = is_live-keys_of K s k h ∙ e
mask_for-is_live K false s k h e = refl

-- Where an AND narrows, its mask is live at the keys of its shape, and the operation is empty at the
-- others; so what holds under the mask holds wherever the outer one is live.
pub widen :
    (K : Kernels) (b : Bool) (s : Shape) (m : Option (List ℕ)) (x : ℕ) (v w : Bool)
    → ((k : ℕ) → has_key s k ≡ true → k < 2 ^ 16)
    → (Live (inner_or K (mask_for K b s) m) x → v ≡ w)
    → (v ≡ true → has_key s (key_of x) ≡ true)
    → (w ≡ true → has_key s (key_of x) ≡ true)
    → Live m x
    → v ≡ w
widen K false s m x v w h same p q l = same l
widen K true s m x v w h same p q l = elim (Bool-cases (has_key s (key_of x))) [
  | inl y ↦ same (l.0, is_live-keys_of K s (key_of x) h ∙ y)
  | inr n ↦ neither v w (λ e. clash (sym n ∙ p e)) (λ e. clash (sym n ∙ q e))
]
  where
    clash : false ≡ true → ⊥
    clash e = cc

    neither : (v w : Bool) → (v ≡ true → ⊥) → (w ≡ true → ⊥) → v ≡ w
    neither true w p q = absurd (p refl)
    neither false true p q = absurd (q refl)
    neither false false p q = refl
