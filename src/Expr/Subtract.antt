-- ===== src/Expr/Subtract.antt =====
-- First minus rest, for src/api/expr.rs.
use frostbit.Base.{
  ℕ, suc, ◌≡◌, refl, ap, ◌∙◌, Bool, true, false, not, ◌&&◌, List, [], ◌∷◌, ◌++◌, length, arith,
}
use frostbit.Shape.{Shape}
use frostbit.Shape.Keys.{is_cons}
use frostbit.Plan.{Op}
use frostbit.Expr.Meaning.{apply, any_true}
use frostbit.Expr.Shapes.{over}

-- First minus rest, with one more set to take away.
pub apply-diff_append :
    (as' bs : List Bool) (n : ℕ)
    → length as' ≡ suc n
    → apply Op.diff (as' ++ bs) ≡ (apply Op.diff as' && not (any_true bs))
unfolding apply
apply-diff_append [] bs n h = absurd (omega (arith, h))
apply-diff_append (a ∷ as') bs n h =
    ap (λ b. a && b) (not_any as') ∙ and_assoc a (not (any_true as')) (not (any_true bs))
  where
    not_any :
        (as' : List Bool) → not (any_true (as' ++ bs)) ≡ (not (any_true as') && not (any_true bs))
    not_any [] = refl
    not_any (true ∷ as') = refl
    not_any (false ∷ as') = not_any as'

    and_assoc : (a b c : Bool) → (a && (b && c)) ≡ ((a && b) && c)
    and_assoc true b c = refl
    and_assoc false b c = refl

pub over-diff_append :
    (ss ts : List Shape) (k : ℕ) → over Op.diff ss k ≡ true → over Op.diff (ss ++ ts) k ≡ true
over-diff_append [] ts k h = cc
over-diff_append (s ∷ ss) ts k h = h

pub is_cons-length : (ss : List Shape) → is_cons ss ≡ true → (n : ℕ) × (length ss ≡ suc n)
is_cons-length [] h = cc
is_cons-length (s ∷ ss) h = (length ss, refl)

pub and_false : (a b : Bool) → a ≡ false → (a && b) ≡ false
and_false a b e = rw e refl
