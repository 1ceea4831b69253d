-- ===== src/Expr/Masks.antt =====
-- src/api/expr.rs: instruction lists whose folds get a mask, or whose guards are dropped.
use frostbit.Base.{
  ℕ, suc, ◌≤◌, ◌≡◌, refl, ap, ap₂, Bool, true, false, Option, none, some, List, [], ◌∷◌, ◌++◌,
  length, arith,
}
use frostbit.Expr.{Fold, Step, drop_guards, fill, fill_fold, inner_or, guard_if}
use frostbit.Expr.Code.{resolve}
use frostbit.Expr.Interface.{Kernels}

module _ (K : Kernels) where
  pub inner_or_assoc :
      (slot inner outer : Option (List ℕ))
      → inner_or K (inner_or K slot inner) outer ≡ inner_or K slot (inner_or K inner outer)
  inner_or_assoc none inner outer = refl
  inner_or_assoc (some keys) inner outer = refl

  pub fill_fold-fill_fold :
      (outer inner : Option (List ℕ)) (f : Fold)
      → fill_fold K outer (fill_fold K inner f) ≡ fill_fold K (inner_or K inner outer) f
  fill_fold-fill_fold outer inner f =
      ap (λ m. record f { mask = m }) (inner_or_assoc f.mask inner outer)

  -- Masks.
  pub fill-append :
      (m : Option (List ℕ)) (xs ys : List (Step K))
      → fill K m (xs ++ ys) ≡ fill K m xs ++ fill K m ys
  unfolding fill
  fill-append m [] ys = refl
  fill-append m (Step.leaf v ∷ xs) ys = ap (λ r. Step.leaf v ∷ r) (fill-append m xs ys)
  fill-append m (Step.owned b ∷ xs) ys = ap (λ r. Step.owned b ∷ r) (fill-append m xs ys)
  fill-append m (Step.combine f ∷ xs) ys =
      ap (λ r. Step.combine (fill_fold K m f) ∷ r) (fill-append m xs ys)
  fill-append m (Step.guard skip pop ∷ xs) ys =
      ap (λ r. Step.guard skip pop ∷ r) (fill-append m xs ys)

  pub length-fill : (m : Option (List ℕ)) (ss : List (Step K)) → length (fill K m ss) ≡ length ss
  unfolding fill
  length-fill m [] = refl
  length-fill m (Step.leaf v ∷ ss) = ap suc (length-fill m ss)
  length-fill m (Step.owned b ∷ ss) = ap suc (length-fill m ss)
  length-fill m (Step.combine f ∷ ss) = ap suc (length-fill m ss)
  length-fill m (Step.guard skip pop ∷ ss) = ap suc (length-fill m ss)

  -- The mask that an instruction has after two fills: the innermost wins.
  pub fill-fill :
      (outer inner : Option (List ℕ)) (ss : List (Step K))
      → fill K outer (fill K inner ss) ≡ fill K (inner_or K inner outer) ss
  unfolding fill
  fill-fill outer inner [] = refl
  fill-fill outer inner (Step.leaf v ∷ ss) = ap (λ r. Step.leaf v ∷ r) (fill-fill outer inner ss)
  fill-fill outer inner (Step.owned b ∷ ss) = ap (λ r. Step.owned b ∷ r) (fill-fill outer inner ss)
  fill-fill outer inner (Step.combine f ∷ ss) =
      ap₂ (λ g r. Step.combine g ∷ r) (fill_fold-fill_fold outer inner f) (fill-fill outer inner ss)
  fill-fill outer inner (Step.guard skip pop ∷ ss) =
      ap (λ r. Step.guard skip pop ∷ r) (fill-fill outer inner ss)

  pub fill_fold-none : (slot : Option (List ℕ)) → inner_or K slot none ≡ slot
  fill_fold-none none = refl
  fill_fold-none (some keys) = refl

  pub fill-none : (ss : List (Step K)) → fill K none ss ≡ ss
  unfolding fill
  fill-none [] = refl
  fill-none (Step.leaf v ∷ ss) = ap (λ r. Step.leaf v ∷ r) (fill-none ss)
  fill-none (Step.owned b ∷ ss) = ap (λ r. Step.owned b ∷ r) (fill-none ss)
  fill-none (Step.combine f ∷ ss) =
      ap₂ (λ m r. Step.combine (record f { mask = m }) ∷ r) (fill_fold-none f.mask) (fill-none ss)
  fill-none (Step.guard skip pop ∷ ss) = ap (λ r. Step.guard skip pop ∷ r) (fill-none ss)

  -- Inlining.
  pub drop_guards-append :
      (xs ys : List (Step K)) → drop_guards K (xs ++ ys) ≡ drop_guards K xs ++ drop_guards K ys
  unfolding drop_guards
  drop_guards-append [] ys = refl
  drop_guards-append (Step.leaf v ∷ xs) ys = ap (λ r. Step.leaf v ∷ r) (drop_guards-append xs ys)
  drop_guards-append (Step.owned b ∷ xs) ys = ap (λ r. Step.owned b ∷ r) (drop_guards-append xs ys)
  drop_guards-append (Step.combine f ∷ xs) ys =
      ap (λ r. Step.combine f ∷ r) (drop_guards-append xs ys)
  drop_guards-append (Step.guard skip pop ∷ xs) ys = drop_guards-append xs ys

  pub drop_guards-guard_if :
      (b : Bool) (pop : ℕ) (ss : List (Step K))
      → drop_guards K (guard_if K b pop ss) ≡ drop_guards K ss
  unfolding drop_guards
  drop_guards-guard_if true pop ss = refl
  drop_guards-guard_if false pop ss = refl

  pub drop_guards-resolve : (ss : List (Step K)) → drop_guards K (resolve K ss) ≡ drop_guards K ss
  unfolding drop_guards resolve
  drop_guards-resolve [] = refl
  drop_guards-resolve (Step.leaf v ∷ ss) = ap (λ r. Step.leaf v ∷ r) (drop_guards-resolve ss)
  drop_guards-resolve (Step.owned b ∷ ss) = ap (λ r. Step.owned b ∷ r) (drop_guards-resolve ss)
  drop_guards-resolve (Step.combine f ∷ ss) = ap (λ r. Step.combine f ∷ r) (drop_guards-resolve ss)
  drop_guards-resolve (Step.guard skip pop ∷ ss) = drop_guards-resolve ss

  pub drop_guards-fill :
      (m : Option (List ℕ)) (ss : List (Step K))
      → drop_guards K (fill K m ss) ≡ fill K m (drop_guards K ss)
  unfolding drop_guards fill
  drop_guards-fill m [] = refl
  drop_guards-fill m (Step.leaf v ∷ ss) = ap (λ r. Step.leaf v ∷ r) (drop_guards-fill m ss)
  drop_guards-fill m (Step.owned b ∷ ss) = ap (λ r. Step.owned b ∷ r) (drop_guards-fill m ss)
  drop_guards-fill m (Step.combine f ∷ ss) =
      ap (λ r. Step.combine (fill_fold K m f) ∷ r) (drop_guards-fill m ss)
  drop_guards-fill m (Step.guard skip pop ∷ ss) = drop_guards-fill m ss

  pub drop_guards-drop_guards :
      (ss : List (Step K)) → drop_guards K (drop_guards K ss) ≡ drop_guards K ss
  unfolding drop_guards
  drop_guards-drop_guards [] = refl
  drop_guards-drop_guards (Step.leaf v ∷ ss) =
      ap (λ r. Step.leaf v ∷ r) (drop_guards-drop_guards ss)
  drop_guards-drop_guards (Step.owned b ∷ ss) =
      ap (λ r. Step.owned b ∷ r) (drop_guards-drop_guards ss)
  drop_guards-drop_guards (Step.combine f ∷ ss) =
      ap (λ r. Step.combine f ∷ r) (drop_guards-drop_guards ss)
  drop_guards-drop_guards (Step.guard skip pop ∷ ss) = drop_guards-drop_guards ss

  pub length-drop_guards : (ss : List (Step K)) → length (drop_guards K ss) ≤ length ss
  unfolding drop_guards
  length-drop_guards [] = omega arith
  length-drop_guards (Step.leaf v ∷ ss) = omega (arith, length-drop_guards ss)
  length-drop_guards (Step.owned b ∷ ss) = omega (arith, length-drop_guards ss)
  length-drop_guards (Step.combine f ∷ ss) = omega (arith, length-drop_guards ss)
  length-drop_guards (Step.guard skip pop ∷ ss) = omega (arith, length-drop_guards ss)
