-- ===== src/Expr/Guard.antt =====
-- src/api/expr.rs: a guard in front of the rest of its operation. An empty operand takes the jump
-- behind the fold, with an empty result; any other falls through.
use frostbit.Base.{
  ℕ, zero, suc, ◌+◌, ◌%◌, ◌^◌, ◌<◌, ◌≡◌, refl, sym, ap, ◌∙◌, Bool, true, false, Option, List, [],
  ◌∷◌, ◌++◌, length, length-append, arith, inl, inr, Bool-cases,
}
use mathlib.Core.Path.{subst}
use mathlib.Core.List.{append_assoc}
use frostbit.Base.Exec.{ok, ◌>>=◌}
use frostbit.Shape.{Shape}
use frostbit.Expr.{Step, fill, guard_if, unresolved}
use frostbit.Expr.Interface.{Kernels, Acc}
use frostbit.Expr.Execute.{Operand, run, split_top, top_is_empty}
use frostbit.Expr.Laws.{Laws}
use frostbit.Expr.Code.{
  IsResolved, resolve-append, Runs-append, resolve, length-resolve, Runs, run-skip, skip_to,
}
use frostbit.Expr.Masks.{fill-append, length-fill}
use frostbit.Expr.Stack.{push_all, split_top-pushed, mem, Suits}
use frostbit.Expr.Sound.{Live}

module _ (K : Kernels) where
  pub run-guard_pass :
      (skip pop : ℕ) (ss : List (Step K)) (st : List (Operand K))
      → top_is_empty K st ≡ false
      → run K 0 (Step.guard skip pop ∷ ss) st ≡ run K 0 ss st
  unfolding run
  run-guard_pass zero pop ss st e = rw (e, run) refl
  run-guard_pass (suc skip) pop ss st e = rw (e, run) refl

  run-guard_jump :
      (skip pop : ℕ) (ss rest : List (Step K)) (st dropped S : List (Operand K))
      → top_is_empty K st ≡ true
      → split_top pop st [] ≡ ok (dropped, S)
      → skip ≡ suc (length ss)
      → run K 0 (Step.guard skip pop ∷ (ss ++ rest)) st ≡ run K 0 rest (Acc.empty ∷ S)
  unfolding run
  run-guard_jump zero pop ss rest st dropped S e p n = absurd (omega (arith, n))
  run-guard_jump (suc skip) pop ss rest st dropped S e p n =
      rw (e, run)
        (ap (λ r. r >>= λ (taken, below). run K skip (ss ++ rest) (Acc.empty ∷ below)) p
          ∙ ap (λ k. run K k (ss ++ rest) (Acc.empty ∷ S)) (omega (arith, n))
          ∙ run-skip K ss rest (Acc.empty ∷ S))

module _ (K : Kernels) where
  -- Code of which the guards have their targets, in front of the rest of its operation.
  pub Runs-behind :
      (m : Option (List ℕ)) (xs ys : List (Step K)) (last : Step K) (S1 S2 S3 : List (Operand K))
      → IsResolved K xs
      → Runs K (fill K m xs) S1 S2
      → Runs K (fill K m (resolve K ys) ++ (last ∷ [])) S2 S3
      → Runs K (fill K m (resolve K (xs ++ ys)) ++ (last ∷ [])) S1 S3
  Runs-behind m xs ys last S1 S2 S3 h r q =
      subst (λ c. Runs K c S1 S3)
        (sym (
          ap (λ c. fill K m c ++ (last ∷ [])) (resolve-append K xs ys h)
          ∙ ap (λ c. c ++ (last ∷ [])) (fill-append K m xs (resolve K ys))
          ∙ append_assoc (fill K m xs) (fill K m (resolve K ys)) (last ∷ [])))
        (Runs-append K (fill K m xs) (fill K m (resolve K ys) ++ (last ∷ [])) S1 S2 S3 r q)

module _ (K : Kernels) (L : Laws K) where
  -- Code that replaces the operands on top by one result, right wherever the mask is live.
  abbrev pub Finishes :
      List (Step K)
      → List (Operand K)
      → List (Operand K)
      → Shape
      → Option (List ℕ)
      → (ℕ → Bool)
      → Type 0
  Finishes code st S shape m want =
      (a : Operand K) × Runs K code st (a ∷ S)
      × Suits K L a shape false
      × ((x : ℕ) → Live m x → mem K L x a ≡ want x)

  -- The code that a resolved guard stands in front of, `last` being the fold.
  pub guard-Finishes :
      (b : Bool) (pop : ℕ) (ss : List (Step K)) (last : Step K) (accs S : List (Operand K))
      (shape : Shape) (m : Option (List ℕ)) (want : ℕ → Bool)
      → length ss + 2 < unresolved
      → length accs < 2 ^ 32
      → (b ≡ true → pop ≡ length accs)
      → (b ≡ true → top_is_empty K (push_all accs S) ≡ true → (x : ℕ) → Live m x → want x ≡ false)
      → Finishes (fill K m (resolve K ss) ++ (last ∷ [])) (push_all accs S) S shape m want
      → Finishes
          (fill K m (resolve K (guard_if K b pop ss)) ++ (last ∷ []))
          (push_all accs S)
          S
          shape
          m
          want
  unfolding resolve fill
  guard-Finishes false pop ss last accs S shape m want small few counts empty_case r = r
  guard-Finishes true pop ss last accs S shape m want small few counts empty_case
        (a, r, suits, value) =
      elim (Bool-cases (top_is_empty K (push_all accs S))) [
        | inl e ↦ (
          Acc.empty,
          λ rest.
              run-guard_jump K _ _ (fill K m (resolve K ss) ++ (last ∷ [])) rest (push_all accs S)
                accs S e (ap (λ n. split_top n (push_all accs S) []) pops ∙ split_top-pushed accs S)
                skips,
          refl,
          λ x h. sym (empty_case refl e x h),
        )
        | inr e ↦ (a, λ rest. run-guard_pass K _ _ _ (push_all accs S) e ∙ r rest, suits, value)
      ]
    where
      pops : pop % 2 ^ 32 ≡ length accs
      pops = omega (arith, few, counts refl)

      skips : skip_to unresolved (length ss) ≡ suc (length (fill K m (resolve K ss) ++ (last ∷ [])))
      skips = omega (
        arith,
        small,
        length-append (fill K m (resolve K ss)) (last ∷ []),
        length-fill K m (resolve K ss),
        length-resolve K ss,
      )
