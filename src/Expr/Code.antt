-- ===== src/Expr/Code.antt =====
-- The instruction lists of src/api/expr.rs: where guards jump to, masks, and inlining.
use frostbit.Base.{
  ℕ, suc, ◌+◌, ◌-◌, ◌%◌, ◌^◌, ◌<◌, ◌≡◌, refl, ap, ap₂, ◌∙◌, false, Option, List, [], ◌∷◌, ◌++◌,
  length, ◌==◌, if◌then◌else◌, arith,
}
use mathlib.Core.List.{append_assoc}
use frostbit.Expr.{Step, patch_guards, drop_guards, fill, unresolved}
use frostbit.Expr.Interface.{Kernels}
use frostbit.Expr.Execute.{Operand, run}

-- The skip of a guard that `n` steps follow in front of the fold.
abbrev pub skip_to : ℕ → ℕ → ℕ
skip_to skip n = if skip == unresolved then (n + 2) % 2 ^ 32 else skip

module _ (K : Kernels) where
  -- Every guard that has no target yet gets the step behind the fold that ends the list.
  unfoldable pub resolve : List (Step K) → List (Step K)
  resolve [] = []
  resolve (Step.leaf v ∷ ss) = Step.leaf v ∷ resolve ss
  resolve (Step.owned b ∷ ss) = Step.owned b ∷ resolve ss
  resolve (Step.combine f ∷ ss) = Step.combine f ∷ resolve ss
  resolve (Step.guard skip pop ∷ ss) = Step.guard (skip_to skip (length ss)) pop ∷ resolve ss

  abbrev pub IsResolved : List (Step K) → Type 0
  IsResolved [] = Unit {0}
  IsResolved (Step.leaf v ∷ ss) = IsResolved ss
  IsResolved (Step.owned b ∷ ss) = IsResolved ss
  IsResolved (Step.combine f ∷ ss) = IsResolved ss
  IsResolved (Step.guard skip pop ∷ ss) = ((skip == unresolved) ≡ false) × IsResolved ss

  pub patch_guards-resolve :
      (target i : ℕ) (ss : List (Step K))
      → target ≡ i + length ss + 1
      → patch_guards K target i ss ≡ resolve ss
  unfolding patch_guards resolve
  patch_guards-resolve target i [] e = refl
  patch_guards-resolve target i (Step.leaf v ∷ ss) e =
      ap (λ r. Step.leaf v ∷ r) (patch_guards-resolve target (i + 1) ss (omega (arith, e)))
  patch_guards-resolve target i (Step.owned b ∷ ss) e =
      ap (λ r. Step.owned b ∷ r) (patch_guards-resolve target (i + 1) ss (omega (arith, e)))
  patch_guards-resolve target i (Step.combine f ∷ ss) e =
      ap (λ r. Step.combine f ∷ r) (patch_guards-resolve target (i + 1) ss (omega (arith, e)))
  patch_guards-resolve target i (Step.guard skip pop ∷ ss) e =
      let offset : target - i ≡ length ss + 2 = omega (arith, e) in
      ap₂ (λ d r. Step.guard (if skip == unresolved then d % 2 ^ 32 else skip) pop ∷ r) offset
        (patch_guards-resolve target (i + 1) ss (omega (arith, e)))

  pub resolve-append :
      (xs ys : List (Step K)) → IsResolved xs → resolve (xs ++ ys) ≡ xs ++ resolve ys
  unfolding resolve
  resolve-append [] ys h = refl
  resolve-append (Step.leaf v ∷ xs) ys h = ap (λ r. Step.leaf v ∷ r) (resolve-append xs ys h)
  resolve-append (Step.owned b ∷ xs) ys h = ap (λ r. Step.owned b ∷ r) (resolve-append xs ys h)
  resolve-append (Step.combine f ∷ xs) ys h = ap (λ r. Step.combine f ∷ r) (resolve-append xs ys h)
  resolve-append (Step.guard skip pop ∷ xs) ys (e, h) =
      rw e (ap (λ r. Step.guard skip pop ∷ r) (resolve-append xs ys h))

  pub resolve-resolved : (xs : List (Step K)) → IsResolved xs → resolve xs ≡ xs
  unfolding resolve
  resolve-resolved [] h = refl
  resolve-resolved (Step.leaf v ∷ xs) h = ap (λ r. Step.leaf v ∷ r) (resolve-resolved xs h)
  resolve-resolved (Step.owned b ∷ xs) h = ap (λ r. Step.owned b ∷ r) (resolve-resolved xs h)
  resolve-resolved (Step.combine f ∷ xs) h = ap (λ r. Step.combine f ∷ r) (resolve-resolved xs h)
  resolve-resolved (Step.guard skip pop ∷ xs) (e, h) =
      rw e (ap (λ r. Step.guard skip pop ∷ r) (resolve-resolved xs h))

  pub length-resolve : (ss : List (Step K)) → length (resolve ss) ≡ length ss
  unfolding resolve
  length-resolve [] = refl
  length-resolve (Step.leaf v ∷ ss) = ap suc (length-resolve ss)
  length-resolve (Step.owned b ∷ ss) = ap suc (length-resolve ss)
  length-resolve (Step.combine f ∷ ss) = ap suc (length-resolve ss)
  length-resolve (Step.guard skip pop ∷ ss) = ap suc (length-resolve ss)

  -- The bounds keep a skip apart from the mark of an unresolved one.
  pub skip_to-resolved : (skip n : ℕ) → n + 2 < unresolved → (skip_to skip n == unresolved) ≡ false
  skip_to-resolved skip n h = ground arith

  pub resolve-IsResolved :
      (ss : List (Step K)) → length ss + 2 < unresolved → IsResolved (resolve ss)
  unfolding resolve
  resolve-IsResolved [] h = tt
  resolve-IsResolved (Step.leaf v ∷ ss) h = resolve-IsResolved ss (omega arith)
  resolve-IsResolved (Step.owned b ∷ ss) h = resolve-IsResolved ss (omega arith)
  resolve-IsResolved (Step.combine f ∷ ss) h = resolve-IsResolved ss (omega arith)
  resolve-IsResolved (Step.guard skip pop ∷ ss) h =
      (skip_to-resolved skip (length ss) (omega arith), resolve-IsResolved ss (omega arith))

  pub append-IsResolved :
      (xs ys : List (Step K)) → IsResolved xs → IsResolved ys → IsResolved (xs ++ ys)
  append-IsResolved [] ys h g = g
  append-IsResolved (Step.leaf v ∷ xs) ys h g = append-IsResolved xs ys h g
  append-IsResolved (Step.owned b ∷ xs) ys h g = append-IsResolved xs ys h g
  append-IsResolved (Step.combine f ∷ xs) ys h g = append-IsResolved xs ys h g
  append-IsResolved (Step.guard skip pop ∷ xs) ys (e, h) g = (e, append-IsResolved xs ys h g)

  pub fill-IsResolved :
      (m : Option (List ℕ)) (ss : List (Step K)) → IsResolved ss → IsResolved (fill K m ss)
  unfolding fill
  fill-IsResolved m [] h = tt
  fill-IsResolved m (Step.leaf v ∷ ss) h = fill-IsResolved m ss h
  fill-IsResolved m (Step.owned b ∷ ss) h = fill-IsResolved m ss h
  fill-IsResolved m (Step.combine f ∷ ss) h = fill-IsResolved m ss h
  fill-IsResolved m (Step.guard skip pop ∷ ss) (e, h) = (e, fill-IsResolved m ss h)

  pub drop_guards-IsResolved : (ss : List (Step K)) → IsResolved (drop_guards K ss)
  unfolding drop_guards
  drop_guards-IsResolved [] = tt
  drop_guards-IsResolved (Step.leaf v ∷ ss) = drop_guards-IsResolved ss
  drop_guards-IsResolved (Step.owned b ∷ ss) = drop_guards-IsResolved ss
  drop_guards-IsResolved (Step.combine f ∷ ss) = drop_guards-IsResolved ss
  drop_guards-IsResolved (Step.guard skip pop ∷ ss) = drop_guards-IsResolved ss

  -- From operands `S` to operands `S'`, whatever follows.
  abbrev pub Runs : List (Step K) → List (Operand K) → List (Operand K) → Type 0
  Runs xs S S' = (rest : List (Step K)) → run K 0 (xs ++ rest) S ≡ run K 0 rest S'

  pub Runs-append :
      (xs ys : List (Step K)) (S1 S2 S3 : List (Operand K))
      → Runs xs S1 S2
      → Runs ys S2 S3
      → Runs (xs ++ ys) S1 S3
  Runs-append xs ys S1 S2 S3 r q rest =
      ap (λ ss. run K 0 ss S1) (append_assoc xs ys rest) ∙ r (ys ++ rest) ∙ q rest

  pub run-skip :
      (xs rest : List (Step K)) (S : List (Operand K))
      → run K (length xs) (xs ++ rest) S ≡ run K 0 rest S
  unfolding run
  run-skip [] rest S = refl
  run-skip (x ∷ xs) rest S = run-skip xs rest S
