-- ===== src/Expr/Flatten.antt =====
-- src/api/expr.rs: what flattening does to the two cases that its comments single out, the AND of no
-- children and a DIFF chain with a guard of its own.
use frostbit.Base.{
  ℕ, suc, ◌+◌, ◌-◌, ◌%◌, ◌^◌, ◌<◌, ◌≡◌, refl, sym, ap, ap₂, ◌∙◌, Bool, true, false, ◌||◌, List, [],
  ◌∷◌, ◌++◌, length, length-append, ◌==◌, if◌then◌else◌, arith,
}
use frostbit.Expr.{
  Join, Position, Fold, Step, Expr, splice, gather, combine_all, difference, patch_guards, aims_at,
  chain_guarded, guard_if, unresolved, drop_guards, joined_plan, flattens,
}
use frostbit.Expr.Interface.{Kernels}
use frostbit.Expr.Code.{patch_guards-resolve, length-resolve}

module _ (K : Kernels) where
  -- Patching hides the guards that it resolves from the test of a chain's own guard, because it aims
  -- them behind the fold, and the test is for the fold itself.
  aims_at-patch_guards :
      (e i : ℕ) (ss : List (Step K))
      → i + length ss ≡ e
      → e + 2 < unresolved
      → aims_at K e i (patch_guards K (e + 1) i ss) ≡ aims_at K e i ss
  unfolding aims_at patch_guards
  aims_at-patch_guards e i [] n h = refl
  aims_at-patch_guards e i (Step.leaf v ∷ ss) n h =
      aims_at-patch_guards e (i + 1) ss (omega (arith, n)) h
  aims_at-patch_guards e i (Step.owned b ∷ ss) n h =
      aims_at-patch_guards e (i + 1) ss (omega (arith, n)) h
  aims_at-patch_guards e i (Step.combine f ∷ ss) n h =
      aims_at-patch_guards e (i + 1) ss (omega (arith, n)) h
  aims_at-patch_guards e i (Step.guard skip pop ∷ ss) n h =
      ap₂ ◌||◌ unseen (aims_at-patch_guards e (i + 1) ss (omega (arith, n)) h)
    where
      unseen :
          (i + (if skip == unresolved then (e + 1 - i) % 2 ^ 32 else skip) == e) ≡ (i + skip == e)
      unseen = ground (arith, n, h)

  aims_at-append :
      (e i : ℕ) (xs ys : List (Step K))
      → aims_at K e i (xs ++ ys) ≡ (aims_at K e i xs || aims_at K e (i + length xs) ys)
  unfolding aims_at
  aims_at-append e i [] ys = ap (λ j. aims_at K e j ys) (omega arith)
  aims_at-append e i (Step.leaf v ∷ xs) ys =
      aims_at-append e (i + 1) xs ys
      ∙ ap (λ j. aims_at K e (i + 1) xs || aims_at K e j ys) (omega arith)
  aims_at-append e i (Step.owned b ∷ xs) ys =
      aims_at-append e (i + 1) xs ys
      ∙ ap (λ j. aims_at K e (i + 1) xs || aims_at K e j ys) (omega arith)
  aims_at-append e i (Step.combine f ∷ xs) ys =
      aims_at-append e (i + 1) xs ys
      ∙ ap (λ j. aims_at K e (i + 1) xs || aims_at K e j ys) (omega arith)
  aims_at-append e i (Step.guard skip pop ∷ xs) ys =
      ap (λ b. (i + skip == e) || b)
        (aims_at-append e (i + 1) xs ys
          ∙ ap (λ j. aims_at K e (i + 1) xs || aims_at K e j ys) (omega arith))
      ∙ or_assoc (i + skip == e) (aims_at K e (i + 1) xs) (aims_at K e (i + suc (length xs)) ys)
    where
      or_assoc : (a b c : Bool) → (a || (b || c)) ≡ ((a || b) || c)
      or_assoc true b c = refl
      or_assoc false b c = refl

  or_false : (b : Bool) → (b || false) ≡ b
  or_false true = refl
  or_false false = refl

  aims_at-guard_if :
      (e i : ℕ) (b : Bool) (pop : ℕ) (ss : List (Step K))
      → e < unresolved
      → aims_at K e i (guard_if K b pop ss) ≡ aims_at K e (if b then i + 1 else i) ss
  unfolding aims_at
  aims_at-guard_if e i true pop ss h = ground arith
  aims_at-guard_if e i false pop ss h = refl

  -- The instructions of a difference in front of its fold, with its own guard unresolved.
  abbrev pub chain_code : Expr K → Expr K → List (Step K)
  chain_code lhs rhs =
      (splice K lhs Position.diff_lhs).steps
      ++ guard_if K (splice K lhs Position.diff_lhs).guardable 1 (splice K rhs Position.diff).steps

  -- Whether the plan of a difference counts as guarded depends on the guards inside its two operands
  -- alone: the guard that it has of its own, behind a minuend that may be empty, is never seen.
  pub difference-chain_guarded :
      (lhs rhs : Expr K)
      → length (chain_code lhs rhs) + 2 < 2 ^ 32 - 1
      → chain_guarded K (difference K lhs rhs) ≡ (
          aims_at K (length (chain_code lhs rhs)) 0 (splice K lhs Position.diff_lhs).steps
          || aims_at K
              (length (chain_code lhs rhs))
              (if (splice K lhs Position.diff_lhs).guardable
                then length (splice K lhs Position.diff_lhs).steps + 1
                else length (splice K lhs Position.diff_lhs).steps)
              (splice K rhs Position.diff).steps)
  unfolding chain_guarded difference
  difference-chain_guarded lhs rhs h =
      let l = splice K lhs Position.diff_lhs in
      let r = splice K rhs Position.diff in
      let ss = chain_code lhs rhs in
      let patched = patch_guards K (length ss + 1) 0 ss in
      let resolved = patch_guards-resolve K (length ss + 1) 0 ss (omega arith) in
      let size : length patched ≡ length ss = ap length resolved ∙ length-resolve K ss in
      let fold = Step.combine (difference K lhs rhs).root ∷ [] in
      let target : length (patched ++ fold) - 1 ≡ length ss =
        omega (arith, size, length-append patched fold) in
      let near : length l.steps ≡ 0 + length l.steps = omega arith in
      ap (λ e. aims_at K e 0 (patched ++ fold)) target
      ∙ aims_at-append (length ss) 0 patched fold
      ∙ ap (λ b. aims_at K (length ss) 0 patched || b)
          (only_fold (length ss) (0 + length patched) (difference K lhs rhs).root)
      ∙ or_false (aims_at K (length ss) 0 patched)
      ∙ aims_at-patch_guards (length ss) 0 ss (omega arith) h
      ∙ aims_at-append (length ss) 0 l.steps (guard_if K l.guardable 1 r.steps)
      ∙ ap (λ b. aims_at K (length ss) 0 l.steps || b)
          (ap (λ i. aims_at K (length ss) i (guard_if K l.guardable 1 r.steps)) (sym near)
            ∙ aims_at-guard_if (length ss) (length l.steps) l.guardable 1 r.steps
                (omega (arith, h)))
    where
      only_fold : (e i : ℕ) (f : Fold) → aims_at K e i (Step.combine f ∷ []) ≡ false
      only_fold e i f = refl

  -- An AND of no children, which is the empty set, is dropped from the children of another AND.
  pub combine_all-empty_and :
      (cs : List (Expr K))
      → combine_all K Join.and (Expr.combined (combine_all K Join.and []) ∷ cs)
        ≡ combine_all K Join.and cs
  unfolding combine_all gather splice flattens drop_guards joined_plan frostbit.Shape.to_plan
  combine_all-empty_and cs =
      ap (λ d. record (combine_all K Join.and cs) { max_depth = d }) (omega arith)
