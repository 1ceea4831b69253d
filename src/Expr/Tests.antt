-- ===== src/Expr/Tests.antt =====
-- Expressions at concrete inputs.
use frostbit.Base.{
  ℕ, ◌+◌, ◌-◌, ◌^◌, ◌<◌, ◌≡◌, refl, false, [], ◌∷◌, ◌||◌, length, if◌then◌else◌, ltb, leb, ◌==◌,
  arith,
}
use frostbit.Shape.{to_plan}
use frostbit.Expr.{Join, Position, Expr, combine_all, difference, splice, chain_guarded, aims_at}
use frostbit.Expr.Meaning.{Tree, Trees}
use frostbit.Expr.Model.{Sparse, model}
use frostbit.Expr.Flatten.{chain_code, difference-chain_guarded, combine_all-empty_and}

abbrev low : Tree model
low = Tree.leaf (Sparse.two (λ x. ltb x 70000))

abbrev high : Tree model
high = Tree.owned (Sparse.two (λ x. leb 100 x))

abbrev hole_at : ℕ → Tree model
hole_at n = Tree.leaf (Sparse.two (λ x. x == n))

-- ((low ∩ high) ∖ {200}) ∩ (high ∪ ∅)
abbrev tree : Tree model
tree = Tree.join Join.and (
    Trees.cons
      (Tree.minus (Tree.join Join.and (Trees.cons low (Trees.cons high Trees.nil))) (hole_at 200))
      (Trees.cons
        (Tree.join Join.or (Trees.cons high (Trees.cons (Tree.leaf Sparse.nothing) Trees.nil)))
        Trees.nil))

combine_all-empty_and_example :
    combine_all model Join.and
      (Expr.combined (combine_all model Join.and []) ∷ Expr.leaf (Sparse.two (λ x. x == 7)) ∷ [])
    ≡ combine_all model Join.and (Expr.leaf (Sparse.two (λ x. x == 7)) ∷ [])
combine_all-empty_and_example =
    combine_all-empty_and model (Expr.leaf (Sparse.two (λ x. x == 7)) ∷ [])

abbrev guarded_minuend : Expr model
guarded_minuend = Expr.combined (
    combine_all model Join.or
      (Expr.leaf (Sparse.two (λ x. x == 7)) ∷ Expr.leaf Sparse.nothing ∷ []))

abbrev subtrahend : Expr model
subtrahend = Expr.leaf (Sparse.two (λ x. x == 9))

chain_code_small : length (chain_code model guarded_minuend subtrahend) + 2 < 2 ^ 32 - 1
unfolding splice combine_all to_plan
chain_code_small = omega arith

difference-chain_guarded_example :
    chain_guarded model (difference model guarded_minuend subtrahend) ≡ (
      aims_at model
        (length (chain_code model guarded_minuend subtrahend))
        0
        (splice model guarded_minuend Position.diff_lhs).steps
      || aims_at model
          (length (chain_code model guarded_minuend subtrahend))
          (if (splice model guarded_minuend Position.diff_lhs).guardable
            then length (splice model guarded_minuend Position.diff_lhs).steps + 1
            else length (splice model guarded_minuend Position.diff_lhs).steps)
          (splice model subtrahend Position.diff).steps)
difference-chain_guarded_example =
    difference-chain_guarded model guarded_minuend subtrahend chain_code_small

-- The chain has a guard, and is flattened all the same.
chain_is_flattened :
    (splice model
      (Expr.combined (difference model guarded_minuend subtrahend))
      Position.diff_lhs).guardable
    ≡ false
unfolding splice difference combine_all to_plan
chain_is_flattened = refl
