-- ===== src/Expr/Correct.antt =====
-- src/api/expr.rs: a materialized expression has the members that its tree denotes.
use mathlib.Core.Path.{subst, fun_ext}
use frostbit.Base.{ℕ, ◌+◌, ◌^◌, ◌<◌, ◌≡◌, refl, ap, List, [], ◌∷◌, arith}
use frostbit.Plan.{Op}
use frostbit.Expr.{Join, Position, combine_all, difference, splice, plan_op}
use frostbit.Expr.Interface.{Kernels}
use frostbit.Expr.Meaning.{
  Tree, Trees, build, build_all, size, size_all, IsProper, AreProper, meaning, meanings, apply,
}
use frostbit.Expr.Laws.{Laws}
use frostbit.Expr.Sound.{SplicedOk, PlanOk}
use frostbit.Expr.Splice.{splice-SplicedOk}
use frostbit.Expr.Children.{Child, exprs, values, weight, ChildrenOk}
use frostbit.Expr.Combine.{HasChild, combine-PlanOk}
use frostbit.Expr.Difference.{difference-PlanOk}
use frostbit.Expr.Leaves.{leaf_SplicedOk, owned_SplicedOk}

module _ (K : Kernels) (L : Laws K) where
  -- The children of a tree, each with its meaning and size.
  children : Trees K → List (Child K)
  children Trees.nil = []
  children (Trees.cons t ts) = (build K t, meaning K L.has t, size K t) ∷ children ts

  exprs-children : (ts : Trees K) → exprs K (children ts) ≡ build_all K ts
  unfolding children build build_all
  exprs-children Trees.nil = refl
  exprs-children (Trees.cons t ts) = ap (λ es. build K t ∷ es) (exprs-children ts)

  values-children : (ts : Trees K) (x : ℕ) → values K x (children ts) ≡ meanings K L.has ts x
  unfolding children meaning meanings
  values-children Trees.nil x = refl
  values-children (Trees.cons t ts) x = ap (λ bs. meaning K L.has t x ∷ bs) (values-children ts x)

  weight-children : (ts : Trees K) → weight K (children ts) ≡ size_all K ts
  unfolding children size size_all
  weight-children Trees.nil = refl
  weight-children (Trees.cons t ts) = ap (λ n. size K t + n) (weight-children ts)

  proper-HasChild :
      (op : Join) (ts : Trees K) → IsProper K (Tree.join op ts) → HasChild K op (children ts)
  unfolding children IsProper
  proper-HasChild Join.and Trees.nil h = h
  proper-HasChild Join.and (Trees.cons t ts) h = tt
  proper-HasChild Join.or ts h = tt

  proper-children : (op : Join) (ts : Trees K) → IsProper K (Tree.join op ts) → AreProper K ts
  unfolding IsProper AreProper
  proper-children Join.and Trees.nil h = tt
  proper-children Join.and (Trees.cons t ts) h = h
  proper-children Join.or ts h = h

  -- The children by their own names.
  named_PlanOk :
      (op : Join) (ts : Trees K)
      → PlanOk K L
          (plan_op K op)
          (λ x. apply (plan_op K op) (values K x (children ts)))
          (1 + weight K (children ts))
          (combine_all K op (exprs K (children ts)))
      → PlanOk K L
          (plan_op K op)
          (meaning K L.has (Tree.join op ts))
          (size K (Tree.join op ts))
          (combine_all K op (build_all K ts))
  unfolding meaning size
  named_PlanOk op ts sound =
      subst
        (λ es.
          PlanOk K L (plan_op K op) (meaning K L.has (Tree.join op ts)) (1 + size_all K ts)
            (combine_all K op es))
        (exprs-children ts)
        (subst
          (λ n.
            PlanOk K L (plan_op K op) (meaning K L.has (Tree.join op ts)) (1 + n)
              (combine_all K op (exprs K (children ts))))
          (weight-children ts)
          (subst
            (λ f.
              PlanOk K L (plan_op K op) f (1 + weight K (children ts))
                (combine_all K op (exprs K (children ts))))
            (fun_ext (λ x. ap (apply (plan_op K op)) (values-children ts x))) sound))

  join-PlanOk :
      (op : Join) (ts : Trees K)
      → IsProper K (Tree.join op ts)
      → size K (Tree.join op ts) < 2 ^ 16
      → ChildrenOk K L op (children ts)
      → PlanOk K L
          (plan_op K op)
          (meaning K L.has (Tree.join op ts))
          (size K (Tree.join op ts))
          (combine_all K op (build_all K ts))
  unfolding size
  join-PlanOk op ts h small oks = named_PlanOk op ts (
      combine-PlanOk K L op (children ts) (proper-HasChild op ts h) oks
        (omega (arith, small, weight-children ts)))

  minus-PlanOk :
      (t u : Tree K)
      → size K (Tree.minus t u) < 2 ^ 16
      → SplicedOk K L Position.diff_lhs
          (meaning K L.has t)
          (size K t)
          (splice K (build K t) Position.diff_lhs)
      → SplicedOk K L Position.diff
          (meaning K L.has u)
          (size K u)
          (splice K (build K u) Position.diff)
      → PlanOk K L Op.diff
          (meaning K L.has (Tree.minus t u))
          (size K (Tree.minus t u))
          (difference K (build K t) (build K u))
  unfolding meaning size
  minus-PlanOk t u small l r =
      difference-PlanOk K L (build K t) (build K u) (meaning K L.has t) (meaning K L.has u)
        (size K t) (size K u) l r (omega (arith, small))

  mutual
    unfolding children build meaning size AreProper IsProper

    build-SplicedOk :
        (t : Tree K) (p : Position)
        → IsProper K t
        → size K t < 2 ^ 16
        → SplicedOk K L p (meaning K L.has t) (size K t) (splice K (build K t) p)
    build-SplicedOk (Tree.leaf v) p h small = leaf_SplicedOk K L v p
    build-SplicedOk (Tree.owned b) p h small = owned_SplicedOk K L b p
    build-SplicedOk (Tree.join op ts) p h small =
        splice-SplicedOk K L (plan_op K op) (meaning K L.has (Tree.join op ts))
          (size K (Tree.join op ts)) (combine_all K op (build_all K ts))
          (join-PlanOk op ts h small
            (children-ChildrenOk op ts (proper-children op ts h) (omega (arith, small))))
          small p
    build-SplicedOk (Tree.minus t u) p h small =
        splice-SplicedOk K L Op.diff (meaning K L.has (Tree.minus t u)) (size K (Tree.minus t u))
          (difference K (build K t) (build K u))
          (minus-PlanOk t u small (build-SplicedOk t Position.diff_lhs h.0 (omega (arith, small)))
            (build-SplicedOk u Position.diff h.1 (omega (arith, small))))
          small p

    children-ChildrenOk :
        (op : Join) (ts : Trees K)
        → AreProper K ts
        → size_all K ts < 2 ^ 16
        → ChildrenOk K L op (children ts)
    children-ChildrenOk op Trees.nil h small = tt
    children-ChildrenOk op (Trees.cons t ts) (h, hs) small = (
      build-SplicedOk t (Position.child_of op) h (omega (arith, small)),
      children-ChildrenOk op ts hs (omega (arith, small)),
    )
