-- ===== src/Expr/Meaning.antt =====
-- The Boolean meaning of an expression of src/api/expr.rs.
use frostbit.Base.{ℕ, ◌+◌, Bool, true, false, not, ◌&&◌, ◌||◌, List, [], ◌∷◌}
use frostbit.Plan.{Op}
use frostbit.Expr.{Join, Expr, plan_op, combine_all, difference}
use frostbit.Expr.Interface.{Kernels}

mutual
  pub data Tree (K : Kernels) : Type 0 where
    leaf : K.View → Tree K
    owned : K.Bitmap → Tree K
    join : Join → Trees K → Tree K
    minus : Tree K → Tree K → Tree K

  pub data Trees (K : Kernels) : Type 0 where
    nil : Trees K
    cons : Tree K → Trees K → Trees K

-- An operation on a list of sets, at one value; the intersection of no sets is empty.
abbrev pub all_true : List Bool → Bool
all_true [] = true
all_true (b ∷ bs) = b && all_true bs

abbrev pub any_true : List Bool → Bool
any_true [] = false
any_true (b ∷ bs) = b || any_true bs

unfoldable pub apply : Op → List Bool → Bool
apply op [] = false
apply Op.intersect (b ∷ bs) = b && all_true bs
apply Op.union (b ∷ bs) = b || any_true bs
apply Op.diff (b ∷ bs) = b && not (any_true bs)

module _ (K : Kernels) where
  unfoldable mutual
    -- The public constructors, from the leaves up.
    pub build : Tree K → Expr K
    build (leaf v) = Expr.leaf v
    build (owned b) = Expr.owned b
    build (join op ts) = Expr.combined (combine_all K op (build_all ts))
    build (minus t u) = Expr.combined (difference K (build t) (build u))

    pub build_all : Trees K → List (Expr K)
    build_all nil = []
    build_all (cons t ts) = build t ∷ build_all ts

  unfoldable mutual
    -- The nodes of a tree.
    pub size : Tree K → ℕ
    size (leaf v) = 1
    size (owned b) = 1
    size (join op ts) = 1 + size_all ts
    size (minus t u) = 1 + size t + size u

    pub size_all : Trees K → ℕ
    size_all nil = 0
    size_all (cons t ts) = size t + size_all ts

  unfoldable mutual
    -- Trees without the AND of no children.
    pub IsProper : Tree K → Type 0
    IsProper (leaf v) = Unit {0}
    IsProper (owned b) = Unit {0}
    IsProper (join Join.and nil) = ⊥
    IsProper (join Join.and (cons t ts)) = IsProper t × AreProper ts
    IsProper (join Join.or ts) = AreProper ts
    IsProper (minus t u) = IsProper t × IsProper u

    pub AreProper : Trees K → Type 0
    AreProper nil = Unit {0}
    AreProper (cons t ts) = IsProper t × AreProper ts

  -- The set that a tree denotes, given the members of a view.
  module _ (has : K.View → ℕ → Bool) where
    unfoldable mutual
      pub meaning : Tree K → ℕ → Bool
      meaning (leaf v) x = has v x
      meaning (owned b) x = has (K.view b) x
      meaning (join op ts) x = apply (plan_op K op) (meanings ts x)
      meaning (minus t u) x = meaning t x && not (meaning u x)

      pub meanings : Trees K → ℕ → List Bool
      meanings nil x = []
      meanings (cons t ts) x = meaning t x ∷ meanings ts x
