-- ===== src/Expr/Children.antt =====
-- src/api/expr.rs: the children that one AND or OR gathers.
use mathlib.Core.Path.{subst}
use frostbit.Base.{
  ℕ, ◌+◌, ◌*◌, ◌^◌, ◌≤◌, ◌<◌, ◌≡◌, refl, sym, ap, ap₂, ◌∙◌, Bool, true, false, Option, List, [],
  ◌∷◌, ◌++◌, length, length-append, arith,
}
use frostbit.Shape.{Shape}
use frostbit.Shape.Keys.{AllFrom}
use frostbit.Expr.{
  Join, Position, Step, Expr, drop_guards, splice, fill, gather, guarded_by, guard_if,
}
use frostbit.Expr.Interface.{Kernels}
use frostbit.Expr.Execute.{Operand}
use frostbit.Expr.Laws.{Laws, key_of}
use frostbit.Expr.Code.{Runs, Runs-append}
use frostbit.Expr.Masks.{drop_guards-append, drop_guards-guard_if, fill-append}
use frostbit.Expr.Shapes.{AllKeys}
use frostbit.Expr.Stack.{push_all, push_all-append, mem, mems, AllSuit}
use frostbit.Expr.Sound.{keys_at, Delivers, SplicedOk}
use frostbit.Expr.JoinValue.{
  joined, join_value, join_value-append, join_value-cons, join_keys-append, AllFrom-append,
  AllKeys-append, map-append, joined-true,
}

-- An expression, the set that it stands for, and a bound on its size.
abbrev pub Child : Kernels → Type 0
Child K = Expr K × (ℕ → Bool) × ℕ

abbrev pub exprs : (K : Kernels) → List (Child K) → List (Expr K)
exprs K [] = []
exprs K ((e, f, n) ∷ cs) = e ∷ exprs K cs

abbrev pub values : (K : Kernels) → ℕ → List (Child K) → List Bool
values K x [] = []
values K x ((e, f, n) ∷ cs) = f x ∷ values K x cs

abbrev pub weight : (K : Kernels) → List (Child K) → ℕ
weight K [] = 0
weight K ((e, f, n) ∷ cs) = n + weight K cs

abbrev pub ChildrenOk : (K : Kernels) → Laws K → Join → List (Child K) → Type 0
ChildrenOk K L op [] = Unit {0}
ChildrenOk K L op ((e, f, n) ∷ cs) =
    SplicedOk K L (Position.child_of op) f n (splice K e (Position.child_of op))
    × ChildrenOk K L op cs

module _ (K : Kernels) (L : Laws K) where
  pub AllSuit-append :
      (as' bs : List (Operand K)) (ss ts : List Shape) (es fs : List Bool)
      → AllSuit K L as' ss es
      → AllSuit K L bs ts fs
      → AllSuit K L (as' ++ bs) (ss ++ ts) (es ++ fs)
  AllSuit-append [] bs [] ts [] fs f g = g
  AllSuit-append [] bs [] ts (e ∷ es) fs f g = absurd f
  AllSuit-append [] bs (s ∷ ss) ts es fs f g = absurd f
  AllSuit-append (a ∷ as') bs [] ts es fs f g = absurd f
  AllSuit-append (a ∷ as') bs (s ∷ ss) ts [] fs f g = absurd f
  AllSuit-append (a ∷ as') bs (s ∷ ss) ts (e ∷ es) fs (h, f) g =
      (h, AllSuit-append as' bs ss ts es fs f g)

  pub length-guard_if :
      (b : Bool) (pop : ℕ) (ss : List (Step K)) → length (guard_if K b pop ss) ≤ length ss + 1
  length-guard_if true pop ss = omega arith
  length-guard_if false pop ss = omega arith

  module _ (op : Join) where
    pub gather-shapes :
        (base : ℕ) (cs : List (Child K))
        → ChildrenOk K L op cs
        → AllFrom 0 (gather K op base (exprs K cs)).shapes
          × AllKeys (gather K op base (exprs K cs)).shapes
          × ((gather K op base (exprs K cs)).arity
              ≡ base + length (gather K op base (exprs K cs)).shapes)
    unfolding gather
    gather-shapes base [] h = (tt, λ k e. cc, omega arith)
    gather-shapes base ((e, f, n) ∷ cs) (ok, h) =
        let s = splice K e (Position.child_of op) in
        let g = gather K op (base + s.net) (exprs K cs) in
        let (p, q, r) = gather-shapes (base + s.net) cs h in
        (
          AllFrom-append 0 s.shapes g.shapes ok.shapes_From p,
          AllKeys-append s.shapes g.shapes ok.shapes_keys q,
          omega (arith, r, ok.net_lem, length-append s.shapes g.shapes),
        )

    pub gather-bounds :
        (base : ℕ) (cs : List (Child K))
        → ChildrenOk K L op cs
        → (length (gather K op base (exprs K cs)).steps ≤ 2 * weight K cs)
          × (length (gather K op base (exprs K cs)).shapes ≤ weight K cs)
    unfolding gather
    gather-bounds base [] h = (omega arith, omega arith)
    gather-bounds base ((e, f, n) ∷ cs) (ok, h) =
        let s = splice K e (Position.child_of op) in
        let g = gather K op (base + s.net) (exprs K cs) in
        let (p, q) = gather-bounds (base + s.net) cs h in
        (
          omega (
            arith,
            p,
            ok.steps_bound,
            length-guard_if (guarded_by K op s.guardable) (base + s.net) g.steps,
            length-append s.steps (guard_if K (guarded_by K op s.guardable) (base + s.net) g.steps),
          ),
          omega (arith, q, ok.shapes_bound, length-append s.shapes g.shapes),
        )

    -- The keys of the shapes cover what the children make up.
    pub gather-covered :
        (base : ℕ) (cs : List (Child K)) (x : ℕ)
        → ChildrenOk K L op cs
        → x < 2 ^ 32
        → join_value op (values K x cs) ≡ true
        → keys_at (Position.child_of op) (gather K op base (exprs K cs)).shapes (key_of x) ≡ true
    unfolding gather
    gather-covered base [] x h small e = nothing op e
      where
        nothing :
            (op : Join)
            → join_value op [] ≡ true
            → keys_at (Position.child_of op) [] (key_of x) ≡ true
        nothing Join.and e = refl
        nothing Join.or e = cc
    gather-covered base ((e, f, n) ∷ cs) x (ok, h) small t =
        let s = splice K e (Position.child_of op) in
        join_keys-append op s.shapes _ (key_of x)
        ∙ joined-true op (f x) (join_value op (values K x cs)) _ _ (ok.covered x small)
            (gather-covered (base + s.net) cs x h small)
            (sym (join_value-cons op (f x) (values K x cs)) ∙ t)

    -- Without guards, the gathered code pushes the operands of every child.
    pub gather-inlined :
        (base : ℕ) (cs : List (Child K)) (m : Option (List ℕ)) (S : List (Operand K))
        → ChildrenOk K L op cs
        → Delivers K L
            (fill K m (drop_guards K (gather K op base (exprs K cs)).steps))
            S
            (gather K op base (exprs K cs)).shapes
            (gather K op base (exprs K cs)).exact
            m
            (join_value op)
            (λ x. join_value op (values K x cs))
    unfolding gather fill drop_guards
    gather-inlined base [] m S h = ([], λ rest. refl, tt, λ x l. refl)
    gather-inlined base ((e, f, n) ∷ cs) m S (ok, h) =
        let s = splice K e (Position.child_of op) in
        let g = gather K op (base + s.net) (exprs K cs) in
        let (accs, r, fit, value) = ok.inlined m S in
        let (accs', r', fit', value') = gather-inlined (base + s.net) cs m (push_all accs S) h in
        (
          accs ++ accs',
          subst (λ c. Runs K c S (push_all (accs ++ accs') S))
              (sym (
                ap (fill K m) (
                  drop_guards-append K s.steps
                    (guard_if K (guarded_by K op s.guardable) (base + s.net) g.steps)
                  ∙ ap (λ c. drop_guards K s.steps ++ c)
                      (drop_guards-guard_if K (guarded_by K op s.guardable) (base + s.net) g.steps))
                ∙ fill-append K m (drop_guards K s.steps) (drop_guards K g.steps)))
              (subst
                (λ S'.
                  Runs K (fill K m (drop_guards K s.steps) ++ fill K m (drop_guards K g.steps)) S
                    S')
                (sym (push_all-append accs accs' S))
                (Runs-append K (fill K m (drop_guards K s.steps)) (fill K m (drop_guards K g.steps))
                  S (push_all accs S) (push_all accs' (push_all accs S)) r r')),
          AllSuit-append accs accs' s.shapes g.shapes s.exact g.exact fit fit',
          λ x l.
              ap (join_value op) (map-append (mem K L x) accs accs')
              ∙ join_value-append op (mems K L x accs) (mems K L x accs')
              ∙ ap₂ (joined op) (value x l) (value' x l)
              ∙ sym (join_value-cons op (f x) (values K x cs)),
        )
