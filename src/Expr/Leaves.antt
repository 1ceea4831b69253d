-- ===== src/Expr/Leaves.antt =====
-- src/api/expr.rs: leaves are spliced soundly.
use frostbit.Base.{ℕ, ◌≡◌, refl, true, Option, List, [], ◌∷◌, arith}
use frostbit.Expr.{Position, Step, Expr, splice, fill, drop_guards}
use frostbit.Expr.Interface.{Kernels, Acc}
use frostbit.Expr.Execute.{Operand, run}
use frostbit.Expr.Meaning.{any_true}
use frostbit.Expr.Laws.{Laws, key_of}
use frostbit.Expr.Sound.{
  SplicedOk, Delivers, any_true-single, keys_at-single, single-IsFilled, one-Delivers,
}

module _ (K : Kernels) (L : Laws K) where
  pub leaf-Delivers :
      (v : K.View) (s : Step K) (m : Option (List ℕ)) (S : List (Operand K))
      → ((rest : List (Step K)) → run K 0 (s ∷ rest) S ≡ run K 0 rest (Acc.leaf v ∷ S))
      → Delivers K L (s ∷ []) S (K.view_shape v ∷ []) (true ∷ []) m any_true (L.has v)
  leaf-Delivers v s m S h =
      (Acc.leaf v ∷ [], h, ((refl, refl), tt), λ x l. any_true-single (L.has v x))

  pub leaf_SplicedOk :
      (v : K.View) (p : Position) → SplicedOk K L p (L.has v) 1 (splice K (Expr.leaf v) p)
  unfolding splice fill drop_guards run
  leaf_SplicedOk v p = record {
    shapes_From = (L.view_shape-From v, tt);
    shapes_keys = λ k e. L.view_key v k (ground (arith, e));
    filled = single-IsFilled p (K.view_shape v);
    net_lem = refl;
    alone = λ e. cc;
    resolved = tt;
    steps_bound = omega arith;
    shapes_bound = omega arith;
    covered = λ x h e. keys_at-single p (K.view_shape v) (key_of x) (L.has-key v x e);
    inlined = λ m S.
        one-Delivers K L (Step.leaf v ∷ []) S (K.view_shape v) true m (L.has v) p
          (leaf-Delivers v (Step.leaf v) m S (λ rest. refl));
    guarded = λ m S.
        one-Delivers K L (Step.leaf v ∷ []) S (K.view_shape v) true m (L.has v) p
          (leaf-Delivers v (Step.leaf v) m S (λ rest. refl));
  }

  pub owned_SplicedOk :
      (b : K.Bitmap) (p : Position)
      → SplicedOk K L p (L.has (K.view b)) 1 (splice K (Expr.owned b) p)
  unfolding splice fill drop_guards run
  owned_SplicedOk b p =
      let v = K.view b in
      record {
        shapes_From = (L.view_shape-From v, tt);
        shapes_keys = λ k e. L.view_key v k (ground (arith, e));
        filled = single-IsFilled p (K.view_shape v);
        net_lem = refl;
        alone = λ e. cc;
        resolved = tt;
        steps_bound = omega arith;
        shapes_bound = omega arith;
        covered = λ x h e. keys_at-single p (K.view_shape v) (key_of x) (L.has-key v x e);
        inlined = λ m S.
            one-Delivers K L (Step.owned b ∷ []) S (K.view_shape v) true m (L.has v) p
              (leaf-Delivers v (Step.owned b) m S (λ rest. refl));
        guarded = λ m S.
            one-Delivers K L (Step.owned b ∷ []) S (K.view_shape v) true m (L.has v) p
              (leaf-Delivers v (Step.owned b) m S (λ rest. refl));
      }
