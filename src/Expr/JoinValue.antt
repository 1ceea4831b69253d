-- ===== src/Expr/JoinValue.antt =====
-- Lists of operands under one AND or OR of src/api/expr.rs, and under its parts.
use frostbit.Base.{
  ℕ, ◌≡◌, refl, sym, ap, ◌∙◌, Bool, true, false, ◌&&◌, ◌||◌, List, [], ◌∷◌, ◌++◌, map,
}
use frostbit.Shape.{Shape}
use frostbit.Shape.Keys.{AllFrom, has_key, all_have, any_has}
use frostbit.Expr.{Join, Position}
use frostbit.Expr.Shapes.{AllKeys}
use frostbit.Expr.Sound.{value_at, keys_at}

-- The operation on two values.
abbrev pub joined : Join → Bool → Bool → Bool
joined Join.and a b = a && b
joined Join.or a b = a || b

abbrev pub join_value : Join → List Bool → Bool
join_value op bs = value_at (Position.child_of op) bs

pub join_value-append :
    (op : Join) (as' bs : List Bool)
    → join_value op (as' ++ bs) ≡ joined op (join_value op as') (join_value op bs)
join_value-append Join.and [] bs = refl
join_value-append Join.and (true ∷ as') bs = join_value-append Join.and as' bs
join_value-append Join.and (false ∷ as') bs = refl
join_value-append Join.or [] bs = refl
join_value-append Join.or (true ∷ as') bs = refl
join_value-append Join.or (false ∷ as') bs = join_value-append Join.or as' bs

pub join_value-cons :
    (op : Join) (b : Bool) (bs : List Bool)
    → join_value op (b ∷ bs) ≡ joined op b (join_value op bs)
join_value-cons Join.and b bs = refl
join_value-cons Join.or b bs = refl

pub join_keys-append :
    (op : Join) (ss ts : List Shape) (k : ℕ)
    → keys_at (Position.child_of op) (ss ++ ts) k
      ≡ joined op (keys_at (Position.child_of op) ss k) (keys_at (Position.child_of op) ts k)
join_keys-append Join.and [] ts k = refl
join_keys-append Join.and (s ∷ ss) ts k =
    ap (λ b. has_key s k && b) (join_keys-append Join.and ss ts k)
    ∙ and_assoc (has_key s k) (all_have ss k) (all_have ts k)
  where
    and_assoc : (a b c : Bool) → (a && (b && c)) ≡ ((a && b) && c)
    and_assoc true b c = refl
    and_assoc false b c = refl
join_keys-append Join.or [] ts k = refl
join_keys-append Join.or (s ∷ ss) ts k =
    ap (λ b. has_key s k || b) (join_keys-append Join.or ss ts k)
    ∙ or_assoc (has_key s k) (any_has ss k) (any_has ts k)
  where
    or_assoc : (a b c : Bool) → (a || (b || c)) ≡ ((a || b) || c)
    or_assoc true b c = refl
    or_assoc false b c = refl

pub AllFrom-append :
    (lo : ℕ) (ss ts : List Shape) → AllFrom lo ss → AllFrom lo ts → AllFrom lo (ss ++ ts)
AllFrom-append lo [] ts f g = g
AllFrom-append lo (s ∷ ss) ts (a, f) g = (a, AllFrom-append lo ss ts f g)

pub AllKeys-append : (ss ts : List Shape) → AllKeys ss → AllKeys ts → AllKeys (ss ++ ts)
AllKeys-append ss ts f g k e =
    either (any_has ss k) (any_has ts k) (f k) (g k) (sym (join_keys-append Join.or ss ts k) ∙ e)
  where
    either : {P : Type 0} (a b : Bool) → (a ≡ true → P) → (b ≡ true → P) → (a || b) ≡ true → P
    either true b f g e = f refl
    either false b f g e = g e

pub map-append {ℓ} :
    {A B : Type ℓ} (h : A → B) (xs ys : List A) → map h (xs ++ ys) ≡ map h xs ++ map h ys
map-append h [] ys = refl
map-append h (x ∷ xs) ys = ap (λ r. h x ∷ r) (map-append h xs ys)

pub joined-true :
    (op : Join) (a b c d : Bool)
    → (a ≡ true → c ≡ true)
    → (b ≡ true → d ≡ true)
    → joined op a b ≡ true
    → joined op c d ≡ true
joined-true Join.and true true c d f g e = rw (f refl, g refl) refl
joined-true Join.and true false c d f g e = cc
joined-true Join.and false b c d f g e = cc
joined-true Join.or true b c d f g e = rw (f refl) refl
joined-true Join.or false true true d f g e = refl
joined-true Join.or false true false d f g e = g refl
joined-true Join.or false false c d f g e = cc
