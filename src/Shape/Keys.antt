-- ===== src/Shape/Keys.antt =====
-- The keys of the shapes that src/ops/analyze/shape.rs derives.
use frostbit.Base.{
  ℕ, suc, ◌+◌, ◌≤◌, ◌<◌, ◌≡◌, refl, ap, ap₂, min, Bool, true, false, ◌&&◌, ◌||◌, none, some, List,
  [], ◌∷◌, length, leb, ◌==◌, arith, inl, inr, ◌⊎◌, Bool-cases, Option-cases, ==_iff,
}
use frostbit.Shape.{Meta, Shape, min_key, at_key, pass, pass_all, total}

-- The keys ascend strictly from `lo` on.
abbrev pub From : ℕ → Shape → Type 0
From lo [] = Unit {0}
From lo (m ∷ s) = (lo ≤ m.key) × From (m.key + 1) s

abbrev pub AllFrom : ℕ → List Shape → Type 0
AllFrom lo [] = Unit {0}
AllFrom lo (s ∷ curs) = From lo s × AllFrom lo curs

abbrev pub has_key : Shape → ℕ → Bool
has_key [] k = false
has_key (m ∷ s) k = m.key == k || has_key s k

abbrev pub all_have : List Shape → ℕ → Bool
all_have [] k = true
all_have (s ∷ curs) k = has_key s k && all_have curs k

abbrev pub any_has : List Shape → ℕ → Bool
any_has [] k = false
any_has (s ∷ curs) k = has_key s k || any_has curs k

abbrev pub is_cons {ℓ} : {A : Type ℓ} → List A → Bool
is_cons [] = false
is_cons (x ∷ xs) = true

pub From-weaken : (lo k : ℕ) (s : Shape) → k ≤ lo → From lo s → From k s
From-weaken lo k [] h f = tt
From-weaken lo k (m ∷ s) h (a, f) = (omega arith, f)

pub has_key-below : (lo k : ℕ) (s : Shape) → k < lo → From lo s → has_key s k ≡ false
has_key-below lo k [] h f = refl
has_key-below lo k (m ∷ s) h (a, f) = ground (arith, has_key-below (m.key + 1) k s)

-- A round takes what it counts.
pub total-pass_all :
    (key : ℕ) (curs : List Shape)
    → length (at_key key curs) + total (pass_all key curs) ≡ total curs
unfolding at_key pass_all
total-pass_all key [] = omega arith
total-pass_all key ([] ∷ curs) = omega (arith, total-pass_all key curs)
total-pass_all key ((m ∷ s) ∷ curs) = elim (Bool-cases (m.key == key)) [
  | inl e ↦ rw e (omega (arith, total-pass_all key curs))
  | inr e ↦ rw e (omega (arith, total-pass_all key curs))
]

AllFrom-weaken : (lo k : ℕ) (curs : List Shape) → k ≤ lo → AllFrom lo curs → AllFrom k curs
AllFrom-weaken lo k [] h f = tt
AllFrom-weaken lo k (s ∷ curs) h (a, f) = (From-weaken lo k s h a, AllFrom-weaken lo k curs h f)

clash : {j : ℕ} → some j ≡ none → ⊥
clash p = cc

some_injective : {i j : ℕ} → some i ≡ some j → i ≡ j
some_injective p = cc

-- Exhausted cursors.
pub none-AllFrom : (k : ℕ) (curs : List Shape) → min_key curs ≡ none → AllFrom k curs
unfolding min_key
none-AllFrom k [] e = tt
none-AllFrom k ([] ∷ curs) e = (tt, none-AllFrom k curs e)
none-AllFrom k ((m ∷ s) ∷ curs) e = elim (Option-cases (min_key curs)) [
  | inl n ↦ absurd (clash (rw n at e))
  | inr (j, n) ↦ absurd (clash (rw n at e))
]

taken_head :
    (key : ℕ) (m : Meta) (s : Shape) (curs : List Shape)
    → (m.key ≡ key) ⊎ (0 < length (at_key key curs))
    → 0 < length (at_key key ((m ∷ s) ∷ curs))
unfolding at_key
taken_head key m s curs (inl e) = rw ((==_iff m.key key).1 e) (omega arith)
taken_head key m s curs (inr h) = elim (Bool-cases (m.key == key)) [
  | inl e ↦ rw e (omega arith)
  | inr e ↦ rw e h
]

-- The smallest head key bounds every head, and is that of one.
pub min_key-AllFrom :
    (lo key : ℕ) (curs : List Shape)
    → AllFrom lo curs
    → min_key curs ≡ some key
    → (lo ≤ key) × AllFrom key curs × (0 < length (at_key key curs))
unfolding min_key at_key
min_key-AllFrom lo key [] f e = cc
min_key-AllFrom lo key ([] ∷ curs) (a, f) e =
    let (b, c, d) = min_key-AllFrom lo key curs f e in (b, (tt, c), d)
min_key-AllFrom lo key ((m ∷ s) ∷ curs) ((a, g), f) e = elim (Option-cases (min_key curs)) [
  | inl n ↦
      let same : m.key ≡ key = some_injective (rw n at e) in
      (
        omega (arith, same),
        ((omega (arith, same), g), none-AllFrom key curs n),
        taken_head key m s curs (inl same),
      )
  | inr (k, n) ↦
      let same : min m.key k ≡ key = some_injective (rw n at e) in
      let (b, c, d) = min_key-AllFrom lo k curs f n in
      (
        omega (arith, same),
        ((omega (arith, same), g), AllFrom-weaken k key curs (omega (arith, same)) c),
        taken_head key m s curs (which k same d),
      )
]
  where
    which :
        (k : ℕ)
        → min m.key k ≡ key
        → 0 < length (at_key k curs)
        → (m.key ≡ key) ⊎ (0 < length (at_key key curs))
    which k same d = elim (Bool-cases (leb m.key k)) [
      | inl le ↦ inl (ground (arith, same, le))
      | inr gt ↦ let here : k ≡ key = ground (arith, same, gt) in inr (rw here at d)
    ]

pub no_key : (curs : List Shape) (k : ℕ) → min_key curs ≡ none → any_has curs k ≡ false
unfolding min_key
no_key [] k e = refl
no_key ([] ∷ curs) k e = no_key curs k e
no_key ((m ∷ s) ∷ curs) k e = absurd (impossible (none-AllFrom (m.key + 1) ((m ∷ s) ∷ curs) e))
  where
    impossible : AllFrom (m.key + 1) ((m ∷ s) ∷ curs) → ⊥
    impossible ((a, g), f) = omega arith

pub all_have-any_has :
    (curs : List Shape) (k : ℕ) → any_has curs k ≡ false → (is_cons curs && all_have curs k) ≡ false
all_have-any_has [] k e = refl
all_have-any_has (s ∷ curs) k e = ground (arith, e)

-- After a round at `key`.
pass-From : (key : ℕ) (s : Shape) → From key s → From (key + 1) (pass key s)
pass-From key [] f = tt
pass-From key (m ∷ s) (a, f) = elim (Bool-cases (m.key == key)) [
  | inl e ↦ rw e (From-weaken (m.key + 1) (key + 1) s (ground (arith, e)) f)
  | inr e ↦ rw e (ground (arith, e), f)
]

pub pass_all-AllFrom :
    (key : ℕ) (curs : List Shape) → AllFrom key curs → AllFrom (key + 1) (pass_all key curs)
unfolding pass_all
pass_all-AllFrom key [] f = tt
pass_all-AllFrom key (s ∷ curs) (a, f) = (pass-From key s a, pass_all-AllFrom key curs f)

has_key-pass : (key k : ℕ) (s : Shape) → (key == k) ≡ false → has_key (pass key s) k ≡ has_key s k
has_key-pass key k [] e = refl
has_key-pass key k (m ∷ s) e = elim (Bool-cases (m.key == key)) [
  | inl y ↦ let other : (m.key == k) ≡ false = ground (arith, y, e) in rw (y, other) refl
  | inr n ↦ rw n refl
]

pub length-pass_all : (key : ℕ) (curs : List Shape) → length (pass_all key curs) ≡ length curs
unfolding pass_all
length-pass_all key [] = refl
length-pass_all key (s ∷ curs) = ap suc (length-pass_all key curs)

pub all_have-pass_all :
    (key k : ℕ) (curs : List Shape)
    → (key == k) ≡ false
    → all_have (pass_all key curs) k ≡ all_have curs k
unfolding pass_all
all_have-pass_all key k [] e = refl
all_have-pass_all key k (s ∷ curs) e =
    ap₂ ◌&&◌ (has_key-pass key k s e) (all_have-pass_all key k curs e)

pub any_has-pass_all :
    (key k : ℕ) (curs : List Shape)
    → (key == k) ≡ false
    → any_has (pass_all key curs) k ≡ any_has curs k
unfolding pass_all
any_has-pass_all key k [] e = refl
any_has-pass_all key k (s ∷ curs) e =
    ap₂ ◌||◌ (has_key-pass key k s e) (any_has-pass_all key k curs e)

pub is_cons-pass_all : (key : ℕ) (curs : List Shape) → is_cons (pass_all key curs) ≡ is_cons curs
unfolding pass_all
is_cons-pass_all key [] = refl
is_cons-pass_all key (s ∷ curs) = refl

-- A round takes a container of every input that has the key, and finds the key in all of them when it
-- takes as many as there are inputs.
at_key-le : (key : ℕ) (curs : List Shape) → length (at_key key curs) ≤ length curs
unfolding at_key
at_key-le key [] = omega arith
at_key-le key ([] ∷ curs) = omega (arith, at_key-le key curs)
at_key-le key ((m ∷ s) ∷ curs) = elim (Bool-cases (m.key == key)) [
  | inl e ↦ rw e (omega (arith, at_key-le key curs))
  | inr e ↦ rw e (omega (arith, at_key-le key curs))
]

pub at_key-all_have :
    (key : ℕ) (curs : List Shape)
    → AllFrom key curs
    → (length (at_key key curs) == length curs) ≡ all_have curs key
unfolding at_key
at_key-all_have key [] f = refl
at_key-all_have key ([] ∷ curs) (a, f) = ground (arith, at_key-le key curs)
at_key-all_have key ((m ∷ s) ∷ curs) ((a, g), f) = elim (Bool-cases (m.key == key)) [
  | inl e ↦ rw e (ground (arith, at_key-all_have key curs f))
  | inr e ↦
      let later : has_key s key ≡ false = has_key-below (m.key + 1) key s (ground (arith, e)) g in
      rw (e, later) (ground (arith, at_key-le key curs))
]

pub at_key-any_has :
    (key : ℕ) (curs : List Shape) → 0 < length (at_key key curs) → any_has curs key ≡ true
unfolding at_key
at_key-any_has key [] h = absurd (omega arith)
at_key-any_has key ([] ∷ curs) h = at_key-any_has key curs h
at_key-any_has key ((m ∷ s) ∷ curs) h = elim (Bool-cases (m.key == key)) [
  | inl e ↦ rw e refl
  | inr e ↦ rw e (ground (arith, at_key-any_has key curs (rw e at h)))
]
