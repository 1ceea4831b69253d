-- ===== src/View/Elements.antt =====
-- src/api/view.rs: the elements of sound contents, in order, in number and by membership.
use frostbit.Base.{
  ℕ, ◌+◌, ◌*◌, ◌/◌, ◌%◌, ◌^◌, ◌<◌, ◌≤◌, ◌≡◌, refl, ap, ap₂, ◌∙◌, Bool, true, false, ◌&&◌, ◌||◌,
  List, [], ◌∷◌, ◌++◌, map, length, length-map, length-append, ◌==◌, arith,
}
use frostbit.Container.Lows.{LowsFrom, has}
use frostbit.Container.Elements.{lows}
use frostbit.Container.Elements.Order.{lows-LowsFrom, length-lows}
use frostbit.Container.Elements.Members.{has-append, has-lows}
use frostbit.View.Contents.{
  Container, Contents, packed, stored, ValuesFrom, ContainersFrom, sum_cards, AreSound, has_value,
  member, container_values, elements,
}

abbrev keyed : ℕ → List ℕ → List ℕ
keyed key ls = map (λ lo. key * 2 ^ 16 + lo) ls

ValuesFrom-weaken : (k m : ℕ) (vs : List ℕ) → m ≤ k → ValuesFrom k vs → ValuesFrom m vs
ValuesFrom-weaken k m [] h f = tt
ValuesFrom-weaken k m (v ∷ vs) h (a, b, f) = (omega arith, b, f)

keyed-ValuesFrom :
    (key k : ℕ) (ls ys : List ℕ)
    → key < 2 ^ 16
    → k ≤ 2 ^ 16
    → LowsFrom k ls
    → ValuesFrom ((key + 1) * 2 ^ 16) ys
    → ValuesFrom (key * 2 ^ 16 + k) (keyed key ls ++ ys)
keyed-ValuesFrom key k [] ys fits below f g =
    ValuesFrom-weaken ((key + 1) * 2 ^ 16) (key * 2 ^ 16 + k) ys (omega arith) g
keyed-ValuesFrom key k (v ∷ ls) ys fits below (a, b, f) g =
    let e : key * 2 ^ 16 + (v + 1) ≡ key * 2 ^ 16 + v + 1 = omega arith in
    (omega arith, omega arith, rw e at (keyed-ValuesFrom key (v + 1) ls ys fits (omega arith) f g))

container_values-ValuesFrom :
    (k : ℕ) (cs : List Container)
    → ContainersFrom k cs
    → ValuesFrom (k * 2 ^ 16) (container_values cs)
container_values-ValuesFrom k [] f = tt
container_values-ValuesFrom k (c ∷ cs) (a, w, s, f) =
    ValuesFrom-weaken (c.key * 2 ^ 16 + 0) (k * 2 ^ 16) (container_values (c ∷ cs)) (omega arith) (
      keyed-ValuesFrom c.key 0 (lows c.payload) (container_values cs) w (omega arith)
        (lows-LowsFrom c.card c.payload s) (container_values-ValuesFrom (c.key + 1) cs f))

length-container_values :
    (k : ℕ) (cs : List Container)
    → ContainersFrom k cs
    → length (container_values cs) ≡ sum_cards cs
length-container_values k [] f = refl
length-container_values k (c ∷ cs) (a, w, s, f) = omega (
  arith,
  length-append (keyed c.key (lows c.payload)) (container_values cs),
  length-map (lows c.payload) (λ lo. c.key * 2 ^ 16 + lo),
  length-lows c.card c.payload s,
  length-container_values (c.key + 1) cs f,
)

has-keyed :
    (key j x : ℕ) (ls : List ℕ)
    → LowsFrom j ls
    → has (keyed key ls) x ≡ ((key == x / 2 ^ 16) && has ls (x % 2 ^ 16))
has-keyed key j x [] f = ground arith
has-keyed key j x (v ∷ ls) (a, b, f) =
    ap₂ (λ p q. p || q) (split v b) (has-keyed key (v + 1) x ls f)
    ∙ distribute (key == x / 2 ^ 16) (v == x % 2 ^ 16) (has ls (x % 2 ^ 16))
  where
    split :
        (v : ℕ) → v < 2 ^ 16 → (key * 2 ^ 16 + v == x) ≡ ((key == x / 2 ^ 16) && (v == x % 2 ^ 16))
    split v b = ground arith

    distribute : (a b c : Bool) → ((a && b) || (a && c)) ≡ (a && (b || c))
    distribute true b c = refl
    distribute false b c = refl

has-container_values :
    (k x : ℕ) (cs : List Container)
    → ContainersFrom k cs
    → has (container_values cs) x ≡ has_value cs (x / 2 ^ 16) (x % 2 ^ 16)
has-container_values k x [] f = refl
has-container_values k x (c ∷ cs) (a, w, s, f) =
    has-append (keyed c.key (lows c.payload)) (container_values cs) x
    ∙ ap₂ (λ p q. p || q)
        (has-keyed c.key 0 x (lows c.payload) (lows-LowsFrom c.card c.payload s)
          ∙ ap (λ t. (c.key == x / 2 ^ 16) && t) (has-lows c.payload (x % 2 ^ 16)))
        (has-container_values (c.key + 1) x cs f)

pub elements-ValuesFrom : (card : ℕ) (c : Contents) → AreSound card c → ValuesFrom 0 (elements c)
elements-ValuesFrom card (packed vs) (f, l) = f
elements-ValuesFrom card (stored cs) (f, l) = container_values-ValuesFrom 0 cs f

pub length-elements : (card : ℕ) (c : Contents) → AreSound card c → length (elements c) ≡ card
length-elements card (packed vs) (f, l) = l
length-elements card (stored cs) (f, l) = length-container_values 0 cs f ∙ l

pub has-elements : (card x : ℕ) (c : Contents) → AreSound card c → has (elements c) x ≡ member c x
has-elements card x (packed vs) (f, l) = refl
has-elements card x (stored cs) (f, l) = has-container_values 0 x cs f
