-- ===== src/View/Keys.antt =====
-- The containers of a view by their ascending keys.
use frostbit.Base.{
  ℕ, zero, suc, ◌+◌, ◌<◌, ◌≤◌, ◌≡◌, refl, true, false, some, List, [], ◌∷◌, map, get_elem?, ◌==◌,
  arith, inl, inr, Bool-cases,
}
use mathlib.Core.Path.{subst}
use frostbit.Base.Search.{Above, Ascending}
use frostbit.Container.Lows.{has}
use frostbit.Container.Content.{holds, IsSound}
use frostbit.View.Contents.{Container, ContainersFrom, has_value}

abbrev pub keys_of : List Container → List ℕ
keys_of cs = map (λ c. c.key) cs

pub ContainersFrom-Above :
    (k x : ℕ) (cs : List Container) → x < k → ContainersFrom k cs → Above x (keys_of cs)
ContainersFrom-Above k x [] h f = tt
ContainersFrom-Above k x (c ∷ cs) h (a, w, b, f) =
    (omega arith, ContainersFrom-Above (c.key + 1) c.key cs (omega arith) f)

pub ContainersFrom-Ascending :
    (k : ℕ) (cs : List Container) → ContainersFrom k cs → Ascending (keys_of cs)
ContainersFrom-Ascending k [] f = tt
ContainersFrom-Ascending k (c ∷ cs) (a, w, b, f) =
    ContainersFrom-Above (c.key + 1) c.key cs (omega arith) f

pub has_value-below :
    (cs : List Container) (k key lo : ℕ)
    → ContainersFrom k cs
    → key < k
    → has_value cs key lo ≡ false
has_value-below [] k key lo f h = refl
has_value-below (c ∷ cs) k key lo (a, w, b, f) h =
    ground (arith, has_value-below cs (c.key + 1) key lo f)

pub has_value-absent :
    (cs : List Container) (key lo : ℕ) → has (keys_of cs) key ≡ false → has_value cs key lo ≡ false
has_value-absent [] key lo h = refl
has_value-absent (c ∷ cs) key lo h = elim (Bool-cases (c.key == key)) [
  | inl y ↦ absurd (clash (rw y at h))
  | inr n ↦ rw n (has_value-absent cs key lo (rw n at h))
]
  where
    clash : true ≡ false → ⊥
    clash p = cc

pub some-injective : {a b : Container} → some a ≡ some b → a ≡ b
some-injective p = cc

-- The container at a position decides about the lows of its key.
pub has_value-get :
    (cs : List Container) (k i lo : ℕ) (c : Container)
    → ContainersFrom k cs
    → get_elem? cs i ≡ some c
    → (has_value cs c.key lo ≡ holds c.payload lo) × IsSound c.card c.payload × (k ≤ c.key)
has_value-get [] k i lo c f e = cc
has_value-get (d ∷ cs) k zero lo c (a, w, b, f) e =
    let same : d ≡ c = some-injective e in
    subst
      (λ z.
        (has_value (d ∷ cs) z.key lo ≡ holds z.payload lo) × IsSound z.card z.payload × (k ≤ z.key))
      same (ground (arith, has_value-below cs (d.key + 1) d.key lo f (omega arith)), b, a)
has_value-get (d ∷ cs) k (suc i) lo c (a, w, b, f) e =
    let (h, s, l) = has_value-get cs (d.key + 1) i lo c f e in
    let other : (d.key == c.key) ≡ false = ground (arith, l) in (rw other h, s, omega (arith, l))

pub get_elem?-keys_of :
    (cs : List Container) (i : ℕ) {key : ℕ}
    → get_elem? (keys_of cs) i ≡ some key
    → (c : Container) × (get_elem? cs i ≡ some c) × (c.key ≡ key)
get_elem?-keys_of [] i e = cc
get_elem?-keys_of (c ∷ cs) zero e = (c, refl, ground arith)
get_elem?-keys_of (c ∷ cs) (suc i) e = get_elem?-keys_of cs i e
