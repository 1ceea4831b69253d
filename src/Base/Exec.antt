-- ===== src/Base/Exec.antt =====
-- Code that can panic: an index out of bounds, a failed assertion, an unreachable arm.
use mathlib.Core.Path.{◌≡◌, refl}
use mathlib.Core.Logic.{◌⊎◌, inl, inr}
use mathlib.Core.Bool.{Bool, true, false}

pub data Exec {ℓ} (A : Type ℓ) : Type ℓ where
  ok : A → Exec A
  panic : Exec A

infixl 5 ◌>>=◌
abbrev pub ◌>>=◌ {ℓ κ} : {A : Type ℓ} {B : Type κ} → Exec A → (A → Exec B) → Exec B
panic >>= f = panic
ok a >>= f = f a

-- `assert!(b)`
abbrev pub assert : Bool → Exec (Unit {0})
assert true = ok tt
assert false = panic

infixl 5 ◌>>◌
abbrev pub ◌>>◌ {ℓ} : {A : Type ℓ} → Exec (Unit {0}) → Exec A → Exec A
first >> rest = first >>= λ done. rest

pub >>=_assoc {ℓ} :
    {A B C : Type ℓ} (m : Exec A) (f : A → Exec B) (g : B → Exec C)
    → (m >>= f >>= g) ≡ (m >>= λ a. f a >>= g)
>>=_assoc (ok a) f g = refl
>>=_assoc panic f g = refl

pub >>=_ok {ℓ} : {A : Type ℓ} (m : Exec A) → (m >>= λ a. ok a) ≡ m
>>=_ok (ok a) = refl
>>=_ok panic = refl

pub Exec-cases {ℓ} : {A : Type ℓ} (m : Exec A) → (m ≡ panic) ⊎ ((a : A) × (m ≡ ok a))
Exec-cases (ok a) = inr (a, refl)
Exec-cases panic = inl refl

pub ok-injective {ℓ} : {A : Type ℓ} {a b : A} → ok a ≡ ok b → a ≡ b
ok-injective e = cc

pub ok-ne-panic {ℓ} : {A : Type ℓ} {a : A} → panic ≡ ok a → ⊥
ok-ne-panic e = cc

-- Code that does not panic.
abbrev pub IsOk {ℓ} : {A : Type ℓ} → Exec A → Type 0
IsOk (ok a) = Unit {0}
IsOk panic = ⊥

pub bind-IsOk {ℓ κ} :
    {A : Type ℓ} {B : Type κ} (m : Exec A) (f : A → Exec B)
    → IsOk m
    → ((a : A) → m ≡ ok a → IsOk (f a))
    → IsOk (m >>= f)
bind-IsOk (ok a) f h k = k a refl
bind-IsOk panic f h k = absurd h

pub ok-IsOk {ℓ} : {A : Type ℓ} {m : Exec A} {a : A} → m ≡ ok a → IsOk m
ok-IsOk {m = ok a} e = tt
ok-IsOk {m = panic} e = cc

pub IsOk-value {ℓ} : {A : Type ℓ} (m : Exec A) → IsOk m → (a : A) × (m ≡ ok a)
IsOk-value (ok a) h = (a, refl)
IsOk-value panic h = absurd h

pub bind-inverse {ℓ κ} :
    {A : Type ℓ} {B : Type κ} (m : Exec A) (f : A → Exec B) {b : B}
    → (m >>= f) ≡ ok b
    → (a : A) × (m ≡ ok a) × (f a ≡ ok b)
bind-inverse (ok a) f e = (a, refl, e)
bind-inverse panic f e = absurd (ok-ne-panic e)
