-- ===== src/Builder/Push.antt =====
-- src/api/builder.rs: the builder across pushes.
pub mod Sorted
use frostbit.Base.{
  ℕ, zero, suc, ◌+◌, ◌-◌, ◌*◌, ◌/◌, ◌%◌, ◌^◌, ◌≤◌, ◌<◌, ◌≡◌, refl, sym, ap, ◌∙◌, bit_and, Bool,
  true, false, ◌&&◌, ◌||◌, List, [], ◌∷◌, ◌++◌, length, length-append, ltb, leb, ◌==◌,
  if◌then◌else◌, arith, inl, inr, Bool-cases, ==_iff,
}
use frostbit.Base.Bits.{bit_and-mask}
use frostbit.Base.Exec.{Exec, ok, panic, ◌>>=◌, ◌>>◌, assert}
use frostbit.Container.Lows.{LowsFrom, has}
use frostbit.Container.Payload.{contains}
use frostbit.Builder.{Built, Builder, view, build_container, flush, last, push, new}
use frostbit.Builder.Build.{Represents, build_container-Represents}

-- Whether a finished container holds the `u32` value `x`.
abbrev pub holds_in : List Built → ℕ → Bool
holds_in [] x = false
holds_in (c ∷ cs) x =
    (c.key == x / 2 ^ 16 && contains (view c.data_of) (x % 2 ^ 16)) || holds_in cs x

-- Whether the open container holds it.
abbrev pub holds_open : ℕ → List ℕ → ℕ → Bool
holds_open key lows x = key == x / 2 ^ 16 && has lows (x % 2 ^ 16)

abbrev pub holds : Builder → ℕ → Bool
holds b x = holds_in b.containers x || holds_open b.cur_key b.cur x

abbrev pub pushed : Builder → ℕ
pushed b = b.total + length b.cur

-- The builder after a push of `top`.
abbrev pub Open : ℕ → Builder → Type 0
Open top b =
    (b.have_cur ≡ true)
    × (b.cur_key ≡ top / 2 ^ 16)
    × (last b.cur ≡ ok (top % 2 ^ 16))
    × LowsFrom 0 b.cur

key_of : (v : ℕ) → v < 2 ^ 32 → v / 2 ^ 16 % 2 ^ 16 ≡ v / 2 ^ 16
key_of v h = omega arith

low_of : (v : ℕ) → bit_and v 0xFFFF ≡ v % 2 ^ 16
low_of v = bit_and-mask 16 v

last-append : (vs : List ℕ) (v : ℕ) → last (vs ++ v ∷ []) ≡ ok v
unfolding last
last-append [] v = refl
last-append (u ∷ []) v = refl
last-append (u ∷ w ∷ vs) v = last-append (w ∷ vs) v

has-append : (vs : List ℕ) (v x : ℕ) → has (vs ++ v ∷ []) x ≡ (has vs x || (v == x))
has-append [] v x = ground arith
has-append (u ∷ vs) v x = ap (λ t. (u == x) || t) (has-append vs v x) ∙ ground arith

ok_injective : {a b : ℕ} → ok a ≡ ok b → a ≡ b
ok_injective e = cc

LowsFrom-append :
    (k top v : ℕ) (vs : List ℕ)
    → last vs ≡ ok top
    → top < v
    → v < 2 ^ 16
    → LowsFrom k vs
    → LowsFrom k (vs ++ v ∷ [])
unfolding last
LowsFrom-append k top v [] l h b f = cc
LowsFrom-append k top v (u ∷ []) l h b (a, c, d) = (a, c, (omega (arith, ok_injective l), b, tt))
LowsFrom-append k top v (u ∷ w ∷ vs) l h b (a, c, d) =
    (a, c, LowsFrom-append (u + 1) top v (w ∷ vs) l h b d)

or_false : (p : Bool) → (p || false) ≡ p
or_false true = refl
or_false false = refl

or_assoc : (p q r : Bool) → (p || (q || r)) ≡ ((p || q) || r)
or_assoc true q r = refl
or_assoc false q r = refl

holds_in-append :
    (cs : List Built) (c : Built) (key x : ℕ) (vals : List ℕ)
    → Represents key vals c
    → holds_in (cs ++ c ∷ []) x ≡ (holds_in cs x || holds_open key vals x)
holds_in-append [] c key x vals (ke, ce, (te, be, answers)) =
    ap (λ k. (k == x / 2 ^ 16 && contains (view c.data_of) (x % 2 ^ 16)) || false) ke
    ∙ ap (λ t. (key == x / 2 ^ 16 && t) || false) (answers (x % 2 ^ 16))
    ∙ or_false (holds_open key vals x)
holds_in-append (d ∷ cs) c key x vals r =
    ap (λ t. (d.key == x / 2 ^ 16 && contains (view d.data_of) (x % 2 ^ 16)) || t)
      (holds_in-append cs c key x vals r)
    ∙ or_assoc (d.key == x / 2 ^ 16 && contains (view d.data_of) (x % 2 ^ 16)) (holds_in cs x)
        (holds_open key vals x)

-- A value is told by its key and its low half.
split_value :
    (v x : ℕ) (b : Bool)
    → ((v / 2 ^ 16 == x / 2 ^ 16) && (b || (v % 2 ^ 16 == x % 2 ^ 16)))
      ≡ (((v / 2 ^ 16 == x / 2 ^ 16) && b) || (v == x))
split_value v x b = ground arith

open_more :
    (key v x : ℕ) (lows : List ℕ)
    → key ≡ v / 2 ^ 16
    → holds_open key (lows ++ v % 2 ^ 16 ∷ []) x ≡ (holds_open key lows x || (v == x))
open_more key v x lows e =
    ap (λ k. holds_open k (lows ++ v % 2 ^ 16 ∷ []) x) e
    ∙ ap (λ t. (v / 2 ^ 16 == x / 2 ^ 16) && t) (has-append lows (v % 2 ^ 16) (x % 2 ^ 16))
    ∙ split_value v x (has lows (x % 2 ^ 16))
    ∙ ap (λ k. holds_open k lows x || (v == x)) (sym e)

and_false : (p : Bool) → (p && false) ≡ false
and_false true = refl
and_false false = refl

open_first :
    (v x : ℕ) (lows : List ℕ)
    → lows ≡ []
    → holds_open (v / 2 ^ 16) (lows ++ v % 2 ^ 16 ∷ []) x ≡ (v == x)
open_first v x lows e =
    ap (λ l. holds_open (v / 2 ^ 16) (l ++ v % 2 ^ 16 ∷ []) x) e
    ∙ open_more (v / 2 ^ 16) v x [] refl
    ∙ ap (λ t. t || (v == x)) (and_false (v / 2 ^ 16 == x / 2 ^ 16))

-- A push within the open key.
push_same :
    (b : Builder) (top v : ℕ)
    → Open top b
    → v < 2 ^ 32
    → v / 2 ^ 16 ≡ top / 2 ^ 16
    → push b v ≡ (
        assert (ltb (top % 2 ^ 16) (v % 2 ^ 16))
        >> ok (record b { cur = b.cur ++ (v % 2 ^ 16 ∷ []) }))
unfolding push
push_same b top v (hc, ck, l, f) h same =
    rw (hc, key_of v h, low_of v, ck, same, ==_refl (top / 2 ^ 16), l) refl
  where
    ==_refl : (n : ℕ) → (n == n) ≡ true
    ==_refl n = (==_iff n n).1 refl

push_other :
    (b : Builder) (top v : ℕ)
    → Open top b
    → v < 2 ^ 32
    → (v / 2 ^ 16 == top / 2 ^ 16) ≡ false
    → push b v ≡ (
        assert (ltb (top / 2 ^ 16) (v / 2 ^ 16)) >> flush b >>= λ b.
        ok (record b { cur_key = v / 2 ^ 16; cur = b.cur ++ (v % 2 ^ 16 ∷ []); have_cur = true }))
unfolding push
push_other b top v (hc, ck, l, f) h other = rw (hc, key_of v h, low_of v, ck, other) refl

-- What a push has done.
abbrev pub Pushes : Builder → ℕ → Builder → Type 0
Pushes b v b' =
    Open v b' × ((x : ℕ) → holds b' x ≡ (holds b x || (v == x))) × (pushed b' ≡ pushed b + 1)

-- What a flush has done.
abbrev pub Flushes : Builder → Builder → Type 0
Flushes b b' =
    (b'.cur ≡ []) × ((x : ℕ) → holds_in b'.containers x ≡ holds b x) × (b'.total ≡ pushed b)

pub flush_lem : (b : Builder) → LowsFrom 0 b.cur → (b' : Builder) × (flush b ≡ ok b') × Flushes b b'
unfolding flush
flush_lem b f =
    let (built, e, r) = build_container-Represents b.cur_key b.cur f in
    (
      record b {
        containers = b.containers ++ (built ∷ []);
        cur = [];
        total = b.total + built.card;
      },
      rw e refl,
      (
        refl,
        λ x. holds_in-append b.containers built b.cur_key x b.cur r,
        ap (λ n. b.total + n) r.1,
      ),
    )

push_same_ok :
    (b : Builder) (top v : ℕ)
    → Open top b
    → v < 2 ^ 32
    → top < v
    → v / 2 ^ 16 ≡ top / 2 ^ 16
    → (b' : Builder) × (push b v ≡ ok b') × Pushes b v b'
push_same_ok b top v o h above same =
    let (hc, ck, l, f) = o in
    let up : ltb (top % 2 ^ 16) (v % 2 ^ 16) ≡ true = ground (arith, above, same) in
    (
      record b { cur = b.cur ++ (v % 2 ^ 16 ∷ []) },
      push_same b top v o h same ∙ rw up refl,
      (
        (
          hc,
          ck ∙ sym same,
          last-append b.cur (v % 2 ^ 16),
          LowsFrom-append 0 (top % 2 ^ 16) (v % 2 ^ 16) b.cur l (omega arith) (omega arith) f,
        ),
        λ x.
            ap (λ t. holds_in b.containers x || t) (open_more b.cur_key v x b.cur (ck ∙ sym same))
            ∙ or_assoc (holds_in b.containers x) (holds_open b.cur_key b.cur x) (v == x),
        omega (arith, length-append b.cur (v % 2 ^ 16 ∷ [])),
      ),
    )

push_other_ok :
    (b : Builder) (top v : ℕ)
    → Open top b
    → v < 2 ^ 32
    → top < v
    → (v / 2 ^ 16 == top / 2 ^ 16) ≡ false
    → (b' : Builder) × (push b v ≡ ok b') × Pushes b v b'
unfolding last
push_other_ok b top v o h above other =
    let (hc, ck, l, f) = o in
    let up : ltb (top / 2 ^ 16) (v / 2 ^ 16) ≡ true = ground (arith, above, other) in
    let (b', e, (none, all, count)) = flush_lem b f in
    (
      record b' { cur_key = v / 2 ^ 16; cur = b'.cur ++ (v % 2 ^ 16 ∷ []); have_cur = true },
      push_other b top v o h other ∙ rw (up, e) refl,
      (
        (refl, refl, last-append b'.cur (v % 2 ^ 16), rw none (omega arith, omega arith, tt)),
        λ x.
            ap (λ t. t || holds_open (v / 2 ^ 16) (b'.cur ++ (v % 2 ^ 16 ∷ [])) x) (all x)
            ∙ ap (λ t. holds b x || t) (open_first v x b'.cur none),
        rw none (omega (arith, count)),
      ),
    )

-- A value above the last one pushed is taken.
pub push_ok :
    (b : Builder) (top v : ℕ)
    → Open top b
    → v < 2 ^ 32
    → top < v
    → (b' : Builder) × (push b v ≡ ok b') × Pushes b v b'
push_ok b top v o h above = elim (Bool-cases (v / 2 ^ 16 == top / 2 ^ 16)) [
  | inl same ↦ push_same_ok b top v o h above ((==_iff (v / 2 ^ 16) (top / 2 ^ 16)).0 same)
  | inr other ↦ push_other_ok b top v o h above other
]

-- A value not above the last one pushed panics.
pub push-eq-panic : (b : Builder) (top v : ℕ) → Open top b → v < 2 ^ 32 → v ≤ top → push b v ≡ panic
push-eq-panic b top v o h below = elim (Bool-cases (v / 2 ^ 16 == top / 2 ^ 16)) [
  | inl same ↦
      let e : v / 2 ^ 16 ≡ top / 2 ^ 16 = (==_iff (v / 2 ^ 16) (top / 2 ^ 16)).0 same in
      let down : ltb (top % 2 ^ 16) (v % 2 ^ 16) ≡ false = ground (arith, below, e) in
      push_same b top v o h e ∙ rw down refl
  | inr other ↦
      let down : ltb (top / 2 ^ 16) (v / 2 ^ 16) ≡ false = ground (arith, below, other) in
      push_other b top v o h other ∙ rw down refl
]

-- The first value of a new builder.
pub push-new : (v : ℕ) → v < 2 ^ 32 → (b : Builder) × (push new v ≡ ok b) × Pushes new v b
unfolding push new last
push-new v h = (
  record new { cur_key = v / 2 ^ 16; cur = v % 2 ^ 16 ∷ []; have_cur = true },
  rw (key_of v h, low_of v) refl,
  (
    (refl, refl, refl, (omega arith, omega arith, tt)),
    λ x. open_first v x [] refl ∙ sym (ap (λ t. t || (v == x)) (and_false (0 == x / 2 ^ 16))),
    omega arith,
  ),
)
