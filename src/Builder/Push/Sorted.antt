-- ===== src/Builder/Push/Sorted.antt =====
-- src/api/builder.rs: a whole build, `extend_sorted` on a new builder and the flush of `finish`.
use frostbit.Base.{
  ℕ, ◌+◌, ◌/◌, ◌^◌, ◌<◌, ◌≡◌, refl, sym, ap, ◌∙◌, Bool, true, false, ◌&&◌, ◌||◌, List, [], ◌∷◌,
  length, ltb, ◌==◌, if◌then◌else◌, arith, inl, inr, Bool-cases, ltb→lt,
}
use frostbit.Base.Exec.{ok, panic, ◌>>=◌}
use frostbit.Container.Lows.{has}
use frostbit.Builder.{Builder, new, extend_sorted, close, flush}
use frostbit.Builder.Push.{
  holds_in, holds, pushed, Open, Flushes, flush_lem, push_ok, push-eq-panic, push-new,
}

-- Each value is above the one before it.
abbrev pub ascending_after : ℕ → List ℕ → Bool
ascending_after top [] = true
ascending_after top (v ∷ vs) = ltb top v && ascending_after v vs

abbrev pub ascending : List ℕ → Bool
ascending [] = true
ascending (v ∷ vs) = ascending_after v vs

abbrev pub AreU32 : List ℕ → Type 0
AreU32 [] = Unit {0}
AreU32 (v ∷ vs) = (v < 2 ^ 32) × AreU32 vs

and_true : (p q : Bool) → (p && q) ≡ true → (p ≡ true) × (q ≡ true)
and_true true q h = (refl, h)
and_true false q h = cc

or_assoc : (p q r : Bool) → ((p || q) || r) ≡ (p || (q || r))
or_assoc true q r = refl
or_assoc false q r = refl

and_false : (p : Bool) → (p && false) ≡ false
and_false true = refl
and_false false = refl

or_false : (p : Bool) → (p || false) ≡ p
or_false true = refl
or_false false = refl

closes : (b : Builder) (top : ℕ) → Open top b → (b' : Builder) × (close b ≡ ok b') × Flushes b b'
unfolding close
closes b top (hc, ck, l, f) =
    let (b', e, r) = flush_lem b f in (b', ap (λ h. if h then flush b else ok b) hc ∙ e, r)

-- The pushes of the rest of a list, and the flush.
extend-close :
    (b : Builder) (top : ℕ) (vs : List ℕ)
    → Open top b
    → AreU32 vs
    → ascending_after top vs ≡ true
    → (b' : Builder) × ((extend_sorted b vs >>= close) ≡ ok b')
      × ((x : ℕ) → holds_in b'.containers x ≡ (holds b x || has vs x))
      × (b'.total ≡ pushed b + length vs)
unfolding extend_sorted
extend-close b top [] o u a =
    let (b', e, (none, all, count)) = closes b top o in
    (b', e, λ x. all x ∙ sym (or_false (holds b x)), omega (arith, count))
extend-close b top (v ∷ vs) o (h, hs) a =
    let (up, rest) = and_true (ltb top v) (ascending_after v vs) a in
    let (c, e, (oc, all, count)) = push_ok b top v o h (ltb→lt top v up) in
    let (b', e', all', count') = extend-close c v vs oc hs rest in
    (
      b',
      rw e e',
      λ x. all' x ∙ ap (λ t. t || has vs x) (all x) ∙ or_assoc (holds b x) (v == x) (has vs x),
      omega (arith, count, count'),
    )

extend-eq-panic :
    (b : Builder) (top : ℕ) (vs : List ℕ)
    → Open top b
    → AreU32 vs
    → ascending_after top vs ≡ false
    → extend_sorted b vs ≡ panic
unfolding extend_sorted
extend-eq-panic b top [] o u a = cc
extend-eq-panic b top (v ∷ vs) o (h, hs) a = elim (Bool-cases (ltb top v)) [
  | inl up ↦
      let (c, e, (oc, all, count)) = push_ok b top v o h (ltb→lt top v up) in
      rw e (extend-eq-panic c v vs oc hs (rw up at a))
  | inr down ↦ rw (push-eq-panic b top v o h (ground (arith, down))) refl
]

-- Strictly ascending `u32` values are built without a panic into containers that hold exactly
-- these values, and `total` counts them.
pub extend_sorted_lem :
    (vs : List ℕ)
    → AreU32 vs
    → ascending vs ≡ true
    → (b : Builder) × ((extend_sorted new vs >>= close) ≡ ok b)
      × ((x : ℕ) → holds_in b.containers x ≡ has vs x)
      × (b.total ≡ length vs)
unfolding extend_sorted new close
extend_sorted_lem [] u a = (new, refl, λ x. refl, refl)
extend_sorted_lem (v ∷ vs) (h, hs) a =
    let (c, e, (oc, all, count)) = push-new v h in
    let (b, e', all', count') = extend-close c v vs oc hs a in
    (
      b,
      rw e e',
      λ x.
          all' x
          ∙ ap (λ t. t || has vs x) (all x)
          ∙ ap (λ t. (t || (v == x)) || has vs x) (and_false (0 == x / 2 ^ 16)),
      omega (arith, count, count'),
    )

-- `u32` values that are not strictly ascending panic in `extend_sorted`.
pub extend_sorted-eq-panic :
    (vs : List ℕ) → AreU32 vs → ascending vs ≡ false → extend_sorted new vs ≡ panic
unfolding extend_sorted
extend_sorted-eq-panic [] u a = cc
extend_sorted-eq-panic (v ∷ vs) (h, hs) a =
    let (c, e, (oc, all, count)) = push-new v h in rw e (extend-eq-panic c v vs oc hs a)
