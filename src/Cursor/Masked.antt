-- ===== src/Cursor/Masked.antt =====
-- A masked cursor walks the list of the containers whose keys are live.
use frostbit.Base.{
  ℕ, ◌+◌, ◌≤◌, ◌<◌, ◌≡◌, refl, sym, ap, ◌∙◌, true, false, some, List, [], ◌∷◌, ltb, ◌==◌,
  if◌then◌else◌, arith, Bool-cases, inl, inr, ==_iff,
}
use frostbit.KeyMask.{KeyMask, contains}
use frostbit.Cursor.{
  ContainerRef, Cursor, head_key, peek_key, tail, drop_dead, skip_dead, new, advance, drop_below,
  rests_on, advance_to,
}

-- Container keys ascend strictly.
abbrev pub KeysFrom : ℕ → List ContainerRef → Type 0
KeysFrom k [] = Unit {0}
KeysFrom k (c ∷ cs) = (k ≤ c.key) × KeysFrom (c.key + 1) cs

-- The containers that a mask lets through.
pub live_only : KeyMask → List ContainerRef → List ContainerRef
live_only m [] = []
live_only m (c ∷ cs) = if contains m c.key then c ∷ live_only m cs else live_only m cs

-- The cursor over those containers, with no mask.
abbrev pub filtered : KeyMask → List ContainerRef → Cursor
filtered m cs = new (live_only m cs)

-- The invariant of a masked cursor: it rests on a live key.
abbrev pub RestsLive : KeyMask → List ContainerRef → Type 0
RestsLive m [] = Unit {0}
RestsLive m (c ∷ cs) = contains m c.key ≡ true

pub drop_dead-RestsLive : (m : KeyMask) (cs : List ContainerRef) → RestsLive m (drop_dead m cs)
unfolding drop_dead
drop_dead-RestsLive m [] = tt
drop_dead-RestsLive m (c ∷ cs) = elim (Bool-cases (contains m c.key)) [
  | inl e ↦ rw e e
  | inr e ↦ rw e (drop_dead-RestsLive m cs)
]

live_only-drop_dead :
    (m : KeyMask) (cs : List ContainerRef) → live_only m (drop_dead m cs) ≡ live_only m cs
unfolding live_only drop_dead
live_only-drop_dead m [] = refl
live_only-drop_dead m (c ∷ cs) = elim (Bool-cases (contains m c.key)) [
  | inl e ↦ rw e (rw e)
  | inr e ↦ rw e (live_only-drop_dead m cs)
]

-- A masked cursor, seen as the cursor over the live containers that are left.
abbrev pub view : KeyMask → Cursor → Cursor
view m c = filtered m c.rest

peek-RestsLive :
    (m : KeyMask) (cs : List ContainerRef)
    → RestsLive m cs
    → head_key cs ≡ head_key (live_only m cs)
unfolding live_only
peek-RestsLive m [] r = refl
peek-RestsLive m (c ∷ cs) r = rw r

tail-live :
    (m : KeyMask) (cs : List ContainerRef)
    → RestsLive m cs
    → live_only m (tail cs) ≡ tail (live_only m cs)
unfolding live_only
tail-live m [] r = refl
tail-live m (c ∷ cs) r = rw r

pub KeysFrom-weaken : (k j : ℕ) (cs : List ContainerRef) → j ≤ k → KeysFrom k cs → KeysFrom j cs
KeysFrom-weaken k j [] h f = tt
KeysFrom-weaken k j (c ∷ cs) h (a, f) = (omega arith, f)

live_only-KeysFrom :
    (m : KeyMask) (k : ℕ) (cs : List ContainerRef) → KeysFrom k cs → KeysFrom k (live_only m cs)
unfolding live_only
live_only-KeysFrom m k [] f = tt
live_only-KeysFrom m k (c ∷ cs) (a, f) = elim (Bool-cases (contains m c.key)) [
  | inl e ↦ rw e (a, live_only-KeysFrom m (c.key + 1) cs f)
  | inr e ↦
      rw e (KeysFrom-weaken (c.key + 1) k _ (omega arith) (live_only-KeysFrom m (c.key + 1) cs f))
]

drop_below-above : (t k : ℕ) (cs : List ContainerRef) → KeysFrom k cs → t ≤ k → drop_below t cs ≡ cs
unfolding drop_below
drop_below-above t k [] f h = refl
drop_below-above t k (c ∷ cs) (a, f) h = ground arith

rests_on-above : (t k : ℕ) (cs : List ContainerRef) → KeysFrom k cs → t < k → rests_on t cs ≡ false
rests_on-above t k [] f h = refl
rests_on-above t k (c ∷ cs) (a, f) h = ground arith

live_only-drop_below :
    (m : KeyMask) (t k : ℕ) (cs : List ContainerRef)
    → KeysFrom k cs
    → live_only m (drop_below t cs) ≡ drop_below t (live_only m cs)
unfolding live_only drop_below
live_only-drop_below m t k [] f = refl
live_only-drop_below m t k (c ∷ cs) (a, f) =
    let above : t ≤ c.key + 1 → drop_below t (live_only m cs) ≡ live_only m cs = λ h.
      drop_below-above t (c.key + 1) (live_only m cs) (live_only-KeysFrom m (c.key + 1) cs f) h in
    elim (Bool-cases (ltb c.key t)) [
      | inl b ↦ elim (Bool-cases (contains m c.key)) [
        | inl e ↦ rw (b, e) (rw b (live_only-drop_below m t (c.key + 1) cs f))
        | inr e ↦ rw (b, e) (live_only-drop_below m t (c.key + 1) cs f)
      ]
      | inr b ↦ elim (Bool-cases (contains m c.key)) [
        | inl e ↦ rw (b, e) (rw b)
        | inr e ↦ rw (b, e) (sym (above (ground (arith, b))))
      ]
    ]

rests_on-live :
    (m : KeyMask) (t k : ℕ) (cs : List ContainerRef)
    → KeysFrom k cs
    → contains m t ≡ true
    → rests_on t (drop_below t cs) ≡ rests_on t (drop_below t (live_only m cs))
unfolding live_only drop_below
rests_on-live m t k [] f l = refl
rests_on-live m t k (c ∷ cs) (a, f) l =
    let g = live_only-KeysFrom m (c.key + 1) cs f in
    let above : t < c.key + 1 → drop_below t (live_only m cs) ≡ live_only m cs =
      λ h. drop_below-above t (c.key + 1) (live_only m cs) g (omega arith) in
    elim (Bool-cases (ltb c.key t)) [
      | inl b ↦ elim (Bool-cases (contains m c.key)) [
        | inl e ↦ rw (b, e) (rw b (rests_on-live m t (c.key + 1) cs f l))
        | inr e ↦ rw (b, e) (rests_on-live m t (c.key + 1) cs f l)
      ]
      | inr b ↦ elim (Bool-cases (contains m c.key)) [
        | inl e ↦ rw (b, e) (rw b)
        | inr e ↦
            rw (b, e)
              (other e
                ∙ sym (
                    ap (rests_on t) (above (ground (arith, b)))
                    ∙ rests_on-above t (c.key + 1) (live_only m cs) g (ground (arith, b))))
      ]
    ]
  where
    other : contains m c.key ≡ false → (c.key == t) ≡ false
    other e = elim (Bool-cases (c.key == t)) [
      | inl p ↦ absurd (different (ap (contains m) ((==_iff c.key t).0 p)) e)
      | inr p ↦ p
    ]
      where
        different : contains m c.key ≡ contains m t → contains m c.key ≡ false → ⊥
        different q e = cc

rests_on-RestsLive :
    (m : KeyMask) (t : ℕ) (cs : List ContainerRef)
    → RestsLive m cs
    → rests_on t cs ≡ rests_on t (live_only m cs)
unfolding live_only
rests_on-RestsLive m t [] r = refl
rests_on-RestsLive m t (c ∷ cs) r = rw r

module _ (m : KeyMask) (k t : ℕ) (cs : List ContainerRef) (f : KeysFrom k cs)
    (r : RestsLive m cs) where
  abbrev masked : Cursor
  masked = record { rest = cs; live = some m }

  peek_key-view : peek_key masked ≡ peek_key (view m masked)
  unfolding peek_key
  peek_key-view = peek-RestsLive m cs r

  advance-view :
      (view m (advance masked) ≡ advance (view m masked)) × RestsLive m (advance masked).rest
  unfolding advance skip_dead
  advance-view =
      (ap new (live_only-drop_dead m (tail cs) ∙ tail-live m cs r), drop_dead-RestsLive m (tail cs))

  advance_to-view :
      contains m t ≡ true
      → (view m (advance_to t masked).0 ≡ (advance_to t (view m masked)).0)
        × ((advance_to t masked).1 ≡ (advance_to t (view m masked)).1)
        × RestsLive m (advance_to t masked).0.rest
  unfolding advance_to skip_dead
  advance_to-view l =
      let e = rests_on-RestsLive m t cs r in
      elim (Bool-cases (rests_on t (live_only m cs))) [
        | inl h ↦ rw (e, h) (refl, refl, r)
        | inr h ↦
            rw (e, h)
              (
                ap new (live_only-drop_dead m (drop_below t cs) ∙ live_only-drop_below m t k cs f),
                rests_on-live m t k cs f l,
                drop_dead-RestsLive m (drop_below t cs),
              )
      ]

-- A cursor with a mask, over the containers that are left.
abbrev pub with_mask : KeyMask → List ContainerRef → Cursor
with_mask m cs = record { rest = cs; live = some m }

-- A masked cursor that rests on a live key behaves as the unmasked cursor over the live containers:
-- it shows the same key, and `advance` and, at a live target, `advance_to` go to the same place and
-- report the same hit; it rests on a live key afterwards.
pub masked_refines :
    (m : KeyMask) (k t : ℕ) (cs : List ContainerRef)
    → KeysFrom k cs
    → RestsLive m cs
    → contains m t ≡ true
    → (peek_key (with_mask m cs) ≡ peek_key (view m (with_mask m cs)))
      × (view m (advance (with_mask m cs)) ≡ advance (view m (with_mask m cs)))
      × RestsLive m (advance (with_mask m cs)).rest
      × (view m (advance_to t (with_mask m cs)).0 ≡ (advance_to t (view m (with_mask m cs))).0)
      × ((advance_to t (with_mask m cs)).1 ≡ (advance_to t (view m (with_mask m cs))).1)
      × RestsLive m (advance_to t (with_mask m cs)).0.rest
masked_refines m k t cs f r l =
    let (a, b) = advance-view m k t cs f r in
    let (p, q, u) = advance_to-view m k t cs f r l in (peek_key-view m k t cs f r, a, b, p, q, u)

-- A masked cursor just before a container whose key the mask excludes: `advance_to` at that key
-- reports a hit, and rests on the first live container behind it.
pub advance_to_dead :
    (m : KeyMask) (a c : ContainerRef) (cs : List ContainerRef)
    → contains m c.key ≡ false
    → a.key < c.key
    → ((advance_to c.key (with_mask m (a ∷ c ∷ cs))).1 ≡ true)
      × ((advance_to c.key (with_mask m (a ∷ c ∷ cs))).0.rest ≡ drop_dead m cs)
unfolding advance_to skip_dead drop_below drop_dead
advance_to_dead m a c cs e h = ground (arith, e)
