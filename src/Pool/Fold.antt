-- ===== src/Pool/Fold.antt =====
-- src/api/pool.rs: a fold on a pool, which takes its buffers and puts them back.
use frostbit.Base.{
  ℕ, suc, ◌+◌, ◌-◌, ◌%◌, ◌^◌, ◌≤◌, ◌<◌, ◌≡◌, refl, ap, ◌∙◌, min, max, Bool, true, false, ◌&&◌, List,
  [], ◌∷◌, length, ltb, if◌then◌else◌, arith, inl, inr, ◌⊎◌, Bool-cases, leb, leb→le,
}
use frostbit.Pool.{
  Thread, Pool, working, fail, Taken, returned, panicked, overflow, take_from, take, put,
  is_working, is_fail,
}

-- The buffers in hand, the pool and the thread after takes of which none panicked, or the panic.
pub data Hand {ℓ} (A : Type ℓ) : Type ℓ where
  holding : List A → Pool A → Thread → Hand A
  overdrawn : Hand A

le_or_lt : (a b : ℕ) → (a ≤ b) ⊎ (b < a)
le_or_lt a b = elim (Bool-cases (leb a b)) [
  | inl y ↦ inl (leb→le a b y)
  | inr n ↦ inr (ground (arith, n))
]

module _ {ℓ} {A : Type ℓ} where
  and_then : Taken A → (A → Pool A → Thread → Hand A) → Hand A
  and_then (returned item p t) k = k item p t
  and_then (panicked p t) k = overdrawn

  -- One take after another; each has a fresh buffer at hand for `make`.
  unfoldable pub take_each : List A → List A → Pool A → Thread → Hand A
  unfolding and_then
  take_each [] hand p t = holding hand p t
  take_each (fresh ∷ rest) hand p t =
      and_then (take fresh p t) (λ item p t. take_each rest (item ∷ hand) p t)

  unfoldable pub put_each : List A → Pool A → Thread → Pool A
  put_each [] p t = p
  put_each (item ∷ hand) p t = put_each hand (put item p t) t

  -- A take, from the idle buffers `free`, within the budget.
  take_from-within :
      (free : List A) (f : A) (p : Pool A) (t : Thread)
      → length p.free ≡ length free
      → p.live ≤ max (p.live - 1 + length free) t.budget.buffers
      → (item : A) × (q : Pool A) × (take_from free f p t ≡ returned item q t)
        × (q.live ≡ p.live)
        × (length q.free ≡ length free - 1)
        × (q.kind ≡ p.kind)
  unfolding take_from
  take_from-within (item ∷ rest) f p t e h =
      (item, record p { free = rest }, refl, refl, omega arith, refl)
  take_from-within [] f p t e h = (f, p, rw (within (is_working p.kind)) refl, refl, e, refl)
    where
      within : (b : Bool) → (b && ltb t.budget.buffers p.live) ≡ false
      within b = ground arith

  take-within :
      (f : A) (p : Pool A) (t : Thread)
      → p.live + 1 < 2 ^ 64
      → p.live + 1 ≤ max (p.live + length p.free) t.budget.buffers
      → (item : A) × (q : Pool A) × (take f p t ≡ returned item q t)
        × (q.live ≡ p.live + 1)
        × (length q.free ≡ length p.free - 1)
        × (q.kind ≡ p.kind)
  unfolding take
  take-within f p t w h =
      let (item, q, e, a, b, k) =
        take_from-within p.free f (record p { live = (p.live + 1) % 2 ^ 64 }) t refl
          (omega arith) in
      (item, q, e, a ∙ omega arith, b, k)

  take_each-returned :
      (f item : A) (fs hand : List A) (p q : Pool A) (t u : Thread)
      → take f p t ≡ returned item q u
      → take_each (f ∷ fs) hand p t ≡ take_each fs (item ∷ hand) q u
  unfolding take_each and_then
  take_each-returned f item fs hand p q t u e =
      ap (λ o. and_then o (λ item p t. take_each fs (item ∷ hand) p t)) e

  take_each-panicked :
      (f : A) (fs hand : List A) (p q : Pool A) (t u : Thread)
      → take f p t ≡ panicked q u
      → take_each (f ∷ fs) hand p t ≡ overdrawn
  unfolding take_each and_then
  take_each-panicked f fs hand p q t u e =
      ap (λ o. and_then o (λ item p t. take_each fs (item ∷ hand) p t)) e

  -- Takes within the budget, or from idle buffers, return.
  pub take_each-within :
      (fs hand : List A) (p : Pool A) (t : Thread)
      → p.live + length fs < 2 ^ 64
      → p.live + length fs ≤ max (p.live + length p.free) t.budget.buffers
      → (hand' : List A) × (p' : Pool A) × (take_each fs hand p t ≡ holding hand' p' t)
        × (length hand' ≡ length hand + length fs)
        × (p'.live ≡ p.live + length fs)
        × (length p'.free ≡ length p.free - length fs)
  unfolding take_each
  take_each-within [] hand p t w h = (hand, p, refl, omega arith, omega arith, omega arith)
  take_each-within (f ∷ fs) hand p t w h =
      let (item, q, e, a, b, k) = take-within f p t (omega arith) (omega arith) in
      let (hand', p', r, c, d, g) =
        take_each-within fs (item ∷ hand) q t (omega (arith, a)) (omega (arith, a, b)) in
      (
        hand',
        p',
        take_each-returned f item fs hand p q t t e ∙ r,
        omega (arith, c),
        omega (arith, a, d),
        omega (arith, b, g),
      )

  pub put_each_lem :
      (hand : List A) (p : Pool A) (t : Thread)
      → ((put_each hand p t).live ≡ p.live - length hand)
        × (length (put_each hand p t).free
            ≡ max (length p.free) (min (length p.free + length hand) t.budget.buffers))
  unfolding put_each put
  put_each_lem [] p t = (omega arith, omega arith)
  put_each_lem (item ∷ hand) p t =
      let (a, b) = put_each_lem hand (put item p t) t in
      (
        omega (arith, a),
        b ∙ one_put (length p.free) t.budget.buffers (length hand) item p.free refl,
      )
    where
      one_put :
          (n b k : ℕ) (item : A) (free : List A)
          → n ≡ length free
          → max
              (length (if ltb n b then item ∷ free else free))
              (min (length (if ltb n b then item ∷ free else free) + k) b)
            ≡ max n (min (n + suc k) b)
      one_put n b k item free e = ground (arith, e)

  -- A fold that takes its buffers within the budget, or from idle ones, gets as many as it asks for,
  -- with no overflow; once it has put them back, as many are handed out as before, and the pool
  -- keeps the idle ones it had left and what fits its budget: all of the fold's, where it has room.
  pub fold-within :
      (fs : List A) (p : Pool A) (t : Thread)
      → p.live + length fs < 2 ^ 64
      → p.live + length fs ≤ max (p.live + length p.free) t.budget.buffers
      → (hand : List A) × (p' : Pool A) × (take_each fs [] p t ≡ holding hand p' t)
        × (length hand ≡ length fs)
        × ((put_each hand p' t).live ≡ p.live)
        × (length (put_each hand p' t).free
            ≡ max
                (length p.free - length fs)
                (min (length p.free - length fs + length fs) t.budget.buffers))
  fold-within fs p t w h =
      let (hand, p', e, a, b, c) = take_each-within fs [] p t w h in
      let (d, g) = put_each_lem hand p' t in
      (hand, p', e, omega (arith, a), omega (arith, a, b, d), omega (arith, a, c, g))

  take_from-overdrawn :
      (free : List A) (f : A) (q : Pool A) (t : Thread)
      → length free ≡ 0
      → is_working q.kind ≡ true
      → ltb t.budget.buffers q.live ≡ true
      → is_fail t.budget.on_overflow ≡ true
      → take_from free f q t ≡ panicked q (overflow t)
  unfolding take_from
  take_from-overdrawn (item ∷ rest) f q t e k l o = absurd (omega arith)
  take_from-overdrawn [] f q t e k l o = rw (k, l, o) refl

  -- A take past the budget with no idle buffer.
  take-overdrawn :
      (f : A) (p : Pool A) (t : Thread)
      → p.live + 1 < 2 ^ 64
      → max (p.live + length p.free) t.budget.buffers < p.live + 1
      → p.kind ≡ working
      → t.budget.on_overflow ≡ fail
      → (q : Pool A) × (u : Thread) × (take f p t ≡ panicked q u)
  unfolding take
  take-overdrawn f p t w h k o = (
    record p { live = (p.live + 1) % 2 ^ 64 },
    overflow t,
    take_from-overdrawn p.free f (record p { live = (p.live + 1) % 2 ^ 64 }) t (omega (arith, h))
        (ap is_working k) (ground (arith, h, w)) (ap is_fail o),
  )

  -- A fold that asks a pool of working memory, under `OnOverflow::Fail`, for more buffers than the
  -- budget and the idle ones allow panics.
  pub take_each-overdrawn :
      (fs hand : List A) (p : Pool A) (t : Thread)
      → p.live + length fs < 2 ^ 64
      → max (p.live + length p.free) t.budget.buffers < p.live + length fs
      → p.kind ≡ working
      → t.budget.on_overflow ≡ fail
      → take_each fs hand p t ≡ overdrawn
  unfolding take_each
  take_each-overdrawn [] hand p t w h k o = absurd (omega arith)
  take_each-overdrawn (f ∷ fs) hand p t w h k o =
      elim (le_or_lt (p.live + 1) (max (p.live + length p.free) t.budget.buffers)) [
        | inl fits ↦
            let (item, q, e, a, b, kind) = take-within f p t (omega arith) fits in
            take_each-returned f item fs hand p q t t e
            ∙ take_each-overdrawn fs (item ∷ hand) q t (omega (arith, a)) (omega (arith, a, b))
                (kind ∙ k) o
        | inr over ↦
            let (q, u, e) = take-overdrawn f p t (omega arith) over k o in
            take_each-panicked f fs hand p q t u e
      ]
