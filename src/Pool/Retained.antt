-- ===== src/Pool/Retained.antt =====
-- src/api/pool.rs: the idle items a pool keeps, over any sequence of its operations.
use frostbit.Base.{
  ℕ, zero, suc, ◌+◌, ◌-◌, ◌*◌, ◌%◌, ◌^◌, ◌≤◌, ◌<◌, ◌≡◌, refl, sym, ap, ◌∙◌, min, max, Bool, true,
  false, ◌&&◌, List, [], ◌∷◌, length, length-take, ltb, if◌then◌else◌, arith, inl, inr, Bool-cases,
}
use frostbit.Base
use frostbit.Pool.{
  PoolConfig, Thread, Pool, Taken, returned, panicked, overflow, configure, take_from, take, put,
  push_each, prewarm, clear, is_working, is_fail,
}

module _ {ℓ} {A : Type ℓ} (make : ℕ → A) where
  -- The calls of a thread on one pool.
  pub data Op : Type ℓ where
    take_op : A → Op
    put_op : A → Op
    prewarm_op : Op
    clear_op : Op
    configure_op : PoolConfig → Op

  after : Taken A → Pool A × Thread
  after (returned item p t) = (p, t)
  after (panicked p t) = (p, t)

  unfoldable pub step : Op → Pool A × Thread → Pool A × Thread
  unfolding after
  step (take_op fresh) (p, t) = after (take fresh p t)
  step (put_op item) (p, t) = (put item p t, t)
  step prewarm_op (p, t) = (prewarm make t.sizes p t, t)
  step clear_op (p, t) = (clear p, t)
  step (configure_op c) (p, t) = (p, configure c t)

  unfoldable pub run : List Op → Pool A × Thread → Pool A × Thread
  run [] s = s
  run (op ∷ ops) s = run ops (step op s)

  -- The budgets that the calls configure are `m` at most.
  abbrev pub Configured : ℕ → List Op → Type 0
  Configured m [] = Unit {0}
  Configured m (configure_op c ∷ ops) = (c.buffers ≤ m) × Configured m ops
  Configured m (take_op fresh ∷ ops) = Configured m ops
  Configured m (put_op item ∷ ops) = Configured m ops
  Configured m (prewarm_op ∷ ops) = Configured m ops
  Configured m (clear_op ∷ ops) = Configured m ops

  abbrev pub Bounded : ℕ → Pool A × Thread → Type 0
  Bounded m (p, t) = (length p.free ≤ m) × (t.budget.buffers ≤ m)

  take_from-Bounded :
      (m : ℕ) (free : List A) (fresh : A) (p : Pool A) (t : Thread)
      → length free ≤ m
      → length p.free ≤ m
      → t.budget.buffers ≤ m
      → Bounded m (after (take_from free fresh p t))
  unfolding take_from after overflow
  take_from-Bounded m (item ∷ rest) fresh p t a f b = (omega arith, b)
  take_from-Bounded m [] fresh p t a f b =
      elim (Bool-cases (is_working p.kind && ltb t.budget.buffers p.live)) [
        | inr n ↦ rw n (f, b)
        | inl y ↦ elim (Bool-cases (is_fail t.budget.on_overflow)) [
          | inl z ↦ rw (y, z) (f, b)
          | inr z ↦ rw (y, z) (f, b)
        ]
      ]

  pub length-push_each :
      (sizes : List ℕ) (free : List A)
      → length (push_each make sizes free) ≡ length sizes + length free
  unfolding push_each
  length-push_each [] free = omega arith
  length-push_each (s ∷ sizes) free = omega (arith, length-push_each sizes (make s ∷ free))

  put_length :
      (m b : ℕ) (item : A) (free : List A)
      → length free ≤ m
      → b ≤ m
      → length (if ltb (length free) b then item ∷ free else free) ≤ m
  put_length m b item free f h = ground arith

  step-Bounded :
      (m : ℕ) (op : Op) (s : Pool A × Thread)
      → Configured m (op ∷ [])
      → Bounded m s
      → Bounded m (step op s)
  unfolding step take put prewarm clear configure
  step-Bounded m (take_op fresh) (p, t) c (f, b) =
      take_from-Bounded m p.free fresh (record p { live = (p.live + 1) % 2 ^ 64 }) t f f b
  step-Bounded m (put_op item) (p, t) c (f, b) = (put_length m t.budget.buffers item p.free f b, b)
  step-Bounded m prewarm_op (p, t) c (f, b) = (
    omega (
      arith,
      length-push_each (Base.take (t.budget.buffers - length p.free) t.sizes) p.free,
      length-take (t.budget.buffers - length p.free) t.sizes,
    ),
    b,
  )
  step-Bounded m clear_op (p, t) c (f, b) = (omega arith, b)
  step-Bounded m (configure_op d) (p, t) (c, e) (f, b) = (f, c)

  run-Bounded :
      (m : ℕ) (ops : List Op) (s : Pool A × Thread)
      → Configured m ops
      → Bounded m s
      → Bounded m (run ops s)
  unfolding run
  run-Bounded m [] s c b = b
  run-Bounded m (take_op f ∷ ops) s c b =
      run-Bounded m ops (step (take_op f) s) c (step-Bounded m (take_op f) s tt b)
  run-Bounded m (put_op f ∷ ops) s c b =
      run-Bounded m ops (step (put_op f) s) c (step-Bounded m (put_op f) s tt b)
  run-Bounded m (prewarm_op ∷ ops) s c b =
      run-Bounded m ops (step prewarm_op s) c (step-Bounded m prewarm_op s tt b)
  run-Bounded m (clear_op ∷ ops) s c b =
      run-Bounded m ops (step clear_op s) c (step-Bounded m clear_op s tt b)
  run-Bounded m (configure_op d ∷ ops) s (c, cs) b =
      run-Bounded m ops (step (configure_op d) s) cs (step-Bounded m (configure_op d) s (c, tt) b)

  -- A pool that keeps at most `m` idle items, under a budget of at most `m`, keeps at most `m` after
  -- any calls of take, put, prewarm, clear and configure whose budgets are at most `m`, takes that
  -- panic included.
  pub retained_bound :
      (m : ℕ) (ops : List Op) (p : Pool A) (t : Thread)
      → Configured m ops
      → length p.free ≤ m
      → t.budget.buffers ≤ m
      → length (run ops (p, t)).0.free ≤ m
  retained_bound m ops p t c f b = (run-Bounded m ops (p, t) c (f, b)).0
