-- ===== src/Pool/Prewarm.antt =====
-- src/api/pool.rs: the configured sizes and what `prewarm` allocates for them.
use frostbit.Base.{
  ℕ, zero, suc, ◌+◌, ◌-◌, ◌*◌, ◌%◌, ◌^◌, ◌≤◌, ◌<◌, ◌≡◌, refl, sym, ap, ◌∙◌, min, max, Bool, true,
  false, ◌&&◌, List, [], ◌∷◌, length, length-take, length-replicate, ltb, if◌then◌else◌, arith,
}
use frostbit.Base
use frostbit.Pool.{
  PoolConfig, Thread, Pool, configure, config, push_each, prewarm, clear, sum, retained_bytes,
  prewarm_bytes, stats, with_buffers, with_buffer_bytes, with_buffer_sizes, with_on_overflow,
  OnOverflow, new_config,
}

-- No more sizes than buffers.
abbrev pub IsValid : PoolConfig → Type 0
IsValid c = length c.sizes ≤ c.buffers

-- The configurations that the setters build.
pub data Setter : Type 0 where
  set_buffers : ℕ → Setter
  set_buffer_bytes : ℕ → Setter
  set_buffer_sizes : List ℕ → Setter
  set_on_overflow : OnOverflow → Setter

unfoldable pub set_all : List Setter → PoolConfig → PoolConfig
set_all [] c = c
set_all (set_buffers n ∷ ss) c = set_all ss (with_buffers n c)
set_all (set_buffer_bytes n ∷ ss) c = set_all ss (with_buffer_bytes n c)
set_all (set_buffer_sizes ns ∷ ss) c = set_all ss (with_buffer_sizes ns c)
set_all (set_on_overflow p ∷ ss) c = set_all ss (with_on_overflow p c)

set_all-IsValid : (ss : List Setter) (c : PoolConfig) → IsValid c → IsValid (set_all ss c)
unfolding set_all with_buffers with_buffer_bytes with_buffer_sizes with_on_overflow
set_all-IsValid [] c v = v
set_all-IsValid (set_buffers n ∷ ss) c v =
    set_all-IsValid ss (record c { buffers = n; sizes = Base.take n c.sizes })
      (omega (arith, length-take n c.sizes))
set_all-IsValid (set_buffer_bytes n ∷ ss) c v =
    set_all-IsValid ss (record c { sizes = Base.replicate c.buffers n })
      (omega (arith, length-replicate c.buffers n))
set_all-IsValid (set_buffer_sizes ns ∷ ss) c v =
    set_all-IsValid ss (record c { sizes = ns; buffers = length ns }) (omega arith)
set_all-IsValid (set_on_overflow p ∷ ss) c v = set_all-IsValid ss (record c { on_overflow = p }) v

take_all : (n : ℕ) (xs : List ℕ) → length xs ≤ n → Base.take n xs ≡ xs
take_all n [] h = none n
  where
    none : (n : ℕ) → Base.take {A = ℕ} n [] ≡ []
    none zero = refl
    none (suc n) = refl
take_all zero (x ∷ xs) h = absurd (omega arith)
take_all (suc n) (x ∷ xs) h = ap (λ t. x ∷ t) (take_all n xs (omega arith))

module _ {ℓ} {A : Type ℓ} (make : ℕ → A) (bytes_of : A → ℕ) where
  -- An allocation of `n` bytes has room for `n`, and for at most `slack` more.
  abbrev pub Allocates : ℕ → Type 0
  Allocates slack = (n : ℕ) → (n ≤ bytes_of (make n)) × (bytes_of (make n) ≤ n + slack)

  retained_bytes-push_each :
      (slack : ℕ) (sizes : List ℕ) (free : List A)
      → Allocates slack
      → (sum sizes + retained_bytes bytes_of free
          ≤ retained_bytes bytes_of (push_each make sizes free))
        × (retained_bytes bytes_of (push_each make sizes free)
            ≤ sum sizes + length sizes * slack + retained_bytes bytes_of free)
  unfolding push_each retained_bytes
  retained_bytes-push_each slack [] free room = (omega arith, omega arith)
  retained_bytes-push_each slack (n ∷ sizes) free room =
      let (least, most) = room n in
      let (above, below) = retained_bytes-push_each slack sizes (make n ∷ free) room in
      let step : (1 + length sizes) * slack ≡ slack + length sizes * slack = omega arith in
      (omega (arith, least, above), omega (arith, most, below, step))

  length-push_each :
      (sizes : List ℕ) (free : List A)
      → length (push_each make sizes free) ≡ length sizes + length free
  unfolding push_each
  length-push_each [] free = omega arith
  length-push_each (s ∷ sizes) free = omega (arith, length-push_each sizes (make s ∷ free))

  -- `configure`, `clear` and `prewarm` on one of the pools.
  abbrev pub prewarmed : PoolConfig → Pool A → Thread → Pool A
  prewarmed c p t = prewarm make (configure c t).sizes (clear p) (configure c t)

  -- `prewarm` of the two byte pools, cleared, under the configuration that setters make of the
  -- default, whose sizes take fewer than 2 ^ 64 bytes twice. Where an allocation has room for what
  -- it asks for and at most `slack` bytes more, the two pools hold the bytes that `prewarm_bytes`
  -- names and at most `slack` more for each buffer, and each holds a buffer for each size, within
  -- the budget.
  pub prewarm_lem :
      (ss : List Setter) (arena result : Pool A) (t : Thread) (slack : ℕ)
      → Allocates slack
      → 2 * sum (set_all ss new_config).sizes < 2 ^ 64
      → (prewarm_bytes (set_all ss new_config)
          ≤ (stats bytes_of (prewarmed (set_all ss new_config) arena t)).2
            + (stats bytes_of (prewarmed (set_all ss new_config) result t)).2)
        × ((stats bytes_of (prewarmed (set_all ss new_config) arena t)).2
              + (stats bytes_of (prewarmed (set_all ss new_config) result t)).2
            ≤ prewarm_bytes (set_all ss new_config)
              + 2 * (length (set_all ss new_config).sizes * slack))
        × ((stats bytes_of (prewarmed (set_all ss new_config) arena t)).1
            ≡ length (set_all ss new_config).sizes)
        × ((stats bytes_of (prewarmed (set_all ss new_config) result t)).1
            ≡ length (set_all ss new_config).sizes)
        × (length (set_all ss new_config).sizes
            ≤ (config (configure (set_all ss new_config) t)).buffers)
  unfolding configure config prewarm clear stats prewarm_bytes retained_bytes
  prewarm_lem ss arena result t slack room fits =
      let c : PoolConfig = set_all ss new_config in
      let valid : length c.sizes ≤ c.buffers = set_all-IsValid ss new_config (omega arith) in
      let all : Base.take (c.buffers - 0) c.sizes ≡ c.sizes =
        take_all (c.buffers - 0) c.sizes (omega arith) in
      let (above, below) = retained_bytes-push_each slack c.sizes [] room in
      let count : length (push_each make c.sizes []) ≡ length c.sizes =
        omega (arith, length-push_each c.sizes []) in
      rw all (omega (arith, above, fits), omega (arith, below, fits), count, count, valid)
