-- ===== src/Pool/Tests.antt =====
-- Small pools of buffers, a buffer standing for its capacity.
use frostbit.Base.{
  ℕ, ◌+◌, ◌-◌, ◌*◌, ◌^◌, ◌<◌, ◌≤◌, ◌≡◌, refl, min, max, List, [], ◌∷◌, length, arith,
}
use frostbit.Pool.{
  PoolConfig, Thread, Pool, fail, working, new_config, stats, sum, prewarm_bytes, config, configure,
}
use frostbit.Pool.Retained.{Op, take_op, put_op, prewarm_op, configure_op, run, retained_bound}
use frostbit.Pool.Fold.{holding, overdrawn, take_each, put_each, fold-within, take_each-overdrawn}
use frostbit.Pool.Prewarm.{
  set_buffers, set_buffer_bytes, set_all, Allocates, prewarmed, prewarm_lem,
}

abbrev two : PoolConfig
two = record { buffers = 2; sizes = 64 ∷ 32 ∷ []; on_overflow = fail }

abbrev thread : Thread
thread = record {
  budget = record { buffers = 2; on_overflow = fail };
  sizes = 64 ∷ 32 ∷ [];
  overflows = 0;
}

abbrev one_idle : Pool ℕ
one_idle = record { free = 64 ∷ []; live = 0; kind = working }

abbrev allocation : ℕ → ℕ
allocation bytes = bytes

abbrev calls : List (Op {A = ℕ} allocation)
calls = configure_op two ∷ prewarm_op ∷ take_op 8 ∷ take_op 8 ∷ take_op 8 ∷ put_op 8 ∷ []

retained_bound_example : length (run allocation calls (one_idle, thread)).0.free ≤ 2
retained_bound_example =
    retained_bound allocation 2 calls one_idle thread (omega arith, tt) (omega arith) (omega arith)

fold-within_example :
    (hand : List ℕ) × (p' : Pool ℕ) × (take_each (8 ∷ 8 ∷ []) [] one_idle thread
      ≡ holding hand p' thread)
    × (length hand ≡ 2)
    × ((put_each hand p' thread).live ≡ 0)
    × (length (put_each hand p' thread).free ≡ max (1 - 2) (min (1 - 2 + 2) 2))
fold-within_example = fold-within (8 ∷ 8 ∷ []) one_idle thread (omega arith) (omega arith)

take_each-overdrawn_example : take_each (8 ∷ 8 ∷ 8 ∷ []) [] one_idle thread ≡ overdrawn
take_each-overdrawn_example =
    take_each-overdrawn (8 ∷ 8 ∷ 8 ∷ []) [] one_idle thread (omega arith) (omega arith) refl refl

exactly : Allocates allocation allocation 0
exactly n = (omega arith, omega arith)

abbrev three : PoolConfig
three = set_all (set_buffers 3 ∷ set_buffer_bytes 64 ∷ []) new_config

abbrev warmed : ℕ × ℕ × ℕ
warmed = stats allocation (prewarmed allocation allocation three one_idle thread)

three_small : 2 * sum three.sizes < 2 ^ 64
unfolding set_all frostbit.Pool.with_buffers frostbit.Pool.with_buffer_bytes
three_small = omega arith

prewarm_example :
    (prewarm_bytes three ≤ warmed.2 + warmed.2)
    × (warmed.2 + warmed.2 ≤ prewarm_bytes three + 2 * (length three.sizes * 0))
    × (warmed.1 ≡ length three.sizes)
    × (warmed.1 ≡ length three.sizes)
    × (length three.sizes ≤ (config (configure three thread)).buffers)
prewarm_example =
    prewarm_lem allocation allocation (set_buffers 3 ∷ set_buffer_bytes 64 ∷ []) one_idle one_idle
      thread 0 exactly three_small
