-- ===== src/Pool.antt =====
-- src/api/pool.rs: the per-thread buffer pools, their budget and overflow policy. The items are
-- any type; `name`, which the panic message alone reads, is left out.
pub mod Retained
pub mod Fold
pub mod Prewarm
mod Tests
use frostbit.Base.{
  ℕ, ◌+◌, ◌-◌, ◌*◌, ◌%◌, ◌^◌, min, Bool, true, false, ◌&&◌, List, [], ◌∷◌, length, replicate, ltb,
  if◌then◌else◌,
}
use frostbit.Base

pub data OnOverflow : Type 0 where
  allocate : OnOverflow
  fail : OnOverflow

pub record PoolConfig : Type 0 where
  pub buffers : ℕ
  pub sizes : List ℕ
  pub on_overflow : OnOverflow

abbrev pub default_buffers : ℕ
default_buffers = 8

abbrev pub new_config : PoolConfig
new_config = record { buffers = default_buffers; sizes = []; on_overflow = allocate }

-- The chained setters.
unfoldable pub with_buffers : ℕ → PoolConfig → PoolConfig
with_buffers n c = record c { buffers = n; sizes = Base.take n c.sizes }

unfoldable pub with_buffer_bytes : ℕ → PoolConfig → PoolConfig
with_buffer_bytes bytes c = record c { sizes = replicate c.buffers bytes }

unfoldable pub with_buffer_sizes : List ℕ → PoolConfig → PoolConfig
with_buffer_sizes sizes c = record c { sizes = sizes; buffers = length sizes }

unfoldable pub with_on_overflow : OnOverflow → PoolConfig → PoolConfig
with_on_overflow policy c = record c { on_overflow = policy }

abbrev pub sum : List ℕ → ℕ
sum [] = 0
sum (n ∷ ns) = n + sum ns

-- In `usize`.
unfoldable pub prewarm_bytes : PoolConfig → ℕ
prewarm_bytes c = 2 * (sum c.sizes % 2 ^ 64) % 2 ^ 64

pub record Budget : Type 0 where
  pub buffers : ℕ
  pub on_overflow : OnOverflow

-- The thread's `BUDGET`, `SIZES` and `OVERFLOWS`.
pub record Thread : Type 0 where
  pub budget : Budget
  pub sizes : List ℕ
  pub overflows : ℕ

unfoldable pub configure : PoolConfig → Thread → Thread
configure c t = record {
  budget = record { buffers = c.buffers; on_overflow = c.on_overflow };
  sizes = c.sizes;
  overflows = 0;
}

unfoldable pub config : Thread → PoolConfig
config t = record {
  buffers = t.budget.buffers;
  sizes = t.sizes;
  on_overflow = t.budget.on_overflow;
}

pub data Kind : Type 0 where
  working : Kind
  cache : Kind

abbrev pub is_working : Kind → Bool
is_working working = true
is_working cache = false

abbrev pub is_fail : OnOverflow → Bool
is_fail allocate = false
is_fail fail = true

-- The free list is a stack: its head is the item pushed last.
pub record Pool {ℓ} (A : Type ℓ) : Type ℓ where
  pub free : List A
  pub live : ℕ
  pub kind : Kind

-- What `take` leaves behind: it returns an item, or `overflow` panics.
pub data Taken {ℓ} (A : Type ℓ) : Type ℓ where
  returned : A → Pool A → Thread → Taken A
  panicked : Pool A → Thread → Taken A

-- The count of `overflow`, a saturating `u64`; the panic is in `take`.
unfoldable pub overflow : Thread → Thread
overflow t = record t { overflows = min (t.overflows + 1) (2 ^ 64 - 1) }

module _ {ℓ} {A : Type ℓ} where
  -- `take` past the increment of `live`; `fresh` is what `make` returns.
  unfoldable pub take_from : List A → A → Pool A → Thread → Taken A
  take_from (item ∷ rest) fresh p t = returned item (record p { free = rest }) t
  take_from [] fresh p t =
      if is_working p.kind && ltb t.budget.buffers p.live
      then (if is_fail t.budget.on_overflow
          then panicked p (overflow t)
          else returned fresh p (overflow t))
      else returned fresh p t

  unfoldable pub take : A → Pool A → Thread → Taken A
  take fresh p t = take_from p.free fresh (record p { live = (p.live + 1) % 2 ^ 64 }) t

  unfoldable pub put : A → Pool A → Thread → Pool A
  put item p t = record p {
    live = p.live - 1;
    free = if ltb (length p.free) t.budget.buffers then item ∷ p.free else p.free;
  }

  unfoldable pub push_each : (ℕ → A) → List ℕ → List A → List A
  push_each make [] free = free
  push_each make (bytes ∷ sizes) free = push_each make sizes (make bytes ∷ free)

  unfoldable pub prewarm : (ℕ → A) → List ℕ → Pool A → Thread → Pool A
  prewarm make sizes p t = record p {
    free = push_each make (Base.take (t.budget.buffers - length p.free) sizes) p.free;
  }

  unfoldable pub clear : Pool A → Pool A
  clear p = record p { free = [] }

  -- The third number of `stats`: the bytes that idle items hold.
  unfoldable pub retained_bytes : (A → ℕ) → List A → ℕ
  retained_bytes bytes_of [] = 0
  retained_bytes bytes_of (item ∷ free) = bytes_of item + retained_bytes bytes_of free

  unfoldable pub stats : (A → ℕ) → Pool A → ℕ × ℕ × ℕ
  stats bytes_of p = (p.live, length p.free, retained_bytes bytes_of p.free)
