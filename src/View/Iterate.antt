-- ===== src/View/Iterate.antt =====
-- src/api/view.rs: `Iter`, the walk over a view's values in ascending order.
pub mod Cursor
pub mod Enter
pub mod Walk
pub mod Visits
use frostbit.Base.{
  ℕ, zero, suc, ◌+◌, ◌-◌, ◌*◌, ◌/◌, ◌%◌, ◌^◌, bit_and, bit_or, Bool, Option, none, some, ltb, leb,
  ◌==◌, if◌then◌else◌,
}
use frostbit.Base.Exec.{Exec, ok, ◌>>=◌}
use frostbit.Base.Ones.{trailing_zeros}
use frostbit.Format.Sizes.{ct_array, ct_bitmap, bitmap_words, inline_header_size}
use frostbit.Format.Endian.{Bytes, read_u16, read_u32, read_u64}
use frostbit.Format.Index.{IndexEntry, read_index_entry}
use frostbit.View.{View, standard, inline}

pub data Cont : Type 0 where
  done : Cont
  array : ℕ → ℕ → ℕ → Cont
  bitmap : ℕ → ℕ → ℕ → Cont
  run : ℕ → ℕ → ℕ → ℕ → ℕ → Cont

-- `Option<u32>`, and the cursor afterwards.
abbrev pub Next : Type 0
Next = Option ℕ × Cont

-- The arm of a bitmap: rounds until a word has a bit, of which there are at most the words left.
unfoldable pub next_bit : ℕ → Bytes → ℕ → ℕ → ℕ → Exec Next
next_bit zero bytes start word_idx word = ok (none, bitmap start word_idx word)
next_bit (suc rounds) bytes start word_idx word =
    if ltb 0 word
    then ok (
      some (word_idx * 64 + trailing_zeros 64 word),
      bitmap start word_idx (bit_and word (word - 1)),
    )
    else if leb bitmap_words (word_idx + 1)
    then ok (none, bitmap start (word_idx + 1) word)
    else read_u64 bytes (start + (word_idx + 1) * 8) >>= λ w.
        next_bit rounds bytes start (word_idx + 1) w

-- The arm of runs, at the run `ri` that follows one that is through.
unfoldable pub next_run : Bytes → ℕ → ℕ → ℕ → ℕ → ℕ → Exec Next
next_run bytes start nr ri cur finish =
    if leb nr ri then ok (none, run start nr ri cur finish) else do
      cur ← read_u16 bytes (start + 2 + ri * 4)
      len ← read_u16 bytes (start + 2 + ri * 4 + 2)
      ok (some cur, run start nr ri (cur + 1) (cur + len))

-- `Cont::next_lo`
unfoldable pub next_lo : Bytes → Cont → Exec Next
unfolding next_bit next_run
next_lo bytes done = ok (none, done)
next_lo bytes (array start card i) =
    if leb card i
    then ok (none, array start card i)
    else do v ← read_u16 bytes (start + i * 2); ok (some v, array start card (i + 1))
next_lo bytes (bitmap start word_idx word) =
    next_bit (bitmap_words - word_idx) bytes start word_idx word
next_lo bytes (run start nr ri cur finish) =
    if ltb finish cur
    then next_run bytes start nr (ri + 1) cur finish
    else ok (some cur, run start nr ri (cur + 1) finish)

-- Where the walk stands.
pub data Mode : Type 0 where
  packed : ℕ → ℕ → Mode
  stored : ℕ → ℕ → ℕ → ℕ → Cont → Mode

pub record Iter : Type 0 where
  pub bytes : Bytes
  pub mode : Mode
  pub remaining : ℕ

unfoldable pub iter : View → Iter
iter view = record {
  bytes = view.bytes;
  mode = elim view.repr [
    | inline count ↦ packed 0 count
    | standard n data_base ↦ stored n data_base 0 0 done
  ];
  remaining = view.cardinality;
}

unfoldable pub enter_runs : Bytes → ℕ → Exec Cont
enter_runs bytes start = do
  nr ← read_u16 bytes start
  cur ← read_u16 bytes (start + 2)
  len ← read_u16 bytes (start + 4)
  ok (run start nr 0 cur (cur + len))

unfoldable pub enter_bitmap : Bytes → ℕ → Exec Cont
enter_bitmap bytes start = do word ← read_u64 bytes start; ok (bitmap start 0 word)

-- The cursor of an entry, at its first value.
unfoldable pub enter : Bytes → IndexEntry → ℕ → Exec Cont
unfolding enter_runs enter_bitmap
enter bytes e start =
    if e.typ == ct_array
    then ok (array start e.cardinality 0)
    else if e.typ == ct_bitmap
    then enter_bitmap bytes start
    else enter_runs bytes start

-- `Option<u32>`, and the mode afterwards.
abbrev pub NextMode : Type 0
NextMode = Option ℕ × Mode

-- The arm of `next` for containers: rounds until one has a value, of which there are at most the
-- entries from `ci` on, `rest` of them.
unfoldable pub next_stored : ℕ → Bytes → ℕ → ℕ → ℕ → ℕ → Cont → Exec NextMode
unfolding next_lo enter
next_stored zero bytes n data_base ci hi cont = do
  p ← next_lo bytes cont
  elim p.0 [
    | some lo ↦ ok (some (bit_or hi lo), stored n data_base ci hi p.1)
    | none ↦ ok (none, stored n data_base ci hi p.1)
  ]
next_stored (suc rest) bytes n data_base ci hi cont = do
  p ← next_lo bytes cont
  elim p.0 [
    | some lo ↦ ok (some (bit_or hi lo), stored n data_base ci hi p.1)
    | none ↦ do
      e ← read_index_entry bytes n ci
      c ← enter bytes e (data_base + e.data_offset)
      next_stored rest bytes n data_base (ci + 1) (e.key * 2 ^ 16) c
  ]

unfoldable pub next_packed : Bytes → ℕ → ℕ → Exec NextMode
next_packed bytes pos count =
    if leb count pos
    then ok (none, packed pos count)
    else do v ← read_u32 bytes (inline_header_size + pos * 4); ok (some v, packed (pos + 1) count)

unfoldable pub next_mode : Bytes → Mode → Exec NextMode
unfolding next_packed next_stored
next_mode bytes (packed pos count) = next_packed bytes pos count
next_mode bytes (stored n data_base ci hi cont) = next_stored (n - ci) bytes n data_base ci hi cont

-- `next`; `remaining` counts down at each value.
unfoldable pub next : Iter → Exec (Option ℕ × Iter)
unfolding next_mode
next it = do
  p ← next_mode it.bytes it.mode
  ok (
    p.0,
    record {
      bytes = it.bytes;
      mode = p.1;
      remaining = elim p.0 [ none ↦ it.remaining | some v ↦ it.remaining - 1 ];
    },
  )

unfoldable pub size_hint : Iter → ℕ × Option ℕ
size_hint it = (it.remaining, some it.remaining)
