-- ===== src/View/Extrema.antt =====
-- src/api/view.rs: `min` and `max`.
pub mod Min
pub mod Last
pub mod LastBit
pub mod Max
use frostbit.Base.{
  ℕ, zero, suc, ◌+◌, ◌-◌, ◌*◌, ◌%◌, ◌^◌, bit_or, not, Option, none, some, ltb, ◌==◌, if◌then◌else◌,
}
use frostbit.Base.Exec.{Exec, ok, panic, ◌>>=◌}
use frostbit.Base.Ones.{trailing_zeros, leading_zeros}
use frostbit.Format.Sizes.{ct_array, ct_bitmap, ct_run, bitmap_words, inline_header_size}
use frostbit.Format.Endian.{Bytes, read_u16, read_u32, read_u64}
use frostbit.Format.Index.{IndexEntry, read_index_entry}
use frostbit.View.{View, standard, inline}

-- The loop of `bitmap_first`, from word `w` on, with `rest` to go.
unfoldable pub first_bit : ℕ → Bytes → ℕ → ℕ → Exec ℕ
first_bit zero bytes start w = ok 0
first_bit (suc rest) bytes start w = do
  word ← read_u64 bytes (start + w * 8)
  let after = first_bit rest bytes start (w + 1) in
      if ltb 0 word then ok ((w * 64 + trailing_zeros 64 word) % 2 ^ 16) else after

unfoldable pub bitmap_first : Bytes → ℕ → Exec ℕ
unfolding first_bit
bitmap_first bytes start = first_bit bitmap_words bytes start 0

-- The loop of `bitmap_last`, down from the word before `rest`.
unfoldable pub last_bit : ℕ → Bytes → ℕ → Exec ℕ
last_bit zero bytes start = ok 0
last_bit (suc w) bytes start = do
  word ← read_u64 bytes (start + w * 8)
  let after = last_bit w bytes start in
      if ltb 0 word then ok ((w * 64 + 63 - leading_zeros 64 word) % 2 ^ 16) else after

unfoldable pub bitmap_last : Bytes → ℕ → Exec ℕ
unfolding last_bit
bitmap_last bytes start = last_bit bitmap_words bytes start

unfoldable pub container_min : Bytes → IndexEntry → ℕ → Exec ℕ
container_min bytes e start =
    if e.typ == ct_array
    then read_u16 bytes start
    else if e.typ == ct_run
    then read_u16 bytes (start + 2)
    else if e.typ == ct_bitmap
    then bitmap_first bytes start
    else panic

-- The last run, by the count of runs, which is 1 or more.
unfoldable pub last_run_end : Bytes → ℕ → Exec ℕ
last_run_end bytes start = do
  nr ← read_u16 bytes start
  first ← read_u16 bytes (start + 2 + (nr - 1) * 4)
  len ← read_u16 bytes (start + 2 + (nr - 1) * 4 + 2)
  ok ((first + len) % 2 ^ 16)

-- The cardinality is 1 or more.
unfoldable pub container_max : Bytes → IndexEntry → ℕ → Exec ℕ
container_max bytes e start =
    if e.typ == ct_array
    then read_u16 bytes (start + (e.cardinality - 1) * 2)
    else if e.typ == ct_run
    then last_run_end bytes start
    else if e.typ == ct_bitmap
    then bitmap_last bytes start
    else panic

unfoldable pub inline_min : Bytes → ℕ → Exec (Option ℕ)
inline_min bytes count =
    if not (ltb 0 count) then ok none else do v ← read_u32 bytes inline_header_size; ok (some v)

unfoldable pub standard_min : Bytes → ℕ → ℕ → Exec (Option ℕ)
standard_min bytes n data_base = if n == 0 then ok none else do
  e ← read_index_entry bytes n 0
  lo ← container_min bytes e (data_base + e.data_offset)
  ok (some (bit_or (e.key * 2 ^ 16) lo))

unfoldable pub min : View → Exec (Option ℕ)
min view = elim view.repr [
  | inline count ↦ inline_min view.bytes count
  | standard n data_base ↦ standard_min view.bytes n data_base
]

unfoldable pub inline_max : Bytes → ℕ → Exec (Option ℕ)
inline_max bytes count =
    if not (ltb 0 count)
    then ok none
    else do v ← read_u32 bytes (inline_header_size + (count - 1) * 4); ok (some v)

unfoldable pub standard_max : Bytes → ℕ → ℕ → Exec (Option ℕ)
standard_max bytes n data_base = if n == 0 then ok none else do
  e ← read_index_entry bytes n (n - 1)
  lo ← container_max bytes e (data_base + e.data_offset)
  ok (some (bit_or (e.key * 2 ^ 16) lo))

unfoldable pub max : View → Exec (Option ℕ)
max view = elim view.repr [
  | inline count ↦ inline_max view.bytes count
  | standard n data_base ↦ standard_max view.bytes n data_base
]
