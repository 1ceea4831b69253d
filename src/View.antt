-- ===== src/View.antt =====
-- src/api/view.rs: `FrozenBitmapView`, its parsing of untrusted bytes and its queries.
pub mod Payload
pub mod Entry
pub mod Contents
pub mod Checked
pub mod Accepted
pub mod Query
pub mod Keys
pub mod Read
pub mod Contains
pub mod Misaligned
pub mod Returns
pub mod Total
pub mod Trusted
pub mod Counted
pub mod Typed
pub mod Kind
pub mod Extrema
pub mod Elements
pub mod Iterate
mod Tests
use frostbit.Base.{
  ℕ, zero, suc, ◌+◌, ◌*◌, ◌%◌, ◌^◌, Bool, true, false, not, ◌&&◌, ◌||◌, Option, none, some, length,
  ltb, leb, ◌==◌, if◌then◌else◌,
}
use frostbit.Base.Exec.{Exec, ok, ◌>>=◌}
use frostbit.Format.Cast.{Castable, unwrap}
use frostbit.Format.Sizes.{
  ct_array, ct_bitmap, ct_run, bitmap_bytes, run_bytes, word_align, header_size, index_size,
  data_section_off, inline_header_size, inline_count_off,
}
use frostbit.Format.Endian.{Bytes, slice, read_u16, read_u32}
use frostbit.Format.Inline.{has_inline_magic}
use frostbit.Format.Header.{Header}
use frostbit.Format.Header
use frostbit.Format.Index.{IndexEntry, read_index_entry}
use frostbit.Container.Payload.{Data}
use frostbit.Container.Read.{tail, new}
use frostbit.View.Payload.{payload_is_valid, is_sum}

pub data Repr : Type 0 where
  standard : ℕ → ℕ → Repr
  inline : ℕ → Repr

-- The bytes stand at the address `base`.
pub record View : Type 0 where
  pub base : ℕ
  pub bytes : Bytes
  pub repr : Repr
  pub cardinality : ℕ

-- `v <= p` for a value `p` before it.
abbrev pub not_above : Option ℕ → ℕ → Bool
not_above none v = false
not_above (some p) v = leb v p

-- The loop of `parse_inline`, from value `i` on, with `rest` to go.
unfoldable pub inline_ascends : Bytes → ℕ → ℕ → Option ℕ → Exec Bool
inline_ascends bytes i zero prev = ok true
inline_ascends bytes i (suc rest) prev = do
  v ← read_u32 bytes (inline_header_size + i * 4)
  let after = inline_ascends bytes (i + 1) rest (some v) in
      if not_above prev v then ok false else after

-- The value count fits, and the values, if any, are aligned for the cast.
unfoldable pub inline_fits : ℕ → Bytes → ℕ → Bool
inline_fits base bytes count =
    not (ltb (length bytes) (inline_header_size + count * 4))
    && not (ltb 0 count && not (base % 4 == 0))

unfoldable pub parse_inline : ℕ → Bytes → Exec (Option View)
unfolding inline_fits inline_ascends
parse_inline base bytes = if ltb (length bytes) inline_header_size then ok none else do
  count ← read_u16 bytes inline_count_off
  if not (inline_fits base bytes count) then ok none else do
    ascends ← inline_ascends bytes 0 count none
    ok (
        if ascends
        then some (record { base = base; bytes = bytes; repr = inline count; cardinality = count })
        else none)

-- The size of a run container's payload; none when its count is out of bounds.
unfoldable pub run_size : Bytes → ℕ → Exec (Option ℕ)
run_size bytes start =
    if ltb (length bytes) (start + 2)
    then ok none
    else do nr ← read_u16 bytes start; ok (some (run_bytes nr))

-- The size of an entry's payload; none for an unknown type.
unfoldable pub payload_size : Bytes → IndexEntry → ℕ → Exec (Option ℕ)
unfolding run_size
payload_size bytes e start =
    if e.typ == ct_array
    then ok (some (e.cardinality * 2))
    else if e.typ == ct_bitmap
    then ok (some bitmap_bytes)
    else if e.typ == ct_run
    then run_size bytes start
    else ok none

-- `start.checked_add(size)?`, in `usize`
unfoldable pub checked_add : ℕ → ℕ → Option ℕ
checked_add a b = if ltb (a + b) (2 ^ 64) then some (a + b) else none

module _ (castable : Castable) (base : ℕ) (bytes : Bytes) where
  -- The payload of an entry, once its size is known.
  unfoldable pub sized_is_valid : IndexEntry → ℕ → ℕ → Exec Bool
  sized_is_valid e start size = elim (checked_add start size) [
    | none ↦ ok false
    | some finish ↦ if ltb (length bytes) finish then ok false else do
      payload ← slice bytes start size
      payload_is_valid castable (base + start) payload e.typ e.cardinality
  ]

  -- The part of a round of the loop of `parse_standard` that is about the payload.
  unfoldable pub entry_is_valid : ℕ → IndexEntry → Exec Bool
  unfolding payload_size sized_is_valid
  entry_is_valid data_base e =
      let start = data_base + e.data_offset in
      do
        size ← payload_size bytes e start
        elim size [ none ↦ ok false | some size ↦ sized_is_valid e start size ]

  -- The typed payload of an entry; `Data::new` takes what it needs of the bytes from `start` on.
  unfoldable pub entry_data : ℕ → IndexEntry → Exec Data
  entry_data data_base e =
      let start = data_base + e.data_offset in
      do payload ← tail bytes start; new castable e.typ e.cardinality (base + start) payload

  -- The loop of `parse_standard`, from entry `i` on, with `rest` to go: the sum of the
  -- cardinalities, which stays far below 2 ^ 64.
  unfoldable pub check_entries : ℕ → ℕ → ℕ → ℕ → Option ℕ → ℕ → Exec (Option ℕ)
  unfolding entry_is_valid
  check_entries n data_base i zero prev_key sum_card = ok (some sum_card)
  check_entries n data_base i (suc rest) prev_key sum_card = do
    e ← read_index_entry bytes n i
    let after = check_entries n data_base (i + 1) rest (some e.key) (sum_card + e.cardinality) in
        if not_above prev_key e.key
        then ok none
        else do valid ← entry_is_valid data_base e; if valid then after else ok none

  -- What `parse_standard` does once the header is read.
  unfoldable pub parse_entries : Header → Exec (Option View)
  unfolding check_entries
  parse_entries h =
      let n = h.num_containers in
      let data_base = data_section_off n h.has_bitmap in
      if ltb (length bytes) (header_size + index_size n) || ltb (length bytes) data_base
      then ok none
      else do
        sum_card ← check_entries n data_base 0 n none 0
        ok (
            if is_sum sum_card h.cardinality
            then some (record {
              base = base;
              bytes = bytes;
              repr = standard n data_base;
              cardinality = h.cardinality;
            })
            else none)

  unfoldable pub parse_standard : Exec (Option View)
  unfolding parse_entries
  parse_standard =
      if not (base % word_align == 0)
      then ok none
      else do header ← Header.parse bytes; elim header [ none ↦ ok none | some h ↦ parse_entries h ]

  unfoldable pub from_bytes : Exec (Option View)
  unfolding parse_inline parse_standard
  from_bytes = if has_inline_magic bytes then parse_inline base bytes else parse_standard

-- `FrozenBitmapView::from_bytes_trusted`
unfoldable pub trusted_inline : ℕ → Bytes → Exec View
trusted_inline base bytes = do
  count ← read_u16 bytes inline_count_off
  ok (record { base = base; bytes = bytes; repr = inline count; cardinality = count })

unfoldable pub from_bytes_trusted : ℕ → Bytes → Exec View
unfolding trusted_inline
from_bytes_trusted base bytes = if has_inline_magic bytes then trusted_inline base bytes else do
  header ← Header.parse bytes
  h ← unwrap header
  let n = h.num_containers in
      ok (record {
        base = base;
        bytes = bytes;
        repr = standard n (data_section_off n h.has_bitmap);
        cardinality = h.cardinality;
      })
