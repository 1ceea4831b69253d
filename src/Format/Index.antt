-- ===== src/Format/Index.antt =====
-- src/format.rs: the container index, as an array of records read and written field by field, and
-- borrowed as three typed arrays.
pub mod RoundTrip
pub mod Borrow
use frostbit.Base.{
  ℕ, ◌+◌, ◌-◌, ◌*◌, ◌/◌, ◌%◌, ◌^◌, bit_and, bit_or, List, Option, none, some, get_elem?, ◌==◌,
}
use frostbit.Base.Exec.{Exec, ok, panic, ◌>>=◌, assert}
use frostbit.Base.Search.{binary_search}
use frostbit.Format.Sizes.{
  e_type_shift, e_offset_mask, keys_off, cards_off, type_offsets_off, word_align,
}
use frostbit.Format.Cast.{Castable, unwrap, try_cast}
use frostbit.Format.Endian.{Bytes, slice, read_u16, read_u32, write_u16, write_u32}

pub record IndexEntry : Type 0 where
  pub key : ℕ
  pub typ : ℕ
  pub cardinality : ℕ
  pub data_offset : ℕ

unfoldable pub read_index_entry : Bytes → ℕ → ℕ → Exec IndexEntry
read_index_entry bytes n i = do
  to ← read_u32 bytes (type_offsets_off n + i * 4)
  key ← read_u16 bytes (keys_off + i * 2)
  card ← read_u16 bytes (cards_off n + i * 2)
  ok (record {
    key = key;
    typ = to / 2 ^ e_type_shift % 256;
    cardinality = card + 1;
    data_offset = bit_and to e_offset_mask;
  })

-- `(e.typ as u32) << E_TYPE_SHIFT | (e.data_offset & E_OFFSET_MASK)`
unfoldable pub type_offset : IndexEntry → ℕ
type_offset e = bit_or (e.typ * 2 ^ e_type_shift % 2 ^ 32) (bit_and e.data_offset e_offset_mask)

-- `e.cardinality - 1` runs at a cardinality of 1 or more.
unfoldable pub write_index_entry : Bytes → ℕ → ℕ → IndexEntry → Exec Bytes
write_index_entry buf n i e = do
  buf ← write_u16 buf (keys_off + i * 2) e.key
  buf ← write_u16 buf (cards_off n + i * 2) ((e.cardinality - 1) % 2 ^ 16)
  write_u32 buf (type_offsets_off n + i * 4) (type_offset e)

pub record Index : Type 0 where
  pub keys : List ℕ
  pub cards : List ℕ
  pub type_offsets : List ℕ

-- `Index::new`, on bytes that stand at `base`, with its assertion.
unfoldable pub index : Castable → ℕ → Bytes → ℕ → Exec Index
index castable base bytes n = do
  aligned ← assert (base % word_align == 0)
  keys ← slice bytes keys_off (2 * n)
  keys ← unwrap (try_cast castable 2 (base + keys_off) keys)
  cards ← slice bytes (cards_off n) (2 * n)
  cards ← unwrap (try_cast castable 2 (base + cards_off n) cards)
  type_offsets ← slice bytes (type_offsets_off n) (4 * n)
  type_offsets ← unwrap (try_cast castable 4 (base + type_offsets_off n) type_offsets)
  ok (record { keys = keys; cards = cards; type_offsets = type_offsets })

-- An indexed read of a slice panics out of bounds.
abbrev pub get : List ℕ → ℕ → Exec ℕ
get xs i = elim (get_elem? xs i) [ none ↦ panic | some x ↦ ok x ]

-- `Index::key`
unfoldable pub key : Index → ℕ → Option ℕ
key idx i = get_elem? idx.keys i

-- `Index::find`
unfoldable pub find : Index → ℕ → Option ℕ
find idx key = binary_search idx.keys key

-- `Index::entry`
unfoldable pub entry : Index → ℕ → Exec IndexEntry
entry idx i = do
  to ← get idx.type_offsets i
  key ← get idx.keys i
  card ← get idx.cards i
  ok (record {
    key = key;
    typ = to / 2 ^ e_type_shift % 256;
    cardinality = card + 1;
    data_offset = bit_and to e_offset_mask;
  })
