-- ===== src/Format/Index/RoundTrip.antt =====
-- `read_index_entry` after `write_index_entry`.
use frostbit.Base.{
  ℕ, ◌+◌, ◌-◌, ◌*◌, ◌/◌, ◌%◌, ◌^◌, ◌≤◌, ◌<◌, ◌≡◌, ◌≢◌, refl, sym, ap, ◌∙◌, inl, inr, bit_and, arith,
  length,
}
use native.Mathlib.Nat.{mod-eq_of_lt}
use native.Mathlib.Decide.{dec_lt}
use frostbit.Base.Bits.{bit_and-mask, bit_or-shifted}
use frostbit.Base.Exec.{ok}
use frostbit.Format.Sizes.{
  e_type_shift, e_offset_mask, header_size, keys_off, cards_off, type_offsets_off, index_size,
}
use frostbit.Format.Endian.{Bytes, to_le, overwrite, read_u16, read_u32}
use frostbit.Format.Endian.Laws.{
  length-overwrite, read_u16-overwrite_self, read_u32-overwrite_self, read_u16-overwrite-Apart,
  read_u32-overwrite-Apart, write_u16-ok, write_u32-ok, Apart,
}
use frostbit.Format.Index.{IndexEntry, type_offset, read_index_entry, write_index_entry}

-- The range of each field: what `write_index_entry` asserts in a debug build, and a `u16` key.
pub record IsValid (e : IndexEntry) : Type 0 where
  pub key_fits : e.key < 2 ^ 16
  pub typ_fits : e.typ < 4
  pub card_pos : 1 ≤ e.cardinality
  pub card_fits : e.cardinality ≤ 65536
  pub offset_fits : e.data_offset ≤ e_offset_mask

-- The two fields of the packed word.
type_offset_lem : (e : IndexEntry) → IsValid e → type_offset e ≡ e.typ * 2 ^ 30 + e.data_offset
unfolding type_offset
type_offset_lem e v =
    rw
      (
        mod-eq_of_lt (shifted_fits e v),
        bit_and-mask 30 e.data_offset,
        mod-eq_of_lt (offset_fits e v),
      )
      (bit_or-shifted 30 e.typ e.data_offset (offset_fits e v))
  where
    shifted_fits : (e : IndexEntry) → IsValid e → e.typ * 2 ^ 30 < 2 ^ 32
    shifted_fits e v = omega arith

    offset_fits : (e : IndexEntry) → IsValid e → e.data_offset < 2 ^ 30
    offset_fits e v = omega arith

abbrev pub card_low : IndexEntry → ℕ
card_low e = (e.cardinality - 1) % 2 ^ 16

-- The buffer after each of the three writes.
module _ (n i : ℕ) (e : IndexEntry) where
  abbrev with_key : Bytes → Bytes
  with_key buf = overwrite (keys_off + i * 2) (to_le 2 e.key) buf

  abbrev with_card : Bytes → Bytes
  with_card buf = overwrite (cards_off n + i * 2) (to_le 2 (card_low e)) (with_key buf)

  pub written : Bytes → Bytes
  written buf = overwrite (type_offsets_off n + i * 4) (to_le 4 (type_offset e)) (with_card buf)

  -- A read that meets none of the three writes.
  pub read_u16-written :
      (buf : Bytes) (p : ℕ)
      → Apart p 2 (keys_off + i * 2) (to_le 2 e.key)
      → Apart p 2 (cards_off n + i * 2) (to_le 2 (card_low e))
      → Apart p 2 (type_offsets_off n + i * 4) (to_le 4 (type_offset e))
      → read_u16 (written buf) p ≡ read_u16 buf p
  unfolding written
  read_u16-written buf p a b c =
      read_u16-overwrite-Apart _ (type_offsets_off n + i * 4) p (to_le 4 (type_offset e)) c
      ∙ read_u16-overwrite-Apart _ (cards_off n + i * 2) p (to_le 2 (card_low e)) b
      ∙ read_u16-overwrite-Apart buf (keys_off + i * 2) p (to_le 2 e.key) a

  pub read_u32-written :
      (buf : Bytes) (p : ℕ)
      → Apart p 4 (keys_off + i * 2) (to_le 2 e.key)
      → Apart p 4 (cards_off n + i * 2) (to_le 2 (card_low e))
      → Apart p 4 (type_offsets_off n + i * 4) (to_le 4 (type_offset e))
      → read_u32 (written buf) p ≡ read_u32 buf p
  unfolding written
  read_u32-written buf p a b c =
      read_u32-overwrite-Apart _ (type_offsets_off n + i * 4) p (to_le 4 (type_offset e)) c
      ∙ read_u32-overwrite-Apart _ (cards_off n + i * 2) p (to_le 2 (card_low e)) b
      ∙ read_u32-overwrite-Apart buf (keys_off + i * 2) p (to_le 2 e.key) a

  pub length-written : (buf : Bytes) → length (written buf) ≡ length buf
  unfolding written
  length-written buf =
      length-overwrite (type_offsets_off n + i * 4) (to_le 4 (type_offset e)) (with_card buf)
      ∙ length-overwrite (cards_off n + i * 2) (to_le 2 (card_low e)) (with_key buf)
      ∙ length-overwrite (keys_off + i * 2) (to_le 2 e.key) buf

module _ (n i : ℕ) (e : IndexEntry) (buf : Bytes) where
  length-with_key : length (with_key n i e buf) ≡ length buf
  length-with_key = length-overwrite (keys_off + i * 2) (to_le 2 e.key) buf

  length-with_card : length (with_card n i e buf) ≡ length buf
  length-with_card =
      length-overwrite (cards_off n + i * 2) (to_le 2 (card_low e)) (with_key n i e buf)
      ∙ length-with_key

module _ (n i : ℕ) (e : IndexEntry) (buf : Bytes) (inside : i < n) where
  module _ (room : header_size + index_size n ≤ length buf) where
    pub write-written : write_index_entry buf n i e ≡ ok (written n i e buf)
    unfolding write_index_entry written
    write-written =
        rw
          (
            write_u16-ok buf (keys_off + i * 2) e.key (omega arith),
            write_u16-ok (with_key n i e buf) (cards_off n + i * 2) (card_low e)
                (omega (arith, length-with_key n i e buf)),
          )
          (write_u32-ok (with_card n i e buf) (type_offsets_off n + i * 4) (type_offset e)
            (omega (arith, length-with_card n i e buf)))

    read_type_offset :
        IsValid e → read_u32 (written n i e buf) (type_offsets_off n + i * 4) ≡ ok (type_offset e)
    unfolding written
    read_type_offset v =
        read_u32-overwrite_self (with_card n i e buf) _ (type_offset e)
          (omega (arith, type_offset_lem e v)) (omega (arith, length-with_card n i e buf))

    read_key : IsValid e → read_u16 (written n i e buf) (keys_off + i * 2) ≡ ok e.key
    unfolding written
    read_key v =
        read_u16-overwrite-Apart (with_card n i e buf) _ _ (to_le 4 (type_offset e))
          (inl (omega arith))
        ∙ read_u16-overwrite-Apart (with_key n i e buf) _ _ (to_le 2 (card_low e))
            (inl (omega arith))
        ∙ read_u16-overwrite_self buf _ e.key v.key_fits (omega arith)

    read_card : read_u16 (written n i e buf) (cards_off n + i * 2) ≡ ok (card_low e)
    unfolding written
    read_card =
        read_u16-overwrite-Apart (with_card n i e buf) _ _ (to_le 4 (type_offset e))
          (inl (omega arith))
        ∙ read_u16-overwrite_self (with_key n i e buf) _ (card_low e) (omega arith)
            (omega (arith, length-with_key n i e buf))

    read_written : IsValid e → read_index_entry (written n i e buf) n i ≡ ok e
    unfolding read_index_entry
    read_written v = rw (read_type_offset v, read_key v, read_card) (ap ok (decoded v))
      where
        decoded :
            (v : IsValid e)
            → let x : IndexEntry = record {
              key = e.key;
              typ = type_offset e / 2 ^ e_type_shift % 256;
              cardinality = card_low e + 1;
              data_offset = bit_and (type_offset e) e_offset_mask;
            } in
              x ≡ e
        decoded v = ground (arith, type_offset_lem e v, bit_and-mask 30 (type_offset e))

  -- Writing entry `i` leaves every other entry as it was.
  other_written :
      (j : ℕ) → j < n → j ≢ i → read_index_entry (written n i e buf) n j ≡ read_index_entry buf n j
  unfolding read_index_entry
  other_written j hj ne = rw (
    read_u32-written n i e buf (type_offsets_off n + j * 4) (inr (omega arith)) (inr (omega arith))
        (side (type_offsets_off n) 4 (to_le 4 (type_offset e)) refl),
    read_u16-written n i e buf (keys_off + j * 2) (side keys_off 2 (to_le 2 e.key) refl)
        (inl (omega arith)) (inl (omega arith)),
    read_u16-written n i e buf (cards_off n + j * 2) (inr (omega arith))
        (side (cards_off n) 2 (to_le 2 (card_low e)) refl) (inl (omega arith)),
  )
    where
      side : (base w : ℕ) (src : Bytes) → length src ≡ w → Apart (base + j * w) w (base + i * w) src
      side base w src l = elim (dec_lt j i) [ yes p ↦ inl (grind arith) | no p ↦ inr (grind arith) ]

-- A valid entry is written without a panic to its slot of an index that the buffer has room for;
-- reading the slot returns it, and the buffer keeps its length.
pub read-write_index_entry :
    (buf : Bytes) (n i : ℕ) (e : IndexEntry)
    → IsValid e
    → i < n
    → header_size + index_size n ≤ length buf
    → (buf' : Bytes) × (write_index_entry buf n i e ≡ ok buf')
      × (read_index_entry buf' n i ≡ ok e)
      × (length buf' ≡ length buf)
read-write_index_entry buf n i e v inside room = (
  written n i e buf,
  write-written n i e buf inside room,
  read_written n i e buf inside room v,
  length-written n i e buf,
)

ok_injective : {a b : Bytes} → ok a ≡ ok b → a ≡ b
ok_injective e = cc

-- Writing entry `i` of an index that the buffer has room for leaves every other entry as it was.
write_index_entry_frame :
    (buf buf' : Bytes) (n i j : ℕ) (e : IndexEntry)
    → i < n
    → j < n
    → j ≢ i
    → header_size + index_size n ≤ length buf
    → write_index_entry buf n i e ≡ ok buf'
    → read_index_entry buf' n j ≡ read_index_entry buf n j
write_index_entry_frame buf buf' n i j e hi hj ne room w =
    ap (λ b. read_index_entry b n j)
      (sym (ok_injective (sym (write-written n i e buf hi room) ∙ w)))
    ∙ other_written n i e buf hi j hj ne
