-- ===== src/View/Total.antt =====
-- src/api/view.rs: `from_bytes` on arbitrary bytes does not panic.
use frostbit.Base.{
  ℕ, zero, suc, ◌+◌, ◌%◌, ◌≤◌, ◌≡◌, Bool, true, false, not, ◌||◌, Option, none, some, length, take,
  drop, ltb, ◌==◌, arith, inl, inr, Option-cases, length-take, length-drop,
}
use frostbit.Base.Exec.{Exec, ok, Exec-cases, IsOk, bind-IsOk, ok-IsOk, IsOk-value}
use frostbit.Format.Cast.{Castable}
use frostbit.Format.Sizes.{ct_run, header_size, index_size, data_section_off, word_align}
use frostbit.Format.Endian.{Bytes}
use frostbit.Format.Endian.Laws.{slice-ok}
use frostbit.Format.Inline.{has_inline_magic}
use frostbit.Format.Header.{Header}
use frostbit.Format.Header
use frostbit.Format.Header.Reject.{parse-ne-panic}
use frostbit.Format.Index.{IndexEntry, read_index_entry}
use frostbit.View.{
  View, payload_size, checked_add, sized_is_valid, entry_is_valid, not_above, check_entries,
  parse_entries, parse_standard, from_bytes,
}
use frostbit.View.Entry.{checked_add-sum, ltb-false}
use frostbit.View.Returns.{
  if-IsOk, else-IsOk, read_index_entry-IsOk, parse_inline-IsOk, payload_is_valid-IsOk,
  payload_size-IsOk, payload_size-count,
}

module _ (castable : Castable) (base : ℕ) (bytes : Bytes) where
  sized_is_valid-IsOk :
      (e : IndexEntry) (start size : ℕ)
      → ((e.typ == ct_run) ≡ true → 2 ≤ size)
      → IsOk (sized_is_valid castable base bytes e start size)
  unfolding sized_is_valid
  sized_is_valid-IsOk e start size h = elim (Option-cases (checked_add start size)) [
    | inl n ↦ rw (sized_is_valid, n) tt
    | inr (finish, y) ↦
        rw (sized_is_valid, y)
          (else-IsOk (ltb (length bytes) finish) _ _ tt (λ m.
            let room : start + size ≤ length bytes =
              omega (arith, checked_add-sum start size y, ltb-false (length bytes) finish m) in
            let long : length (take size (drop start bytes)) ≡ size =
              omega (arith, length-take size (drop start bytes), length-drop start bytes, room) in
            rw (slice-ok bytes start size room) (
              payload_is_valid-IsOk castable (base + start) (take size (drop start bytes)) e.typ
                e.cardinality (λ y. omega (arith, long, h y)))))
  ]

  size_known :
      (e : IndexEntry) (start : ℕ) (size : Option ℕ)
      → payload_size bytes e start ≡ ok size
      → IsOk (elim size as (λ s. Exec Bool) [
        | none ↦ ok false
        | some size ↦ sized_is_valid castable base bytes e start size
      ])
  size_known e start none p = tt
  size_known e start (some size) p =
      sized_is_valid-IsOk e start size (payload_size-count bytes e start size p)

  entry_is_valid-IsOk :
      (data_base : ℕ) (e : IndexEntry) → IsOk (entry_is_valid castable base bytes data_base e)
  unfolding entry_is_valid
  entry_is_valid-IsOk data_base e =
      let start = data_base + e.data_offset in
      bind-IsOk (payload_size bytes e start) _ (payload_size-IsOk bytes e start)
        (λ size p. size_known e start size p)

  check_entries-IsOk :
      (n data_base rest i : ℕ) (prev_key : Option ℕ) (sum : ℕ)
      → i + rest ≤ n
      → header_size + index_size n ≤ length bytes
      → IsOk (check_entries castable base bytes n data_base i rest prev_key sum)
  unfolding check_entries
  check_entries-IsOk n data_base zero i prev_key sum inside room = tt
  check_entries-IsOk n data_base (suc rest) i prev_key sum inside room =
      bind-IsOk (read_index_entry bytes n i) _ (read_index_entry-IsOk bytes n i (omega arith) room)
        (λ e r. if-IsOk (not_above prev_key e.key) _ _ tt (
          bind-IsOk (entry_is_valid castable base bytes data_base e) _
            (entry_is_valid-IsOk data_base e)
            (λ valid v.
              if-IsOk valid _ _
                (check_entries-IsOk n data_base rest (i + 1) (some e.key) (sum + e.cardinality)
                  (omega arith) room)
                tt)))

  parse_entries-IsOk : (h : Header) → IsOk (parse_entries castable base bytes h)
  unfolding parse_entries
  parse_entries-IsOk h =
      let n = h.num_containers in
      let data_base = data_section_off n h.has_bitmap in
      else-IsOk (ltb (length bytes) (header_size + index_size n) || ltb (length bytes) data_base) _
        _ tt
        (λ room.
          bind-IsOk (check_entries castable base bytes n data_base 0 n none 0) _
            (check_entries-IsOk n data_base n 0 none 0 (omega arith) (ground (arith, room)))
            (λ sum s. tt))

  header_known :
      (header : Option Header)
      → IsOk (elim header as (λ s. Exec (Option View)) [
        | none ↦ ok none
        | some h ↦ parse_entries castable base bytes h
      ])
  header_known none = tt
  header_known (some h) = parse_entries-IsOk h

  parse-IsOk : IsOk (Header.parse bytes)
  parse-IsOk = elim (Exec-cases (Header.parse bytes)) [
    | inl p ↦ absurd (parse-ne-panic bytes p)
    | inr (h, p) ↦ ok-IsOk p
  ]

  parse_standard-IsOk : IsOk (parse_standard castable base bytes)
  unfolding parse_standard
  parse_standard-IsOk =
      if-IsOk (not (base % word_align == 0)) _ _ tt
        (bind-IsOk (Header.parse bytes) _ parse-IsOk (λ header p. header_known header))

-- `from_bytes` returns on every buffer, at every address: no bytes make it panic, whatever casts are
-- refused.
pub from_bytes_total :
    (castable : Castable) (base : ℕ) (bytes : Bytes)
    → (result : Option View) × (from_bytes castable base bytes ≡ ok result)
from_bytes_total castable base bytes = IsOk-value (from_bytes castable base bytes) returns
  where
    returns : IsOk (from_bytes castable base bytes)
    returns =
        unfold from_bytes in
        if-IsOk (has_inline_magic bytes) _ _ (parse_inline-IsOk base bytes)
          (parse_standard-IsOk castable base bytes)
