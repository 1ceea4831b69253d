-- ===== src/View/Trusted.antt =====
-- src/api/view.rs: `from_bytes_trusted`, which skips the checks, against `from_bytes`.
use frostbit.Base.{
  ℕ, ◌%◌, ◌+◌, ◌≡◌, true, false, ◌||◌, none, some, length, ltb, ◌==◌, inl, inr, Bool-cases,
}
use frostbit.Base.Exec.{ok, Exec-cases, ok-ne-panic}
use frostbit.Format.Cast.{Castable, unwrap}
use frostbit.Format.Sizes.{
  header_size, index_size, data_section_off, inline_header_size, inline_count_off, word_align,
}
use frostbit.Format.Endian.{Bytes, read_u16}
use frostbit.Format.Inline.{has_inline_magic}
use frostbit.Format.Header.{Header}
use frostbit.Format.Header
use frostbit.View.{
  View, standard, inline_fits, inline_ascends, parse_inline, check_entries, parse_entries,
  parse_standard, from_bytes, trusted_inline, from_bytes_trusted,
}
use frostbit.View.Payload.{is_sum}

module _ (castable : Castable) (base : ℕ) (bytes : Bytes) (view : View) where
  none-refused : ok none ≡ ok (some view) → ⊥
  none-refused p = cc

  same_view : {v : View} → ok (some v) ≡ ok (some view) → ok v ≡ ok view
  same_view p = cc

  trusted_inline_lem :
      parse_inline base bytes ≡ ok (some view) → trusted_inline base bytes ≡ ok view
  unfolding parse_inline trusted_inline
  trusted_inline_lem h = elim (Bool-cases (ltb (length bytes) inline_header_size)) [
    | inl y ↦ absurd (none-refused (rw y at h))
    | inr n ↦ elim (Exec-cases (read_u16 bytes inline_count_off)) [
      | inl p ↦ absurd (ok-ne-panic (rw (n, p) at h))
      | inr (count, c) ↦ elim (Bool-cases (inline_fits base bytes count)) [
        | inr m ↦ absurd (none-refused (rw (n, c, m) at h))
        | inl y ↦ elim (Exec-cases (inline_ascends bytes 0 count none)) [
          | inl p ↦ absurd (ok-ne-panic (rw (n, c, y, p) at h))
          | inr (false, a) ↦ absurd (none-refused (rw (n, c, y, a) at h))
          | inr (true, a) ↦ rw c (same_view (rw (n, c, y, a) at h))
        ]
      ]
    ]
  ]

  -- The view that the checked entries come to.
  parse_entries-view :
      (h : Header)
      → parse_entries castable base bytes h ≡ ok (some view)
      → ok (record {
        base = base;
        bytes = bytes;
        repr = standard h.num_containers (data_section_off h.num_containers h.has_bitmap);
        cardinality = h.cardinality;
      })
        ≡ ok view
  unfolding parse_entries
  parse_entries-view h e =
      let n = h.num_containers in
      let data_base = data_section_off n h.has_bitmap in
      elim (Bool-cases
        (ltb (length bytes) (header_size + index_size n) || ltb (length bytes) data_base)) [
          | inl y ↦ absurd (none-refused (rw y at e))
          | inr m ↦ elim (Exec-cases (check_entries castable base bytes n data_base 0 n none 0)) [
            | inl p ↦ absurd (ok-ne-panic (rw (m, p) at e))
            | inr (sum, c) ↦ elim (Bool-cases (is_sum sum h.cardinality)) [
              | inr k ↦ absurd (none-refused (rw (m, c, k) at e))
              | inl y ↦ same_view (rw (m, c, y) at e)
            ]
          ]
        ]

  trusted_standard :
      has_inline_magic bytes ≡ false
      → parse_standard castable base bytes ≡ ok (some view)
      → from_bytes_trusted base bytes ≡ ok view
  unfolding parse_standard from_bytes_trusted unwrap
  trusted_standard magic e = elim (Bool-cases (base % word_align == 0)) [
    | inr n ↦ absurd (none-refused (rw n at e))
    | inl y ↦ elim (Exec-cases (Header.parse bytes)) [
      | inl p ↦ absurd (ok-ne-panic (rw (y, p) at e))
      | inr (none, p) ↦ absurd (none-refused (rw (y, p) at e))
      | inr (some h, p) ↦ rw (magic, p) (parse_entries-view h (rw (y, p) at e))
    ]
  ]

-- On bytes that `from_bytes` accepts, skipping the checks gives the same view.
pub from_bytes_trusted_lem :
    (castable : Castable) (base : ℕ) (bytes : Bytes) (view : View)
    → from_bytes castable base bytes ≡ ok (some view)
    → from_bytes_trusted base bytes ≡ ok view
unfolding from_bytes from_bytes_trusted
from_bytes_trusted_lem castable base bytes view h = elim (Bool-cases (has_inline_magic bytes)) [
  | inl y ↦ rw (from_bytes_trusted, y) (trusted_inline_lem castable base bytes view (rw y at h))
  | inr n ↦ trusted_standard castable base bytes view n (rw n at h)
]
