-- ===== src/View/Accepted.antt =====
-- src/api/view.rs: what `from_bytes` promises of the bytes that it accepts.
use frostbit.Base.{
  ℕ, zero, suc, ◌+◌, ◌*◌, ◌%◌, ◌||◌, ◌≡◌, refl, true, false, none, some, length, take, drop, ltb,
  ◌==◌, arith, inl, inr, ◌⊎◌, Bool-cases, ==_iff,
}
use mathlib.Core.Path.{subst}
use frostbit.Base.Exec.{ok, Exec-cases, ok-ne-panic}
use frostbit.Format.Cast.{cast_slice, Castable}
use frostbit.Format.Sizes.{
  header_size, index_size, data_section_off, word_align, inline_header_size, inline_count_off,
}
use frostbit.Format.Endian.{Bytes, read_u16}
use frostbit.Format.Endian.Laws.{slice-ok}
use frostbit.Format.Endian.Bounds.{AreBytes}
use frostbit.Format.Index.Borrow.{length-cast_slice}
use frostbit.Format.Header.{Header}
use frostbit.Format.Header
use frostbit.Format.Inline.{has_inline_magic}
use frostbit.View.{
  inline_fits, View, inline, inline_ascends, check_entries, parse_inline, parse_entries,
  parse_standard, from_bytes,
}
use frostbit.View.Contents.{packed, stored, decode, IsPlaced, IsWellFormed}
use frostbit.View.Checked.{check_entries-ContainersFrom, inline_ascends-ValuesFrom}

inline_fits-room :
    (base : ℕ) (bytes : Bytes) (count : ℕ)
    → inline_fits base bytes count ≡ true
    → IsPlaced base bytes (inline count)
unfolding inline_fits
inline_fits-room base bytes count e = (ground arith, aligned count e)
  where
    aligned : (count : ℕ) → inline_fits base bytes count ≡ true → (count ≡ 0) ⊎ (base % 4 ≡ 0)
    aligned zero e = inl refl
    aligned (suc count) e = inr (ground arith)

-- The view that an accepting parse returns is well formed.
module _ (castable : Castable) (base : ℕ) (bytes : Bytes) (are : AreBytes bytes) (view : View) where
  none-refused : ok none ≡ ok (some view) → ⊥
  none-refused p = cc

  same_view : {v : View} → ok (some v) ≡ ok (some view) → v ≡ view
  same_view p = cc

  inline_view :
      (count : ℕ)
      → IsPlaced base bytes (inline count)
      → inline_ascends bytes 0 count none ≡ ok true
      → IsWellFormed castable
          (record { base = base; bytes = bytes; repr = inline count; cardinality = count })
  unfolding decode
  inline_view count placed h = record {
    placed = placed;
    contents = packed (cast_slice 4 count (take (4 * count) (drop 4 bytes)));
    decoded = rw (slice-ok bytes 4 (4 * count) (omega (arith, placed.0))) refl;
    sound = (
      inline_ascends-ValuesFrom bytes count 0 none are (omega (arith, placed.0)) h,
      length-cast_slice 4 count (take (4 * count) (drop 4 bytes)),
    );
  }

  parse_inline-IsWellFormed : parse_inline base bytes ≡ ok (some view) → IsWellFormed castable view
  unfolding parse_inline
  parse_inline-IsWellFormed h = elim (Bool-cases (ltb (length bytes) inline_header_size)) [
    | inl y ↦ absurd (none-refused (rw y at h))
    | inr n ↦ elim (Exec-cases (read_u16 bytes inline_count_off)) [
      | inl p ↦ absurd (ok-ne-panic (rw (n, p) at h))
      | inr (count, c) ↦ elim (Bool-cases (inline_fits base bytes count)) [
        | inr m ↦ absurd (none-refused (rw (n, c, m) at h))
        | inl y ↦ elim (Exec-cases (inline_ascends bytes 0 count none)) [
          | inl p ↦ absurd (ok-ne-panic (rw (n, c, y, p) at h))
          | inr (false, a) ↦ absurd (none-refused (rw (n, c, y, a) at h))
          | inr (true, a) ↦
              subst (IsWellFormed castable) (same_view (rw (n, c, y, a) at h))
                (inline_view count (inline_fits-room base bytes count y) a)
        ]
      ]
    ]
  ]

  parse_entries-IsWellFormed :
      (h : Header)
      → base % word_align ≡ 0
      → parse_entries castable base bytes h ≡ ok (some view)
      → IsWellFormed castable view
  unfolding parse_entries decode
  parse_entries-IsWellFormed h aligned e =
      let n = h.num_containers in
      let data_base = data_section_off n h.has_bitmap in
      elim (Bool-cases
        (ltb (length bytes) (header_size + index_size n) || ltb (length bytes) data_base)) [
          | inl y ↦ absurd (none-refused (rw y at e))
          | inr m ↦ elim (Exec-cases (check_entries castable base bytes n data_base 0 n none 0)) [
            | inl p ↦ absurd (ok-ne-panic (rw (m, p) at e))
            | inr (none, c) ↦ absurd (none-refused (rw (m, c) at e))
            | inr (some sum, c) ↦ elim (Bool-cases (sum == h.cardinality)) [
              | inr k ↦ absurd (none-refused (rw (m, c, k) at e))
              | inl y ↦
                  let (cs, r, f, t) =
                    check_entries-ContainersFrom castable base bytes n data_base are n 0 none 0 sum
                      c in
                  subst (IsWellFormed castable) (same_view (rw (m, c, y) at e)) (record {
                    placed = (ground (arith, m), aligned);
                    contents = stored cs;
                    decoded = rw r refl;
                    sound = (f, omega (arith, t, (==_iff sum h.cardinality).0 y));
                  })
            ]
          ]
        ]

  parse_standard-IsWellFormed :
      parse_standard castable base bytes ≡ ok (some view) → IsWellFormed castable view
  unfolding parse_standard
  parse_standard-IsWellFormed e = elim (Bool-cases (base % word_align == 0)) [
    | inr n ↦ absurd (none-refused (rw n at e))
    | inl y ↦ elim (Exec-cases (Header.parse bytes)) [
      | inl p ↦ absurd (ok-ne-panic (rw (y, p) at e))
      | inr (none, p) ↦ absurd (none-refused (rw (y, p) at e))
      | inr (some h, p) ↦
          parse_entries-IsWellFormed h ((==_iff (base % word_align) 0).0 y) (rw (y, p) at e)
    ]
  ]

-- Bytes that `from_bytes` accepts are those of a well-formed bitmap: they decode to values or
-- containers in ascending order, each payload in bounds, sorted and as long as its cardinality says,
-- and the cardinalities add up to that of the view.
pub from_bytes-IsWellFormed :
    (castable : Castable) (base : ℕ) (bytes : Bytes) (view : View)
    → AreBytes bytes
    → from_bytes castable base bytes ≡ ok (some view)
    → IsWellFormed castable view
unfolding from_bytes
from_bytes-IsWellFormed castable base bytes view are h =
    elim (Bool-cases (has_inline_magic bytes)) [
      | inl y ↦ parse_inline-IsWellFormed castable base bytes are view (rw y at h)
      | inr n ↦ parse_standard-IsWellFormed castable base bytes are view (rw n at h)
    ]
