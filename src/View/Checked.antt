-- ===== src/View/Checked.antt =====
-- src/api/view.rs: what the loops of parsing have seen of the values and the entries.
use frostbit.Base.{
  ℕ, zero, suc, ◌+◌, ◌*◌, ◌^◌, ◌<◌, ◌≤◌, ◌≡◌, refl, ap, true, false, Option, none, some, List, [],
  ◌∷◌, length, take, drop, arith, inl, inr, Bool-cases,
}
use mathlib.Core.Path.{subst}
use frostbit.Base.Exec.{ok, Exec-cases, ok-injective, ok-ne-panic}
use frostbit.Format.Cast.{cast_slice, Castable}
use frostbit.Format.Sizes.{keys_off, cards_off, type_offsets_off, inline_header_size}
use frostbit.Format.Endian.{Bytes, from_le, slice, read_u16, read_u32}
use frostbit.Format.Endian.Laws.{slice-ok}
use frostbit.Format.Endian.Bounds.{AreBytes, drop-AreBytes, from_le-u16, from_le-u32}
use frostbit.Format.Index.{IndexEntry, read_index_entry}
use frostbit.Format.Index.Borrow.{cast_slice-cons}
use frostbit.View.{not_above, inline_ascends, check_entries, entry_is_valid}
use frostbit.View.Typed.{slice-room}
use frostbit.View.Entry.{entry_data-IsSound}
use frostbit.View.Contents.{
  Container, read_container, read_containers, ValuesFrom, ContainersFrom, sum_cards,
}

-- The first number that may stand behind `prev`.
abbrev pub first : Option ℕ → ℕ
first none = 0
first (some p) = p + 1

pub not_above-first : (prev : Option ℕ) (v : ℕ) → not_above prev v ≡ false → first prev ≤ v
not_above-first none v e = omega arith
not_above-first (some p) v e = ground arith

pub read_u16-lt :
    (bytes : Bytes) (off : ℕ) {v : ℕ} → AreBytes bytes → read_u16 bytes off ≡ ok v → v < 2 ^ 16
unfolding read_u16
read_u16-lt bytes off are e = elim (Exec-cases (slice bytes off 2)) [
  | inl p ↦ absurd (ok-ne-panic (rw p at e))
  | inr (s, p) ↦
      let (room, t) = slice-room bytes off 2 p in
      let small = from_le-u16 (drop off bytes) (drop-AreBytes off bytes are) in
      omega (arith, ap from_le t, ok-injective (rw p at e), small)
]

pub index_key-u16 :
    (bytes : Bytes) (n i : ℕ) (e : IndexEntry)
    → AreBytes bytes
    → read_index_entry bytes n i ≡ ok e
    → e.key < 2 ^ 16
unfolding read_index_entry
index_key-u16 bytes n i e are h = elim (Exec-cases (read_u32 bytes (type_offsets_off n + i * 4))) [
  | inl p ↦ absurd (ok-ne-panic (rw p at h))
  | inr (to, p) ↦ elim (Exec-cases (read_u16 bytes (keys_off + i * 2))) [
    | inl q ↦ absurd (ok-ne-panic (rw (p, q) at h))
    | inr (key, q) ↦ elim (Exec-cases (read_u16 bytes (cards_off n + i * 2))) [
      | inl r ↦ absurd (ok-ne-panic (rw (p, q, r) at h))
      | inr (card, r) ↦
          subst (λ z. z.key < 2 ^ 16) (ok-injective (rw (p, q, r) at h))
            (read_u16-lt bytes (keys_off + i * 2) are q)
    ]
  ]
]

module _ (castable : Castable) (base : ℕ) (bytes : Bytes) (n data_base : ℕ)
    (are : AreBytes bytes) where
  pub refused : {sum : ℕ} → ok none ≡ ok (some sum) → ⊥
  refused p = cc

  pub check_entries-ContainersFrom :
      (rest i : ℕ) (prev_key : Option ℕ) (sum sum' : ℕ)
      → check_entries castable base bytes n data_base i rest prev_key sum ≡ ok (some sum')
      → (cs : List Container) × (read_containers castable base bytes n data_base i rest ≡ ok cs)
        × ContainersFrom (first prev_key) cs
        × (sum + sum_cards cs ≡ sum')
  unfolding check_entries read_containers read_container
  check_entries-ContainersFrom zero i prev_key sum sum' h = ([], refl, tt, ground arith)
  check_entries-ContainersFrom (suc rest) i prev_key sum sum' h =
      elim (Exec-cases (read_index_entry bytes n i)) [
        | inl p ↦ absurd (ok-ne-panic (rw p at h))
        | inr (e, r) ↦ elim (Bool-cases (not_above prev_key e.key)) [
          | inl y ↦ absurd (refused (rw (r, y) at h))
          | inr m ↦ elim (Exec-cases (entry_is_valid castable base bytes data_base e)) [
            | inl p ↦ absurd (ok-ne-panic (rw (r, m, p) at h))
            | inr (false, v) ↦ absurd (refused (rw (r, m, v) at h))
            | inr (true, v) ↦
                let (d, l, s) = entry_data-IsSound castable base bytes data_base e are v in
                let (cs, k, f, t) =
                  check_entries-ContainersFrom rest (i + 1) (some e.key) (sum + e.cardinality) sum'
                    (rw (r, m, v) at h) in
                (
                  record { key = e.key; card = e.cardinality; payload = d } ∷ cs,
                  rw (r, l, k) refl,
                  (not_above-first prev_key e.key m, index_key-u16 bytes n i e are r, s, f),
                  omega (arith, t),
                )
          ]
        ]
      ]

pub inline_ascends-ValuesFrom :
    (bytes : Bytes) (rest i : ℕ) (prev : Option ℕ)
    → AreBytes bytes
    → inline_header_size + (i + rest) * 4 ≤ length bytes
    → inline_ascends bytes i rest prev ≡ ok true
    → ValuesFrom
        (first prev)
        (cast_slice 4 rest (take (4 * rest) (drop (inline_header_size + i * 4) bytes)))
unfolding inline_ascends read_u32
inline_ascends-ValuesFrom bytes zero i prev are room h = unfold cast_slice in tt
inline_ascends-ValuesFrom bytes (suc rest) i prev are room h =
    let off = inline_header_size + i * 4 in
    let v = from_le (take 4 (drop off bytes)) in
    let read = slice-ok bytes off 4 (omega arith) in
    elim (Bool-cases (not_above prev v)) [
      | inl y ↦ absurd (clash (rw (read, y) at h))
      | inr m ↦
          let next : inline_header_size + (i + 1) * 4 ≡ off + 4 = omega arith in
          let after : ValuesFrom (v + 1)
              (cast_slice 4 rest (take (4 * rest) (drop (off + 4) bytes))) =
            rw next at (
              inline_ascends-ValuesFrom bytes rest (i + 1) (some v) are (omega arith)
                (rw (read, m) at h)) in
          rw (cast_slice-cons 4 rest off bytes) (
            not_above-first prev v m,
            from_le-u32 (drop off bytes) (drop-AreBytes off bytes are),
            after,
          )
    ]
  where
    clash : ok false ≡ ok true → ⊥
    clash p = cc
