-- ===== src/View/Counted.antt =====
-- src/api/view.rs, src/format.rs: the count that accepted bytes store, and the elements they hold.
use frostbit.Base.{
  ℕ, ◌^◌, ◌≡◌, refl, sym, ap, ◌∙◌, Bool, true, false, none, some, length, ltb, ◌==◌, if◌then◌else◌,
  inl, inr, Bool-cases,
}
use frostbit.Base.Exec.{Exec, ok, ◌>>=◌, Exec-cases, ok-ne-panic}
use frostbit.Format.Sizes.{
  header_size, h_magic, h_version, h_flags, h_cardinality, h_num_containers, magic, version,
  flag_full, inline_count_off,
}
use frostbit.Format.Cast.{Castable, unwrap}
use frostbit.Format.Endian.{Bytes, read_u16, read_u32}
use frostbit.Format.Endian.Bounds.{AreBytes}
use frostbit.Format.Inline.{has_inline_magic}
use frostbit.Format.Header.{Header, has_flag, parse}
use frostbit.View.{View, trusted_inline, from_bytes, from_bytes_trusted}
use frostbit.View.Query.{len}
use frostbit.View.Contents.{Contents, decode, ValuesFrom, elements}
use frostbit.View.Elements.{elements-ValuesFrom, length-elements}
use frostbit.View.Accepted.{from_bytes-IsWellFormed}
use frostbit.View.Trusted.{from_bytes_trusted_lem}

-- The field of the count: two bytes behind the inline magic; in a header, a flag for 2 ^ 32 and four
-- bytes for any other count.
abbrev pub stored_count : Bytes → Exec ℕ
stored_count bytes =
    if has_inline_magic bytes
    then read_u16 bytes inline_count_off
    else (read_u16 bytes h_flags >>= λ flags.
        if has_flag flags flag_full then ok (2 ^ 32) else read_u32 bytes h_cardinality)

none-refused : {h : Header} → ok none ≡ ok (some h) → ⊥
none-refused p = cc

same_header : {a b : Header} → ok (some a) ≡ ok (some b) → a ≡ b
same_header p = cc

counted : Bytes → ℕ → Exec ℕ
counted bytes flags = if has_flag flags flag_full then ok (2 ^ 32) else read_u32 bytes h_cardinality

count_of :
    (full : Bool) (card : ℕ)
    → (if full then ok (2 ^ 32) else ok card) ≡ ok (if full then 2 ^ 32 else card)
count_of true card = refl
count_of false card = refl

header-count :
    (bytes : Bytes) (h : Header)
    → parse bytes ≡ ok (some h)
    → (read_u16 bytes h_flags >>= counted bytes) ≡ ok h.cardinality
unfolding parse counted
header-count bytes h e = elim (Bool-cases (ltb (length bytes) header_size)) [
  | inl y ↦ absurd (none-refused (rw y at e))
  | inr room ↦ elim (Exec-cases (read_u32 bytes h_magic)) [
    | inl p ↦ absurd (ok-ne-panic (rw (room, p) at e))
    | inr (m, p) ↦ elim (Bool-cases (m == magic)) [
      | inr n ↦ absurd (none-refused (rw (room, p, n) at e))
      | inl y ↦ elim (Exec-cases (read_u16 bytes h_version)) [
        | inl q ↦ absurd (ok-ne-panic (rw (room, p, y, q) at e))
        | inr (v, q) ↦ elim (Bool-cases (v == version)) [
          | inr n ↦ absurd (none-refused (rw (room, p, y, q, n) at e))
          | inl z ↦ elim (Exec-cases (read_u16 bytes h_flags)) [
            | inl f ↦ absurd (ok-ne-panic (rw (room, p, y, q, z, f) at e))
            | inr (flags, f) ↦ elim (Exec-cases (read_u32 bytes h_cardinality)) [
              | inl c ↦ absurd (ok-ne-panic (rw (room, p, y, q, z, f, c) at e))
              | inr (card, c) ↦ elim (Exec-cases (read_u32 bytes h_num_containers)) [
                | inl n ↦ absurd (ok-ne-panic (rw (room, p, y, q, z, f, c, n) at e))
                | inr (n, r) ↦
                    let same = same_header (rw (room, p, y, q, z, f, c, r) at e) in
                    rw (f, c)
                      (count_of (has_flag flags flag_full) card ∙ ap (λ k. ok k.cardinality) same)
              ]
            ]
          ]
        ]
      ]
    ]
  ]
]

same_count : {a b : View} → ok a ≡ ok b → ok a.cardinality ≡ ok b.cardinality
same_count p = cc

trusted-count :
    (base : ℕ) (bytes : Bytes) (view : View)
    → from_bytes_trusted base bytes ≡ ok view
    → stored_count bytes ≡ ok view.cardinality
unfolding from_bytes_trusted trusted_inline unwrap counted
trusted-count base bytes view e = elim (Bool-cases (has_inline_magic bytes)) [
  | inl y ↦ elim (Exec-cases (read_u16 bytes inline_count_off)) [
    | inl p ↦ absurd (ok-ne-panic (rw (y, p) at e))
    | inr (n, p) ↦ rw (y, p) (same_count (rw (y, p) at e))
  ]
  | inr m ↦ elim (Exec-cases (parse bytes)) [
    | inl p ↦ absurd (ok-ne-panic (rw (m, p) at e))
    | inr (none, p) ↦ absurd (ok-ne-panic (rw (m, p) at e))
    | inr (some h, p) ↦ rw m (header-count bytes h p ∙ same_count (rw (m, p) at e))
  ]
]

-- Bytes that `from_bytes` accepts decode to elements that ascend strictly below 2 ^ 32, and of which
-- there are as many as the bytes say in the field of their count, and as `len` answers.
pub from_bytes-elements :
    (castable : Castable) (base : ℕ) (bytes : Bytes) (view : View)
    → AreBytes bytes
    → from_bytes castable base bytes ≡ ok (some view)
    → (c : Contents) × (decode castable view ≡ ok c)
      × ValuesFrom 0 (elements c)
      × (stored_count bytes ≡ ok (length (elements c)))
      × (len view ≡ length (elements c))
unfolding len
from_bytes-elements castable base bytes view are e =
    let wf = from_bytes-IsWellFormed castable base bytes view are e in
    let many = sym (length-elements view.cardinality wf.contents wf.sound) in
    (
      wf.contents,
      wf.decoded,
      elements-ValuesFrom view.cardinality wf.contents wf.sound,
      trusted-count base bytes view (from_bytes_trusted_lem castable base bytes view e)
          ∙ ap ok many,
      many,
    )
