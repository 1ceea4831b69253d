-- ===== src/View/Extrema/Min.antt =====
-- src/api/view.rs: `min` of a well-formed view is the first of its elements.
use frostbit.Base.{
  ℕ, zero, suc, ◌+◌, ◌*◌, ◌%◌, ◌^◌, ◌<◌, ◌≤◌, ◌≡◌, refl, sym, ap, ◌∙◌, true, false, none, List, [],
  ◌∷◌, ◌++◌, length, take, drop, get_elem?, ltb, ◌==◌, arith, inl, inr, Bool-cases, length-drop,
  drop-drop,
}
use mathlib.Core.Path.{subst}
use frostbit.Base.Exec.{ok, Exec-cases, ok-injective, ok-ne-panic}
use frostbit.Base.Bits.{bit_or-shifted}
use frostbit.Base.Ones.{ones_from-zero, ones_from-step}
use frostbit.Format.Cast.{cast_slice, Castable}
use frostbit.Format.Sizes.{
  ct_bitmap, ct_run, inline_header_size, type_offsets_off, keys_off, cards_off,
}
use frostbit.Format.Endian.{Bytes, from_le, read_u16, read_u32, read_u64}
use frostbit.Format.Endian.Laws.{slice-ok}
use frostbit.Format.Endian.Bounds.{AreBytes, drop-AreBytes, from_le-u64}
use frostbit.Format.Index.{IndexEntry, read_index_entry}
use frostbit.Format.Index.Borrow.{cast_slice-cons}
use frostbit.Container.Lows.{LowsFrom}
use frostbit.Container.Payload.{Data}
use frostbit.Container.Content.{IsSound}
use frostbit.Container.Elements.{lows, count_up, run_values, word_values}
use frostbit.Container.Elements.Order.{lows-LowsFrom, length-lows}
use frostbit.Container.Read.{runs_of}
use frostbit.View.{View, Repr, standard, inline}
use frostbit.View.Contents.{
  Container, Contents, stored, read_containers, decode, ContainersFrom, container_values, elements,
  AreSound, IsPlaced, IsWellFormed,
}
use frostbit.View.Read.{read_containers-nil, read_containers-cons, read_container-key}
use frostbit.View.Kind.{Kind, as_array, as_bitmap, as_runs, entry_data-Kind}
use frostbit.View.Iterate.Enter.{runs_of-take, run_values-cons, read_u16-front}
use frostbit.View.Extrema.{first_bit, bitmap_first, container_min, inline_min, standard_min, min}

head_of : {a b : ℕ} {xs ys : List ℕ} → a ∷ xs ≡ b ∷ ys → a ≡ b
head_of p = ground arith

nothing : {b : ℕ} {ys : List ℕ} → [] ≡ b ∷ ys → ⊥
nothing p = cc

pub no_values : (w : ℕ) (bytes : Bytes) → cast_slice w zero bytes ≡ []
unfolding cast_slice
no_values w bytes = refl

pub not_run : (t : ℕ) → (t == ct_bitmap) ≡ true → (t == ct_run) ≡ false
not_run t e = ground arith

-- The first bit of the words is the first of their values.
first_bit-word_values :
    (k w lo : ℕ) (bytes : Bytes) (start : ℕ) (vs : List ℕ)
    → w + k ≡ 1024
    → lo < 2 ^ 16
    → AreBytes bytes
    → start + 8192 ≤ length bytes
    → word_values (cast_slice 8 k (take (8 * k) (drop (start + w * 8) bytes))) w ≡ lo ∷ vs
    → first_bit k bytes start w ≡ ok lo
unfolding first_bit read_u64
first_bit-word_values zero w lo bytes start vs e small are room h =
    unfold cast_slice in absurd (nothing h)
first_bit-word_values (suc k) w lo bytes start vs e small are room h =
    let off = start + w * 8 in
    let word = from_le (take 8 (drop off bytes)) in
    let read = slice-ok bytes off 8 (omega (arith, e)) in
    let split = rw (cast_slice-cons 8 k off bytes) at h in
    let fits = from_le-u64 (drop off bytes) (drop-AreBytes off bytes are) in
    let next : off + 8 ≡ start + (w + 1) * 8 = omega arith in
    elim (Bool-cases (ltb 0 word)) [
      | inl y ↦
          let first =
            head_of (rw (ones_from-step 64 word (w * 64) (ground (arith, y)) fits) at split) in
          rw (read, y) (ap ok (ap (λ t. t % 2 ^ 16) first ∙ omega (arith, small)))
      | inr n ↦
          let empty : word ≡ 0 = ground (arith, n) in
          let after = rw (empty, ones_from-zero 64 (w * 64), next) at split in
          rw (read, n)
            (first_bit-word_values k (w + 1) lo bytes start vs (omega (arith, e)) small are room
              after)
    ]

counted :
    (l v : ℕ) (ys : List ℕ) {lo : ℕ} {vs : List ℕ} → count_up (l + 1) v ++ ys ≡ lo ∷ vs → v ≡ lo
counted l v ys e = let one : l + 1 ≡ suc l = omega arith in head_of (rw one at e)

-- The first low of an entry.
container_min-lows :
    (bytes : Bytes) (e : IndexEntry) (start lo : ℕ) (vs : List ℕ) (d : Data)
    → start ≤ length bytes
    → AreBytes bytes
    → lo < 2 ^ 16
    → Kind bytes e start d
    → lows d ≡ lo ∷ vs
    → container_min bytes e start ≡ ok lo
unfolding container_min
container_min-lows bytes e start lo vs d reach are small (as_array y room) h =
    rw y (array_first e.cardinality room h)
  where
    array_first :
        (card : ℕ)
        → card * 2 ≤ length (drop start bytes)
        → cast_slice 2 card (take (2 * card) (drop start bytes)) ≡ lo ∷ vs
        → read_u16 bytes start ≡ ok lo
    array_first zero room h =
        absurd (nothing (sym (no_values 2 (take (2 * 0) (drop start bytes))) ∙ h))
    array_first (suc card) room h =
        read_u16-front bytes start (omega (arith, room, length-drop start bytes))
        ∙ ap ok (head_of (rw (cast_slice-cons 2 card start bytes) at h))
container_min-lows bytes e start lo vs d reach are small (as_bitmap n y room) h =
    let here : start + 0 * 8 ≡ start = omega arith in
    rw (n, not_run e.typ y, y)
      (unfold bitmap_first in
        first_bit-word_values 1024 0 lo bytes start vs (omega arith) small are
          (omega (arith, room, length-drop start bytes)) (rw here h))
container_min-lows bytes e start lo vs d reach are small (as_runs n m r zero count room p) h =
    absurd (omega arith)
container_min-lows bytes e start lo vs d reach are small (as_runs n m r (suc nr) count room p) h =
    let values =
      ap run_values (
        runs_of-take (suc nr) (drop 2 (drop start bytes))
        ∙ ap (runs_of (suc nr)) (drop-drop 2 start bytes))
      ∙ run_values-cons nr start bytes in
    rw (n, r)
      (read_u16-front bytes (start + 2) (omega (arith, room, length-drop start bytes))
        ∙ ap ok (counted (from_le (take 2 (drop (start + 4) bytes))) _ _ (sym values ∙ h)))

pub index_card-pos :
    (bytes : Bytes) (n i : ℕ) (e : IndexEntry)
    → read_index_entry bytes n i ≡ ok e
    → 0 < e.cardinality
unfolding read_index_entry
index_card-pos bytes n i e h = elim (Exec-cases (read_u32 bytes (type_offsets_off n + i * 4))) [
  | inl p ↦ absurd (ok-ne-panic (rw p at h))
  | inr (to, p) ↦ elim (Exec-cases (read_u16 bytes (keys_off + i * 2))) [
    | inl q ↦ absurd (ok-ne-panic (rw (p, q) at h))
    | inr (key, q) ↦ elim (Exec-cases (read_u16 bytes (cards_off n + i * 2))) [
      | inl r ↦ absurd (ok-ne-panic (rw (p, q, r) at h))
      | inr (card, r) ↦
          subst (λ z. 0 < z.cardinality) (ok-injective (rw (p, q, r) at h)) (omega arith)
    ]
  ]
]

cons_of : (xs : List ℕ) → 0 < length xs → (x : ℕ) × (ys : List ℕ) × (xs ≡ x ∷ ys)
cons_of [] h = absurd (omega arith)
cons_of (x ∷ xs) h = (x, xs, refl)

module _ (castable : Castable) where
  standard_min_lem :
      (base : ℕ) (bytes : Bytes) (n data_base : ℕ) (cs : List Container)
      → AreBytes bytes
      → read_containers castable base bytes n data_base 0 n ≡ ok cs
      → ContainersFrom 0 cs
      → standard_min bytes n data_base ≡ ok (get_elem? (container_values cs) 0)
  unfolding standard_min
  standard_min_lem base bytes zero data_base cs are r f =
      subst (λ t. ok none ≡ ok (get_elem? (container_values t) 0))
        (read_containers-nil castable base bytes zero data_base 0 cs r) refl
  standard_min_lem base bytes (suc n) data_base cs are r f =
      let (d, ds, p, q, same) =
        read_containers-cons castable base bytes (suc n) data_base n 0 cs r in
      let (e, re, rd, as_key, as_card) =
        read_container-key castable base bytes (suc n) data_base 0 d p in
      let (b, w, s, after) = subst (ContainersFrom 0) (sym same) f in
      let sound = subst (λ m. IsSound m d.payload) (sym as_card) s in
      let start = data_base + e.data_offset in
      let (reach, kind) = entry_data-Kind castable base bytes data_base e d.payload rd sound in
      let many = length-lows e.cardinality d.payload sound in
      let (lo, vs, split) =
        cons_of (lows d.payload) (omega (arith, many, index_card-pos bytes (suc n) 0 e re)) in
      let (low, small, later) = subst (LowsFrom 0) split (lows-LowsFrom d.card d.payload s) in
      let minimum = container_min-lows bytes e start lo vs d.payload reach are small kind split in
      let some_left : (suc n == 0) ≡ false = ground arith in
      subst (λ t. standard_min bytes (suc n) data_base ≡ ok (get_elem? (container_values t) 0)) same
        (rw (some_left, re, minimum, split, as_key, bit_or-shifted 16 d.key lo small) refl)

  repr_min :
      (base : ℕ) (bytes : Bytes) (repr : Repr) (card : ℕ) (c : Contents)
      → AreBytes bytes
      → IsPlaced base bytes repr
      → decode castable (record { base = base; bytes = bytes; repr = repr; cardinality = card })
        ≡ ok c
      → AreSound card c
      → min (record { base = base; bytes = bytes; repr = repr; cardinality = card })
        ≡ ok (get_elem? (elements c) 0)
  unfolding decode min inline_min read_u32
  repr_min base bytes (inline zero) card c are placed d s =
      let same =
        ok-injective
          (rw (slice-ok bytes inline_header_size (4 * 0) (omega (arith, placed.0))) at d) in
      subst (λ t. ok none ≡ ok (get_elem? (elements t) 0)) same
        (ap (λ t. ok (get_elem? t 0))
          (sym (no_values 4 (take (4 * 0) (drop inline_header_size bytes)))))
  repr_min base bytes (inline (suc count)) card c are placed d s =
      let same =
        ok-injective
          (rw (slice-ok bytes inline_header_size (4 * suc count) (omega (arith, placed.0))) at d) in
      let some_left : ltb 0 (suc count) ≡ true = ground arith in
      subst (λ t. inline_min bytes (suc count) ≡ ok (get_elem? (elements t) 0)) same
        (rw
          (
            some_left,
            slice-ok bytes inline_header_size 4 (omega (arith, placed.0)),
            cast_slice-cons 4 count inline_header_size bytes,
          )
          refl)
  repr_min base bytes (standard n data_base) card c are placed d s =
      elim (Exec-cases (read_containers castable base bytes n data_base 0 n)) [
        | inl p ↦ absurd (ok-ne-panic (rw p at d))
        | inr (cs, p) ↦
            let same : stored cs ≡ c = ok-injective (rw p at d) in
            let (f, l) = subst (AreSound card) (sym same) s in
            subst (λ t. standard_min bytes n data_base ≡ ok (get_elem? (elements t) 0)) same
              (standard_min_lem base bytes n data_base cs are p f)
      ]

  -- On a well-formed view, of bytes below 256, `min` returns, and answers with the first of the elements, or with none when
  -- there is none.
  pub min_lem :
      (view : View) (wf : IsWellFormed castable view)
      → AreBytes view.bytes
      → min view ≡ ok (get_elem? (elements wf.contents) 0)
  min_lem view wf are =
      repr_min view.base view.bytes view.repr view.cardinality wf.contents are wf.placed wf.decoded
        wf.sound
