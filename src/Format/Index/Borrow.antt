-- ===== src/Format/Index/Borrow.antt =====
-- The borrowed index against the index read field by field.
use frostbit.Base.{
  ℕ, zero, suc, ◌+◌, ◌*◌, ◌≤◌, ◌<◌, ◌≡◌, ◌↔◌, refl, sym, ap, ◌∙◌, List, some, take, drop, length,
  get_elem?, arith, inl, inr, Bool-cases, ◌/◌, ◌%◌, true, ◌==◌, length-take, length-drop, drop-drop,
  take-drop-take, drop-take, ◌∷◌,
}
use mathlib.Core.Path.{subst}
use native.Mathlib.Nat.{mul_comm}
use frostbit.Base.Exec.{ok, assert, ok-injective, ok-ne-panic, bind-inverse}
use frostbit.Base.Search.{Ascending, binary_search_iff}
use frostbit.Format.Cast.{Castable, IsBytemuck, unwrap, cast_slice, try_cast}
use frostbit.Format.Sizes.{
  header_size, keys_off, cards_off, type_offsets_off, index_size, word_align,
}
use frostbit.Format.Endian.{Bytes, from_le, slice, read_u16, read_u32}
use frostbit.Format.Endian.Laws.{slice-ok}
use frostbit.Format.Index.{Index, read_index_entry, index, entry, find, get}

-- Element `i` of a cast slice stands at byte `w * i`.
pub get_elem?-cast_slice :
    (w n i : ℕ) (bs : Bytes)
    → i < n
    → get_elem? (cast_slice w n bs) i ≡ some (from_le (take w (drop (w * i) bs)))
unfolding cast_slice
get_elem?-cast_slice w zero i bs h = absurd (omega arith)
get_elem?-cast_slice w (suc n) zero bs h = let e : w * 0 ≡ 0 = omega arith in rw e refl
get_elem?-cast_slice w (suc n) (suc i) bs h =
    let e : w * suc i ≡ w + w * i = omega arith in
    get_elem?-cast_slice w n i (drop w bs) (omega arith)
    ∙ ap (λ t. some (from_le (take w t))) (drop-drop (w * i) w bs ∙ ap (λ t. drop t bs) (sym e))

pub length-cast_slice : (w n : ℕ) (bs : Bytes) → length (cast_slice w n bs) ≡ n
unfolding cast_slice
length-cast_slice w zero bs = refl
length-cast_slice w (suc n) bs = ap suc (length-cast_slice w n (drop w bs))

-- An element of the slice `bytes[off..off + w * n]`, in the whole buffer.
cast_slice_at :
    (w n i off : ℕ) (bytes : Bytes)
    → i < n
    → get_elem? (cast_slice w n (take (w * n) (drop off bytes))) i
      ≡ some (from_le (take w (drop (off + i * w) bytes)))
cast_slice_at w n i off bytes h =
    get_elem?-cast_slice w n i (take (w * n) (drop off bytes)) h
    ∙ ap (λ t. some (from_le t))
        (take-drop-take w (w * i) (w * n) (drop off bytes) inside
          ∙ ap (take w) (drop-drop (w * i) off bytes)
          ∙ ap (λ t. take w (drop (off + t) bytes)) (mul_comm w i))
  where
    inside : w * i + w ≤ w * n
    inside = grind arith

-- The first element of a cast slice at `off`, and the rest, `w` bytes further.
pub cast_slice-cons :
    (w rest off : ℕ) (bytes : Bytes)
    → cast_slice w (suc rest) (take (w * suc rest) (drop off bytes))
      ≡ from_le (take w (drop off bytes))
        ∷ cast_slice w rest (take (w * rest) (drop (off + w) bytes))
unfolding cast_slice
cast_slice-cons w rest off bytes =
    let e : w * suc rest ≡ w + w * rest = omega arith in
    rw
      (
        e,
        take-drop-take w 0 (w + w * rest) (drop off bytes) (omega arith),
        drop-take w (w * rest) (drop off bytes),
        drop-drop w off bytes,
      )
      refl

-- The index of a buffer that has room for it.
borrowed : Bytes → ℕ → Index
borrowed bytes n = record {
  keys = cast_slice 2 n (take (2 * n) (drop keys_off bytes));
  cards = cast_slice 2 n (take (2 * n) (drop (cards_off n) bytes));
  type_offsets = cast_slice 4 n (take (4 * n) (drop (type_offsets_off n) bytes));
}

module _ (castable : Castable) (base : ℕ) where
  -- A cast that is accepted.
  cast-accepted :
      (w off n : ℕ) (s : Bytes)
      → castable w w (base + off) (w * n) ≡ true
      → length s ≡ w * n
      → length s / w ≡ n
      → unwrap (try_cast castable w (base + off) s) ≡ ok (cast_slice w n s)
  unfolding unwrap try_cast
  cast-accepted w off n s c l q =
      let fits : castable w w (base + off) (length s) ≡ true =
        ap (castable w w (base + off)) l ∙ c in
      rw (fits, q) refl

  cast-inverse :
      (w off n : ℕ) (s : Bytes) {vs : List ℕ}
      → length s / w ≡ n
      → unwrap (try_cast castable w (base + off) s) ≡ ok vs
      → cast_slice w n s ≡ vs
  unfolding unwrap try_cast
  cast-inverse w off n s q e = elim (Bool-cases (castable w w (base + off) (length s))) [
    | inl y ↦ ok-injective (rw (y, q) at e)
    | inr n ↦ absurd (ok-ne-panic (rw n at e))
  ]

  -- On an aligned buffer that has room for an index of `n` entries, borrowing it succeeds.
  index-borrowed :
      (bytes : Bytes) (n : ℕ)
      → IsBytemuck castable
      → base % word_align ≡ 0
      → header_size + index_size n ≤ length bytes
      → index castable base bytes n ≡ ok (borrowed bytes n)
  unfolding index borrowed
  index-borrowed bytes n documented aligned room = rw (
    aligned,
    slice-ok bytes keys_off (2 * n) (omega arith),
    cast-accepted 2 keys_off n (take (2 * n) (drop keys_off bytes))
        (documented.accepts 2 2 (base + keys_off) (2 * n) (omega (arith, aligned)) (omega arith))
        keys (omega (arith, keys)),
    slice-ok bytes (cards_off n) (2 * n) (omega arith),
    cast-accepted 2 (cards_off n) n (take (2 * n) (drop (cards_off n) bytes))
        (documented.accepts 2 2 (base + cards_off n) (2 * n) (omega (arith, aligned)) (omega arith))
        cards (omega (arith, cards)),
    slice-ok bytes (type_offsets_off n) (4 * n) (omega arith),
    cast-accepted 4 (type_offsets_off n) n (take (4 * n) (drop (type_offsets_off n) bytes))
        (documented.accepts 4 4 (base + type_offsets_off n) (4 * n) (omega (arith, aligned))
          (omega arith))
        words (omega (arith, words)),
  )
    where
      keys : length (take (2 * n) (drop keys_off bytes)) ≡ 2 * n
      keys = omega (arith, length-take (2 * n) (drop keys_off bytes), length-drop keys_off bytes)

      cards : length (take (2 * n) (drop (cards_off n) bytes)) ≡ 2 * n
      cards =
          omega
            (arith, length-take (2 * n) (drop (cards_off n) bytes), length-drop (cards_off n) bytes)

      words : length (take (4 * n) (drop (type_offsets_off n) bytes)) ≡ 4 * n
      words = omega (
        arith,
        length-take (4 * n) (drop (type_offsets_off n) bytes),
        length-drop (type_offsets_off n) bytes,
      )

  cast-of-slice :
      (bytes : Bytes) (w off n : ℕ) {s : Bytes} {vs : List ℕ}
      → off + w * n ≤ length bytes
      → w * n / w ≡ n
      → slice bytes off (w * n) ≡ ok s
      → unwrap (try_cast castable w (base + off) s) ≡ ok vs
      → cast_slice w n (take (w * n) (drop off bytes)) ≡ vs
  cast-of-slice bytes w off n {s} {vs} room q r e =
      let t : Bytes = take (w * n) (drop off bytes) in
      let same : s ≡ t = ok-injective (sym r ∙ slice-ok bytes off (w * n) room) in
      let l : length t ≡ w * n =
        omega (arith, length-take (w * n) (drop off bytes), length-drop off bytes) in
      cast-inverse w off n t (ap (λ k. k / w) l ∙ q)
        (subst (λ u. unwrap (try_cast castable w (base + off) u) ≡ ok vs) same e)

  -- What is borrowed where nothing is refused.
  index-inverse :
      (bytes : Bytes) (n : ℕ) {idx : Index}
      → header_size + index_size n ≤ length bytes
      → index castable base bytes n ≡ ok idx
      → borrowed bytes n ≡ idx
  unfolding index borrowed
  index-inverse bytes n room e =
      let (a, ea, e1) = bind-inverse (assert (base % word_align == 0)) _ e in
      let (ks, r1, e2) = bind-inverse (slice bytes keys_off (2 * n)) _ e1 in
      let (keys, k, e3) = bind-inverse (unwrap (try_cast castable 2 (base + keys_off) ks)) _ e2 in
      let (cs, r2, e4) = bind-inverse (slice bytes (cards_off n) (2 * n)) _ e3 in
      let (cards, c, e5) =
        bind-inverse (unwrap (try_cast castable 2 (base + cards_off n) cs)) _ e4 in
      let (ts, r3, e6) = bind-inverse (slice bytes (type_offsets_off n) (4 * n)) _ e5 in
      let (tos, t, e7) =
        bind-inverse (unwrap (try_cast castable 4 (base + type_offsets_off n) ts)) _ e6 in
      ok-injective (
        rw
          (
            cast-of-slice bytes 2 keys_off n (omega arith) (omega arith) r1 k,
            cast-of-slice bytes 2 (cards_off n) n (omega arith) (omega arith) r2 c,
            cast-of-slice bytes 4 (type_offsets_off n) n (omega arith) (omega arith) r3 t,
          )
          e7)

key-get : (xs : List ℕ) (i : ℕ) {v : ℕ} → get xs i ≡ ok v → get_elem? xs i ≡ some v
key-get xs i e = ground arith

get-key : (xs : List ℕ) (i : ℕ) {v : ℕ} → get_elem? xs i ≡ some v → get xs i ≡ ok v
get-key xs i e = ground arith

module _ (bytes : Bytes) (off n i : ℕ) (h : i < n) where
  get_u16 :
      off + 2 * n ≤ length bytes
      → get (cast_slice 2 n (take (2 * n) (drop off bytes))) i ≡ read_u16 bytes (off + i * 2)
  unfolding read_u16
  get_u16 room =
      rw (
        get-key _ i (cast_slice_at 2 n i off bytes h),
        slice-ok bytes (off + i * 2) 2 (omega arith),
      )

  get_u32 :
      off + 4 * n ≤ length bytes
      → get (cast_slice 4 n (take (4 * n) (drop off bytes))) i ≡ read_u32 bytes (off + i * 4)
  unfolding read_u32
  get_u32 room =
      rw (
        get-key _ i (cast_slice_at 4 n i off bytes h),
        slice-ok bytes (off + i * 4) 4 (omega arith),
      )

entry-borrowed :
    (bytes : Bytes) (n i : ℕ)
    → i < n
    → header_size + index_size n ≤ length bytes
    → entry (borrowed bytes n) i ≡ read_index_entry bytes n i
unfolding borrowed entry read_index_entry
entry-borrowed bytes n i h room = rw (
  get_u32 bytes (type_offsets_off n) n i h (omega arith),
  get_u16 bytes keys_off n i h (omega arith),
  get_u16 bytes (cards_off n) n i h (omega arith),
)

-- On an aligned buffer that has room for an index of `n` entries, borrowing the index succeeds, and
-- its entries are those that `read_index_entry` reads.
pub entry-index :
    (castable : Castable) (base : ℕ) (bytes : Bytes) (n i : ℕ)
    → IsBytemuck castable
    → base % word_align ≡ 0
    → i < n
    → header_size + index_size n ≤ length bytes
    → (idx : Index) × (index castable base bytes n ≡ ok idx)
      × (entry idx i ≡ read_index_entry bytes n i)
entry-index castable base bytes n i documented aligned h room = (
  borrowed bytes n,
  index-borrowed castable base bytes n documented aligned room,
  entry-borrowed bytes n i h room,
)

pub index_total :
    (castable : Castable) (base : ℕ) (bytes : Bytes) (n : ℕ)
    → IsBytemuck castable
    → base % word_align ≡ 0
    → header_size + index_size n ≤ length bytes
    → (idx : Index) × (index castable base bytes n ≡ ok idx)
index_total castable base bytes n documented aligned room =
    (borrowed bytes n, index-borrowed castable base bytes n documented aligned room)

-- The keys of a borrowed index.
pub keys-index :
    (castable : Castable) (base : ℕ) (bytes : Bytes) (idx : Index) (n : ℕ)
    → header_size + index_size n ≤ length bytes
    → index castable base bytes n ≡ ok idx
    → idx.keys ≡ cast_slice 2 n (take (2 * n) (drop keys_off bytes))
keys-index castable base bytes idx n room e =
    unfold borrowed in ap (λ x. x.keys) (sym (index-inverse castable base bytes n room e))

find-borrowed :
    (bytes : Bytes) (n k i : ℕ)
    → i < n
    → header_size + index_size n ≤ length bytes
    → Ascending (borrowed bytes n).keys
    → (find (borrowed bytes n) k ≡ some i) ↔ (read_u16 bytes (keys_off + i * 2) ≡ ok k)
unfolding find
find-borrowed bytes n k i h room a = (
  λ e. sym at ∙ get-key _ i ((binary_search_iff (borrowed bytes n).keys k i a).0 e),
  λ e. (binary_search_iff (borrowed bytes n).keys k i a).1 (key-get _ i (at ∙ e)),
)
  where
    at : get (borrowed bytes n).keys i ≡ read_u16 bytes (keys_off + i * 2)
    at = unfold borrowed in get_u16 bytes keys_off n i h (omega arith)

-- Where the keys of a borrowed index of `n` entries ascend strictly, `find` answers position `i` for
-- a key exactly when entry `i` is stored under that key.
pub find-index :
    (castable : Castable) (base : ℕ) (bytes : Bytes) (idx : Index) (n k i : ℕ)
    → i < n
    → header_size + index_size n ≤ length bytes
    → index castable base bytes n ≡ ok idx
    → Ascending idx.keys
    → (find idx k ≡ some i) ↔ (read_u16 bytes (keys_off + i * 2) ≡ ok k)
find-index castable base bytes idx n k i h room e a =
    let same : borrowed bytes n ≡ idx = index-inverse castable base bytes n room e in
    subst (λ x. (find x k ≡ some i) ↔ (read_u16 bytes (keys_off + i * 2) ≡ ok k)) same
      (find-borrowed bytes n k i h room (subst (λ x. Ascending x.keys) (sym same) a))
