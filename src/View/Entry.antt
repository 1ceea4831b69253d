-- ===== src/View/Entry.antt =====
-- An entry whose payload passes the checks is read as a well-formed typed slice.
use frostbit.Base.{
  ℕ, ◌+◌, ◌*◌, ◌≤◌, ◌≡◌, refl, sym, ap, ◌∙◌, true, false, none, some, length, take, drop, ltb, leb,
  ◌==◌, arith, inl, inr, Bool-cases, Option-cases, length-take, length-drop, drop-take,
}
use frostbit.Base.Exec.{ok, Exec-cases, ok-injective, ok-ne-panic}
use frostbit.Format.Cast.{Castable, unwrap}
use frostbit.Format.Sizes.{ct_array, ct_bitmap, ct_run, run_bytes}
use frostbit.Format.Endian.{Bytes, slice, read_u16}
use frostbit.Format.Endian.Laws.{slice-ok}
use frostbit.Format.Endian.Bounds.{AreBytes, take-AreBytes, drop-AreBytes}
use frostbit.Format.Index.{IndexEntry}
use frostbit.Container.Payload.{Data, array, bitmap, runs}
use frostbit.Container.Content.{IsSound}
use frostbit.Container.Read.{tail, as_bitmap, new_array, new_bitmap, new_runs, new}
use frostbit.View.{payload_size, run_size, sized_is_valid, entry_is_valid, entry_data, checked_add}
use frostbit.View.Payload.{payload_is_valid, array_is_valid, bitmap_is_valid, runs_are_valid}
use frostbit.View.Payload.Sound.{array-IsSound, bitmap-IsSound}
use frostbit.View.Payload.SoundRuns.{runs-IsSound}

-- A prefix of a buffer, cut out.
slice-prefix : (bytes : Bytes) (n : ℕ) → n ≤ length bytes → slice bytes 0 n ≡ ok (take n bytes)
slice-prefix bytes n h = slice-ok bytes 0 n (omega arith)

length-prefix : (bytes : Bytes) (n : ℕ) → n ≤ length bytes → length (take n bytes) ≡ n
length-prefix bytes n h = omega (arith, length-take n bytes)

-- The arms of `Data::new` on bytes of which the payload is a prefix.
module _ (castable : Castable) (addr : ℕ) (bytes : Bytes) where
  new_array-IsSound :
      (card : ℕ)
      → AreBytes bytes
      → card * 2 ≤ length bytes
      → array_is_valid castable addr (take (card * 2) bytes) ≡ true
      → (d : Data) × (new_array castable card addr bytes ≡ ok d) × IsSound card d
  unfolding new_array unwrap
  new_array-IsSound card a h e =
      let (vs, c, s) =
        array-IsSound castable addr card (take (card * 2) bytes) (take-AreBytes (card * 2) bytes a)
          (length-prefix bytes (card * 2) h) e in
      (array vs, rw (slice-prefix bytes (card * 2) h, c) refl, s)

  new_bitmap-IsSound :
      (card : ℕ)
      → 8192 ≤ length bytes
      → bitmap_is_valid castable addr (take 8192 bytes) card ≡ true
      → (d : Data) × (new_bitmap castable addr bytes ≡ ok d) × IsSound card d
  unfolding new_bitmap as_bitmap unwrap
  new_bitmap-IsSound card h e =
      let (ws, c, (l, t)) =
        bitmap-IsSound castable addr card (take 8192 bytes) (length-prefix bytes 8192 h) e in
      (bitmap ws, rw (slice-prefix bytes 8192 h, c, l) refl, (l, t))

  new_runs-IsSound :
      (card nr : ℕ)
      → run_bytes nr ≤ length bytes
      → read_u16 bytes 0 ≡ ok nr
      → runs_are_valid castable addr (take (run_bytes nr) bytes) card ≡ ok true
      → (d : Data) × (new_runs castable addr bytes ≡ ok d) × IsSound card d
  unfolding new_runs unwrap
  new_runs-IsSound card nr h r e =
      let (nr', rs, q) = runs-IsSound castable addr card (take (run_bytes nr) bytes) e in
      let cut : slice bytes 2 (nr * 4) ≡ ok (drop 2 (take (run_bytes nr) bytes)) =
        slice-ok bytes 2 (nr * 4) (omega arith) ∙ ap ok (sym (drop-take 2 (nr * 4) bytes)) in
      (runs rs, rw (r, cut, q.cast) refl, q.sound)

-- What the checks of an entry have seen.
record Fits (castable : Castable) (base : ℕ) (bytes : Bytes) (e : IndexEntry) (start size : ℕ)
    : Type 0 where
  size_known : payload_size bytes e start ≡ ok (some size)
  inside : start + size ≤ length bytes
  valid :
      payload_is_valid castable (base + start) (take size (drop start bytes)) e.typ e.cardinality
      ≡ ok true

refused : ok false ≡ ok true → ⊥
refused e = cc

pub checked_add-sum : (a b : ℕ) {c : ℕ} → checked_add a b ≡ some c → a + b ≡ c
unfolding checked_add
checked_add-sum a b e = ground arith

pub ltb-false : (a b : ℕ) → ltb a b ≡ false → b ≤ a
ltb-false a b e = ground arith

module _ (castable : Castable) (base : ℕ) (bytes : Bytes) (e : IndexEntry) where
  sized_inside :
      (start size : ℕ)
      → sized_is_valid castable base bytes e start size ≡ ok true
      → (start + size ≤ length bytes)
        × (payload_is_valid castable
              (base + start)
              (take size (drop start bytes))
              e.typ
              e.cardinality
            ≡ ok true)
  unfolding sized_is_valid
  sized_inside start size h = elim (Option-cases (checked_add start size)) [
    | inl n ↦ absurd (refused (rw (sized_is_valid, n) at h))
    | inr (finish, y) ↦ elim (Bool-cases (ltb (length bytes) finish)) [
      | inl n ↦ absurd (refused (rw (sized_is_valid, y, n) at h))
      | inr m ↦
          let room : start + size ≤ length bytes =
            omega (arith, checked_add-sum start size y, ltb-false (length bytes) finish m) in
          (room, rw (sized_is_valid, y, m, slice-ok bytes start size room) at h)
    ]
  ]

  entry_is_valid-Fits :
      (data_base : ℕ)
      → entry_is_valid castable base bytes data_base e ≡ ok true
      → (size : ℕ) × Fits castable base bytes e (data_base + e.data_offset) size
  unfolding entry_is_valid
  entry_is_valid-Fits data_base h =
      let start = data_base + e.data_offset in
      elim (Exec-cases (payload_size bytes e start)) [
        | inl p ↦ absurd (ok-ne-panic (rw p at h))
        | inr (none, p) ↦ absurd (refused (rw p at h))
        | inr (some size, p) ↦
            let (room, v) = sized_inside start size (rw p at h) in
            (size, record { size_known = p; inside = room; valid = v })
      ]

run_size-count :
    (bytes : Bytes) (start : ℕ) {size : ℕ}
    → run_size bytes start ≡ ok (some size)
    → (nr : ℕ) × (read_u16 bytes start ≡ ok nr) × (size ≡ run_bytes nr)
unfolding run_size
run_size-count bytes start e = elim (Exec-cases (read_u16 bytes start)) [
  | inl p ↦ ground (arith, p)
  | inr (nr, p) ↦ (nr, p, ground (arith, p))
]

pub read_u16-drop :
    (bytes : Bytes) (start : ℕ)
    → start + 2 ≤ length bytes
    → read_u16 (drop start bytes) 0 ≡ read_u16 bytes start
unfolding read_u16
read_u16-drop bytes start h = rw (
  slice-ok bytes start 2 h,
  slice-ok (drop start bytes) 0 2 (omega (arith, length-drop start bytes)),
)

-- The entry whose checks pass is read as a well-formed payload.
pub entry_data-IsSound :
    (castable : Castable) (base : ℕ) (bytes : Bytes) (data_base : ℕ) (e : IndexEntry)
    → AreBytes bytes
    → entry_is_valid castable base bytes data_base e ≡ ok true
    → (d : Data) × (entry_data castable base bytes data_base e ≡ ok d) × IsSound e.cardinality d
unfolding entry_data new tail payload_size payload_is_valid
entry_data-IsSound castable base bytes data_base e a h =
    let start = data_base + e.data_offset in
    let (size, f) = entry_is_valid-Fits castable base bytes e data_base h in
    let rest = drop start bytes in
    let within : size ≤ length rest = omega (arith, f.inside, length-drop start bytes) in
    let reach : leb start (length bytes) ≡ true = ground (arith, f.inside) in
    let below = drop-AreBytes start bytes a in
    elim (Bool-cases (e.typ == ct_array)) [
      | inl y ↦
          let same : size ≡ e.cardinality * 2 = ok-some (rw (payload_size, y) at f.size_known) in
          rw (reach, y)
            (new_array-IsSound castable (base + start) rest e.cardinality below (rw same at within)
              (ok-injective (rw (payload_is_valid, y, same) at f.valid)))
      | inr n ↦ elim (Bool-cases (e.typ == ct_bitmap)) [
        | inl y ↦
            let same : size ≡ 8192 = ok-some (rw (payload_size, n, y) at f.size_known) in
            rw (reach, n, y)
              (new_bitmap-IsSound castable (base + start) rest e.cardinality (rw same at within)
                (ok-injective (rw (payload_is_valid, n, y, same) at f.valid)))
        | inr m ↦ elim (Bool-cases (e.typ == ct_run)) [
          | inl y ↦
              let (nr, r, same) =
                run_size-count bytes start (rw (payload_size, n, m, y) at f.size_known) in
              rw (reach, n, m, y)
                (new_runs-IsSound castable (base + start) rest e.cardinality nr (rw same at within)
                  (read_u16-drop bytes start (omega (arith, same, f.inside)) ∙ r)
                  (rw (payload_is_valid, n, m, y, same) at f.valid))
          | inr k ↦ absurd (refused (rw (payload_is_valid, n, m, k) at f.valid))
        ]
      ]
    ]
  where
    ok-some : {a b : ℕ} → ok (some a) ≡ ok (some b) → b ≡ a
    ok-some p = cc
