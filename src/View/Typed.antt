-- ===== src/View/Typed.antt =====
-- src/container.rs: which slices `Data::new` casts, and that the bytes have room for them.
use frostbit.Base.{
  ℕ, ◌+◌, ◌*◌, ◌/◌, ◌≤◌, ◌≡◌, sym, ap, ◌∙◌, Option, none, some, List, length, take, drop, leb, ◌==◌,
  arith, inl, inr, Bool-cases, length-take, length-drop,
}
use frostbit.Base.Exec.{ok, Exec-cases, ok-injective, ok-ne-panic}
use frostbit.Format.Cast.{cast_slice, Castable, unwrap, try_cast}
use frostbit.Format.Sizes.{bitmap_words}
use frostbit.Format.Endian.{Bytes, slice, read_u16}
use frostbit.Container.Run.{Run}
use frostbit.Container.Payload.{Data, array, bitmap, runs}
use frostbit.Container.Read.{try_cast_runs, runs_of, as_bitmap, new_array, new_bitmap, new_runs}
use frostbit.View.Payload.Sound.{try_cast-cast_slice}

pub slice-room :
    (bytes : Bytes) (off n : ℕ) {s : Bytes}
    → slice bytes off n ≡ ok s
    → (off + n ≤ length bytes) × (take n (drop off bytes) ≡ s)
unfolding slice
slice-room bytes off n e = elim (Bool-cases (leb (off + n) (length bytes))) [
  | inl y ↦ (ground (arith, y), ok-injective (rw y at e))
  | inr n ↦ absurd (ok-ne-panic (rw n at e))
]

unwrap-some {ℓ} : {A : Type ℓ} (o : Option A) {a : A} → unwrap o ≡ ok a → o ≡ some a
unfolding unwrap
unwrap-some none e = absurd (ok-ne-panic e)
unwrap-some (some b) e = ap some (ok-injective e)

module _ (castable : Castable) (addr : ℕ) (bytes : Bytes) where
  -- A cast of `n` numbers at the front.
  cast_front :
      (w n : ℕ) (s : Bytes) (vs : List ℕ)
      → length s / w ≡ n
      → take (n * w) bytes ≡ s
      → try_cast castable w addr s ≡ some vs
      → cast_slice w n (take (w * n) bytes) ≡ vs
  cast_front w n s vs l t c =
      let order : w * n ≡ n * w = omega arith in
      rw (order, t) (rw l at (try_cast-cast_slice castable w addr s c))

  pub new_array-cast :
      (card : ℕ) (d : Data)
      → new_array castable card addr bytes ≡ ok d
      → (card * 2 ≤ length bytes) × (array (cast_slice 2 card (take (2 * card) bytes)) ≡ d)
  unfolding new_array
  new_array-cast card d e = elim (Exec-cases (slice bytes 0 (card * 2))) [
    | inl p ↦ absurd (ok-ne-panic (rw p at e))
    | inr (s, p) ↦ elim (Exec-cases (unwrap (try_cast castable 2 addr s))) [
      | inl q ↦ absurd (ok-ne-panic (rw (p, q) at e))
      | inr (vs, q) ↦
          let (room, t) = slice-room bytes 0 (card * 2) p in
          let long : length s / 2 ≡ card =
            ap (λ x. length x / 2) (sym t) ∙ omega (arith, length-take (card * 2) bytes, room) in
          (
            omega (arith, room),
            ap array (cast_front 2 card s vs long t (unwrap-some _ q))
                ∙ ok-injective (rw (p, q) at e),
          )
    ]
  ]

  pub new_bitmap-cast :
      (d : Data)
      → new_bitmap castable addr bytes ≡ ok d
      → (8192 ≤ length bytes) × (bitmap (cast_slice 8 1024 (take (8 * 1024) bytes)) ≡ d)
  unfolding new_bitmap as_bitmap
  new_bitmap-cast d e = elim (Exec-cases (slice bytes 0 8192)) [
    | inl p ↦ absurd (ok-ne-panic (rw p at e))
    | inr (s, p) ↦ elim (Exec-cases (unwrap (try_cast castable 8 addr s))) [
      | inl q ↦ absurd (ok-ne-panic (rw (p, q) at e))
      | inr (ws, q) ↦ elim (Bool-cases (length ws == bitmap_words)) [
        | inr n ↦ absurd (ok-ne-panic (rw (p, q, n) at e))
        | inl y ↦
            let (room, t) = slice-room bytes 0 8192 p in
            let long : length s / 8 ≡ 1024 =
              ap (λ x. length x / 8) (sym t) ∙ omega (arith, length-take 8192 bytes, room) in
            (
              omega (arith, room),
              ap bitmap (cast_front 8 1024 s ws long t (unwrap-some _ q))
                  ∙ ok-injective (rw (p, q, y) at e),
            )
      ]
    ]
  ]

  pub new_runs-cast :
      (d : Data)
      → new_runs castable addr bytes ≡ ok d
      → (nr : ℕ) × (read_u16 bytes 0 ≡ ok nr)
        × (2 + nr * 4 ≤ length bytes)
        × (runs (runs_of nr (take (nr * 4) (drop 2 bytes))) ≡ d)
  unfolding new_runs
  new_runs-cast d e = elim (Exec-cases (read_u16 bytes 0)) [
    | inl p ↦ absurd (ok-ne-panic (rw p at e))
    | inr (nr, c) ↦ elim (Exec-cases (slice bytes 2 (nr * 4))) [
      | inl p ↦ absurd (ok-ne-panic (rw (c, p) at e))
      | inr (s, p) ↦ elim (Exec-cases (unwrap (try_cast_runs castable (addr + 2) s))) [
        | inl q ↦ absurd (ok-ne-panic (rw (c, p, q) at e))
        | inr (rs, q) ↦
            let (room, t) = slice-room bytes 2 (nr * 4) p in
            let long : length s / 4 ≡ nr =
              ap (λ x. length x / 4) (sym t)
              ∙ omega (arith, length-take (nr * 4) (drop 2 bytes), length-drop 2 bytes, room) in
            (
              nr,
              c,
              room,
              ap runs (rw (t, ← long) (cast_all s rs (unwrap-some _ q)))
                  ∙ ok-injective (rw (c, p, q) at e),
            )
      ]
    ]
  ]
    where
      cast_all :
          (s : Bytes) (rs : List Run)
          → try_cast_runs castable (addr + 2) s ≡ some rs
          → runs_of (length s / 4) s ≡ rs
      cast_all s rs e = unfold try_cast_runs in ground arith
