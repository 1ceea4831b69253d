-- ===== src/View/Payload/Sound.antt =====
-- A payload that `payload_is_valid` accepts is cast to a well-formed typed slice.
use frostbit.Base.{
  ℕ, zero, suc, ◌+◌, ◌*◌, ◌/◌, ◌<◌, ◌≤◌, ◌≡◌, sym, ap, ◌∙◌, true, false, some, List, [], ◌∷◌,
  length, drop, ltb, arith, inl, inr, Bool-cases, Option-cases, ==_iff,
}
use mathlib.Core.Path.{subst}
use frostbit.Base.BitSet.{sum_ones}
use frostbit.Format.Cast.{cast_slice, Castable, try_cast}
use frostbit.Format.Endian.{Bytes}
use frostbit.Format.Endian.Bounds.{AreBytes, drop-AreBytes, from_le-u16}
use frostbit.Format.Index.Borrow.{length-cast_slice}
use frostbit.Container.Lows.{LowsFrom}
use frostbit.Container.Payload.{array, bitmap}
use frostbit.Container.Content.{IsSound}
use frostbit.View.Payload.{ascends, array_is_valid, bitmap_is_valid}

abbrev AllU16 : List ℕ → Type 0
AllU16 [] = Unit {0}
AllU16 (v ∷ vs) = (v < 65536) × AllU16 vs

cast_slice-AllU16 : (n : ℕ) (bytes : Bytes) → AreBytes bytes → AllU16 (cast_slice 2 n bytes)
unfolding cast_slice
cast_slice-AllU16 zero bytes a = tt
cast_slice-AllU16 (suc n) bytes a =
    (from_le-u16 bytes a, cast_slice-AllU16 n (drop 2 bytes) (drop-AreBytes 2 bytes a))

pub refused : false ≡ true → ⊥
refused p = cc

ascends_from :
    (v k : ℕ) (vs : List ℕ)
    → k ≤ v
    → AllU16 (v ∷ vs)
    → ascends (v ∷ vs) ≡ true
    → LowsFrom k (v ∷ vs)
unfolding ascends
ascends_from v k [] h (b, c) e = (h, omega arith, tt)
ascends_from v k (w ∷ vs) h (b, c) e = elim (Bool-cases (ltb v w)) [
  | inl y ↦ (h, omega arith, ascends_from w (v + 1) vs (ground (arith, y)) c (rw y at e))
  | inr n ↦ absurd (refused (rw n at e))
]

ascends-LowsFrom : (vs : List ℕ) → AllU16 vs → ascends vs ≡ true → LowsFrom 0 vs
ascends-LowsFrom [] b e = tt
ascends-LowsFrom (v ∷ vs) b e = ascends_from v 0 vs (omega arith) b e

pub try_cast-cast_slice :
    (castable : Castable) (w addr : ℕ) (bytes : Bytes) {vs : List ℕ}
    → try_cast castable w addr bytes ≡ some vs
    → cast_slice w (length bytes / w) bytes ≡ vs
unfolding try_cast
try_cast-cast_slice castable w addr bytes e = ground arith

module _ (castable : Castable) (addr card : ℕ) (payload : Bytes) where
  pub array-IsSound :
      AreBytes payload
      → length payload ≡ card * 2
      → array_is_valid castable addr payload ≡ true
      → (vs : List ℕ) × (try_cast castable 2 addr payload ≡ some vs) × IsSound card (array vs)
  unfolding array_is_valid
  array-IsSound a l e = elim (Option-cases (try_cast castable 2 addr payload)) [
    | inl n ↦ absurd (refused (rw (array_is_valid, n) at e))
    | inr (vs, y) ↦
        let n = length payload / 2 in
        let same = try_cast-cast_slice castable 2 addr payload y in
        let whole : n ≡ card = omega arith in
        (
          vs,
          y,
          (
            ascends-LowsFrom vs (subst AllU16 same (cast_slice-AllU16 n payload a))
                (rw (array_is_valid, y) at e),
            ap length (sym same) ∙ length-cast_slice 2 n payload ∙ whole,
          ),
        )
  ]

  pub bitmap-IsSound :
      length payload ≡ 8192
      → bitmap_is_valid castable addr payload card ≡ true
      → (ws : List ℕ) × (try_cast castable 8 addr payload ≡ some ws) × IsSound card (bitmap ws)
  unfolding bitmap_is_valid
  bitmap-IsSound l e = elim (Option-cases (try_cast castable 8 addr payload)) [
    | inl n ↦ absurd (refused (rw (bitmap_is_valid, n) at e))
    | inr (ws, y) ↦
        let n = length payload / 8 in
        let whole : n ≡ 1024 = omega arith in
        (
          ws,
          y,
          (
            ap length (sym (try_cast-cast_slice castable 8 addr payload y))
                ∙ length-cast_slice 8 n payload
                ∙ whole,
            (==_iff (sum_ones ws) card).0 (rw (bitmap_is_valid, y) at e),
          ),
        )
  ]
