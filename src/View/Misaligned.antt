-- ===== src/View/Misaligned.antt =====
-- src/api/view.rs: `contains` where the cast of an inline view's values is refused.
use frostbit.Base.{
  ℕ, ◌+◌, ◌*◌, ◌%◌, ◌≡◌, ◌≢◌, refl, sym, true, take, drop, length, arith, inl, inr, ◌⊎◌, ◌==◌,
}
use mathlib.Core.Path.{subst}
use frostbit.Base.Exec.{ok, panic, ok-injective}
use frostbit.Format.Cast.{Castable, IsBytemuck, try_cast, unwrap}
use frostbit.Format.Sizes.{inline_header_size}
use frostbit.Format.Endian.{Bytes}
use frostbit.Format.Endian.Laws.{slice-ok}
use frostbit.Format.Index.Borrow.{length-cast_slice}
use frostbit.View.{View, Repr, standard, inline}
use frostbit.View.Query.{is_inline, is_empty, inline_contains, contains}
use frostbit.View.Contents.{Contents, decode, AreSound, IsPlaced, IsWellFormed}

module _ (castable : Castable) (documented : IsBytemuck castable) where
  inline_misaligned :
      (base : ℕ) (bytes : Bytes) (count value : ℕ)
      → base % 4 ≢ 0
      → IsPlaced base bytes (inline count)
      → inline_contains castable base bytes count value ≡ panic
  unfolding inline_contains try_cast unwrap
  inline_misaligned base bytes count value off placed =
      let payload = take (4 * count) (drop 4 bytes) in
      let refused = documented.refuses 4 4 (base + 4) (length payload) (λ e. off (omega arith)) in
      rw (slice-ok bytes inline_header_size (4 * count) (omega (arith, placed.0))) (rw refused refl)

  repr_misaligned :
      (base : ℕ) (bytes : Bytes) (repr : Repr) (card : ℕ) (c : Contents) (value : ℕ)
      → base % 4 ≢ 0
      → IsPlaced base bytes repr
      → decode castable (record { base = base; bytes = bytes; repr = repr; cardinality = card })
        ≡ ok c
      → AreSound card c
      → (is_inline (record { base = base; bytes = bytes; repr = repr; cardinality = card }) ≡ true)
        × (is_empty (record { base = base; bytes = bytes; repr = repr; cardinality = card }) ≡ true)
        × (contains castable
              (record { base = base; bytes = bytes; repr = repr; cardinality = card })
              value
            ≡ panic)
  unfolding contains is_inline is_empty decode
  repr_misaligned base bytes (inline count) card c value off placed d s =
      let room = placed.0 in
      let cut = slice-ok bytes inline_header_size (4 * count) (omega (arith, room)) in
      let (f, l) = subst (AreSound card) (sym (ok-injective (rw cut at d))) s in
      let many = length-cast_slice 4 count (take (4 * count) (drop inline_header_size bytes)) in
      (
        refl,
        none_stored (omega (arith, l, many)) placed.1,
        inline_misaligned base bytes count value off placed,
      )
    where
      none_stored : count ≡ card → (count ≡ 0) ⊎ (base % 4 ≡ 0) → (card == 0) ≡ true
      none_stored e (inl z) = ground (arith, e, z)
      none_stored e (inr aligned) = absurd (off aligned)
  repr_misaligned base bytes (standard n data_base) card c value off placed d s =
      absurd (off (omega (arith, placed.1)))

  -- Where casts are tested as bytemuck documents, a well-formed view that does not stand at a multiple
  -- of four is empty and in the inline encoding, and `contains` on it panics at every value.
  pub contains-misaligned :
      (view : View) (value : ℕ)
      → IsWellFormed castable view
      → view.base % 4 ≢ 0
      → (is_inline view ≡ true) × (is_empty view ≡ true) × (contains castable view value ≡ panic)
  contains-misaligned view value wf off =
      repr_misaligned view.base view.bytes view.repr view.cardinality wf.contents value off
        wf.placed wf.decoded wf.sound
