-- ===== src/View/Iterate/Visits.antt =====
-- src/api/view.rs: the iterator of a well-formed view.
use frostbit.Base.{
  ℕ, suc, ◌-◌, ◌*◌, ◌≡◌, refl, sym, none, some, List, [], ◌∷◌, length, take, drop, arith, inl, inr,
}
use mathlib.Core.Path.{subst}
use frostbit.Base.Exec.{ok, Exec-cases, ok-injective, ok-ne-panic}
use frostbit.Format.Cast.{cast_slice, Castable}
use frostbit.Format.Sizes.{inline_header_size}
use frostbit.Format.Endian.{Bytes}
use frostbit.Format.Endian.Laws.{slice-ok}
use frostbit.Format.Endian.Bounds.{AreBytes}
use frostbit.View.{View, Repr, standard, inline}
use frostbit.View.Contents.{
  Contents, packed, stored, read_containers, decode, AreSound, IsPlaced, IsWellFormed,
  container_values, elements,
}
use frostbit.View.Elements.{length-elements}
use frostbit.View.Iterate.{Iter, Mode, done, next, iter, size_hint, next_lo}
use frostbit.View.Iterate.Cursor.{Yields, stop}
use frostbit.View.Iterate.Walk.{Walks, finish, visit, packed-Walks, stored-Walks}

-- `next` gives these values, one by one, and then none; before each the size hint is exact.
pub data Visits : Iter → List ℕ → Type 0 where
  over : (it it' : Iter) → size_hint it ≡ (0, some 0) → next it ≡ ok (none, it') → Visits it []
  item :
      (it it' : Iter) (v : ℕ) (vs : List ℕ)
      → size_hint it ≡ (suc (length vs), some (suc (length vs)))
      → next it ≡ ok (some v, it')
      → Visits it' vs
      → Visits it (v ∷ vs)

abbrev walker : Bytes → Mode → ℕ → Iter
walker bytes m left = record { bytes = bytes; mode = m; remaining = left }

Walks-Visits :
    (bytes : Bytes) {m : Mode} {vs : List ℕ}
    → Walks bytes m vs
    → Visits (walker bytes m (length vs)) vs
unfolding next size_hint
Walks-Visits bytes (finish m m' h) = over (walker bytes m 0) (walker bytes m' 0) refl (rw h refl)
Walks-Visits bytes (visit m m' v vs h w) =
    let down : suc (length vs) - 1 ≡ length vs = omega arith in
    item (walker bytes m (suc (length vs))) (walker bytes m' (length vs)) v vs refl
      (rw (h, down) refl) (Walks-Visits bytes w)

module _ (castable : Castable) where
  repr_iter :
      (base : ℕ) (bytes : Bytes) (repr : Repr) (card : ℕ) (c : Contents)
      → AreBytes bytes
      → IsPlaced base bytes repr
      → decode castable (record { base = base; bytes = bytes; repr = repr; cardinality = card })
        ≡ ok c
      → AreSound card c
      → Visits
          (iter (record { base = base; bytes = bytes; repr = repr; cardinality = card }))
          (elements c)
  unfolding decode iter
  repr_iter base bytes (inline count) card c are placed d s =
      let vs = cast_slice 4 count (take (4 * count) (drop inline_header_size bytes)) in
      let same : packed vs ≡ c =
        ok-injective
          (rw (slice-ok bytes inline_header_size (4 * count) (omega (arith, placed.0))) at d) in
      let walk = packed-Walks bytes count 0 count (omega arith) placed.0 in
      let (f, l) = subst (AreSound card) (sym same) s in
      subst (λ t. Visits (walker bytes (Mode.packed 0 count) card) (elements t)) same
        (subst (λ m. Visits (walker bytes (Mode.packed 0 count) m) vs) l (Walks-Visits bytes walk))
  repr_iter base bytes (standard n data_base) card c are placed d s =
      elim (Exec-cases (read_containers castable base bytes n data_base 0 n)) [
        | inl p ↦ absurd (ok-ne-panic (rw p at d))
        | inr (cs, p) ↦
            let same : stored cs ≡ c = ok-injective (rw p at d) in
            let (f, l) = subst (AreSound card) (sym same) s in
            let idle : Yields bytes done [] = unfold next_lo in stop done done refl in
            let walk =
              stored-Walks castable base bytes n data_base are n 0 0 0 0 done [] cs (omega arith) p
                f tt idle in
            subst (λ t. Visits (walker bytes (Mode.stored n data_base 0 0 done) card) (elements t))
              same
              (subst
                (λ m.
                  Visits (walker bytes (Mode.stored n data_base 0 0 done) m) (container_values cs))
                (length-elements card (stored cs) (f, l)) (Walks-Visits bytes walk))
      ]

  -- The iterator of a well-formed view, of bytes below 256, visits its elements in their order and
  -- then ends, and before each step its size hint is the exact number of those to come.
  pub iter_lem :
      (view : View) (wf : IsWellFormed castable view)
      → AreBytes view.bytes
      → Visits (iter view) (elements wf.contents)
  iter_lem view wf are =
      repr_iter view.base view.bytes view.repr view.cardinality wf.contents are wf.placed wf.decoded
        wf.sound
