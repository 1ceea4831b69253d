-- ===== src/View/Extrema/Max.antt =====
-- src/api/view.rs: `max` of a well-formed view is the last of its elements.
use frostbit.Base.{
  some, inr, map, ◌-◌, ℕ, zero, suc, ◌+◌, ◌*◌, ◌%◌, ◌^◌, ◌<◌, ◌≤◌, ◌≡◌, refl, sym, ap, ◌∙◌, true,
  false, none, List, [], ◌∷◌, ◌++◌, length, take, drop, ltb, ◌==◌, arith, inl, inr, length-drop,
  drop-drop,
}
use mathlib.Core.Path.{subst}
use frostbit.Base.Exec.{ok, Exec-cases, ok-injective, ok-ne-panic}
use frostbit.Base.Bits.{bit_or-shifted}
use frostbit.Format.Cast.{cast_slice, Castable}
use frostbit.Format.Sizes.{inline_header_size}
use frostbit.Format.Endian.{Bytes, read_u16, read_u32}
use frostbit.Format.Endian.Laws.{slice-ok}
use frostbit.Format.Endian.Bounds.{AreBytes}
use frostbit.Format.Index.{IndexEntry}
use frostbit.Container.Lows.{LowsFrom}
use frostbit.Container.Payload.{Data}
use frostbit.Container.Content.{IsSound}
use frostbit.Container.Elements.{lows, run_values}
use frostbit.Container.Elements.Order.{lows-LowsFrom, length-lows}
use frostbit.Container.Read.{runs_of}
use frostbit.View.{View, Repr, standard, inline}
use frostbit.View.Contents.{
  Container, Contents, stored, read_containers, decode, ContainersFrom, container_values, elements,
  AreSound, IsPlaced, IsWellFormed,
}
use frostbit.View.Read.{read_containers-nil, read_containers-cons, read_container-key}
use frostbit.View.Kind.{Kind, as_array, as_bitmap, as_runs, entry_data-Kind}
use frostbit.View.Iterate.Enter.{runs_of-take, read_u16-front}
use frostbit.View.Extrema.{bitmap_last, last_run_end, container_max, inline_max, standard_max, max}
use frostbit.View.Entry.{read_u16-drop}
use frostbit.View.Contents.{read_container}
use frostbit.View.Extrema.LastBit.{last_bit-word_values}
use frostbit.View.Extrema.Last.{
  last, last-append, append-nil, unlike, same_some, last-cast_slice, last-run_values,
}
use frostbit.View.Extrema.Min.{not_run, no_values, index_card-pos}

module _ (bytes : Bytes) (e : IndexEntry) (start lo : ℕ) where
  -- The last low of an entry.
  container_max-lows :
      (d : Data)
      → start ≤ length bytes
      → AreBytes bytes
      → lo < 2 ^ 16
      → Kind bytes e start d
      → last (lows d) ≡ some lo
      → container_max bytes e start ≡ ok lo
  unfolding container_max
  container_max-lows d reach are small (as_array y room) h = rw y (array_last e.cardinality room h)
    where
      array_last :
          (card : ℕ)
          → card * 2 ≤ length (drop start bytes)
          → last (cast_slice 2 card (take (2 * card) (drop start bytes))) ≡ some lo
          → read_u16 bytes (start + (card - 1) * 2) ≡ ok lo
      array_last zero room h =
          absurd (unlike (ap last (sym (no_values 2 (take (2 * 0) (drop start bytes)))) ∙ h))
      array_last (suc card) room h =
          let one_less : suc card - 1 ≡ card = omega arith in
          rw one_less (
            read_u16-front bytes (start + card * 2) (omega (arith, room, length-drop start bytes))
            ∙ ap ok (same_some (sym (last-cast_slice 2 card start bytes) ∙ h)))
  container_max-lows d reach are small (as_bitmap n y room) h =
      rw (n, not_run e.typ y, y)
        (unfold bitmap_last in
          last_bit-word_values bytes start are (omega (arith, room, length-drop start bytes)) lo h
            small)
  container_max-lows d reach are small (as_runs n m r zero count room p) h = absurd (omega arith)
  container_max-lows d reach are small (as_runs n m r (suc k) count room p) h =
      let inside : start + 2 + suc k * 4 ≤ length bytes =
        omega (arith, room, length-drop start bytes) in
      let off = start + 2 + k * 4 in
      let same = ap run_values (
        runs_of-take (suc k) (drop 2 (drop start bytes))
        ∙ ap (runs_of (suc k)) (drop-drop 2 start bytes)) in
      let sum = same_some (sym (ap last same ∙ last-run_values k (start + 2) bytes) ∙ h) in
      let one_less : suc k - 1 ≡ k = omega arith in
      rw (n, r)
        (unfold last_run_end in
          rw
            (
              sym (read_u16-drop bytes start (omega (arith, inside))) ∙ count,
              one_less,
              read_u16-front bytes off (omega (arith, inside)),
              read_u16-front bytes (off + 2) (omega (arith, inside)),
            )
            (ap ok (wraps sum small)))
    where
      wraps : {s : ℕ} → s ≡ lo → lo < 2 ^ 16 → s % 2 ^ 16 ≡ lo
      wraps e small = omega (arith, e, small)

last_of : (xs : List ℕ) → 0 < length xs → (v : ℕ) × (last xs ≡ some v)
last_of [] h = absurd (omega arith)
last_of (x ∷ []) h = (x, refl)
last_of (x ∷ y ∷ xs) h = last_of (y ∷ xs) (omega arith)

last-LowsFrom : (xs : List ℕ) (k v : ℕ) → LowsFrom k xs → last xs ≡ some v → v < 2 ^ 16
last-LowsFrom [] k v f h = absurd (unlike h)
last-LowsFrom (x ∷ []) k v (a, b, f) h = omega (arith, same_some h)
last-LowsFrom (x ∷ y ∷ xs) k v (a, b, f) h = last-LowsFrom (y ∷ xs) (x + 1) v f h

last-map : (f : ℕ → ℕ) (xs : List ℕ) {v : ℕ} → last xs ≡ some v → last (map f xs) ≡ some (f v)
last-map f [] h = absurd (unlike h)
last-map f (x ∷ []) h = ap some (ap f (same_some h))
last-map f (x ∷ y ∷ xs) h = last-map f (y ∷ xs) h

module _ (castable : Castable) (base : ℕ) (bytes : Bytes) (n data_base : ℕ) where
  -- The container at the last position, whose last low is the last of all values.
  last_container :
      (rest j k : ℕ) (cs : List Container)
      → read_containers castable base bytes n data_base j (suc rest) ≡ ok cs
      → ContainersFrom k cs
      → (d : Container) × (read_container castable base bytes n data_base (j + rest) ≡ ok d)
        × IsSound d.card d.payload
        × ((lo : ℕ)
            → last (lows d.payload) ≡ some lo
            → last (container_values cs) ≡ some (d.key * 2 ^ 16 + lo))
  last_container zero j k cs r f =
      let (d, ds, p, q, same) = read_containers-cons castable base bytes n data_base zero j cs r in
      let (b, w, s, after) = subst (ContainersFrom k) (sym same) f in
      let none_after = read_containers-nil castable base bytes n data_base (j + 1) ds q in
      let here : j + 0 ≡ j = omega arith in
      let whole =
        ap container_values (sym same)
        ∙ ap (λ t. map (λ lo. d.key * 2 ^ 16 + lo) (lows d.payload) ++ container_values t)
            (sym none_after)
        ∙ append-nil _ in
      (
        d,
        rw here p,
        s,
        (λ lo h. ap last whole ∙ last-map (λ lo. d.key * 2 ^ 16 + lo) (lows d.payload) h),
      )
  last_container (suc rest) j k cs r f =
      let (d, ds, p, q, same) =
        read_containers-cons castable base bytes n data_base (suc rest) j cs r in
      let (b, w, s, after) = subst (ContainersFrom k) (sym same) f in
      let (l, pl, sl, valued) = last_container rest (j + 1) (d.key + 1) ds q after in
      let place : j + 1 + rest ≡ j + suc rest = omega arith in
      (
        l,
        rw place at pl,
        sl,
        (λ lo h.
            ap (λ t. last (container_values t)) (sym same)
            ∙ last-append (map (λ lo. d.key * 2 ^ 16 + lo) (lows d.payload)) (container_values ds)
                (valued lo h)),
      )

module _ (castable : Castable) where
  standard_max_lem :
      (base : ℕ) (bytes : Bytes) (n data_base : ℕ) (cs : List Container)
      → AreBytes bytes
      → read_containers castable base bytes n data_base 0 n ≡ ok cs
      → ContainersFrom 0 cs
      → standard_max bytes n data_base ≡ ok (last (container_values cs))
  unfolding standard_max
  standard_max_lem base bytes zero data_base cs are r f =
      subst (λ t. ok none ≡ ok (last (container_values t)))
        (read_containers-nil castable base bytes zero data_base 0 cs r) refl
  standard_max_lem base bytes (suc n) data_base cs are r f =
      let (d, p, s, valued) = last_container castable base bytes (suc n) data_base n 0 0 cs r f in
      let at : 0 + n ≡ n = omega arith in
      let one_less : suc n - 1 ≡ n = omega arith in
      let (e, re, rd, as_key, as_card) =
        read_container-key castable base bytes (suc n) data_base n d
          (subst (λ i. read_container castable base bytes (suc n) data_base i ≡ ok d) at p) in
      let sound = subst (λ m. IsSound m d.payload) (sym as_card) s in
      let (reach, kind) = entry_data-Kind castable base bytes data_base e d.payload rd sound in
      let many = length-lows e.cardinality d.payload sound in
      let (lo, low) =
        last_of (lows d.payload) (omega (arith, many, index_card-pos bytes (suc n) n e re)) in
      let small = last-LowsFrom (lows d.payload) 0 lo (lows-LowsFrom d.card d.payload s) low in
      let maximum =
        container_max-lows bytes e (data_base + e.data_offset) lo d.payload reach are small kind
          low in
      let some_left : (suc n == 0) ≡ false = ground arith in
      rw (some_left, one_less, re, maximum, valued lo low, as_key, bit_or-shifted 16 d.key lo small)
        refl

  repr_max :
      (base : ℕ) (bytes : Bytes) (repr : Repr) (card : ℕ) (c : Contents)
      → AreBytes bytes
      → IsPlaced base bytes repr
      → decode castable (record { base = base; bytes = bytes; repr = repr; cardinality = card })
        ≡ ok c
      → AreSound card c
      → max (record { base = base; bytes = bytes; repr = repr; cardinality = card })
        ≡ ok (last (elements c))
  unfolding decode max inline_max read_u32
  repr_max base bytes (inline zero) card c are placed d s =
      let same =
        ok-injective
          (rw (slice-ok bytes inline_header_size (4 * 0) (omega (arith, placed.0))) at d) in
      subst (λ t. ok none ≡ ok (last (elements t))) same
        (ap (λ t. ok (last t)) (sym (no_values 4 (take (4 * 0) (drop inline_header_size bytes)))))
  repr_max base bytes (inline (suc count)) card c are placed d s =
      let same =
        ok-injective
          (rw (slice-ok bytes inline_header_size (4 * suc count) (omega (arith, placed.0))) at d) in
      let some_left : ltb 0 (suc count) ≡ true = ground arith in
      let one_less : suc count - 1 ≡ count = omega arith in
      let read = slice-ok bytes (inline_header_size + count * 4) 4 (omega (arith, placed.0)) in
      subst (λ t. inline_max bytes (suc count) ≡ ok (last (elements t))) same
        (rw (some_left, one_less, read)
          (ap ok (sym (last-cast_slice 4 count inline_header_size bytes))))
  repr_max base bytes (standard n data_base) card c are placed d s =
      elim (Exec-cases (read_containers castable base bytes n data_base 0 n)) [
        | inl p ↦ absurd (ok-ne-panic (rw p at d))
        | inr (cs, p) ↦
            let same : stored cs ≡ c = ok-injective (rw p at d) in
            let (f, l) = subst (AreSound card) (sym same) s in
            subst (λ t. standard_max bytes n data_base ≡ ok (last (elements t))) same
              (standard_max_lem base bytes n data_base cs are p f)
      ]

  -- On a well-formed view, of bytes below 256, `max` returns, and answers with the last of the
  -- elements, or with none when there is none.
  pub max_lem :
      (view : View) (wf : IsWellFormed castable view)
      → AreBytes view.bytes
      → max view ≡ ok (last (elements wf.contents))
  max_lem view wf are =
      repr_max view.base view.bytes view.repr view.cardinality wf.contents are wf.placed wf.decoded
        wf.sound
