-- ===== src/View/Contains.antt =====
-- src/api/view.rs: `contains` against the contents of a well-formed view.
use frostbit.Base.{
  ℕ, ◌+◌, ◌*◌, ◌/◌, ◌%◌, ◌^◌, ◌<◌, ◌≤◌, ◌≡◌, sym, ap, ◌∙◌, false, Option, some, List, [], ◌∷◌,
  length, get_elem?, take, drop, arith, inl, inr, Option-cases, length-take, length-drop,
}
use mathlib.Core.Path.{subst}
use frostbit.Base.Exec.{ok, ◌>>=◌, Exec-cases, ok-injective, ok-ne-panic}
use frostbit.Base.Search.{Above, Ascending, binary_search, binary_search_iff}
use frostbit.Format.Cast.{cast_slice, Castable, IsBytemuck, try_cast, unwrap}
use frostbit.Format.Sizes.{header_size, index_size, inline_header_size, word_align}
use frostbit.Format.Endian.{Bytes}
use frostbit.Format.Endian.Laws.{slice-ok}
use frostbit.Format.Index.{Index, IndexEntry, index, find, entry}
use frostbit.Format.Index.Borrow.{entry-index, index_total}
use frostbit.Container.Lows.{has}
use frostbit.Container.Payload.{Data, is_some}
use frostbit.Container.Payload
use frostbit.Container.Payload.Contains.{is_some-binary_search}
use frostbit.Container.Content.{contains-holds}
use frostbit.View.{View, Repr, standard, inline, entry_data}
use frostbit.View.Query.{inline_contains, found_contains, standard_contains, contains}
use frostbit.View.Contents.{
  Container, Contents, packed, stored, read_containers, decode, ValuesFrom, ContainersFrom,
  has_value, member, AreSound, IsPlaced, IsWellFormed, elements,
}
use frostbit.View.Elements.{has-elements}
use frostbit.View.Keys.{
  keys_of, ContainersFrom-Ascending, has_value-absent, has_value-get, get_elem?-keys_of,
}
use frostbit.View.Read.{read_containers-get, read_container-key, index-keys_of}

module _ (castable : Castable) (documented : IsBytemuck castable) (base : ℕ)
    (aligned : base % word_align ≡ 0) (bytes : Bytes) (n data_base : ℕ) where
  -- The probe of the container that the search has found.
  probe :
      (cs : List Container) (key lo i : ℕ) (idx : Index)
      → header_size + index_size n ≤ length bytes
      → read_containers castable base bytes n data_base 0 n ≡ ok cs
      → ContainersFrom 0 cs
      → index castable base bytes n ≡ ok idx
      → get_elem? (keys_of cs) i ≡ some key
      → (e : IndexEntry) × (d : Data) × (entry idx i ≡ ok e)
        × (entry_data castable base bytes data_base e ≡ ok d)
        × (Payload.contains d lo ≡ has_value cs key lo)
  probe cs key lo i idx room r f x g =
      let (c, at, same) = get_elem?-keys_of cs i g in
      let (rc, inside) = read_containers-get castable base bytes n data_base n 0 i cs c r at in
      let from_start : 0 + i ≡ i = omega arith in
      let (e, re, rd, k, many) =
        read_container-key castable base bytes n data_base i c (rw from_start at rc) in
      let (idx', x', en) = entry-index castable base bytes n i documented aligned inside room in
      let (h, s, l) = has_value-get cs 0 i lo c f at in
      (
        e,
        c.payload,
        ap (λ z. entry z i) (ok-injective (sym x ∙ x')) ∙ en ∙ re,
        rd,
        contains-holds c.card lo c.payload s ∙ sym h ∙ ap (λ t. has_value cs t lo) same,
      )

  standard_contains_lem :
      (cs : List Container) (value : ℕ)
      → header_size + index_size n ≤ length bytes
      → read_containers castable base bytes n data_base 0 n ≡ ok cs
      → ContainersFrom 0 cs
      → standard_contains castable base bytes n data_base value
        ≡ ok (has_value cs (value / 2 ^ 16 % 2 ^ 16) (value % 2 ^ 16))
  unfolding standard_contains found_contains
  standard_contains_lem cs value room r f =
      let key = value / 2 ^ 16 % 2 ^ 16 in
      let lo = value % 2 ^ 16 in
      let ascending = ContainersFrom-Ascending 0 cs f in
      let (idx, x) = index_total castable base bytes n documented aligned room in
      let keys = index-keys_of castable base bytes n data_base cs idx room r x in
      elim (Option-cases (binary_search (keys_of cs) key)) [
        | inl none_found ↦
            let absent : has (keys_of cs) key ≡ false =
              sym (is_some-binary_search (keys_of cs) key ascending) ∙ ap is_some none_found in
            opened idx x (searched idx keys none_found)
            ∙ ap ok (sym (has_value-absent cs key lo absent))
        | inr (i, found) ↦
            let at = (binary_search_iff (keys_of cs) key i ascending).0 found in
            let (e, d, en, ed, same) = probe cs key lo i idx room r f x at in
            opened idx x (searched idx keys found) ∙ rw (en, ed) (ap ok same)
      ]
    where
      opened :
          (idx : Index) {o : Option ℕ}
          → index castable base bytes n ≡ ok idx
          → find idx (value / 2 ^ 16 % 2 ^ 16) ≡ o
          → standard_contains castable base bytes n data_base value
            ≡ found_contains castable base bytes data_base idx value o
      opened idx x e =
          ap
            (λ m. m >>= λ i.
              found_contains castable base bytes data_base i value
                (find i (value / 2 ^ 16 % 2 ^ 16)))
            x
          ∙ ap (found_contains castable base bytes data_base idx value) e

      searched :
          (idx : Index) {o : Option ℕ}
          → keys_of cs ≡ idx.keys
          → binary_search (keys_of cs) (value / 2 ^ 16 % 2 ^ 16) ≡ o
          → find idx (value / 2 ^ 16 % 2 ^ 16) ≡ o
      searched idx keys e =
          unfold find in ap (λ t. binary_search t (value / 2 ^ 16 % 2 ^ 16)) (sym keys) ∙ e

module _ (castable : Castable) (documented : IsBytemuck castable) where
  inline_contains_lem :
      (base : ℕ) (bytes : Bytes) (count value : ℕ)
      → base % 4 ≡ 0
      → inline_header_size + count * 4 ≤ length bytes
      → Ascending (cast_slice 4 count (take (4 * count) (drop inline_header_size bytes)))
      → inline_contains castable base bytes count value
        ≡ ok (has (cast_slice 4 count (take (4 * count) (drop inline_header_size bytes))) value)
  unfolding inline_contains try_cast unwrap
  inline_contains_lem base bytes count value aligned room a =
      let s = take (4 * count) (drop inline_header_size bytes) in
      let long : length s ≡ 4 * count =
        omega (arith, length-take (4 * count) (drop 4 bytes), length-drop 4 bytes) in
      let whole : length s / 4 ≡ count = omega (arith, long) in
      let cast = documented.accepts 4 4 (base + 4) (length s) (omega arith) (omega (arith, long)) in
      rw (slice-ok bytes 4 (4 * count) (omega arith), cast, whole)
        (ap ok (is_some-binary_search (cast_slice 4 count s) value a))

  ValuesFrom-Above : (k x : ℕ) (vs : List ℕ) → x < k → ValuesFrom k vs → Above x vs
  ValuesFrom-Above k x [] h f = tt
  ValuesFrom-Above k x (v ∷ vs) h (a, b, f) =
      (omega arith, ValuesFrom-Above (v + 1) v vs (omega arith) f)

  ValuesFrom-Ascending : (vs : List ℕ) → ValuesFrom 0 vs → Ascending vs
  ValuesFrom-Ascending [] f = tt
  ValuesFrom-Ascending (v ∷ vs) (a, b, f) = ValuesFrom-Above (v + 1) v vs (omega arith) f

  -- By the encoding.
  repr_contains :
      (base : ℕ) (bytes : Bytes) (repr : Repr) (card : ℕ) (c : Contents) (value : ℕ)
      → base % 4 ≡ 0
      → value < 2 ^ 32
      → IsPlaced base bytes repr
      → decode castable (record { base = base; bytes = bytes; repr = repr; cardinality = card })
        ≡ ok c
      → AreSound card c
      → contains castable
          (record { base = base; bytes = bytes; repr = repr; cardinality = card })
          value
        ≡ ok (member c value)
  unfolding decode contains
  repr_contains base bytes (inline count) card c value aligned fits placed d s =
      let vs = cast_slice 4 count (take (4 * count) (drop inline_header_size bytes)) in
      let same : packed vs ≡ c =
        ok-injective
          (rw (slice-ok bytes inline_header_size (4 * count) (omega (arith, placed.0))) at d) in
      let (f, l) = subst (AreSound card) (sym same) s in
      subst (λ t. inline_contains castable base bytes count value ≡ ok (member t value)) same
        (inline_contains_lem base bytes count value aligned placed.0 (ValuesFrom-Ascending vs f))
  repr_contains base bytes (standard n data_base) card c value aligned fits placed d s =
      elim (Exec-cases (read_containers castable base bytes n data_base 0 n)) [
        | inl p ↦ absurd (ok-ne-panic (rw p at d))
        | inr (cs, p) ↦
            let same : stored cs ≡ c = ok-injective (rw p at d) in
            let (f, l) = subst (AreSound card) (sym same) s in
            let key : value / 2 ^ 16 % 2 ^ 16 ≡ value / 2 ^ 16 = omega arith in
            subst
              (λ t. standard_contains castable base bytes n data_base value ≡ ok (member t value))
              same
              (standard_contains_lem castable documented base placed.1 bytes n data_base cs value
                  placed.0 p f
                ∙ ap (λ t. ok (has_value cs t (value % 2 ^ 16))) key)
      ]

  -- Where casts are tested as bytemuck documents, `contains` on a well-formed view that stands at a
  -- multiple of four returns, no cast of its values or its index refused, and answers whether a `u32`
  -- is among the elements.
  pub contains_lem :
      (view : View) (wf : IsWellFormed castable view) (value : ℕ)
      → view.base % 4 ≡ 0
      → value < 2 ^ 32
      → contains castable view value ≡ ok (has (elements wf.contents) value)
  contains_lem view wf value aligned fits =
      repr_contains view.base view.bytes view.repr view.cardinality wf.contents value aligned fits
        wf.placed wf.decoded wf.sound
      ∙ ap ok (sym (has-elements view.cardinality value wf.contents wf.sound))
