-- ===== src/View/Read.antt =====
-- src/format.rs, src/container.rs: the containers of a view, read one by one, and their keys.
use frostbit.Base.{
  ℕ, zero, suc, ◌+◌, ◌*◌, ◌<◌, ◌≤◌, ◌≡◌, refl, sym, ap, ap₂, ◌∙◌, none, some, List, [], ◌∷◌, length,
  get_elem?, take, drop, arith, inl, inr,
}
use mathlib.Core.Path.{subst}
use frostbit.Base.Exec.{ok, Exec-cases, ok-injective, ok-ne-panic}
use frostbit.Format.Cast.{cast_slice, Castable}
use frostbit.Format.Sizes.{header_size, index_size}
use frostbit.Format.Endian.{Bytes, from_le, read_u16}
use frostbit.Format.Endian.Laws.{slice-ok}
use frostbit.Format.Index.{Index, IndexEntry, index, read_index_entry}
use frostbit.Format.Index.Borrow.{cast_slice-cons, keys-index}
use frostbit.View.{entry_data}
use frostbit.View.Contents.{Container, read_container, read_containers}
use frostbit.View.Keys.{keys_of, some-injective}

module _ (castable : Castable) (base : ℕ) (bytes : Bytes) (n data_base : ℕ) where
  pub read_containers-nil :
      (j : ℕ) (cs : List Container)
      → read_containers castable base bytes n data_base j zero ≡ ok cs
      → [] ≡ cs
  unfolding read_containers
  read_containers-nil j cs r = cc

  pub read_containers-cons :
      (rest j : ℕ) (cs : List Container)
      → read_containers castable base bytes n data_base j (suc rest) ≡ ok cs
      → (d : Container) × (ds : List Container) × (read_container castable base bytes n data_base j
          ≡ ok d)
        × (read_containers castable base bytes n data_base (j + 1) rest ≡ ok ds)
        × (d ∷ ds ≡ cs)
  unfolding read_containers
  read_containers-cons rest j cs r =
      elim (Exec-cases (read_container castable base bytes n data_base j)) [
        | inl p ↦ absurd (ok-ne-panic (rw p at r))
        | inr (d, p) ↦
            elim (Exec-cases (read_containers castable base bytes n data_base (j + 1) rest)) [
              | inl q ↦ absurd (ok-ne-panic (rw (p, q) at r))
              | inr (ds, q) ↦ (d, ds, p, q, ok-injective (rw (p, q) at r))
            ]
      ]

  pub read_containers-get :
      (rest j i : ℕ) (cs : List Container) (c : Container)
      → read_containers castable base bytes n data_base j rest ≡ ok cs
      → get_elem? cs i ≡ some c
      → (read_container castable base bytes n data_base (j + i) ≡ ok c) × (i < rest)
  read_containers-get zero j i cs c r e =
      absurd (empty (subst (λ t. get_elem? t i ≡ some c) (sym (read_containers-nil j cs r)) e))
    where
      empty : none ≡ some c → ⊥
      empty p = cc
  read_containers-get (suc rest) j zero cs c r e =
      let (d, ds, p, q, same) = read_containers-cons rest j cs r in
      let here : j + 0 ≡ j = omega arith in
      let first : some d ≡ some c = subst (λ t. get_elem? t 0 ≡ some c) (sym same) e in
      (rw here (p ∙ ap ok (some-injective first)), omega arith)
  read_containers-get (suc rest) j (suc i) cs c r e =
      let (d, ds, p, q, same) = read_containers-cons rest j cs r in
      let there : j + suc i ≡ j + 1 + i = omega arith in
      let (f, l) =
        read_containers-get rest (j + 1) i ds c q
          (subst (λ t. get_elem? t (suc i) ≡ some c) (sym same) e) in
      (rw there f, omega (arith, l))

  pub read_container-key :
      (i : ℕ) (c : Container)
      → read_container castable base bytes n data_base i ≡ ok c
      → (e : IndexEntry) × (read_index_entry bytes n i ≡ ok e)
        × (entry_data castable base bytes data_base e ≡ ok c.payload)
        × (e.key ≡ c.key)
        × (e.cardinality ≡ c.card)
  unfolding read_container
  read_container-key i c r = elim (Exec-cases (read_index_entry bytes n i)) [
    | inl p ↦ absurd (ok-ne-panic (rw p at r))
    | inr (e, p) ↦ elim (Exec-cases (entry_data castable base bytes data_base e)) [
      | inl q ↦ absurd (ok-ne-panic (rw (p, q) at r))
      | inr (d, q) ↦
          let same = ok-injective (rw (p, q) at r) in
          (e, p, q ∙ ap ok (ap (λ z. z.payload) same), ap (λ z. z.key) same, ap (λ z. z.card) same)
    ]
  ]

  pub entry_key :
      (i : ℕ) (e : IndexEntry)
      → header_size + i * 2 + 2 ≤ length bytes
      → read_index_entry bytes n i ≡ ok e
      → from_le (take 2 (drop (header_size + i * 2) bytes)) ≡ e.key
  unfolding read_index_entry read_u16
  entry_key i e room r = ground (arith, slice-ok bytes (header_size + i * 2) 2 room)

  pub keys_of-cast_slice :
      (rest j : ℕ) (cs : List Container)
      → header_size + 2 * (j + rest) ≤ length bytes
      → read_containers castable base bytes n data_base j rest ≡ ok cs
      → keys_of cs ≡ cast_slice 2 rest (take (2 * rest) (drop (header_size + j * 2) bytes))
  keys_of-cast_slice zero j cs room r =
      unfold cast_slice in subst (λ t. keys_of t ≡ []) (read_containers-nil j cs r) refl
  keys_of-cast_slice (suc rest) j cs room r =
      let (d, ds, p, q, same) = read_containers-cons rest j cs r in
      let (e, r, l, k, many) = read_container-key j d p in
      let next : header_size + (j + 1) * 2 ≡ header_size + j * 2 + 2 = omega arith in
      let after = keys_of-cast_slice rest (j + 1) ds (omega arith) q in
      subst
        (λ t.
          keys_of t
          ≡ cast_slice 2 (suc rest) (take (2 * suc rest) (drop (header_size + j * 2) bytes)))
        same
        (rw (cast_slice-cons 2 rest (header_size + j * 2) bytes)
          (ap₂ (λ a b. a ∷ b) (sym (entry_key j e (omega arith) r ∙ k)) (rw next at after)))

  pub index-keys_of :
      (cs : List Container) (idx : Index)
      → header_size + index_size n ≤ length bytes
      → read_containers castable base bytes n data_base 0 n ≡ ok cs
      → index castable base bytes n ≡ ok idx
      → keys_of cs ≡ idx.keys
  index-keys_of cs idx room r x =
      keys_of-cast_slice n 0 cs (omega arith) r ∙ sym (keys-index castable base bytes idx n room x)
