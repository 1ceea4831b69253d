-- ===== src/Shape/Combine.antt =====
-- The keys of a combined shape, for each of the three operations.
use frostbit.Base.{
  ℕ, zero, suc, ◌+◌, ◌≤◌, ◌<◌, ◌≡◌, refl, sym, ap, ap₂, ◌∙◌, Bool, true, false, ◌&&◌, ◌||◌, none,
  some, List, [], ◌∷◌, length, ◌==◌, if◌then◌else◌, arith, inl, inr, Bool-cases, Option-cases,
  ==_iff,
}
use frostbit.Shape.{
  Meta, Shape, min_key, at_key, pass_all, total, intersect_meta, intersect_loop, intersect_shape,
  union_meta, union_loop, union_shape_agg, diff_meta, diff_loop, diff_shape, drop_all,
}
use frostbit.Shape.Keys.{
  From, AllFrom, has_key, all_have, any_has, is_cons, From-weaken, has_key-below, min_key-AllFrom,
  no_key, all_have-any_has, pass_all-AllFrom, length-pass_all, all_have-pass_all, any_has-pass_all,
  is_cons-pass_all, at_key-all_have, at_key-any_has, total-pass_all,
}

-- Each round takes a container.
round_total :
    (lo key fuel : ℕ) (curs : List Shape)
    → AllFrom lo curs
    → min_key curs ≡ some key
    → total curs ≤ fuel
    → total (pass_all key curs) + 1 ≤ fuel
round_total lo key fuel curs f e h =
    let (a, b, c) = min_key-AllFrom lo key curs f e in omega (arith, c, total-pass_all key curs)

no_fuel : (lo : ℕ) (curs : List Shape) → AllFrom lo curs → total curs ≤ 0 → min_key curs ≡ none
no_fuel lo curs f h = elim (Option-cases (min_key curs)) [
  | inl n ↦ n
  | inr (key, e) ↦ absurd (omega (arith, round_total lo key 0 curs f e h))
]

intersect_meta-key : (key : ℕ) (ms : List Meta) → (intersect_meta key ms).key ≡ key
unfolding intersect_meta
intersect_meta-key key ms = refl

-- What a round emits at `key`, before what the later rounds do.
emitted :
    (b : Bool) (m : Meta) (key k : ℕ) (rest : Shape) (q : Bool)
    → m.key ≡ key
    → From (key + 1) rest
    → ((key == k) ≡ true → b ≡ q)
    → ((key == k) ≡ false → has_key rest k ≡ q)
    → has_key (if b then m ∷ rest else rest) k ≡ q
emitted true m key k rest q e f here there = elim (Bool-cases (key == k)) [
  | inl y ↦ rw e (rw y (here y))
  | inr n ↦ rw e (rw n (there n))
]
emitted false m key k rest q e f here there = elim (Bool-cases (key == k)) [
  | inl y ↦ has_key-below (key + 1) k rest (ground (arith, y)) f ∙ here y
  | inr n ↦ there n
]

emitted-From :
    (b : Bool) (m : Meta) (lo key : ℕ) (rest : Shape)
    → m.key ≡ key
    → lo ≤ key
    → From (key + 1) rest
    → From lo (if b then m ∷ rest else rest)
emitted-From true m lo key rest e h f = rw e (h, f)
emitted-From false m lo key rest e h f = From-weaken (key + 1) lo rest (omega arith) f

at_key-is_cons : (key : ℕ) (curs : List Shape) → 0 < length (at_key key curs) → is_cons curs ≡ true
unfolding at_key
at_key-is_cons key [] h = absurd (omega arith)
at_key-is_cons key (s ∷ curs) h = refl

intersect_loop_lem :
    (fuel n lo : ℕ) (curs : List Shape)
    → AllFrom lo curs
    → total curs ≤ fuel
    → length curs ≡ n
    → From lo (intersect_loop fuel n curs)
      × ((k : ℕ) → has_key (intersect_loop fuel n curs) k ≡ (is_cons curs && all_have curs k))
unfolding intersect_loop
intersect_loop_lem zero n lo curs f h e =
    (tt, λ k. sym (all_have-any_has curs k (no_key curs k (no_fuel lo curs f h))))
intersect_loop_lem (suc fuel) n lo curs f h e = elim (Option-cases (min_key curs)) [
  | inl z ↦ rw (z, intersect_loop) (tt, λ k. sym (all_have-any_has curs k (no_key curs k z)))
  | inr (key, z) ↦
      let (a, b, c) = min_key-AllFrom lo key curs f z in
      let left : total (pass_all key curs) ≤ fuel =
        omega (arith, round_total lo key (suc fuel) curs f z h) in
      let (r, q) =
        intersect_loop_lem fuel n (key + 1) (pass_all key curs) (pass_all-AllFrom key curs b) left
          (length-pass_all key curs ∙ e) in
      rw (z, intersect_loop)
        (
          emitted-From (length (at_key key curs) == n) (intersect_meta key (at_key key curs)) lo key
              (intersect_loop fuel n (pass_all key curs)) (intersect_meta-key key (at_key key curs))
              a r,
          λ k.
              emitted (length (at_key key curs) == n) (intersect_meta key (at_key key curs)) key k
                (intersect_loop fuel n (pass_all key curs)) (is_cons curs && all_have curs k)
                (intersect_meta-key key (at_key key curs)) r (here key k b c) (there key k q),
        )
]
  where
    here :
        (key k : ℕ)
        → AllFrom key curs
        → 0 < length (at_key key curs)
        → (key == k) ≡ true
        → (length (at_key key curs) == n) ≡ (is_cons curs && all_have curs k)
    here key k b c y =
        let same : key ≡ k = (==_iff key k).0 y in
        ap (λ i. length (at_key key curs) == i) (sym e)
        ∙ at_key-all_have key curs b
        ∙ ap₂ ◌&&◌ (sym (at_key-is_cons key curs c)) (ap (all_have curs) same)

    there :
        (key k : ℕ)
        → ((k : ℕ)
            → has_key (intersect_loop fuel n (pass_all key curs)) k
              ≡ (is_cons (pass_all key curs) && all_have (pass_all key curs) k))
        → (key == k) ≡ false
        → has_key (intersect_loop fuel n (pass_all key curs)) k ≡ (is_cons curs && all_have curs k)
    there key k q y = q k ∙ ap₂ ◌&&◌ (is_cons-pass_all key curs) (all_have-pass_all key k curs y)

-- Of inputs with ascending keys, the shape of the intersection has ascending keys, which are those
-- that every input has; of no inputs it is empty.
pub intersect_shape-has_key :
    (inputs : List Shape)
    → AllFrom 0 inputs
    → From 0 (intersect_shape inputs)
      × ((k : ℕ) → has_key (intersect_shape inputs) k ≡ (is_cons inputs && all_have inputs k))
unfolding intersect_shape
intersect_shape-has_key inputs f =
    intersect_loop_lem (total inputs) (length inputs) 0 inputs f (omega arith) refl

union_meta-key : (key : ℕ) (ms : List Meta) → (union_meta key ms).key ≡ key
unfolding union_meta
union_meta-key key ms = refl

union_loop_lem :
    (fuel lo : ℕ) (exact : List Bool) (curs : List Shape)
    → AllFrom lo curs
    → total curs ≤ fuel
    → From lo (union_loop fuel exact curs).0
      × ((k : ℕ) → has_key (union_loop fuel exact curs).0 k ≡ any_has curs k)
      × (length (union_loop fuel exact curs).1 ≡ length (union_loop fuel exact curs).0)
unfolding union_loop
union_loop_lem zero lo exact curs f h = (tt, λ k. sym (no_key curs k (no_fuel lo curs f h)), refl)
union_loop_lem (suc fuel) lo exact curs f h = elim (Option-cases (min_key curs)) [
  | inl z ↦ rw (z, union_loop) (tt, λ k. sym (no_key curs k z), refl)
  | inr (key, z) ↦
      let (a, b, c) = min_key-AllFrom lo key curs f z in
      let left : total (pass_all key curs) ≤ fuel =
        omega (arith, round_total lo key (suc fuel) curs f z h) in
      let (r, q, l) =
        union_loop_lem fuel (key + 1) exact (pass_all key curs) (pass_all-AllFrom key curs b)
          left in
      rw (z, union_loop)
        (
          emitted-From true (union_meta key (at_key key curs)) lo key
              (union_loop fuel exact (pass_all key curs)).0 (union_meta-key key (at_key key curs)) a
              r,
          λ k.
              emitted true (union_meta key (at_key key curs)) key k
                (union_loop fuel exact (pass_all key curs)).0 (any_has curs k)
                (union_meta-key key (at_key key curs)) r (here key k c)
                (λ y. q k ∙ any_has-pass_all key k curs y),
          ap suc l,
        )
]
  where
    here : (key k : ℕ) → 0 < length (at_key key curs) → (key == k) ≡ true → true ≡ any_has curs k
    here key k c y = sym (at_key-any_has key curs c) ∙ ap (any_has curs) ((==_iff key k).0 y)

-- Of inputs with ascending keys, the shape of the union has ascending keys, which are those that some
-- input has, whether the leaf half of the aggregates is recorded or not; where it is, there is one
-- aggregate for each key.
pub union_shape_agg-has_key :
    (inputs : List Shape) (exact : List Bool)
    → AllFrom 0 inputs
    → From 0 (union_shape_agg inputs exact).0
      × ((k : ℕ) → has_key (union_shape_agg inputs exact).0 k ≡ any_has inputs k)
      × (length (union_shape_agg inputs exact).1
          ≡ (if is_cons exact then length (union_shape_agg inputs exact).0 else 0))
unfolding union_shape_agg
union_shape_agg-has_key inputs [] f =
    let (r, q, l) = union_loop_lem (total inputs) 0 [] inputs f (omega arith) in (r, q, refl)
union_shape_agg-has_key inputs (e ∷ exact) f =
    union_loop_lem (total inputs) 0 (e ∷ exact) inputs f (omega arith)

diff_meta-key : (l : Meta) (ms : List Meta) → (diff_meta l ms).key ≡ l.key
unfolding diff_meta
diff_meta-key l ms = refl

-- The shape of a difference has the keys of the first input, in their order, whatever the others are.
pub diff_shape-has_key :
    (lhs : Shape) (rest : List Shape) (lo : ℕ)
    → From lo lhs
    → From lo (diff_shape (lhs ∷ rest))
      × ((k : ℕ) → has_key (diff_shape (lhs ∷ rest)) k ≡ has_key lhs k)
unfolding diff_shape diff_loop
diff_shape-has_key [] rest lo f = (tt, λ k. refl)
diff_shape-has_key (l ∷ ls) rest lo (a, f) =
    let curs = drop_all l.key rest in
    let same = diff_meta-key l (at_key l.key curs) in
    let (r, q) = diff_shape-has_key ls (pass_all l.key curs) (l.key + 1) f in
    rw same ((a, r), λ k. ap (λ b. l.key == k || b) (q k))
