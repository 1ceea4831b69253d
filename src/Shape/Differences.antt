-- ===== src/Shape/Differences.antt =====
-- src/ops/analyze/shape.rs: the merge of `diff_shape` against what the subtrahends have at each key.
use frostbit.Base.{
  ℕ, ◌+◌, ◌≤◌, ◌<◌, ◌≡◌, refl, sym, ap, ap₂, ◌∙◌, Bool, true, false, ◌&&◌, ◌||◌, List, [], ◌∷◌,
  ◌++◌, map, ltb, ◌==◌, if◌then◌else◌, arith, inl, inr, Bool-cases,
}
use frostbit.Format.Sizes.{ct_array, ct_run}
use frostbit.Decide.{diff_key_shape}
use frostbit.Shape.{
  Meta, Shape, Rhs, at_key, pass, pass_all, drop_below, drop_all, gather_rhs, meet_rhs, diff_meta,
  diff_loop, diff_shape, stored,
}
use frostbit.Shape.Keys.{From, AllFrom, From-weaken}

-- The containers that a shape has at a key, wherever they stand in it.
abbrev pub with_key : ℕ → Shape → Shape
with_key k [] = []
with_key k (m ∷ s) = if m.key == k then m ∷ with_key k s else with_key k s

abbrev pub all_with_key : ℕ → List Shape → List Meta
all_with_key k [] = []
all_with_key k (s ∷ ss) = with_key k s ++ all_with_key k ss

-- Whether a run can be split by it, and into how many fragments more.
abbrev splits : Meta → Bool
splits m = (m.typ == ct_run) || (m.typ == ct_array)

abbrev fragments : Meta → ℕ
fragments m = if m.typ == ct_run then m.runs else if m.typ == ct_array then m.card else 0

abbrev pub all_split : List Meta → Bool
all_split [] = true
all_split (m ∷ ms) = splits m && all_split ms

abbrev pub sum_fragments : List Meta → ℕ
sum_fragments [] = 0
sum_fragments (m ∷ ms) = fragments m + sum_fragments ms

abbrev pub some_at : List Meta → Bool
some_at [] = false
some_at (m ∷ ms) = true

-- The container of the difference where the subtrahends have `ms`: the decision on its own cardinality
-- and size, with the fragments that every one of `ms` can add to its runs.
abbrev pub less : Meta → List Meta → Meta
less l ms =
    let c =
      diff_key_shape (record { card = l.card; typ = l.typ; runs = l.runs; stored = stored l })
        (some_at ms) (all_split ms) (l.runs + sum_fragments ms) in
    record { key = l.key; capacity = c.capacity; card = l.card; runs = c.runs; typ = c.typ }

same_rhs :
    {i i' s s' : Bool} {b b' : ℕ}
    → i ≡ i'
    → s ≡ s'
    → b ≡ b'
    → ◌≡◌ {A = Rhs}
        (record { in_rhs = i; all_split = s; bound = b })
        (record { in_rhs = i'; all_split = s'; bound = b' })
same_rhs p q r = rw (p, q, r) refl

and_true : (b : Bool) → (b && true) ≡ b
and_true true = refl
and_true false = refl

and_false : (b : Bool) → (b && false) ≡ false
and_false true = refl
and_false false = refl

and_assoc : (a b c : Bool) → ((a && b) && c) ≡ (a && (b && c))
and_assoc true b c = refl
and_assoc false b c = refl

or_true : (b : Bool) → (b || true) ≡ true
or_true true = refl
or_true false = refl

or_false : (b : Bool) → (b || false) ≡ b
or_false true = refl
or_false false = refl

meet_rhs_lem :
    (m : Meta) (i s : Bool) (b : ℕ)
    → meet_rhs m (record { in_rhs = i; all_split = s; bound = b })
      ≡ record { in_rhs = true; all_split = s && splits m; bound = b + fragments m }
unfolding meet_rhs
meet_rhs_lem m i s b = elim (Bool-cases (m.typ == ct_run)) [
  | inl y ↦ rw y (same_rhs refl (sym (and_true s)) refl)
  | inr n ↦ elim (Bool-cases (m.typ == ct_array)) [
    | inl y ↦ rw (n, y) (same_rhs refl (sym (and_true s)) refl)
    | inr k ↦ rw (n, k) (same_rhs refl (sym (and_false s)) (omega arith))
  ]
]

gather_rhs_lem :
    (ms : List Meta) (i s : Bool) (b : ℕ)
    → gather_rhs ms (record { in_rhs = i; all_split = s; bound = b }) ≡ record {
      in_rhs = i || some_at ms;
      all_split = s && all_split ms;
      bound = b + sum_fragments ms;
    }
unfolding gather_rhs
gather_rhs_lem [] i s b = same_rhs (sym (or_false i)) (sym (and_true s)) (omega arith)
gather_rhs_lem (m ∷ ms) i s b =
    ap (gather_rhs ms) (meet_rhs_lem m i s b)
    ∙ gather_rhs_lem ms true (s && splits m) (b + fragments m)
    ∙ same_rhs (sym (or_true i)) (and_assoc s (splits m) (all_split ms)) (omega arith)

with_key-below : (k lo : ℕ) (s : Shape) → k < lo → From lo s → with_key k s ≡ []
with_key-below k lo [] h f = refl
with_key-below k lo (m ∷ s) h (a, f) =
    let n : (m.key == k) ≡ false = ground arith in
    rw n (with_key-below k (m.key + 1) s (omega arith) f)

taken :
    (k lo : ℕ) (s : Shape) (curs : List Shape)
    → From lo s
    → at_key k (drop_below k s ∷ curs) ≡ with_key k s ++ at_key k curs
unfolding at_key drop_below
taken k lo [] curs f = refl
taken k lo (m ∷ s) curs (a, f) = elim (Bool-cases (ltb m.key k)) [
  | inl y ↦
      let n : (m.key == k) ≡ false = ground (arith, y) in rw (y, n) (taken k (m.key + 1) s curs f)
  | inr n ↦ elim (Bool-cases (m.key == k)) [
    | inl e ↦
        let none_left = with_key-below k (m.key + 1) s (ground (arith, e)) f in
        rw (n, e, none_left) refl
    | inr e ↦
        let none_left = with_key-below k (m.key + 1) s (ground (arith, n)) f in
        rw (n, e, none_left) refl
  ]
]

all_taken :
    (k : ℕ) (curs : List Shape) → AllFrom 0 curs → at_key k (drop_all k curs) ≡ all_with_key k curs
unfolding drop_all at_key
all_taken k [] f = refl
all_taken k (s ∷ curs) (a, f) =
    taken k 0 s (drop_all k curs) a ∙ ap (λ ms. with_key k s ++ ms) (all_taken k curs f)

-- What is left behind a round.
left_From : (k lo : ℕ) (s : Shape) → From lo s → From lo (pass k (drop_below k s))
unfolding drop_below
left_From k lo [] f = tt
left_From k lo (m ∷ s) (a, f) = elim (Bool-cases (ltb m.key k)) [
  | inl y ↦ rw y (From-weaken (m.key + 1) lo _ (omega arith) (left_From k (m.key + 1) s f))
  | inr n ↦ elim (Bool-cases (m.key == k)) [
    | inl e ↦ rw (n, e) (From-weaken (m.key + 1) lo s (omega arith) f)
    | inr e ↦ rw (n, e) (a, f)
  ]
]

left_AllFrom :
    (k : ℕ) (curs : List Shape) → AllFrom 0 curs → AllFrom 0 (pass_all k (drop_all k curs))
unfolding pass_all drop_all
left_AllFrom k [] f = tt
left_AllFrom k (s ∷ curs) (a, f) = (left_From k 0 s a, left_AllFrom k curs f)

left_with_key : (k j : ℕ) (s : Shape) → k < j → with_key j (pass k (drop_below k s)) ≡ with_key j s
unfolding drop_below
left_with_key k j [] h = refl
left_with_key k j (m ∷ s) h = elim (Bool-cases (ltb m.key k)) [
  | inl y ↦ let n : (m.key == j) ≡ false = ground (arith, y) in rw (y, n) (left_with_key k j s h)
  | inr n ↦ elim (Bool-cases (m.key == k)) [
    | inl e ↦ let d : (m.key == j) ≡ false = ground (arith, e) in rw (n, e, d) refl
    | inr e ↦ rw (n, e) refl
  ]
]

left_all :
    (k j : ℕ) (curs : List Shape)
    → k < j
    → all_with_key j (pass_all k (drop_all k curs)) ≡ all_with_key j curs
unfolding pass_all drop_all
left_all k j [] h = refl
left_all k j (s ∷ curs) h = ap₂ (λ a b. a ++ b) (left_with_key k j s h) (left_all k j curs h)

diff_meta_lem : (l : Meta) (ms : List Meta) → diff_meta l ms ≡ less l ms
unfolding diff_meta
diff_meta_lem l ms = rw (gather_rhs_lem ms false true l.runs) refl

diff_loop_lem :
    (lo : ℕ) (lhs : Shape) (curs rest : List Shape)
    → From lo lhs
    → AllFrom 0 curs
    → ((k : ℕ) → lo ≤ k → all_with_key k curs ≡ all_with_key k rest)
    → diff_loop lhs curs ≡ map (λ l. less l (all_with_key l.key rest)) lhs
unfolding diff_loop
diff_loop_lem lo [] curs rest f g same = refl
diff_loop_lem lo (l ∷ ls) curs rest (a, f) g same =
    ap₂ (λ m s. m ∷ s)
      (diff_meta_lem l (at_key l.key (drop_all l.key curs))
        ∙ ap (less l) (all_taken l.key curs g ∙ same l.key a))
      (diff_loop_lem (l.key + 1) ls (pass_all l.key (drop_all l.key curs)) rest f
        (left_AllFrom l.key curs g)
        (λ k h. left_all l.key k curs (omega arith) ∙ same k (omega (arith, a, h))))

-- Where the keys of every input ascend, the shape of a difference is made of the containers of the
-- first input, one by one, each decided by its own size and by the containers that the other inputs
-- have at its key.
pub diff_shape_lem :
    (lhs : Shape) (rest : List Shape)
    → From 0 lhs
    → AllFrom 0 rest
    → diff_shape (lhs ∷ rest) ≡ map (λ l. less l (all_with_key l.key rest)) lhs
unfolding diff_shape
diff_shape_lem lhs rest f g = diff_loop_lem 0 lhs rest rest f g (λ k h. refl)
