-- ===== src/Runs/Intersect.antt =====
-- `run::intersect`: the values in both run lists.
use frostbit.Base.{
  ℕ, ◌+◌, ◌^◌, ◌≤◌, ◌<◌, ◌≡◌, min, max, Bool, true, false, ◌&&◌, ◌||◌, List, [], ◌∷◌, leb, arith,
  refl, sym, ap, ap₂, ◌∙◌, length, Bool-cases, inl, inr,
}
use mathlib.Core.Path.{fun_ext}
use frostbit.Base.Exec.{Exec, ◌>>=◌}
use frostbit.Container.Run.{Run, end, IsRuns, covers}
use frostbit.Runs.{Output, nothing, emit_if, intersect_loop, intersect}
use frostbit.Runs.Span.{
  Span, span, From, holds, holds_below, spans, From-spans, holds-spans, length-spans,
}
use frostbit.Runs.Emit.{
  Delivers, emit_all, one_if, emit_all-one_if, From-one_if, holds-one_if, emit_all-nil,
  emit_all-Delivers,
}

-- The intervals that the loop emits, in order.
meet : List Span → List Span → List Span
meet [] ys = []
meet (a ∷ xs) [] = []
meet (a ∷ xs) (b ∷ ys) = elim (leb a.hi b.hi) [
  | true ↦
      one_if (leb (max a.lo b.lo) (min a.hi b.hi)) (max a.lo b.lo) (min a.hi b.hi)
        (meet xs (b ∷ ys))
  | false ↦
      one_if (leb (max a.lo b.lo) (min a.hi b.hi)) (max a.lo b.lo) (min a.hi b.hi)
        (meet (a ∷ xs) ys)
]

-- One round of `meet`, by the side whose interval ends first.
abbrev common : Span → Span → List Span → List Span
common a b ss = one_if (leb (max a.lo b.lo) (min a.hi b.hi)) (max a.lo b.lo) (min a.hi b.hi) ss

meet-left :
    (a b : Span) (xs ys : List Span)
    → leb a.hi b.hi ≡ true
    → meet (a ∷ xs) (b ∷ ys) ≡ common a b (meet xs (b ∷ ys))
unfolding meet
meet-left a b xs ys h = rw (h, meet)

meet-right :
    (a b : Span) (xs ys : List Span)
    → leb a.hi b.hi ≡ false
    → meet (a ∷ xs) (b ∷ ys) ≡ common a b (meet (a ∷ xs) ys)
unfolding meet
meet-right a b xs ys h = rw (h, meet)

From-common :
    (k : ℕ) (a b : Span) (ss : List Span)
    → k ≤ max a.lo b.lo
    → a.hi < 2 ^ 16
    → From (min a.hi b.hi + 1) ss
    → From k ss
    → From k (common a b ss)
From-common k a b ss h ha f g = From-one_if k _ _ ss h (omega arith) f g

meet-From :
    (k m n : ℕ) (xs ys : List Span) → From k xs → From m ys → n ≤ max k m → From n (meet xs ys)
meet-From k m n [] ys f g h = unfold meet in tt
meet-From k m n (a ∷ xs) [] f g h = unfold meet in tt
meet-From k m n (a ∷ xs) (b ∷ ys) (f1, f2, f3, f4) (g1, g2, g3, g4) h =
    elim (Bool-cases (leb a.hi b.hi)) [
      | inl t ↦ rw (meet-left a b xs ys t) (
          From-common n a b (meet xs (b ∷ ys)) (omega arith) f3
            (meet-From (a.hi + 1) m (min a.hi b.hi + 1) xs (b ∷ ys) f4 (g1, g2, g3, g4)
              (omega arith))
            (meet-From (a.hi + 1) m n xs (b ∷ ys) f4 (g1, g2, g3, g4) (omega arith)))
      | inr t ↦ rw (meet-right a b xs ys t) (
          From-common n a b (meet (a ∷ xs) ys) (omega arith) f3
            (meet-From k (b.hi + 1) (min a.hi b.hi + 1) (a ∷ xs) ys (f1, f2, f3, f4) g4
              (omega arith))
            (meet-From k (b.hi + 1) n (a ∷ xs) ys (f1, f2, f3, f4) g4 (omega arith)))
    ]

within : Span → ℕ → Bool
within s x = leb s.lo x && leb x s.hi

holds-common :
    (a b : Span) (ss : List Span) (x : ℕ)
    → holds (common a b ss) x ≡ ((within a x && within b x) || holds ss x)
unfolding within
holds-common a b ss x =
    holds-one_if (max a.lo b.lo) (min a.hi b.hi) x ss
    ∙ ap (λ t. t || holds ss x)
        (let e : (leb (max a.lo b.lo) x && leb x (min a.hi b.hi))
              ≡ ((leb a.lo x && leb x a.hi) && (leb b.lo x && leb x b.hi)) =
            ground arith in
          e)

-- Distributing a pair of unions, where the head of one side excludes the rest of the other.
and_of_unions :
    (p q u v : Bool)
    → (p ≡ true → v ≡ false)
    → ((p && q) || (u && (q || v))) ≡ ((p || u) && (q || v))
and_of_unions p q u v h = ground arith

and_of_unions' :
    (p q u v : Bool)
    → (q ≡ true → u ≡ false)
    → ((p && q) || ((p || u) && v)) ≡ ((p || u) && (q || v))
and_of_unions' p q u v h = ground arith

before : (a b : Span) (x : ℕ) → within a x ≡ true → leb a.hi b.hi ≡ true → x < b.hi + 1
unfolding within
before a b x p t = ground arith

before' : (a b : Span) (x : ℕ) → within b x ≡ true → leb a.hi b.hi ≡ false → x < a.hi + 1
unfolding within
before' a b x p t = ground arith

holds-meet :
    (k m x : ℕ) (xs ys : List Span)
    → From k xs
    → From m ys
    → holds (meet xs ys) x ≡ (holds xs x && holds ys x)
unfolding meet within
holds-meet k m x [] ys f g = refl
holds-meet k m x (a ∷ xs) [] f g = ground arith
holds-meet k m x (a ∷ xs) (b ∷ ys) f g = elim (Bool-cases (leb a.hi b.hi)) [
  | inl t ↦
      ap (λ s. holds s x) (meet-left a b xs ys t)
      ∙ holds-common a b (meet xs (b ∷ ys)) x
      ∙ ap (λ s. (within a x && within b x) || s) (holds-meet (a.hi + 1) m x xs (b ∷ ys) f.3 g)
      ∙ and_of_unions (within a x) (within b x) (holds xs x) (holds ys x)
          (λ p. holds_below (b.hi + 1) x ys g.3 (before a b x p t))
  | inr t ↦
      ap (λ s. holds s x) (meet-right a b xs ys t)
      ∙ holds-common a b (meet (a ∷ xs) ys) x
      ∙ ap (λ s. (within a x && within b x) || s) (holds-meet k (b.hi + 1) x (a ∷ xs) ys f g.3)
      ∙ and_of_unions' (within a x) (within b x) (holds xs x) (holds ys x)
          (λ p. holds_below (a.hi + 1) x xs f.3 (before' a b x p t))
]

length-meet : (xs ys : List Span) → length (meet xs ys) ≤ length xs + length ys
unfolding meet
length-meet [] ys = omega arith
length-meet (a ∷ xs) [] = omega arith
length-meet (a ∷ xs) (b ∷ ys) = ground (arith, length-meet xs (b ∷ ys), length-meet (a ∷ xs) ys)

module _ (room : ℕ) (a b : Run) (xs ys : List Run) (o : Output) where
  abbrev first : Exec Output
  first =
      emit_if (leb (max a.start b.start) (min (end a) (end b))) room (max a.start b.start)
        (min (end a) (end b)) o

  intersect_loop-left :
      leb (end a) (end b) ≡ true
      → intersect_loop room (a ∷ xs) (b ∷ ys) o
        ≡ (first >>= λ o'. intersect_loop room xs (b ∷ ys) o')
  unfolding intersect_loop
  intersect_loop-left h = rw (h, intersect_loop)

  intersect_loop-right :
      leb (end a) (end b) ≡ false
      → intersect_loop room (a ∷ xs) (b ∷ ys) o
        ≡ (first >>= λ o'. intersect_loop room (a ∷ xs) ys o')
  unfolding intersect_loop
  intersect_loop-right h = rw (h, intersect_loop)

intersect_loop-meet :
    (room : ℕ) (xs ys : List Run) (o : Output)
    → intersect_loop room xs ys o ≡ emit_all room (meet (spans xs) (spans ys)) o
intersect_loop-meet room [] ys o = unfold intersect_loop meet in sym (emit_all-nil room o)
intersect_loop-meet room (a ∷ xs) [] o = unfold intersect_loop meet in sym (emit_all-nil room o)
intersect_loop-meet room (a ∷ xs) (b ∷ ys) o = elim (Bool-cases (leb (end a) (end b))) [
  | inl t ↦
      intersect_loop-left room a b xs ys o t
      ∙ ap (λ k. first room a b xs ys o >>= k)
          (fun_ext (λ o'. intersect_loop-meet room xs (b ∷ ys) o'))
      ∙ sym (emit_all-one_if room _ _ _ (meet (spans xs) (spans (b ∷ ys))) o)
      ∙ ap (λ ss. emit_all room ss o) (sym (meet-left (span a) (span b) (spans xs) (spans ys) t))
  | inr t ↦
      intersect_loop-right room a b xs ys o t
      ∙ ap (λ k. first room a b xs ys o >>= k)
          (fun_ext (λ o'. intersect_loop-meet room (a ∷ xs) ys o'))
      ∙ sym (emit_all-one_if room _ _ _ (meet (spans (a ∷ xs)) (spans ys)) o)
      ∙ ap (λ ss. emit_all room ss o) (sym (meet-right (span a) (span b) (spans xs) (spans ys) t))
]

-- On valid run lists, with room for as many runs as the inputs have together, `intersect` returns
-- valid runs that cover just the values which both inputs cover, with their number.
pub intersect_lem :
    (room : ℕ) (a b : List Run)
    → IsRuns a
    → IsRuns b
    → length a + length b ≤ room
    → Delivers (intersect room a b) (length a + length b) (λ x. covers a x && covers b x)
unfolding intersect
intersect_lem room a b ha hb h = rw (intersect_loop-meet room a b nothing) (
    emit_all-Delivers room (length a + length b) (meet (spans a) (spans b)) _
      (omega (arith, length-meet (spans a) (spans b), length-spans a, length-spans b)) h
      (meet-From 0 0 0 (spans a) (spans b) (From-spans 0 a ha) (From-spans 0 b hb) (omega arith))
      λ x.
        holds-meet 0 0 x (spans a) (spans b) (From-spans 0 a ha) (From-spans 0 b hb)
        ∙ ap₂ ◌&&◌ (holds-spans 0 x a ha) (holds-spans 0 x b hb))
