-- ===== src/Runs/Diff.antt =====
-- `run::diff` and `run::diff_array`: the values in a run list that runs, or points, leave.
pub mod Loop
use frostbit.Base.{
  ℕ, zero, suc, ◌+◌, ◌-◌, ◌%◌, ◌^◌, ◌≤◌, ◌<◌, ◌≡◌, min, max, Bool, true, false, not, ◌&&◌, ◌||◌,
  List, [], ◌∷◌, ◌++◌, leb, ltb, arith, refl, sym, ap, ap₂, ◌∙◌, length, length-append,
  if◌then◌else◌, Bool-cases, inl, inr, leb→le, le→leb,
}
use frostbit.Runs.Span.{Span, From, From_weaken, holds, holds_below}
use frostbit.Runs.Emit.{one_if, From-one_if, holds-one_if, length-one_if}

pub skip : ℕ → List Span → List Span
skip lo [] = []
skip lo (b ∷ ys) = if ltb b.hi lo then skip lo ys else b ∷ ys

-- The fragments of `lo..=hi` that `ys` leaves, before `tail`.
pub cut : ℕ → ℕ → List Span → List Span → List Span
cut lo hi [] tail = one_if (leb lo hi) lo hi tail
cut lo hi (b ∷ ys) tail = elim (leb lo hi) [
  | false ↦ tail
  | true ↦ elim (ltb hi b.lo) [
    | true ↦ record { lo = lo; hi = hi } ∷ tail
    | false ↦ one_if (ltb lo b.lo) lo (b.lo - 1) (cut (b.hi + 1) hi ys tail)
  ]
]

pub minus : List Span → List Span → List Span
minus [] ys = []
minus (a ∷ xs) ys = cut a.lo a.hi (skip a.lo ys) (minus xs (skip a.lo ys))

-- The head, if there is one, ends at `lo` or later.
abbrev pub EndsFrom : ℕ → List Span → Type 0
EndsFrom lo [] = Unit {0}
EndsFrom lo (b ∷ ys) = lo ≤ b.hi

EndsFrom-From : (lo : ℕ) (ys : List Span) → From lo ys → EndsFrom lo ys
EndsFrom-From lo [] f = tt
EndsFrom-From lo (b ∷ ys) (f1, f2, f3, f4) = omega arith

skip-EndsFrom : (lo : ℕ) (ys : List Span) → EndsFrom lo (skip lo ys)
unfolding skip
skip-EndsFrom lo [] = tt
skip-EndsFrom lo (b ∷ ys) = elim (Bool-cases (ltb b.hi lo)) [
  | inl t ↦ rw t (skip-EndsFrom lo ys)
  | inr t ↦ rw t (ground (arith, t))
]

skip-From : (lo m : ℕ) (ys : List Span) → From m ys → From m (skip lo ys)
unfolding skip
skip-From lo m [] f = tt
skip-From lo m (b ∷ ys) (a, c, d, e) = elim (Bool-cases (ltb b.hi lo)) [
  | inl t ↦ rw t (skip-From lo m ys (From_weaken (b.hi + 1) m ys (omega arith) e))
  | inr t ↦ rw t (a, c, d, e)
]

holds-skip : (lo x : ℕ) (ys : List Span) → lo ≤ x → holds (skip lo ys) x ≡ holds ys x
unfolding skip
holds-skip lo x [] h = refl
holds-skip lo x (b ∷ ys) h = elim (Bool-cases (ltb b.hi lo)) [
  | inl t ↦ rw t (holds-skip lo x ys h ∙ ground (arith, t))
  | inr t ↦ rw t
]

pub cut-done : (lo hi : ℕ) (ys tail : List Span) → hi < lo → cut lo hi ys tail ≡ tail
unfolding cut
cut-done lo hi [] tail h = ground arith
cut-done lo hi (b ∷ ys) tail h = ground arith

module _ (lo hi : ℕ) (b : Span) (ys tail : List Span) (open_ : leb lo hi ≡ true) where
  pub cut-break : ltb hi b.lo ≡ true → cut lo hi (b ∷ ys) tail ≡ record { lo = lo; hi = hi } ∷ tail
  unfolding cut
  cut-break h = rw (open_, cut) (rw h)

  pub cut-step :
      ltb hi b.lo ≡ false
      → cut lo hi (b ∷ ys) tail ≡ one_if (ltb lo b.lo) lo (b.lo - 1) (cut (b.hi + 1) hi ys tail)
  unfolding cut
  cut-step h = rw (open_, cut) (rw h)

-- The fragment below a run that starts at `k`, if there is one.
abbrev gap : ℕ → ℕ → List Span → List Span
gap lo k ss = one_if (ltb lo k) lo (k - 1) ss

From-gap :
    (n lo k : ℕ) (ss : List Span)
    → n ≤ lo
    → k < 2 ^ 16
    → From k ss
    → From n ss
    → From n (gap lo k ss)
From-gap n lo k ss a b c d = elim (Bool-cases (ltb lo k)) [
  | inl h ↦
      let e : k - 1 + 1 ≡ k = ground (arith, h) in rw h (a, ground (arith, h), omega arith, rw e c)
  | inr h ↦ rw h d
]

holds-gap :
    (lo k x : ℕ) (ss : List Span) → holds (gap lo k ss) x ≡ ((leb lo x && ltb x k) || holds ss x)
holds-gap lo k x ss = elim (Bool-cases (ltb lo k)) [
  | inl h ↦ rw h (ap (λ t. t || holds ss x) (ground (arith, h)))
  | inr h ↦ rw h (sym (ap (λ t. t || holds ss x) (empty h)))
]
  where
    empty : ltb lo k ≡ false → (leb lo x && ltb x k) ≡ false
    empty h = ground (arith, h)

From-cut :
    (k lo hi m : ℕ) (ys tail : List Span)
    → k ≤ lo
    → k ≤ hi + 1
    → hi < 2 ^ 16
    → From m ys
    → EndsFrom lo ys
    → From (hi + 1) tail
    → From k (cut lo hi ys tail)
From-cut k lo hi m [] tail a b c f e t =
    unfold cut in From-one_if k lo hi tail a c t (From_weaken (hi + 1) k tail b t)
From-cut k lo hi m (y ∷ ys) tail a b c (f1, f2, f3, f4) e t = elim (Bool-cases (leb lo hi)) [
  | inr p ↦ rw (cut-done lo hi (y ∷ ys) tail (ground (arith, p))) (From_weaken (hi + 1) k tail b t)
  | inl p ↦ elim (Bool-cases (ltb hi y.lo)) [
    | inl q ↦ rw (cut-break lo hi y ys tail p q) (a, leb→le lo hi p, c, t)
    | inr q ↦ rw (cut-step lo hi y ys tail p q) (
        From-gap k lo y.lo (cut (y.hi + 1) hi ys tail) a (omega arith)
          (From-cut y.lo (y.hi + 1) hi (y.hi + 1) ys tail (omega arith) (ground (arith, q)) c f4
            (EndsFrom-From (y.hi + 1) ys f4) t)
          (From-cut k (y.hi + 1) hi (y.hi + 1) ys tail (omega arith) b c f4
            (EndsFrom-From (y.hi + 1) ys f4) t))
  ]
]

cut_point :
    (lo hi k l x : ℕ) (h : Bool)
    → lo ≤ l
    → k ≤ hi
    → k ≤ l
    → (x < l + 1 → h ≡ false)
    → ((leb lo x && ltb x k) || ((leb (l + 1) x && leb x hi) && not h))
      ≡ ((leb lo x && leb x hi) && not ((leb k x && leb x l) || h))
cut_point lo hi k l x h a b c e = ground arith

-- Nothing is cut from an interval that ends before the first run.
beyond :
    (lo hi k x : ℕ) (h : Bool)
    → hi < k
    → (x < k → h ≡ false)
    → (leb lo x && leb x hi) ≡ ((leb lo x && leb x hi) && not h)
beyond lo hi k x h a b = ground arith

or_assoc : (p q r : Bool) → (p || (q || r)) ≡ ((p || q) || r)
or_assoc true q r = refl
or_assoc false q r = refl

and_true : (p : Bool) → p ≡ (p && true)
and_true true = refl
and_true false = refl

holds-cut :
    (lo hi m x : ℕ) (ys tail : List Span)
    → From m ys
    → EndsFrom lo ys
    → holds (cut lo hi ys tail) x ≡ (((leb lo x && leb x hi) && not (holds ys x)) || holds tail x)
holds-cut lo hi m x [] tail f e =
    unfold cut in
    holds-one_if lo hi x tail ∙ ap (λ t. t || holds tail x) (and_true (leb lo x && leb x hi))
holds-cut lo hi m x (y ∷ ys) tail (f1, f2, f3, f4) e = elim (Bool-cases (leb lo hi)) [
  | inr p ↦
      rw (cut-done lo hi (y ∷ ys) tail (ground (arith, p)))
        (ap (λ t. (t && not (holds (y ∷ ys) x)) || holds tail x) (sym (closed p)))
  | inl p ↦ elim (Bool-cases (ltb hi y.lo)) [
    | inl q ↦ rw (cut-break lo hi y ys tail p q) (
        ap (λ t. t || holds tail x)
          (beyond lo hi y.lo x (holds (y ∷ ys) x) (ground (arith, q))
            (holds_below y.lo x (y ∷ ys) (omega arith, f2, f3, f4))))
    | inr q ↦
        ap (λ s. holds s x) (cut-step lo hi y ys tail p q)
        ∙ holds-gap lo y.lo x (cut (y.hi + 1) hi ys tail)
        ∙ ap (λ t. (leb lo x && ltb x y.lo) || t)
            (holds-cut (y.hi + 1) hi (y.hi + 1) x ys tail f4 (EndsFrom-From (y.hi + 1) ys f4))
        ∙ or_assoc (leb lo x && ltb x y.lo) _ (holds tail x)
        ∙ ap (λ t. t || holds tail x)
            (cut_point lo hi y.lo y.hi x (holds ys x) e (ground (arith, q)) f2
              (holds_below (y.hi + 1) x ys f4))
  ]
]
  where
    closed : leb lo hi ≡ false → (leb lo x && leb x hi) ≡ false
    closed p = ground (arith, p)

pub minus-From : (k m : ℕ) (xs ys : List Span) → From k xs → From m ys → From k (minus xs ys)
unfolding minus
minus-From k m [] ys f g = tt
minus-From k m (a ∷ xs) ys (f1, f2, f3, f4) g =
    let g' = skip-From a.lo m ys g in
    From-cut k a.lo a.hi m (skip a.lo ys) (minus xs (skip a.lo ys)) f1 (omega arith) f3 g'
      (skip-EndsFrom a.lo ys) (minus-From (a.hi + 1) m xs (skip a.lo ys) f4 g')

distribute :
    (p q h s : Bool)
    → (p ≡ true → s ≡ h)
    → (q ≡ true → s ≡ h)
    → ((p && not s) || (q && not s)) ≡ ((p || q) && not h)
distribute p q h s a b = ground arith

pub holds-minus :
    (k m x : ℕ) (xs ys : List Span)
    → From k xs
    → From m ys
    → holds (minus xs ys) x ≡ (holds xs x && not (holds ys x))
unfolding minus
holds-minus k m x [] ys f g = refl
holds-minus k m x (a ∷ xs) ys (f1, f2, f3, f4) g =
    let rest = skip a.lo ys in
    let g' = skip-From a.lo m ys g in
    holds-cut a.lo a.hi m x rest (minus xs rest) g' (skip-EndsFrom a.lo ys)
    ∙ ap (λ t. ((leb a.lo x && leb x a.hi) && not (holds rest x)) || t)
        (holds-minus (a.hi + 1) m x xs rest f4 g')
    ∙ distribute (leb a.lo x && leb x a.hi) (holds xs x) (holds ys x) (holds rest x)
        (λ e. holds-skip a.lo x ys (ground (arith, e)))
        (λ e. holds-skip a.lo x ys (ground (arith, e, holds_below (a.hi + 1) x xs f4)))

-- How many runs start at `k` or later.
at_least : ℕ → List Span → ℕ
at_least k [] = 0
at_least k (b ∷ ys) = (if leb k b.lo then 1 else 0) + at_least k ys

at_least_mono : (j k : ℕ) (ys : List Span) → j ≤ k → at_least k ys ≤ at_least j ys
unfolding at_least
at_least_mono j k [] h = omega arith
at_least_mono j k (b ∷ ys) h = ground (arith, at_least_mono j k ys h)

at_least-skip : (k lo : ℕ) (ys : List Span) → at_least k (skip lo ys) ≤ at_least k ys
unfolding at_least skip
at_least-skip k lo [] = omega arith
at_least-skip k lo (b ∷ ys) = ground (arith, at_least-skip k lo ys)

at_least-le-length : (k : ℕ) (ys : List Span) → at_least k ys ≤ length ys
unfolding at_least
at_least-le-length k [] = omega arith
at_least-le-length k (b ∷ ys) = ground (arith, at_least-le-length k ys)

-- A run of the subtrahend that starts inside the interval splits off one fragment.
length-cut :
    (lo hi : ℕ) (ys tail : List Span)
    → lo ≤ hi
    → EndsFrom lo ys
    → (m : ℕ) → From m ys
    → length (cut lo hi ys tail) + at_least (hi + 1) ys ≤ 1 + at_least lo ys + length tail
unfolding at_least
length-cut lo hi [] tail h e m f = unfold cut in omega (arith, length-one_if (leb lo hi) lo hi tail)
length-cut lo hi (y ∷ ys) tail h e m (f1, f2, f3, f4) = elim (Bool-cases (ltb hi y.lo)) [
  | inl q ↦
      rw (cut-break lo hi y ys tail (le→leb lo hi h) q)
        (ground (arith, q, at_least_mono lo (hi + 1) ys))
  | inr q ↦
      rw (cut-step lo hi y ys tail (le→leb lo hi h) q) (elim (Bool-cases (leb (y.hi + 1) hi)) [
        | inl r ↦ ground (
          arith,
          q,
          length-cut (y.hi + 1) hi ys tail (leb→le (y.hi + 1) hi r) (EndsFrom-From (y.hi + 1) ys f4)
              (y.hi + 1) f4,
          at_least_mono lo (y.hi + 1) ys,
        )
        | inr r ↦
            rw (cut-done (y.hi + 1) hi ys tail (ground (arith, r)))
              (ground (arith, q, at_least_mono lo (hi + 1) ys))
      ])
]

length-minus :
    (k m : ℕ) (xs ys : List Span)
    → From k xs
    → From m ys
    → length (minus xs ys) ≤ length xs + at_least k ys
unfolding minus
length-minus k m [] ys f g = omega arith
length-minus k m (a ∷ xs) ys (f1, f2, f3, f4) g =
    let rest = skip a.lo ys in
    let g' = skip-From a.lo m ys g in
    omega (
      arith,
      length-cut a.lo a.hi rest (minus xs rest) f2 (skip-EndsFrom a.lo ys) m g',
      length-minus (a.hi + 1) m xs rest f4 g',
      at_least_mono k a.lo rest f1,
      at_least-skip k a.lo ys,
    )

pub length-minus-le :
    (m : ℕ) (xs ys : List Span)
    → From 0 xs
    → From m ys
    → length (minus xs ys) ≤ length xs + length ys
length-minus-le m xs ys f g = omega (arith, length-minus 0 m xs ys f g, at_least-le-length 0 ys)
