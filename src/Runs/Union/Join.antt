-- ===== src/Runs/Union/Join.antt =====
-- The union of two lists of intervals, with touching ones joined, and what it holds.
use frostbit.Base.{
  ℕ, suc, ◌+◌, ◌^◌, ◌≤◌, ◌<◌, ◌≡◌, max, Bool, true, false, ◌&&◌, ◌||◌, List, [], ◌∷◌, leb, arith,
  refl, sym, ap, ◌∙◌, length, Bool-cases, inl, inr, leb→le,
}
use frostbit.Runs.Span.{Span, From, From_weaken, holds}

-- `absorb`, emitting to a list.
unfoldable pub extend : Span → ℕ → ℕ → (ℕ → ℕ → List Span) → List Span
extend s cs ce next = elim (leb s.lo (ce + 1)) [
  | true ↦ next cs (max ce s.hi)
  | false ↦ record { lo = cs; hi = ce } ∷ next s.lo s.hi
]

unfoldable pub join : List Span → List Span → ℕ → ℕ → List Span
join [] [] cs ce = record { lo = cs; hi = ce } ∷ []
join (a ∷ xs) [] cs ce = extend a cs ce (join xs [])
join [] (b ∷ ys) cs ce = extend b cs ce (join [] ys)
join (a ∷ xs) (b ∷ ys) cs ce = elim (leb a.lo b.lo) [
  | true ↦ extend a cs ce (join xs (b ∷ ys))
  | false ↦ extend b cs ce (join (a ∷ xs) ys)
]

unfoldable pub between : ℕ → ℕ → ℕ → Bool
between lo hi x = leb lo x && leb x hi

-- What the rest of the loop has to do: behind a run `cs..=ce` it emits intervals from `cs` on, at
-- least two apart, that hold the run's values and those that `r` accepts.
pub record Joins (next : ℕ → ℕ → List Span) (k : ℕ) (r : ℕ → Bool) : Type 0 where
  pub members : (cs ce x : ℕ) → cs ≤ k → cs ≤ ce → holds (next cs ce) x ≡ (between cs ce x || r x)
  pub ascending : (cs ce : ℕ) → cs ≤ k → cs ≤ ce → ce < 2 ^ 16 → From cs (next cs ce)

between_join :
    (cs ce lo hi x : ℕ)
    → cs ≤ lo
    → lo ≤ ce + 1
    → lo ≤ hi
    → cs ≤ ce
    → between cs (max ce hi) x ≡ (between cs ce x || between lo hi x)
unfolding between
between_join cs ce lo hi x h1 h2 h3 h4 = ground arith

pub or_assoc : (p q r : Bool) → ((p || q) || r) ≡ (p || (q || r))
or_assoc true q r = refl
or_assoc false q r = refl

pub or_swap : (p q r : Bool) → (p || (q || r)) ≡ (q || (p || r))
or_swap true true r = refl
or_swap true false r = refl
or_swap false q r = refl

extend-members :
    (s : Span) (cs ce k x : ℕ) (next : ℕ → ℕ → List Span) (r : ℕ → Bool)
    → Joins next k r
    → s.lo ≤ k
    → cs ≤ s.lo
    → s.lo ≤ s.hi
    → cs ≤ ce
    → holds (extend s cs ce next) x ≡ (between cs ce x || (between s.lo s.hi x || r x))
unfolding extend between
extend-members s cs ce k x next r j h1 h2 h3 h4 = elim (Bool-cases (leb s.lo (ce + 1))) [
  | inl t ↦
      rw (t, extend)
        (j.members cs (max ce s.hi) x (omega arith) (omega arith)
          ∙ ap (λ u. u || r x) (between_join cs ce s.lo s.hi x h2 (leb→le _ _ t) h3 h4)
          ∙ or_assoc (between cs ce x) (between s.lo s.hi x) (r x))
  | inr t ↦ rw (t, extend) (ap (λ u. between cs ce x || u) (j.members s.lo s.hi x h1 h3))
]

extend-From :
    (s : Span) (cs ce k : ℕ) (next : ℕ → ℕ → List Span) (r : ℕ → Bool)
    → Joins next k r
    → s.lo ≤ k
    → cs ≤ s.lo
    → s.lo ≤ s.hi
    → s.hi < 2 ^ 16
    → cs ≤ ce
    → ce < 2 ^ 16
    → From cs (extend s cs ce next)
unfolding extend
extend-From s cs ce k next r j h1 h2 h3 h4 h5 h6 = elim (Bool-cases (leb s.lo (ce + 1))) [
  | inl t ↦ rw (t, extend) (j.ascending cs (max ce s.hi) (omega arith) (omega arith) (omega arith))
  | inr t ↦
      rw (t, extend)
        (
          omega arith,
          h5,
          h6,
          From_weaken s.lo (ce + 1) (next s.lo s.hi) (ground (arith, t))
              (j.ascending s.lo s.hi h1 h3 h4),
        )
]

-- `next` on a head `s` before what is left.
extend-Joins :
    (s : Span) (k : ℕ) (next : ℕ → ℕ → List Span) (r : ℕ → Bool)
    → Joins next s.lo r
    → k ≤ s.lo
    → s.lo ≤ s.hi
    → s.hi < 2 ^ 16
    → Joins (λ cs ce. extend s cs ce next) k (λ x. between s.lo s.hi x || r x)
extend-Joins s k next r j h1 h2 h3 = record {
  members = λ cs ce x a b. extend-members s cs ce s.lo x next r j (omega arith) (omega arith) h2 b;
  ascending =
      λ cs ce a b c. extend-From s cs ce s.lo next r j (omega arith) (omega arith) h2 h3 b c;
}

Joins-ext :
    (next step : ℕ → ℕ → List Span) (k : ℕ) (r q : ℕ → Bool)
    → Joins step k r
    → ((cs ce : ℕ) → next cs ce ≡ step cs ce)
    → ((x : ℕ) → r x ≡ q x)
    → Joins next k q
Joins-ext next step k r q j n e = record {
  members =
      λ cs ce x a b. rw (n cs ce) (j.members cs ce x a b ∙ ap (λ u. between cs ce x || u) (e x));
  ascending = λ cs ce a b c. rw (n cs ce) (j.ascending cs ce a b c);
}

pub join-left :
    (a b : Span) (xs ys : List Span) (cs ce : ℕ)
    → leb a.lo b.lo ≡ true
    → join (a ∷ xs) (b ∷ ys) cs ce ≡ extend a cs ce (join xs (b ∷ ys))
unfolding join
join-left a b xs ys cs ce h = rw (h, join)

pub join-right :
    (a b : Span) (xs ys : List Span) (cs ce : ℕ)
    → leb a.lo b.lo ≡ false
    → join (a ∷ xs) (b ∷ ys) cs ce ≡ extend b cs ce (join (a ∷ xs) ys)
unfolding join
join-right a b xs ys cs ce h = rw (h, join)

join-nil : (k : ℕ) → Joins (join [] []) k (λ x. false)
unfolding join between
join-nil k = record {
  members = λ cs ce x a b. refl;
  ascending = λ cs ce a b c. (omega arith, b, c, tt);
}

pub join-Joins :
    (xs ys : List Span) (k : ℕ)
    → From k xs
    → From k ys
    → Joins (join xs ys) k (λ x. holds xs x || holds ys x)
join-Joins [] [] k f g = join-nil k
join-Joins (a ∷ xs) [] k (f1, f2, f3, f4) g =
    Joins-ext _ _ k _ _
      (extend-Joins a k (join xs []) _
        (join-Joins xs [] a.lo (From_weaken (a.hi + 1) a.lo xs (omega arith) f4) tt) f1 f2 f3)
      (λ cs ce. unfold join in refl)
      λ x. unfold between in sym (or_assoc (leb a.lo x && leb x a.hi) (holds xs x) false)
join-Joins [] (b ∷ ys) k f (g1, g2, g3, g4) =
    Joins-ext _ _ k _ _
      (extend-Joins b k (join [] ys) _
        (join-Joins [] ys b.lo tt (From_weaken (b.hi + 1) b.lo ys (omega arith) g4)) g1 g2 g3)
      (λ cs ce. unfold join in refl) λ x. unfold between in refl
join-Joins (a ∷ xs) (b ∷ ys) k (f1, f2, f3, f4) (g1, g2, g3, g4) =
    elim (Bool-cases (leb a.lo b.lo)) [
      | inl t ↦
          Joins-ext _ _ k _ _
            (extend-Joins a k (join xs (b ∷ ys)) _
              (join-Joins xs (b ∷ ys) a.lo (From_weaken (a.hi + 1) a.lo xs (omega arith) f4)
                (leb→le a.lo b.lo t, g2, g3, g4))
              f1 f2 f3)
            (λ cs ce. join-left a b xs ys cs ce t)
            λ x.
              unfold between in
              sym (or_assoc (leb a.lo x && leb x a.hi) (holds xs x) (holds (b ∷ ys) x))
      | inr t ↦
          Joins-ext _ _ k _ _
            (extend-Joins b k (join (a ∷ xs) ys) _
              (join-Joins (a ∷ xs) ys b.lo (ground (arith, t), f2, f3, f4)
                (From_weaken (b.hi + 1) b.lo ys (omega arith) g4))
              g1 g2 g3)
            (λ cs ce. join-right a b xs ys cs ce t)
            λ x.
              unfold between in or_swap (leb b.lo x && leb x b.hi) (holds (a ∷ xs) x) (holds ys x)
    ]

length-extend :
    (s : Span) (cs ce n : ℕ) (next : ℕ → ℕ → List Span)
    → ((cs ce : ℕ) → length (next cs ce) ≤ n)
    → length (extend s cs ce next) ≤ suc n
unfolding extend
length-extend s cs ce n next h = ground (arith, h cs (max ce s.hi), h s.lo s.hi)

pub length-join :
    (xs ys : List Span) (cs ce : ℕ) → length (join xs ys cs ce) ≤ suc (length xs + length ys)
unfolding join
length-join [] [] cs ce = omega arith
length-join (a ∷ xs) [] cs ce =
    omega (arith, length-extend a cs ce _ (join xs []) (length-join xs []))
length-join [] (b ∷ ys) cs ce =
    omega (arith, length-extend b cs ce _ (join [] ys) (length-join [] ys))
length-join (a ∷ xs) (b ∷ ys) cs ce = ground (
  arith,
  length-extend a cs ce _ (join xs (b ∷ ys)) (length-join xs (b ∷ ys)),
  length-extend b cs ce _ (join (a ∷ xs) ys) (length-join (a ∷ xs) ys),
)
