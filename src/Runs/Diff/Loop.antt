-- ===== src/Runs/Diff/Loop.antt =====
-- The loops of `run::diff` and `run::diff_array` emit the fragments of `minus`.
use frostbit.Base.{
  ℕ, suc, ◌+◌, ◌-◌, ◌^◌, ◌≤◌, ◌<◌, ◌≡◌, Bool, true, false, not, ◌&&◌, List, [], ◌∷◌, leb, ltb,
  arith, refl, sym, ap, ap₂, ◌∙◌, length, Bool-cases, inl, inr,
}
use mathlib.Core.Path.{fun_ext, subst}
use frostbit.Base.Exec.{ok, ◌>>=◌, >>=_assoc}
use frostbit.Container.Lows.{LowsFrom, LowsFrom-weaken, has}
use frostbit.Container.Run.{Run, end, IsRuns, RunsFrom, covers}
use frostbit.Runs.{Output, nothing, emit, emit_if, skip_below, diff_cut, diff_loop, diff}
use frostbit.Runs.{skip_points, cut_points, diff_array_loop, diff_array}
use frostbit.Runs.Span.{Span, span, spans, From-spans, holds-spans, length-spans}
use frostbit.Runs.Emit.{
  Delivers, Delivers-ext, emit_all, emit_all-nil, emit_all-cons, emit_all-one_if, emit_all-Delivers,
  copy-Delivers,
}
use frostbit.Runs.Diff.{
  skip, cut, minus, cut-done, cut-break, cut-step, minus-From, holds-minus, length-minus-le,
}

spans-skip_below : (lo : ℕ) (ys : List Run) → spans (skip_below lo ys) ≡ skip lo (spans ys)
unfolding skip_below skip
spans-skip_below lo [] = refl
spans-skip_below lo (b ∷ ys) = elim (Bool-cases (ltb (end b) lo)) [
  | inl t ↦ rw t (spans-skip_below lo ys)
  | inr t ↦ rw t
]

module _ (room lo hi : ℕ) (b : Run) (ys : List Run) (o : Output) (h : leb lo hi ≡ true) where
  diff_cut-break : ltb hi b.start ≡ true → diff_cut room lo hi (b ∷ ys) o ≡ emit room lo hi o
  unfolding diff_cut
  diff_cut-break t = rw (h, diff_cut) (rw t)

  diff_cut-step :
      ltb hi b.start ≡ false
      → diff_cut room lo hi (b ∷ ys) o ≡ (
          emit_if (ltb lo b.start) room lo (b.start - 1) o >>= λ o'.
          diff_cut room (end b + 1) hi ys o')
  unfolding diff_cut
  diff_cut-step t = rw (h, diff_cut) (rw t)

diff_cut-done :
    (room lo hi : ℕ) (ys : List Run) (o : Output)
    → leb lo hi ≡ false
    → diff_cut room lo hi ys o ≡ ok o
unfolding diff_cut
diff_cut-done room lo hi [] o h = rw h
diff_cut-done room lo hi (b ∷ ys) o h = rw (h, diff_cut)

diff_cut-cut :
    (room lo hi : ℕ) (ys : List Run) (tail : List Span) (o : Output)
    → (diff_cut room lo hi ys o >>= λ o'. emit_all room tail o')
      ≡ emit_all room (cut lo hi (spans ys) tail) o
diff_cut-cut room lo hi [] tail o =
    unfold diff_cut cut in sym (emit_all-one_if room (leb lo hi) lo hi tail o)
diff_cut-cut room lo hi (b ∷ ys) tail o = elim (Bool-cases (leb lo hi)) [
  | inr p ↦
      rw (diff_cut-done room lo hi (b ∷ ys) o p) (
        ap (λ s. emit_all room s o)
          (sym (cut-done lo hi (spans (b ∷ ys)) tail (ground (arith, p)))))
  | inl p ↦ elim (Bool-cases (ltb hi b.start)) [
    | inl q ↦ rw (diff_cut-break room lo hi b ys o p q) (
        sym (
          ap (λ s. emit_all room s o) (cut-break lo hi (span b) (spans ys) tail p q)
          ∙ emit_all-cons room lo hi tail o))
    | inr q ↦ rw (diff_cut-step room lo hi b ys o p q) (
        >>=_assoc (emit_if (ltb lo b.start) room lo (b.start - 1) o) _ _
        ∙ ap (λ k. emit_if (ltb lo b.start) room lo (b.start - 1) o >>= k)
            (fun_ext (λ o'. diff_cut-cut room (end b + 1) hi ys tail o'))
        ∙ sym (
            ap (λ s. emit_all room s o) (cut-step lo hi (span b) (spans ys) tail p q)
            ∙ emit_all-one_if room (ltb lo b.start) lo (b.start - 1) _ o))
  ]
]

diff_loop-minus :
    (room : ℕ) (xs ys : List Run) (o : Output)
    → diff_loop room xs ys o ≡ emit_all room (minus (spans xs) (spans ys)) o
unfolding diff_loop minus
diff_loop-minus room [] ys o = sym (emit_all-nil room o)
diff_loop-minus room (a ∷ xs) ys o =
    let rest = skip_below a.start ys in
    ap (λ k. diff_cut room a.start (end a) rest o >>= k)
      (fun_ext (λ o'. diff_loop-minus room xs rest o'))
    ∙ diff_cut-cut room a.start (end a) rest (minus (spans xs) (spans rest)) o
    ∙ ap (λ s. emit_all room (cut a.start (end a) s (minus (spans xs) s)) o)
        (spans-skip_below a.start ys)

and_true : (p : Bool) → (p && true) ≡ p
and_true true = refl
and_true false = refl

-- On valid run lists, with room for as many runs as the inputs have together, `diff` returns valid
-- runs that cover just the values of the first input which the second does not cover, with their
-- number.
pub diff_lem :
    (room : ℕ) (a b : List Run)
    → IsRuns a
    → IsRuns b
    → length a + length b ≤ room
    → Delivers (diff room a b) (length a + length b) (λ x. covers a x && not (covers b x))
unfolding diff
diff_lem room a [] f g h =
    Delivers-ext _ _ _ _ (copy-Delivers room (length a + 0) a (omega arith) h f)
      λ x. sym (and_true (covers a x))
diff_lem room a (b ∷ ys) f g h = rw (diff_loop-minus room a (b ∷ ys) nothing) (
    emit_all-Delivers room (length a + length (b ∷ ys)) (minus (spans a) (spans (b ∷ ys))) _
      (omega (
        arith,
        length-minus-le 0 (spans a) (spans (b ∷ ys)) (From-spans 0 a f) (From-spans 0 (b ∷ ys) g),
        length-spans a,
        length-spans ys,
      ))
      h (minus-From 0 0 (spans a) (spans (b ∷ ys)) (From-spans 0 a f) (From-spans 0 (b ∷ ys) g))
      λ x.
        holds-minus 0 0 x (spans a) (spans (b ∷ ys)) (From-spans 0 a f) (From-spans 0 (b ∷ ys) g)
        ∙ ap₂ (λ p q. p && not q) (holds-spans 0 x a f) (holds-spans 0 x (b ∷ ys) g))

-- A point is a run of one value.
abbrev point : ℕ → Run
point v = record { start = v; len = 0 }

abbrev points : List ℕ → List Run
points [] = []
points (v ∷ vs) = point v ∷ points vs

points-RunsFrom : (k : ℕ) (vs : List ℕ) → LowsFrom k vs → RunsFrom k (points vs)
points-RunsFrom k [] f = tt
points-RunsFrom k (v ∷ vs) (a, b, c) =
    let e : v + 0 ≡ v = omega arith in (a, omega arith, rw e (points-RunsFrom (v + 1) vs c))

covers-points : (x : ℕ) (vs : List ℕ) → covers (points vs) x ≡ has vs x
covers-points x [] = refl
covers-points x (v ∷ vs) = ground (arith, covers-points x vs)

length-points : (vs : List ℕ) → length (points vs) ≡ length vs
length-points [] = refl
length-points (v ∷ vs) = ap suc (length-points vs)

end-point : (v : ℕ) → v < 2 ^ 16 → end (point v) ≡ v
unfolding end
end-point v h = omega arith

skip_points-points :
    (lo k : ℕ) (vs : List ℕ)
    → LowsFrom k vs
    → skip_below lo (points vs) ≡ points (skip_points lo vs)
unfolding skip_below skip_points
skip_points-points lo k [] f = refl
skip_points-points lo k (v ∷ vs) (a, b, c) = rw (end-point v b) (elim (Bool-cases (ltb v lo)) [
  | inl t ↦ rw t (skip_points-points lo (v + 1) vs c)
  | inr t ↦ rw t
])

skip_points-LowsFrom : (lo k : ℕ) (vs : List ℕ) → LowsFrom k vs → LowsFrom k (skip_points lo vs)
unfolding skip_points
skip_points-LowsFrom lo k [] f = tt
skip_points-LowsFrom lo k (v ∷ vs) (a, b, c) = elim (Bool-cases (ltb v lo)) [
  | inl t ↦ rw t (LowsFrom-weaken (v + 1) k _ (omega arith) (skip_points-LowsFrom lo (v + 1) vs c))
  | inr t ↦ rw t (a, b, c)
]

cut_points-diff_cut :
    (room lo hi k : ℕ) (vs : List ℕ) (o : Output)
    → LowsFrom k vs
    → cut_points room lo hi vs o ≡ diff_cut room lo hi (points vs) o
unfolding cut_points diff_cut
cut_points-diff_cut room lo hi k [] o f = refl
cut_points-diff_cut room lo hi k (v ∷ vs) o (a, b, c) = elim (Bool-cases (leb lo hi)) [
  | inr p ↦ rw (p, cut_points, diff_cut)
  | inl p ↦ elim (Bool-cases (ltb hi v)) [
    | inl q ↦ rw (p, cut_points, diff_cut) (rw q)
    | inr q ↦
        rw (p, cut_points, diff_cut)
          (rw q (
            ap (λ k. emit_if (ltb lo v) room lo (v - 1) o >>= k)
              (fun_ext λ o'.
                cut_points-diff_cut room (v + 1) hi (v + 1) vs o' c
                ∙ ap (λ e. diff_cut room (e + 1) hi (points vs) o') (sym (end-point v b)))))
  ]
]

diff_array_loop-diff_loop :
    (room k : ℕ) (xs : List Run) (vs : List ℕ) (o : Output)
    → LowsFrom k vs
    → diff_array_loop room xs vs o ≡ diff_loop room xs (points vs) o
unfolding diff_array_loop diff_loop
diff_array_loop-diff_loop room k [] vs o f = refl
diff_array_loop-diff_loop room k (a ∷ xs) vs o f =
    let rest = skip_points a.start vs in
    let f' = skip_points-LowsFrom a.start k vs f in
    ap (λ k. cut_points room a.start (end a) rest o >>= k)
      (fun_ext (λ o'. diff_array_loop-diff_loop room k xs rest o' f'))
    ∙ ap (λ m. m >>= λ o'. diff_loop room xs (points rest) o')
        (cut_points-diff_cut room a.start (end a) k rest o f')
    ∙ ap (λ r. diff_cut room a.start (end a) r o >>= λ o'. diff_loop room xs r o')
        (sym (skip_points-points a.start k vs f))

-- On a valid run list and strictly ascending lows, with room for as many runs as there are runs and
-- lows together, `diff_array` returns valid runs that cover just the values of the run list which
-- are not among the lows, with their number.
pub diff_array_lem :
    (room : ℕ) (a : List Run) (vs : List ℕ)
    → IsRuns a
    → LowsFrom 0 vs
    → length a + length vs ≤ room
    → Delivers (diff_array room a vs) (length a + length vs) (λ x. covers a x && not (has vs x))
unfolding diff_array diff
diff_array_lem room a [] f g h =
    Delivers-ext _ _ _ _ (copy-Delivers room (length a + 0) a (omega arith) h f)
      λ x. sym (and_true (covers a x))
diff_array_lem room a (v ∷ vs) f g h = rw (diff_array_loop-diff_loop room 0 a (v ∷ vs) nothing g) (
    Delivers-ext _ _ _ _
      (subst
        (λ n.
          Delivers (diff room a (points (v ∷ vs))) n
            (λ x. covers a x && not (covers (points (v ∷ vs)) x)))
        (ap (λ n. length a + n) (length-points (v ∷ vs)))
        (diff_lem room a (points (v ∷ vs)) f (points-RunsFrom 0 (v ∷ vs) g)
          (omega (arith, length-points vs))))
      λ x. ap (λ t. covers a x && not t) (covers-points x (v ∷ vs)))
