-- ===== src/Runs/Union.antt =====
-- `run::union`: the values in either run list, with touching runs joined.
pub mod Join
use frostbit.Base.{
  ℕ, suc, ◌+◌, ◌^◌, ◌≤◌, ◌<◌, ◌≡◌, max, Bool, true, false, ◌&&◌, ◌||◌, List, [], ◌∷◌, leb, arith,
  refl, sym, ap, ap₂, ◌∙◌, length, Bool-cases, inl, inr, leb→le,
}
use mathlib.Core.Path.{fun_ext}
use frostbit.Base.Exec.{Exec, ◌>>=◌, >>=_ok}
use frostbit.Container.Run.{Run, end, IsRuns, covers}
use frostbit.Runs.{Output, nothing, emit, absorb, union_loop, union}
use frostbit.Runs.Span.{
  Span, span, From, From_weaken, holds, spans, From-spans, holds-spans, length-spans,
}
use frostbit.Runs.Emit.{
  Delivers, emit_all, emit_all-nil, emit_all-cons, emit_all-Delivers, copy-Delivers, Delivers-ext,
}
use frostbit.Runs.Union.Join.{
  extend, join, between, Joins, or_assoc, or_swap, join-left, join-right, join-Joins, length-join,
}

-- The code's rounds and those on lists of intervals.
emit_all-extend :
    (room : ℕ) (s : Span) (cs ce : ℕ) (o : Output) (next : ℕ → ℕ → List Span)
    (rest : ℕ → ℕ → Output → Exec Output)
    → ((cs ce : ℕ) (o : Output) → rest cs ce o ≡ emit_all room (next cs ce) o)
    → absorb room s.lo s.hi cs ce o rest ≡ emit_all room (extend s cs ce next) o
unfolding absorb extend
emit_all-extend room s cs ce o next rest h = elim (Bool-cases (leb s.lo (ce + 1))) [
  | inl t ↦ rw (t, absorb, extend) (h cs (max ce s.hi) o)
  | inr t ↦
      rw (t, absorb, extend)
        (ap (λ k. emit room cs ce o >>= k) (fun_ext (λ o'. h s.lo s.hi o'))
          ∙ sym (emit_all-cons room cs ce (next s.lo s.hi) o))
]

union_loop-left :
    (room : ℕ) (a b : Run) (xs ys : List Run) (cs ce : ℕ) (o : Output)
    → leb a.start b.start ≡ true
    → union_loop room (a ∷ xs) (b ∷ ys) cs ce o
      ≡ absorb room a.start (end a) cs ce o (union_loop room xs (b ∷ ys))
unfolding union_loop
union_loop-left room a b xs ys cs ce o h = rw (h, union_loop)

union_loop-right :
    (room : ℕ) (a b : Run) (xs ys : List Run) (cs ce : ℕ) (o : Output)
    → leb a.start b.start ≡ false
    → union_loop room (a ∷ xs) (b ∷ ys) cs ce o
      ≡ absorb room b.start (end b) cs ce o (union_loop room (a ∷ xs) ys)
unfolding union_loop
union_loop-right room a b xs ys cs ce o h = rw (h, union_loop)

union_loop-join :
    (room : ℕ) (xs ys : List Run) (cs ce : ℕ) (o : Output)
    → union_loop room xs ys cs ce o ≡ emit_all room (join (spans xs) (spans ys) cs ce) o
unfolding union_loop join
union_loop-join room [] [] cs ce o = sym (
    emit_all-cons room cs ce [] o
    ∙ ap (λ k. emit room cs ce o >>= k) (fun_ext (emit_all-nil room))
    ∙ >>=_ok (emit room cs ce o))
union_loop-join room (a ∷ xs) [] cs ce o =
    emit_all-extend room (span a) cs ce o _ _ (union_loop-join room xs [])
union_loop-join room [] (b ∷ ys) cs ce o =
    emit_all-extend room (span b) cs ce o _ _ (union_loop-join room [] ys)
union_loop-join room (a ∷ xs) (b ∷ ys) cs ce o = elim (Bool-cases (leb a.start b.start)) [
  | inl t ↦
      union_loop-left room a b xs ys cs ce o t
      ∙ emit_all-extend room (span a) cs ce o _ _ (union_loop-join room xs (b ∷ ys))
      ∙ ap (λ ss. emit_all room ss o)
          (sym (join-left (span a) (span b) (spans xs) (spans ys) cs ce t))
  | inr t ↦
      union_loop-right room a b xs ys cs ce o t
      ∙ emit_all-extend room (span b) cs ce o _ _ (union_loop-join room (a ∷ xs) ys)
      ∙ ap (λ ss. emit_all room ss o)
          (sym (join-right (span a) (span b) (spans xs) (spans ys) cs ce t))
]

or_false : (p : Bool) → (p || false) ≡ p
or_false true = refl
or_false false = refl

From_start : (s : Span) (ss : List Span) (k : ℕ) → k ≤ s.lo → From 0 (s ∷ ss) → From k (s ∷ ss)
From_start s ss k h (a, b, c, d) = (h, b, c, d)

-- The loop started on the first run of one list.
module _ (room : ℕ) (s : Span) (xs ys : List Span) (bound : ℕ) (p : ℕ → Bool) where
  seed_Delivers :
      From 0 (s ∷ xs)
      → From s.lo ys
      → suc (length xs + length ys) ≤ bound
      → bound ≤ room
      → ((x : ℕ) → (holds (s ∷ xs) x || holds ys x) ≡ p x)
      → Delivers (emit_all room (join xs ys s.lo s.hi) nothing) bound p
  unfolding between
  seed_Delivers (a, b, c, d) g n h e =
      emit_all-Delivers room bound (join xs ys s.lo s.hi) p
        (omega (arith, length-join xs ys s.lo s.hi)) h
        (From_weaken s.lo 0 _ (omega arith) (j.ascending s.lo s.hi (omega arith) b c))
        λ x.
          j.members s.lo s.hi x (omega arith) b
          ∙ sym (or_assoc (leb s.lo x && leb x s.hi) (holds xs x) (holds ys x))
          ∙ e x
    where
      j : Joins (join xs ys) s.lo (λ x. holds xs x || holds ys x)
      j = join-Joins xs ys s.lo (From_weaken (s.hi + 1) s.lo xs (omega arith) d) g

module _ (room : ℕ) (s : Span) (xs ys : List Span) (bound : ℕ) (p : ℕ → Bool) where
  seed_Delivers' :
      From 0 (s ∷ ys)
      → From s.lo xs
      → suc (length xs + length ys) ≤ bound
      → bound ≤ room
      → ((x : ℕ) → (holds xs x || holds (s ∷ ys) x) ≡ p x)
      → Delivers (emit_all room (join xs ys s.lo s.hi) nothing) bound p
  unfolding between
  seed_Delivers' (a, b, c, d) g n h e =
      emit_all-Delivers room bound (join xs ys s.lo s.hi) p
        (omega (arith, length-join xs ys s.lo s.hi)) h
        (From_weaken s.lo 0 _ (omega arith) (j.ascending s.lo s.hi (omega arith) b c))
        λ x.
          j.members s.lo s.hi x (omega arith) b
          ∙ or_swap (leb s.lo x && leb x s.hi) (holds xs x) (holds ys x)
          ∙ e x
    where
      j : Joins (join xs ys) s.lo (λ x. holds xs x || holds ys x)
      j = join-Joins xs ys s.lo g (From_weaken (s.hi + 1) s.lo ys (omega arith) d)

-- On valid run lists, with room for as many runs as the inputs have together, `union` returns valid
-- runs that cover just the values which one of the inputs covers, with their number.
pub union_lem :
    (room : ℕ) (a b : List Run)
    → IsRuns a
    → IsRuns b
    → length a + length b ≤ room
    → Delivers (union room a b) (length a + length b) (λ x. covers a x || covers b x)
unfolding union
union_lem room [] b f g h = copy-Delivers room (0 + length b) b (omega arith) h g
union_lem room (a ∷ xs) [] f g h =
    Delivers-ext _ _ _ _ (copy-Delivers room (length (a ∷ xs) + 0) (a ∷ xs) (omega arith) h f)
      λ x. sym (or_false (covers (a ∷ xs) x))
union_lem room (a ∷ xs) (b ∷ ys) f g h = elim (Bool-cases (leb a.start b.start)) [
  | inl t ↦ rw t (
      rw (union_loop-join room xs (b ∷ ys) a.start (end a) nothing) (
        seed_Delivers room (span a) (spans xs) (spans (b ∷ ys)) _ _ (From-spans 0 (a ∷ xs) f)
          (From_start (span b) (spans ys) a.start (leb→le _ _ t) (From-spans 0 (b ∷ ys) g))
          (omega (arith, length-spans xs, length-spans ys)) h
          λ x. ap₂ ◌||◌ (holds-spans 0 x (a ∷ xs) f) (holds-spans 0 x (b ∷ ys) g)))
  | inr t ↦ rw t (
      rw (union_loop-join room (a ∷ xs) ys b.start (end b) nothing) (
        seed_Delivers' room (span b) (spans (a ∷ xs)) (spans ys) _ _ (From-spans 0 (b ∷ ys) g)
          (From_start (span a) (spans xs) b.start (ground (arith, t)) (From-spans 0 (a ∷ xs) f))
          (omega (arith, length-spans xs, length-spans ys)) h
          λ x. ap₂ ◌||◌ (holds-spans 0 x (a ∷ xs) f) (holds-spans 0 x (b ∷ ys) g)))
]
