-- ===== src/Builder/Extract.antt =====
-- src/api/builder.rs: what `extract_runs` and the bitmap of `build_container` hold.
use frostbit.Base.{
  ℕ, ◌+◌, ◌-◌, ◌%◌, ◌^◌, ◌≤◌, ◌<◌, ◌≡◌, refl, ap, ◌∙◌, Bool, true, false, ◌&&◌, ◌||◌, List, [], ◌∷◌,
  length, length-set, leb, ◌==◌, if◌then◌else◌, arith, inl, inr, Bool-cases,
}
use frostbit.Base.BitSet.{test_bit, set_bit, test_bit-set_bit}
use frostbit.Container.Run.{RunsFrom, covers}
use frostbit.Container.Lows.{LowsFrom, has}
use frostbit.Builder.{breaks_after, extract_loop, fill}

-- The next value, where it does not continue the run.
next_u16 : (p v : ℕ) → p + 1 ≤ v → v < 2 ^ 16 → (v == (p + 1) % 2 ^ 16) ≡ (v == p + 1)
next_u16 p v a b = ground arith

continue :
    (s p v : ℕ) (vs : List ℕ)
    → (v == (p + 1) % 2 ^ 16) ≡ true
    → extract_loop s p (v ∷ vs) ≡ extract_loop s v vs
unfolding extract_loop
continue s p v vs e = rw (e, extract_loop) refl

break :
    (s p v : ℕ) (vs : List ℕ)
    → (v == (p + 1) % 2 ^ 16) ≡ false
    → extract_loop s p (v ∷ vs) ≡ record { start = s; len = p - s } ∷ extract_loop v v vs
unfolding extract_loop
break s p v vs e = rw (e, extract_loop) refl

one_more :
    (s p v x : ℕ) (b : Bool)
    → s ≤ p
    → p + 1 ≤ v
    → v < 2 ^ 16
    → (v == (p + 1) % 2 ^ 16) ≡ true
    → ((leb s x && leb x v) || b) ≡ ((leb s x && leb x p) || ((v == x) || b))
one_more s p v x b h a c e = ground arith

one_run :
    (s p v x : ℕ) (b : Bool)
    → s ≤ p
    → ((leb s x && leb x (s + (p - s))) || ((leb v x && leb x v) || b))
      ≡ ((leb s x && leb x p) || ((v == x) || b))
one_run s p v x b h = ground arith

last_run :
    (s p x : ℕ)
    → s ≤ p
    → ((leb s x && leb x (s + (p - s))) || false) ≡ ((leb s x && leb x p) || false)
last_run s p x h = ground arith

pub covers-extract_loop :
    (s p x : ℕ) (vs : List ℕ)
    → s ≤ p
    → LowsFrom (p + 1) vs
    → covers (extract_loop s p vs) x ≡ ((leb s x && leb x p) || has vs x)
unfolding extract_loop
covers-extract_loop s p x [] h f = last_run s p x h
covers-extract_loop s p x (v ∷ vs) h (a, b, c) = elim (Bool-cases (v == (p + 1) % 2 ^ 16)) [
  | inl e ↦
      ap (λ rs. covers rs x) (continue s p v vs e)
      ∙ covers-extract_loop s v x vs (omega arith) c
      ∙ one_more s p v x (has vs x) h a b e
  | inr e ↦
      ap (λ rs. covers rs x) (break s p v vs e)
      ∙ ap (λ t. (leb s x && leb x (s + (p - s))) || t)
          (covers-extract_loop v v x vs (omega arith) c)
      ∙ one_run s p v x (has vs x) h
]

pub extract_loop-RunsFrom :
    (k s p : ℕ) (vs : List ℕ)
    → k ≤ s
    → s ≤ p
    → p < 2 ^ 16
    → LowsFrom (p + 1) vs
    → RunsFrom k (extract_loop s p vs)
unfolding extract_loop
extract_loop-RunsFrom k s p [] g h b f = (g, omega arith, tt)
extract_loop-RunsFrom k s p (v ∷ vs) g h m (a, b, c) = elim (Bool-cases (v == (p + 1) % 2 ^ 16)) [
  | inl e ↦ rw (continue s p v vs e) (extract_loop-RunsFrom k s v vs g (omega arith) b c)
  | inr e ↦ rw (break s p v vs e) (
    g,
    omega arith,
    extract_loop-RunsFrom (s + (p - s) + 1) v v vs (omega arith) (omega arith) b c,
  )
]

pub length-extract_loop :
    (s p : ℕ) (vs : List ℕ) → length (extract_loop s p vs) ≡ 1 + breaks_after p vs
unfolding extract_loop breaks_after
length-extract_loop s p [] = refl
length-extract_loop s p (v ∷ vs) = elim (Bool-cases (v == (p + 1) % 2 ^ 16)) [
  | inl e ↦ rw (e, continue s p v vs e) (omega (arith, length-extract_loop s v vs))
  | inr e ↦ rw (e, break s p v vs e) (omega (arith, length-extract_loop v v vs))
]

pub test_bit-fill :
    (k j : ℕ) (vs words : List ℕ)
    → LowsFrom k vs
    → length words ≡ 1024
    → test_bit (fill vs words) j ≡ (if has vs j then 1 else test_bit words j)
unfolding fill
test_bit-fill k j [] words f h = refl
test_bit-fill k j (v ∷ vs) words (a, b, c) h =
    test_bit-fill (v + 1) j vs (set_bit v words) c (length-set words _ _ ∙ h)
    ∙ elim (Bool-cases (has vs j)) [
      | inl y ↦ rw y (or_true (v == j) (test_bit words j))
      | inr n ↦
          rw n
            (test_bit-set_bit words v j (omega (arith, h)) ∙ or_false (v == j) (test_bit words j))
    ]
  where
    or_true : (p : Bool) (n : ℕ) → 1 ≡ (if p || true then 1 else n)
    or_true true n = refl
    or_true false n = refl

    or_false : (p : Bool) (n : ℕ) → (if p then 1 else n) ≡ (if p || false then 1 else n)
    or_false true n = refl
    or_false false n = refl
