-- ===== src/View/Extrema/Last.antt =====
-- The last elements of the enumerations.
use frostbit.Base.{
  ℕ, zero, suc, ◌+◌, ◌*◌, ◌≡◌, refl, ap, ◌∙◌, Option, none, some, List, [], ◌∷◌, ◌++◌, take, drop,
  arith, inl, inr, ◌⊎◌, drop-drop,
}
use frostbit.Format.Cast.{cast_slice}
use frostbit.Format.Endian.{Bytes, from_le}
use frostbit.Format.Index.Borrow.{cast_slice-cons}
use frostbit.Container.Elements.{count_up, run_values}
use frostbit.Container.Read.{runs_of}
use frostbit.View.Extrema.Min.{no_values}

abbrev pub last : List ℕ → Option ℕ
last [] = none
last (x ∷ []) = some x
last (x ∷ y ∷ xs) = last (y ∷ xs)

pub last-append : (xs ys : List ℕ) {v : ℕ} → last ys ≡ some v → last (xs ++ ys) ≡ some v
last-append [] ys e = e
last-append (x ∷ []) [] e = cc
last-append (x ∷ []) (y ∷ ys) e = e
last-append (x ∷ z ∷ xs) ys e = last-append (z ∷ xs) ys e

pub last-cons : (x : ℕ) (ys : List ℕ) {v : ℕ} → last ys ≡ some v → last (x ∷ ys) ≡ some v
last-cons x ys e = last-append (x ∷ []) ys e

pub append-nil : (xs : List ℕ) → xs ++ [] ≡ xs
append-nil [] = refl
append-nil (x ∷ xs) = ap (λ t. x ∷ t) (append-nil xs)

pub nil_or_last : (xs : List ℕ) → (xs ≡ []) ⊎ ((v : ℕ) × (last xs ≡ some v))
nil_or_last [] = inl refl
nil_or_last (x ∷ xs) = inr (of_cons x xs)
  where
    of_cons : (x : ℕ) (xs : List ℕ) → (v : ℕ) × (last (x ∷ xs) ≡ some v)
    of_cons x [] = (x, refl)
    of_cons x (y ∷ xs) = of_cons y xs

pub unlike : {v : ℕ} → none ≡ some v → ⊥
unlike p = cc

pub same_some : {a b : ℕ} → some a ≡ some b → a ≡ b
same_some p = ground arith

pub last-cast_slice :
    (w k off : ℕ) (bytes : Bytes)
    → last (cast_slice w (suc k) (take (w * suc k) (drop off bytes)))
      ≡ some (from_le (take w (drop (off + k * w) bytes)))
last-cast_slice w zero off bytes =
    let here : off + 0 * w ≡ off = omega arith in
    rw (cast_slice-cons w zero off bytes, here, no_values w (take (w * 0) (drop (off + w) bytes)))
      refl
last-cast_slice w (suc k) off bytes =
    let next : off + w + k * w ≡ off + suc k * w = omega arith in
    rw (cast_slice-cons w (suc k) off bytes) (
      last-cons (from_le (take w (drop off bytes)))
        (cast_slice w (suc k) (take (w * suc k) (drop (off + w) bytes)))
        (rw next at (last-cast_slice w k (off + w) bytes)))

last-count_up : (n v : ℕ) → last (count_up (n + 1) v) ≡ some (v + n)
last-count_up zero v = let here : v + 0 ≡ v = omega arith in rw here refl
last-count_up (suc n) v =
    let more : suc n + 1 ≡ suc (n + 1) = omega arith in
    let place : v + 1 + n ≡ v + suc n = omega arith in
    rw more (last-cons v (count_up (n + 1) (v + 1)) (rw place at (last-count_up n (v + 1))))

runs_of-cons :
    (k off : ℕ) (bytes : Bytes)
    → run_values (runs_of (suc k) (drop off bytes))
      ≡ count_up (from_le (take 2 (drop (off + 2) bytes)) + 1) (from_le (take 2 (drop off bytes)))
        ++ run_values (runs_of k (drop (off + 4) bytes))
unfolding runs_of
runs_of-cons k off bytes = rw (drop-drop 2 off bytes, drop-drop 4 off bytes) refl

no_runs : (bytes : Bytes) → run_values (runs_of zero bytes) ≡ []
unfolding runs_of
no_runs bytes = refl

pub last-run_values :
    (k off : ℕ) (bytes : Bytes)
    → last (run_values (runs_of (suc k) (drop off bytes)))
      ≡ some (
          from_le (take 2 (drop (off + k * 4) bytes))
          + from_le (take 2 (drop (off + k * 4 + 2) bytes)))
last-run_values zero off bytes =
    let here : off + 0 * 4 ≡ off = omega arith in
    rw here (
      ap last (
        runs_of-cons zero off bytes
        ∙ ap
            (λ t.
              count_up (from_le (take 2 (drop (off + 2) bytes)) + 1)
                (from_le (take 2 (drop off bytes)))
              ++ t)
            (no_runs (drop (off + 4) bytes))
        ∙ append-nil _)
      ∙ last-count_up (from_le (take 2 (drop (off + 2) bytes))) (from_le (take 2 (drop off bytes))))
last-run_values (suc k) off bytes =
    let next : off + 4 + k * 4 ≡ off + suc k * 4 = omega arith in
    ap last (runs_of-cons (suc k) off bytes)
    ∙ last-append
        (count_up (from_le (take 2 (drop (off + 2) bytes)) + 1) (from_le (take 2 (drop off bytes))))
        (run_values (runs_of (suc k) (drop (off + 4) bytes)))
        (rw next at (last-run_values k (off + 4) bytes))
