-- ===== src/Runs/Emit.antt =====
-- Writing a list of intervals to the output, and what a kernel delivers.
use frostbit.Base.{
  ℕ, ◌+◌, ◌-◌, ◌%◌, ◌^◌, ◌≤◌, ◌<◌, ◌≡◌, Bool, true, false, ◌&&◌, ◌||◌, List, [], ◌∷◌, ◌++◌, leb,
  arith, refl, sym, ap, ◌∙◌, length, length-append, if◌then◌else◌, Bool-cases, inl, inr, leb→le,
}
use mathlib.Core.Path.{fun_ext}
use mathlib.Core.List.{append-nil, append_assoc}
use frostbit.Base.Exec.{Exec, ok, ◌>>=◌, >>=_assoc}
use frostbit.Container.Run.{Run, IsRuns, covers, total}
use frostbit.Runs.{Output, nothing, run, emit, emit_if, copy, sum_card}
use frostbit.Runs.Span.{
  Span, From, holds, size, to_runs, size_bound, length-to_runs, RunsFrom-to_runs, covers-to_runs,
  total-to_runs, total_bound,
}

pub emit_all : ℕ → List Span → Output → Exec Output
emit_all room [] o = ok o
emit_all room (s ∷ ss) o = emit room s.lo s.hi o >>= λ o'. emit_all room ss o'

-- The two forms of an optional emission.
abbrev pub one_if : Bool → ℕ → ℕ → List Span → List Span
one_if b lo hi ss = if b then record { lo = lo; hi = hi } ∷ ss else ss

pub emit_all-one_if :
    (room : ℕ) (b : Bool) (lo hi : ℕ) (ss : List Span) (o : Output)
    → emit_all room (one_if b lo hi ss) o ≡ (emit_if b room lo hi o >>= λ o'. emit_all room ss o')
unfolding emit_all
emit_all-one_if room true lo hi ss o = refl
emit_all-one_if room false lo hi ss o = refl

pub emit_all-nil : (room : ℕ) (o : Output) → emit_all room [] o ≡ ok o
unfolding emit_all
emit_all-nil room o = refl

pub emit_all-cons :
    (room lo hi : ℕ) (ss : List Span) (o : Output)
    → emit_all room (record { lo = lo; hi = hi } ∷ ss) o
      ≡ (emit room lo hi o >>= λ o'. emit_all room ss o')
unfolding emit_all
emit_all-cons room lo hi ss o = refl

-- An empty interval holds nothing, so the test of an optional emission may be left out.
pub holds-one_if :
    (lo hi x : ℕ) (ss : List Span)
    → holds (one_if (leb lo hi) lo hi ss) x ≡ ((leb lo x && leb x hi) || holds ss x)
holds-one_if lo hi x ss = elim (Bool-cases (leb lo hi)) [
  | inl h ↦ rw h
  | inr h ↦ rw h (ground (arith, h))
]

pub length-one_if :
    (b : Bool) (lo hi : ℕ) (ss : List Span) → length (one_if b lo hi ss) ≤ length ss + 1
length-one_if true lo hi ss = omega arith
length-one_if false lo hi ss = omega arith

pub From-one_if :
    (k lo hi : ℕ) (ss : List Span)
    → k ≤ lo
    → hi < 2 ^ 16
    → From (hi + 1) ss
    → From k ss
    → From k (one_if (leb lo hi) lo hi ss)
From-one_if k lo hi ss a b c d = elim (Bool-cases (leb lo hi)) [
  | inl h ↦ rw h (a, leb→le lo hi h, b, c)
  | inr h ↦ rw h d
]

pub emit_all-append :
    (room : ℕ) (ss ts : List Span) (o : Output)
    → emit_all room (ss ++ ts) o ≡ (emit_all room ss o >>= λ o'. emit_all room ts o')
unfolding emit_all
emit_all-append room [] ts o = refl
emit_all-append room (s ∷ ss) ts o =
    ap (λ k. emit room s.lo s.hi o >>= k) (fun_ext (λ o'. emit_all-append room ss ts o'))
    ∙ sym (>>=_assoc (emit room s.lo s.hi o) (emit_all room ss) (emit_all room ts))

-- With room for them all, the intervals are written in order and their sizes added up.
emit_all-ok :
    (room : ℕ) (ss : List Span) (o : Output)
    → length o.runs + length ss ≤ room
    → o.card + size ss < 2 ^ 32
    → emit_all room ss o ≡ ok (record { runs = o.runs ++ to_runs ss; card = o.card + size ss })
unfolding emit_all emit
emit_all-ok room [] o h c = ground (arith, append-nil o.runs)
emit_all-ok room (s ∷ ss) o h c = ground (
  arith,
  emit_all-ok room ss (record {
    runs = o.runs ++ (run s.lo s.hi ∷ []);
    card = (o.card + (s.hi - s.lo + 1)) % 2 ^ 32;
  }),
  length-append o.runs (run s.lo s.hi ∷ []),
  append_assoc o.runs (run s.lo s.hi ∷ []) (to_runs ss),
)

-- The kernel returns, within `bound` runs of output: canonical runs that cover just the values that
-- `p` accepts, with their number.
pub record Delivers (r : Exec Output) (bound : ℕ) (p : ℕ → Bool) : Type 0 where
  pub out : Output
  pub returns : r ≡ ok out
  pub fits : length out.runs ≤ bound
  pub ascending : IsRuns out.runs
  pub members : (x : ℕ) → covers out.runs x ≡ p x
  pub counted : out.card ≡ total out.runs

pub emit_all-Delivers :
    (room bound : ℕ) (ss : List Span) (p : ℕ → Bool)
    → length ss ≤ bound
    → bound ≤ room
    → From 0 ss
    → ((x : ℕ) → holds ss x ≡ p x)
    → Delivers (emit_all room ss nothing) bound p
emit_all-Delivers room bound ss p h c f m = record {
  out = record { runs = to_runs ss; card = size ss };
  returns = ground (arith, emit_all-ok room ss nothing, size_bound 0 ss f);
  fits = omega (arith, length-to_runs ss);
  ascending = RunsFrom-to_runs 0 ss f;
  members = λ x. covers-to_runs 0 x ss f ∙ m x;
  counted = sym (total-to_runs 0 ss f);
}

sum_card-total : (rs : List Run) → total rs < 2 ^ 32 → sum_card rs ≡ total rs
unfolding sum_card
sum_card-total [] h = refl
sum_card-total (r ∷ rs) h = omega (arith, sum_card-total rs (omega arith))

pub copy-Delivers :
    (room bound : ℕ) (rs : List Run)
    → length rs ≤ bound
    → bound ≤ room
    → IsRuns rs
    → Delivers (copy room rs) bound (covers rs)
unfolding copy
copy-Delivers room bound rs h c f = record {
  out = record { runs = rs; card = sum_card rs };
  returns = ground arith;
  fits = h;
  ascending = f;
  members = λ x. refl;
  counted = sum_card-total rs (omega (arith, total_bound 0 rs f (omega arith)));
}

pub Delivers-ext :
    (r : Exec Output) (bound : ℕ) (p q : ℕ → Bool)
    → Delivers r bound p
    → ((x : ℕ) → p x ≡ q x)
    → Delivers r bound q
Delivers-ext r bound p q d e = record {
  out = d.out;
  returns = d.returns;
  fits = d.fits;
  ascending = d.ascending;
  members = λ x. d.members x ∙ e x;
  counted = d.counted;
}
