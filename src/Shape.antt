-- ===== src/Shape.antt =====
-- src/ops/analyze/shape.rs: the output shapes of a tree's nodes. A merge cursor over a shape is the
-- list that is left of it.
pub mod Keys
pub mod Combine
pub mod Differences
mod Tests
use frostbit.Base.{
  ℕ, zero, suc, ◌+◌, ◌-◌, ◌*◌, ◌%◌, ◌^◌, min, max, Bool, true, false, not, ◌&&◌, ◌||◌, Option, none,
  some, List, [], ◌∷◌, map, length, ltb, leb, ◌==◌, if◌then◌else◌,
}
use frostbit.Base.Exec.{Exec, ok, ◌>>=◌}
use frostbit.Format.Sizes.{ct_array, ct_bitmap, ct_run, ct_inline}
use frostbit.Cursor.{ContainerRef, stored_bytes, num_runs}
use frostbit.Decide.{Choice, UnionKey, interior, DiffLhs, intersect_key, union_key, diff_key_shape}
use frostbit.Plan.{
  Op, SlotPlan, UnionAgg, no_agg, Plan, scratch_bytes, saturating_add, wants_partner_major,
}

pub record Meta : Type 0 where
  pub key : ℕ
  pub capacity : ℕ
  pub card : ℕ
  pub runs : ℕ
  pub typ : ℕ

abbrev pub Shape : Type 0
Shape = List Meta

-- `Meta::stored`
abbrev pub stored : Meta → ℕ
stored m = m.capacity

unfoldable pub view_shape : List ContainerRef → Exec Shape
view_shape [] = ok []
view_shape (r ∷ rs) = stored_bytes r >>= λ stored. view_shape rs >>= λ rest. ok (
    record {
      key = r.key;
      capacity = stored % 2 ^ 32;
      card = r.card;
      runs = num_runs r % 2 ^ 16;
      typ = if r.typ == ct_inline then ct_array else r.typ;
    }
    ∷ rest)

abbrev pub slot_of : Meta → SlotPlan
slot_of m = record { key = m.key; capacity = m.capacity }

unfoldable pub to_plan : Op → Shape → Plan
to_plan op shape =
    let slots = map slot_of shape in
    record {
      op = op;
      double = wants_partner_major op slots;
      slots = slots;
      scratch_bytes = scratch_bytes;
      leaf_agg = [];
    }

-- The smallest head key.
unfoldable pub min_key : List Shape → Option ℕ
min_key [] = none
min_key ([] ∷ curs) = min_key curs
min_key ((m ∷ s) ∷ curs) = elim (min_key curs) [ none ↦ some m.key | some k ↦ some (min m.key k) ]

-- What a round at `key` takes from the cursors, and what it leaves of them.
unfoldable pub at_key : ℕ → List Shape → List Meta
at_key key [] = []
at_key key ([] ∷ curs) = at_key key curs
at_key key ((m ∷ s) ∷ curs) =
    let taken = at_key key curs in if m.key == key then m ∷ taken else taken

abbrev pub pass : ℕ → Shape → Shape
pass key [] = []
pass key (m ∷ s) = if m.key == key then s else m ∷ s

unfoldable pub pass_all : ℕ → List Shape → List Shape
pass_all key [] = []
pass_all key (s ∷ curs) = pass key s ∷ pass_all key curs

abbrev pub total : List Shape → ℕ
total [] = 0
total (s ∷ curs) = length s + total curs

unfoldable pub min_card : List Meta → ℕ
min_card [] = 2 ^ 32 - 1
min_card (m ∷ ms) = min m.card (min_card ms)

unfoldable pub all_run : List Meta → Bool
all_run [] = true
all_run (m ∷ ms) = m.typ == ct_run && all_run ms

unfoldable pub sum_runs : List Meta → ℕ
sum_runs [] = 0
sum_runs (m ∷ ms) = m.runs + sum_runs ms

unfoldable pub intersect_meta : ℕ → List Meta → Meta
unfolding min_card all_run sum_runs
intersect_meta key ms =
    let c = intersect_key (min_card ms) (all_run ms) (sum_runs ms) in
    record { key = key; capacity = c.capacity; card = min_card ms; runs = c.runs; typ = c.typ }

-- The loop of `intersect_shape` on `n` inputs; each round takes a container at least, so as many
-- rounds as there are containers are enough.
unfoldable pub intersect_loop : ℕ → ℕ → List Shape → Shape
unfolding min_key at_key pass_all
intersect_loop zero n curs = []
intersect_loop (suc fuel) n curs = elim (min_key curs) [
  | none ↦ []
  | some key ↦
      let rest = intersect_loop fuel n (pass_all key curs) in
      if length (at_key key curs) == n then intersect_meta key (at_key key curs) ∷ rest else rest
]

unfoldable pub intersect_shape : List Shape → Shape
unfolding intersect_loop
intersect_shape inputs = intersect_loop (total inputs) (length inputs) inputs

-- The merged statistics of a key, and the leaf half of them.
unfoldable pub tally : List Meta → UnionKey → UnionKey
tally [] k = k
tally (m ∷ ms) k = tally ms (record {
  sum_card = saturating_add k.sum_card m.card;
  total_runs = k.total_runs + m.runs;
  any_bitmap = k.any_bitmap || m.typ == ct_bitmap;
  all_run = k.all_run && m.typ == ct_run;
  max_single = max k.max_single (stored m);
  n = k.n + 1;
})

unfoldable pub leaf_tally : Meta → UnionAgg → UnionAgg
leaf_tally m a = record {
  sum_card = saturating_add a.sum_card m.card;
  total_runs = (a.total_runs + m.runs) % 2 ^ 32;
  max_single = max a.max_single (stored m);
  n = (a.n + 1) % 2 ^ 16;
  any_bitmap = a.any_bitmap || m.typ == ct_bitmap;
  all_run = a.all_run && m.typ == ct_run;
}

abbrev head_or_true : List Bool → Bool
head_or_true [] = true
head_or_true (e ∷ es) = e

abbrev tail_of : List Bool → List Bool
tail_of [] = []
tail_of (e ∷ es) = es

-- The inputs that `exact` marks, or that it is too short for.
unfoldable pub leaf_agg_at : ℕ → List Shape → List Bool → UnionAgg → UnionAgg
unfolding leaf_tally
leaf_agg_at key [] exact a = a
leaf_agg_at key ([] ∷ curs) exact a = leaf_agg_at key curs (tail_of exact) a
leaf_agg_at key ((m ∷ s) ∷ curs) exact a =
    leaf_agg_at key curs (tail_of exact)
      (if m.key == key && head_or_true exact then leaf_tally m a else a)

unfoldable pub union_meta : ℕ → List Meta → Meta
unfolding tally
union_meta key ms =
    let k = tally ms (record {
      sum_card = 0;
      total_runs = 0;
      any_bitmap = false;
      all_run = true;
      max_single = 0;
      n = 0;
    }) in
    let c = union_key k interior in
    record { key = key; capacity = c.capacity; card = k.sum_card; runs = c.runs; typ = c.typ }

-- The loop of `union_shape_agg`: the shape, and what it appends to `agg`.
unfoldable pub union_loop : ℕ → List Bool → List Shape → Shape × List UnionAgg
unfolding min_key at_key pass_all leaf_agg_at
union_loop zero exact curs = ([], [])
union_loop (suc fuel) exact curs = elim (min_key curs) [
  | none ↦ ([], [])
  | some key ↦
      let rest = union_loop fuel exact (pass_all key curs) in
      (union_meta key (at_key key curs) ∷ rest.0, leaf_agg_at key curs exact no_agg ∷ rest.1)
]

unfoldable pub union_shape_agg : List Shape → List Bool → Shape × List UnionAgg
unfolding union_loop
union_shape_agg inputs [] = ((union_loop (total inputs) [] inputs).0, [])
union_shape_agg inputs (e ∷ exact) = union_loop (total inputs) (e ∷ exact) inputs

unfoldable pub union_shape : List Shape → Shape
unfolding union_shape_agg
union_shape inputs = (union_shape_agg inputs []).0

-- `while c.key() < key { c.take() }`
unfoldable pub drop_below : ℕ → Shape → Shape
drop_below key [] = []
drop_below key (m ∷ s) = if ltb m.key key then drop_below key s else m ∷ s

-- What the subtrahends have at a key: whether there is any, whether a run can be split by all of
-- them, and the bound on the fragments.
pub record Rhs : Type 0 where
  pub in_rhs : Bool
  pub all_split : Bool
  pub bound : ℕ

unfoldable pub meet_rhs : Meta → Rhs → Rhs
meet_rhs m r =
    if m.typ == ct_run
    then record { in_rhs = true; all_split = r.all_split; bound = r.bound + m.runs }
    else (if m.typ == ct_array
        then record { in_rhs = true; all_split = r.all_split; bound = r.bound + m.card }
        else record { in_rhs = true; all_split = false; bound = r.bound })

unfoldable pub gather_rhs : List Meta → Rhs → Rhs
unfolding meet_rhs
gather_rhs [] r = r
gather_rhs (m ∷ ms) r = gather_rhs ms (meet_rhs m r)

unfoldable pub drop_all : ℕ → List Shape → List Shape
unfolding drop_below
drop_all key [] = []
drop_all key (s ∷ curs) = drop_below key s ∷ drop_all key curs

unfoldable pub diff_meta : Meta → List Meta → Meta
unfolding gather_rhs
diff_meta l ms =
    let r = gather_rhs ms (record { in_rhs = false; all_split = true; bound = l.runs }) in
    let c =
      diff_key_shape (record { card = l.card; typ = l.typ; runs = l.runs; stored = stored l })
        r.in_rhs r.all_split r.bound in
    record { key = l.key; capacity = c.capacity; card = l.card; runs = c.runs; typ = c.typ }

unfoldable pub diff_loop : Shape → List Shape → Shape
unfolding drop_all at_key pass_all diff_meta
diff_loop [] rhs = []
diff_loop (l ∷ ls) rhs =
    let curs = drop_all l.key rhs in
    diff_meta l (at_key l.key curs) ∷ diff_loop ls (pass_all l.key curs)

unfoldable pub diff_shape : List Shape → Shape
unfolding diff_loop
diff_shape [] = []
diff_shape (lhs ∷ rest) = diff_loop lhs rest
