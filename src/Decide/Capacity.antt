-- ===== src/Decide/Capacity.antt =====
-- src/ops/analyze/decide.rs: the capacities that the decisions give, against what they must hold.
use frostbit.Base.{
  ℕ, ◌*◌, ◌%◌, ◌^◌, ◌≤◌, ◌≡◌, refl, min, max, Bool, true, false, ◌&&◌, ◌||◌, ltb, leb, ◌==◌,
  if◌then◌else◌, arith, inl, inr, Bool-cases,
}
use frostbit.Format.Sizes.{
  array_max_size, bitmap_bytes, max_runs, run_bytes, ct_array, ct_bitmap, ct_run,
}
use frostbit.Decide.{
  Choice, UnionKey, Fanin, DiffLhs, shrink_cap, intersect_key, promotes, needs_bitmap, union_key,
  diff_cap, diff_key_shape, union_dense_card,
}

-- The bytes of a container of `card` values in `runs` runs, by its type code.
abbrev pub payload_bytes : ℕ → ℕ → ℕ → ℕ
payload_bytes typ card runs =
    if typ == ct_array then 2 * card else (if typ == ct_run then run_bytes runs else bitmap_bytes)

-- The slot is no larger than a bitmap, and holds `card` values in the chosen type or as an array
-- or bitmap, whichever is canonical.
abbrev pub Fits : Choice → ℕ → Type 0
Fits c card =
    (c.capacity ≤ bitmap_bytes)
    × (shrink_cap card ≤ c.capacity)
    × (payload_bytes c.typ card c.runs ≤ c.capacity)

shrink_cap_lem : (card min_card : ℕ) → card ≤ min_card → shrink_cap card ≤ shrink_cap min_card
unfolding shrink_cap
shrink_cap_lem card m h = ground arith

-- The slot of an intersection holds any result of the smallest input's cardinality at most.
pub intersect_key-Fits :
    (min_card total_runs card : ℕ) (all_run : Bool)
    → card ≤ min_card
    → Fits (intersect_key min_card all_run total_runs) card
unfolding intersect_key shrink_cap
intersect_key-Fits m r card all h = elim (Bool-cases (leb m array_max_size)) [
  | inl y ↦ rw y (ground arith, ground (arith, y, h), ground (arith, y, h))
  | inr n ↦ elim (Bool-cases (all && leb r max_runs)) [
    | inl y ↦ rw (n, y) (ground arith, ground (arith, n, h), run_payload all r y)
    | inr m' ↦ rw (n, m') (ground arith, ground (arith, n, h), ground (arith, n, m'))
  ]
]
  where
    run_payload :
        (b : Bool) (r : ℕ) → (b && leb r max_runs) ≡ true → run_bytes (r % 2 ^ 16) ≤ bitmap_bytes
    run_payload b r e = ground (arith, e)

-- What a union's slot holds: any result of its inputs, and the forms it passes through.
abbrev pub HoldsUnion : UnionKey → Choice → ℕ → Type 0
HoldsUnion k c card =
    Fits c card
    × (k.max_single ≤ c.capacity)
    × (min (run_bytes k.total_runs) bitmap_bytes ≤ c.capacity)

abbrev bitmap_slot : Bool → ℕ → Choice
bitmap_slot b runs =
    if b
    then record { typ = ct_run; capacity = bitmap_bytes; runs = runs % 2 ^ 16 }
    else record { typ = ct_bitmap; capacity = bitmap_bytes; runs = 0 }

shrink_cap_bound : (card : ℕ) → shrink_cap card ≤ bitmap_bytes
unfolding shrink_cap
shrink_cap_bound card = ground arith

bitmap_slot_lem :
    (b : Bool) (card : ℕ) (k : UnionKey)
    → k.max_single ≤ bitmap_bytes
    → (b ≡ true → k.total_runs ≤ max_runs)
    → HoldsUnion k (bitmap_slot b k.total_runs) card
bitmap_slot_lem true card k h e =
    ((omega arith, shrink_cap_bound card, run_form k.total_runs (e refl)), h, omega arith)
  where
    run_form : (r : ℕ) → r ≤ max_runs → run_bytes (r % 2 ^ 16) ≤ bitmap_bytes
    run_form r h = omega arith
bitmap_slot_lem false card k h e =
    ((omega arith, shrink_cap_bound card, omega arith), h, omega arith)

-- Short of a bitmap, the inputs are small.
small_inputs :
    (k : UnionKey) (fanin : Fanin)
    → needs_bitmap k fanin ≡ false
    → (k.sum_card ≤ array_max_size) × (k.total_runs ≤ max_runs)
unfolding needs_bitmap
small_inputs k fanin e = (
  card k.any_bitmap (ltb max_runs k.total_runs || promotes fanin k.n k.sum_card) e,
  runs k.any_bitmap (ltb union_dense_card k.sum_card) (promotes fanin k.n k.sum_card) e,
)
  where
    card :
        (p q : Bool)
        → (p || (ltb union_dense_card k.sum_card || q)) ≡ false
        → k.sum_card ≤ array_max_size
    card p q e = ground (arith, e)

    runs :
        (p q r : Bool)
        → (p || (q || (ltb max_runs k.total_runs || r))) ≡ false
        → k.total_runs ≤ max_runs
    runs p q r e = ground (arith, e)

array_slot : UnionKey → Choice
array_slot k = record {
  typ = ct_array;
  capacity = max (max (k.sum_card * 2) (run_bytes k.total_runs)) k.max_single % 2 ^ 32;
  runs = 0;
}

array_slot_lem :
    (k : UnionKey) (card : ℕ)
    → card ≤ k.sum_card
    → k.max_single ≤ bitmap_bytes
    → k.sum_card ≤ array_max_size
    → k.total_runs ≤ max_runs
    → HoldsUnion k (array_slot k) card
unfolding array_slot shrink_cap
array_slot_lem k card h m s r =
    let exact : max (max (k.sum_card * 2) (run_bytes k.total_runs)) k.max_single % 2 ^ 32
        ≡ max (max (k.sum_card * 2) (run_bytes k.total_runs)) k.max_single =
      omega (arith, m, s, r) in
    rw exact (
      (omega (arith, m, s, r), ground (arith, h, s), omega (arith, h)),
      omega arith,
      omega (arith, m, s, r),
    )

-- From inputs that are each stored in a bitmap's bytes at most, the slot that `union_key` sizes is
-- no larger than a bitmap, holds any result of at most their summed cardinality, in the type it
-- names and in canonical form, a copy of any one input, and the merged runs where those are smaller
-- than a bitmap; under either promotion rule.
pub union_key-HoldsUnion :
    (k : UnionKey) (fanin : Fanin) (card : ℕ)
    → card ≤ k.sum_card
    → k.max_single ≤ bitmap_bytes
    → HoldsUnion k (union_key k fanin) card
unfolding union_key array_slot
union_key-HoldsUnion k fanin card h m = elim (Bool-cases (needs_bitmap k fanin)) [
  | inl y ↦ rw y (
      bitmap_slot_lem (k.all_run && (ltb 0 k.n && leb k.total_runs max_runs)) card k m
        (bounded k.all_run (ltb 0 k.n) k.total_runs))
  | inr n ↦ let (s, r) = small_inputs k fanin n in rw n (array_slot_lem k card h m s r)
]
  where
    bounded : (p q : Bool) (r : ℕ) → (p && (q && leb r max_runs)) ≡ true → r ≤ max_runs
    bounded p q r e = ground (arith, e)

-- The slot that the tree analyzer sizes for a difference holds what the flat planner would size,
-- whether or not the subtrahend turns out to have the key, and is no larger than a bitmap where the
-- left side is stored in no more.
pub diff_key_shape_lem :
    (lhs : DiffLhs) (splittable present : Bool) (run_bound : ℕ)
    → lhs.stored ≤ bitmap_bytes
    → (diff_cap lhs.card lhs.stored present
        ≤ (diff_key_shape lhs true splittable run_bound).capacity)
      × (diff_cap lhs.card lhs.stored false
          ≤ (diff_key_shape lhs false splittable run_bound).capacity)
      × ((diff_key_shape lhs true splittable run_bound).capacity ≤ bitmap_bytes)
unfolding diff_key_shape diff_cap
diff_key_shape_lem lhs splittable present run_bound h =
    elim (Bool-cases (leb (shrink_cap lhs.card) lhs.stored)) [
      | inl y ↦
          rw y (either present (shrink_cap lhs.card) lhs.stored (ground (arith, y)), omega arith, h)
      | inr n ↦
          rw n (
            other present (shrink_cap lhs.card) lhs.stored n,
            omega arith,
            shrink_cap_bound lhs.card,
          )
    ]
  where
    either : (p : Bool) (a b : ℕ) → a ≤ b → (if p then a else b) ≤ b
    either p a b h = ground arith

    other : (p : Bool) (a b : ℕ) → leb a b ≡ false → (if p then a else b) ≤ a
    other p a b h = ground (arith, h)
