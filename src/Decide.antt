-- ===== src/Decide.antt =====
-- src/ops/analyze/decide.rs: the decision at one key, a container type, a slot's bytes and a run
-- bound; and the promotion rules of src/ops/analyze/plan.rs. `usize` has 64 bits.
pub mod Promotion
pub mod Capacity
mod Tests
use frostbit.Base.{
  ℕ, ◌+◌, ◌-◌, ◌*◌, ◌%◌, ◌^◌, min, max, Bool, true, false, not, ◌&&◌, ◌||◌, ltb, leb, ◌==◌,
  if◌then◌else◌,
}
use frostbit.Format.Sizes.{
  array_max_size, bitmap_bytes, max_runs, run_bytes, ct_array, ct_bitmap, ct_run,
}

pub record Choice : Type 0 where
  pub typ : ℕ
  pub capacity : ℕ
  pub runs : ℕ

abbrev pub union_dense_card : ℕ
union_dense_card = array_max_size

abbrev pub max_union_fanin : ℕ
max_union_fanin = 2 ^ 20

-- `a - b` in `u64`, of two numbers of 64 bits.
abbrev pub sub_u64 : ℕ → ℕ → ℕ
sub_u64 a b = (a + 2 ^ 64 - b) % 2 ^ 64

-- The products and the differences in `u64`.
unfoldable pub union_promotes : ℕ → ℕ → Bool
union_promotes n sum_card =
    if not (leb 2 n && leb n max_union_fanin)
    then ltb max_union_fanin n
    else (let coef = sub_u64 (sub_u64 (85 * n * (n + 1) % 2 ^ 64) (86 * n % 2 ^ 64)) 170 in
        ltb (40000 * n % 2 ^ 64) (sum_card * coef % 2 ^ 64))

-- The product and the difference in `usize`.
unfoldable pub union_promotes_interior : ℕ → ℕ → Bool
union_promotes_interior n sum_card = leb 4 n && ltb 1000 (sum_card * sub_u64 n 3 % 2 ^ 64)

unfoldable pub shrink_cap : ℕ → ℕ
shrink_cap card = if leb card array_max_size then card * 2 % 2 ^ 32 else bitmap_bytes

unfoldable pub intersect_key : ℕ → Bool → ℕ → Choice
intersect_key min_card all_run total_runs =
    let (typ, runs) : ℕ × ℕ =
      if leb min_card array_max_size
      then (ct_array, 0)
      else (if all_run && leb total_runs max_runs
          then (ct_run, total_runs % 2 ^ 16)
          else (ct_bitmap, 0)) in
    record { typ = typ; capacity = shrink_cap min_card; runs = runs }

pub data Fanin : Type 0 where
  flat : Fanin
  interior : Fanin

pub record UnionKey : Type 0 where
  pub sum_card : ℕ
  pub total_runs : ℕ
  pub any_bitmap : Bool
  pub all_run : Bool
  pub max_single : ℕ
  pub n : ℕ

unfoldable pub promotes : Fanin → ℕ → ℕ → Bool
promotes flat n sum_card = union_promotes n sum_card
promotes interior n sum_card = union_promotes_interior n sum_card

unfoldable pub needs_bitmap : UnionKey → Fanin → Bool
needs_bitmap k fanin =
    k.any_bitmap
    || (ltb union_dense_card k.sum_card
        || (ltb max_runs k.total_runs || promotes fanin k.n k.sum_card))

unfoldable pub union_key : UnionKey → Fanin → Choice
union_key k fanin =
    if not (needs_bitmap k fanin)
    then record {
      typ = ct_array;
      capacity = max (max (k.sum_card * 2) (run_bytes k.total_runs)) k.max_single % 2 ^ 32;
      runs = 0;
    }
    else (if k.all_run && (ltb 0 k.n && leb k.total_runs max_runs)
        then record { typ = ct_run; capacity = bitmap_bytes; runs = k.total_runs % 2 ^ 16 }
        else record { typ = ct_bitmap; capacity = bitmap_bytes; runs = 0 })

pub record DiffLhs : Type 0 where
  pub card : ℕ
  pub typ : ℕ
  pub runs : ℕ
  pub stored : ℕ

unfoldable pub diff_cap : ℕ → ℕ → Bool → ℕ
diff_cap card stored in_rhs = if in_rhs then shrink_cap card else stored

unfoldable pub diff_key_shape : DiffLhs → Bool → Bool → ℕ → Choice
diff_key_shape lhs in_rhs splittable run_bound =
    let verbatim : Choice = record { typ = lhs.typ; capacity = lhs.stored; runs = lhs.runs } in
    if not in_rhs
    then verbatim
    else (let shrunk = diff_cap lhs.card lhs.stored true in
        let (typ, runs) : ℕ × ℕ =
          if lhs.typ == ct_run
            && (ltb array_max_size lhs.card && (splittable && leb run_bound max_runs))
          then (ct_run, run_bound % 2 ^ 16)
          else (if leb lhs.card array_max_size then (ct_array, 0) else (ct_bitmap, 0)) in
        if leb shrunk verbatim.capacity
        then verbatim
        else record { typ = typ; capacity = shrunk; runs = runs })
