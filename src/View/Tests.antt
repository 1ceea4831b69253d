-- ===== src/View/Tests.antt =====
-- A view of a small bitmap of each encoding.
use frostbit.Base.{
  get_elem?, Bool, ltb, false, length, ℕ, ◌%◌, ◌≡◌, ◌≢◌, refl, true, false, ◌&&◌, Option, some, [],
  ◌∷◌, ◌==◌, arith, inl, inr, Bool-cases, ==_iff,
}
use frostbit.Base.Exec.{ok, panic}
use frostbit.Format.Endian.{Bytes}
use frostbit.Format.Endian.Bounds.{AreBytes}
use frostbit.Base.Search.{binary_search}
use frostbit.Format.Cast.{cast_slice, Castable, IsBytemuck, unwrap, try_cast}
use frostbit.Container.Run.{end}
use frostbit.Container.Payload
use frostbit.Format.Sizes.{align_up}
use frostbit.Format.Endian.{slice, read_u16, read_u32}
use frostbit.Format.Inline.{has_inline_magic}
use frostbit.Format.Header.{parse}
use frostbit.Format.Index.{read_index_entry, index, find, entry}
use frostbit.Container.Read.{tail, new_runs, new, try_cast_runs, runs_of}
use frostbit.View.{
  View, standard, inline, inline_fits, checked_add, entry_data, from_bytes, from_bytes_trusted,
}
use frostbit.View.Payload.{payload_is_valid}
use frostbit.View.Contents.{IsWellFormed, Contents, decode, ValuesFrom, elements}
use frostbit.View.Accepted.{from_bytes-IsWellFormed}
use frostbit.View.Query.{is_inline, is_empty, contains, len}
use frostbit.View.Extrema.{min, max}
use frostbit.View.Extrema.Last.{last}
use frostbit.View.Extrema.Max.{max_lem}
use frostbit.View.Extrema.Min.{min_lem}
use frostbit.View.Counted.{stored_count, from_bytes-elements}
use frostbit.View.Iterate.{iter}
use frostbit.View.Iterate.Visits.{Visits, iter_lem}
use frostbit.Container.Lows.{has}
use frostbit.View.Contains.{contains_lem}
use frostbit.View.Misaligned.{contains-misaligned}
use frostbit.View.Total.{from_bytes_total}
use frostbit.View.Trusted.{from_bytes_trusted_lem}

-- The test that the documentation describes.
abbrev by_remainder : Castable
by_remainder align size addr len = (addr % align == 0) && (len % size == 0)

by_remainder-IsBytemuck : IsBytemuck by_remainder
by_remainder-IsBytemuck = record {
  accepts = λ align size addr len e f. rw (e, f) refl;
  refuses = λ align size addr len h. refusal (addr % align) (len % size) h;
}
  where
    refusal : (a b : ℕ) → a ≢ 0 → ((a == 0) && (b == 0)) ≡ false
    refusal a b h = elim (Bool-cases (a == 0)) [
      | inl y ↦ absurd (h ((==_iff a 0).0 y))
      | inr n ↦ rw n refl
    ]

-- An array of the value 1 under the key 0, and a run of three values from 5 on under the key 1.
abbrev two_containers : Bytes
two_containers =
    0x5A ∷ 0x4F ∷ 0x52 ∷ 0x46 ∷ 3 ∷ 0 ∷ 1 ∷ 0 ∷ 2 ∷ 0 ∷ 0 ∷ 0 ∷ 4 ∷ 0 ∷ 0 ∷ 0 ∷ 0 ∷ 0 ∷ 1 ∷ 0 ∷ 0
    ∷ 0 ∷ 2 ∷ 0 ∷ 0 ∷ 0 ∷ 0 ∷ 0 ∷ 8 ∷ 0 ∷ 0 ∷ 0x80 ∷ 1 ∷ 0 ∷ 0 ∷ 0 ∷ 0 ∷ 0 ∷ 0 ∷ 0 ∷ 1 ∷ 0 ∷ 5 ∷ 0
    ∷ 2 ∷ 0 ∷ []

abbrev two_view : View
two_view = record { base = 64; bytes = two_containers; repr = standard 2 32; cardinality = 4 }

two_accepted : from_bytes by_remainder 64 two_containers ≡ ok (some two_view)
unfolding from_bytes has_inline_magic parse read_u32 slice read_u16 align_up read_index_entry
    checked_add payload_is_valid try_cast cast_slice tail try_cast_runs runs_of
two_accepted = refl

abbrev fit_bytes : Bytes → Bool
fit_bytes [] = true
fit_bytes (b ∷ bytes) = ltb b 256 && fit_bytes bytes

fit_bytes-AreBytes : (bytes : Bytes) → fit_bytes bytes ≡ true → AreBytes bytes
fit_bytes-AreBytes [] e = tt
fit_bytes-AreBytes (b ∷ bytes) e = elim (Bool-cases (ltb b 256)) [
  | inl y ↦ (ground (arith, y), fit_bytes-AreBytes bytes (rw y at e))
  | inr n ↦ absurd (clash (rw n at e))
]
  where
    clash : false ≡ true → ⊥
    clash p = cc

two_AreBytes : AreBytes two_containers
two_AreBytes = fit_bytes-AreBytes two_containers refl

from_bytes-IsWellFormed_example : IsWellFormed by_remainder two_view
from_bytes-IsWellFormed_example =
    from_bytes-IsWellFormed by_remainder 64 two_containers two_view two_AreBytes two_accepted

abbrev two_well_formed : IsWellFormed by_remainder two_view
two_well_formed =
    from_bytes-IsWellFormed by_remainder 64 two_containers two_view two_AreBytes two_accepted

contains_example :
    contains by_remainder two_view 65543 ≡ ok (has (elements two_well_formed.contents) 65543)
contains_example =
    contains_lem by_remainder by_remainder-IsBytemuck two_view two_well_formed 65543 refl
      (omega arith)

-- What it answers.
contains_run : contains by_remainder two_view 65543 ≡ ok true
unfolding contains index slice try_cast find binary_search cast_slice entry entry_data tail new
    new_runs try_cast_runs runs_of read_u16 unwrap Payload.contains end
contains_run = refl

-- No values, at an odd address.
abbrev empty_inline : Bytes
empty_inline = 0x46 ∷ 0x49 ∷ 0 ∷ 0 ∷ []

abbrev empty_view : View
empty_view = record { base = 1; bytes = empty_inline; repr = inline 0; cardinality = 0 }

empty_accepted : from_bytes by_remainder 1 empty_inline ≡ ok (some empty_view)
unfolding from_bytes has_inline_magic read_u16 slice inline_fits
empty_accepted = refl

contains-misaligned_example :
    (is_inline empty_view ≡ true)
    × (is_empty empty_view ≡ true)
    × (contains by_remainder empty_view 7 ≡ panic)
contains-misaligned_example =
    contains-misaligned by_remainder by_remainder-IsBytemuck empty_view 7
      (from_bytes-IsWellFormed by_remainder 1 empty_inline empty_view
        (omega arith, (omega arith, (omega arith, (omega arith, tt)))) empty_accepted)
      (λ e. omega arith)

from_bytes_total_example :
    (result : Option View) × (from_bytes by_remainder 64 two_containers ≡ ok result)
from_bytes_total_example = from_bytes_total by_remainder 64 two_containers

from_bytes_trusted_example : from_bytes_trusted 64 two_containers ≡ ok two_view
from_bytes_trusted_example =
    from_bytes_trusted_lem by_remainder 64 two_containers two_view two_accepted

from_bytes-elements_example :
    (c : Contents) × (decode by_remainder two_view ≡ ok c)
    × ValuesFrom 0 (elements c)
    × (stored_count two_containers ≡ ok (length (elements c)))
    × (len two_view ≡ length (elements c))
from_bytes-elements_example =
    from_bytes-elements by_remainder 64 two_containers two_view two_AreBytes two_accepted

iter_example : Visits (iter two_view) (elements two_well_formed.contents)
iter_example = iter_lem by_remainder two_view two_well_formed two_AreBytes

min_example : min two_view ≡ ok (get_elem? (elements two_well_formed.contents) 0)
min_example = min_lem by_remainder two_view two_well_formed two_AreBytes

max_example : max two_view ≡ ok (last (elements two_well_formed.contents))
max_example = max_lem by_remainder two_view two_well_formed two_AreBytes
