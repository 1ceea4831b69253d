-- ===== src/Format/Tests.antt =====
-- The wire format on small buffers.
use frostbit.Base.{
  ◌+◌, ◌*◌, ◌^◌, ◌≡◌, ◌↔◌, refl, true, false, [], ◌∷◌, length, some, replicate, arith,
}
use frostbit.Base.Exec.{ok}
use frostbit.Format.Sizes.{keys_off}
use frostbit.Format.Cast.{Castable, unwrap, cast_slice, try_cast}
use frostbit.Format.Endian.{Bytes, slice, read_u16}
use frostbit.Format.Header.{Header, write, parse}
use frostbit.Format.Header
use frostbit.Format.Header.RoundTrip.{parse-write}
use frostbit.Format.Index.{
  Index, IndexEntry, read_index_entry, write_index_entry, index, entry, find,
}
use frostbit.Format.Index.RoundTrip.{read-write_index_entry}
use frostbit.Format.Index
use frostbit.Format.Index.Borrow.{find-index}

abbrev full : Header
full = record { has_runs = true; has_bitmap = false; num_containers = 65536; cardinality = 2 ^ 32 }

full-IsValid : Header.RoundTrip.IsValid full
full-IsValid = record { containers_fit = omega arith; values_fit = omega arith }

abbrev blank : Bytes
blank = replicate 40 0

parse-write_example :
    (buf' : Bytes) × (write full blank ≡ ok buf')
    × (parse buf' ≡ ok (some full))
    × (length buf' ≡ length blank)
parse-write_example = parse-write full blank full-IsValid (omega arith)

abbrev slot : IndexEntry
slot = record { key = 70; typ = 2; cardinality = 65536; data_offset = 640 }

slot-IsValid : Index.RoundTrip.IsValid slot
slot-IsValid = record {
  key_fits = omega arith;
  typ_fits = omega arith;
  card_pos = omega arith;
  card_fits = omega arith;
  offset_fits = omega arith;
}

read-write_index_entry_example :
    (buf' : Bytes) × (write_index_entry blank 3 1 slot ≡ ok buf')
    × (read_index_entry buf' 3 1 ≡ ok slot)
    × (length buf' ≡ length blank)
read-write_index_entry_example =
    read-write_index_entry blank 3 1 slot slot-IsValid (omega arith) (omega arith)

-- Every cast accepted.
abbrev any_cast : Castable
any_cast align size addr len = true

-- A buffer with an index of two entries, under the keys 5 and 70.
abbrev index_bytes : Bytes
index_bytes =
    0x5A ∷ 0x4F ∷ 0x52 ∷ 0x46 ∷ 3 ∷ 0 ∷ 0 ∷ 0 ∷ 2 ∷ 0 ∷ 0 ∷ 0 ∷ 3 ∷ 0 ∷ 0 ∷ 0 ∷ 5 ∷ 0 ∷ 70 ∷ 0 ∷ 0
    ∷ 0 ∷ 1 ∷ 0 ∷ 0 ∷ 0 ∷ 0 ∷ 0 ∷ 2 ∷ 0 ∷ 0 ∷ 0 ∷ []

abbrev two_entries : Index
two_entries = record { keys = 5 ∷ 70 ∷ []; cards = 0 ∷ 1 ∷ []; type_offsets = 0 ∷ 2 ∷ [] }

index_run : index any_cast 64 index_bytes 2 ≡ ok two_entries
unfolding index slice try_cast cast_slice unwrap
index_run = refl

find-index_example :
    (find two_entries 70 ≡ some 1) ↔ (read_u16 index_bytes (keys_off + 1 * 2) ≡ ok 70)
find-index_example =
    find-index any_cast 64 index_bytes two_entries 2 70 1 (omega arith) (omega arith) index_run
      (omega arith, tt)
