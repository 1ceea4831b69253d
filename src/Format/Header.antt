-- ===== src/Format/Header.antt =====
-- src/format.rs: `Header`, its `write` and its `parse`.
pub mod RoundTrip
pub mod Reject
use frostbit.Base.{ℕ, ◌+◌, ◌*◌, ◌/◌, ◌%◌, ◌^◌, bit_and, bit_or, Bool, true, false, not}
use frostbit.Base.{Option, none, some, length, ltb, ◌==◌, if◌then◌else◌}
use frostbit.Base.Exec.{Exec, ok, ◌>>=◌}
use frostbit.Format.Sizes.{
  magic, version, h_magic, h_version, h_flags, h_num_containers, h_cardinality, header_size,
  flag_has_runs, flag_full, flag_has_bitmap, full_cardinality,
}
use frostbit.Format.Endian.{Bytes, read_u16, read_u32, write_u16, write_u32}

pub record Header : Type 0 where
  pub has_runs : Bool
  pub has_bitmap : Bool
  pub num_containers : ℕ
  pub cardinality : ℕ

-- The flag word of `Header::write`.
unfoldable pub flags : Header → ℕ
flags h =
    let runs = if h.has_runs then bit_or 0 flag_has_runs else 0 in
    let bitmap = if h.has_bitmap then bit_or runs flag_has_bitmap else runs in
    if h.cardinality == full_cardinality then bit_or bitmap flag_full else bitmap

-- `self.cardinality as u32`, and 0 for a full bitmap.
unfoldable pub card_field : Header → ℕ
card_field h = if h.cardinality == full_cardinality then 0 else h.cardinality % 2 ^ 32

-- `Header::write`: the buffer afterwards.
unfoldable pub write : Header → Bytes → Exec Bytes
unfolding flags card_field
write h buf = do
  buf ← write_u32 buf h_magic magic
  buf ← write_u16 buf h_version version
  buf ← write_u16 buf h_flags (flags h)
  buf ← write_u32 buf h_num_containers h.num_containers
  write_u32 buf h_cardinality (card_field h)

abbrev pub has_flag : ℕ → ℕ → Bool
has_flag flags flag = not (bit_and flags flag == 0)

-- `Header::parse`: `none` on short input, bad magic or a wrong version.
unfoldable pub parse : Bytes → Exec (Option Header)
parse bytes = if ltb (length bytes) header_size then ok none else do
  m ← read_u32 bytes h_magic
  if not (m == magic) then ok none else do
    v ← read_u16 bytes h_version
    if not (v == version) then ok none else do
      flags ← read_u16 bytes h_flags
      card ← read_u32 bytes h_cardinality
      n ← read_u32 bytes h_num_containers
      ok (
          some (record {
            has_runs = has_flag flags flag_has_runs;
            has_bitmap = has_flag flags flag_has_bitmap;
            num_containers = n;
            cardinality = if has_flag flags flag_full then full_cardinality else card;
          }))
