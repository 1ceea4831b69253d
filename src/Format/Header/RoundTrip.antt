-- ===== src/Format/Header/RoundTrip.antt =====
-- `Header::parse` after `Header::write`, and `parse` on arbitrary bytes.
use frostbit.Base.{ℕ, ◌^◌, ◌≤◌, ◌<◌, ◌≡◌, ap, ◌∙◌, inl, false, arith}
use frostbit.Base.{some, length, ltb, if◌then◌else◌}
use frostbit.Base.Exec.{ok}
use frostbit.Format.Sizes.{
  magic, version, h_magic, h_version, h_flags, h_num_containers, h_cardinality, header_size,
  flag_has_runs, flag_full, flag_has_bitmap, full_cardinality,
}
use frostbit.Format.Endian.{Bytes, to_le, overwrite, read_u16, read_u32}
use frostbit.Format.Endian.Laws.{
  length-overwrite, read_u16-overwrite_self, read_u32-overwrite_self, read_u16-overwrite-Apart,
  read_u32-overwrite-Apart, write_u16-ok, write_u32-ok,
}
use frostbit.Format.Header.{Header, flags, card_field, write, parse, has_flag}

-- The fields fit the header: a `u32` count and at most 2 ^ 32 values.
pub record IsValid (h : Header) : Type 0 where
  pub containers_fit : h.num_containers < 2 ^ 32
  pub values_fit : h.cardinality ≤ full_cardinality

-- The buffer after each of the five writes.
abbrev pub with_magic : Bytes → Bytes
with_magic buf = overwrite h_magic (to_le 4 magic) buf

abbrev pub with_version : Bytes → Bytes
with_version buf = overwrite h_version (to_le 2 version) (with_magic buf)

abbrev pub with_flags : Header → Bytes → Bytes
with_flags h buf = overwrite h_flags (to_le 2 (flags h)) (with_version buf)

abbrev pub with_containers : Header → Bytes → Bytes
with_containers h buf = overwrite h_num_containers (to_le 4 h.num_containers) (with_flags h buf)

pub written : Header → Bytes → Bytes
written h buf = overwrite h_cardinality (to_le 4 (card_field h)) (with_containers h buf)

module _ (h : Header) (buf : Bytes) where
  pub length-with_magic : length (with_magic buf) ≡ length buf
  length-with_magic = length-overwrite h_magic (to_le 4 magic) buf

  pub length-with_version : length (with_version buf) ≡ length buf
  length-with_version =
      length-overwrite h_version (to_le 2 version) (with_magic buf) ∙ length-with_magic

  pub length-with_flags : length (with_flags h buf) ≡ length buf
  length-with_flags =
      length-overwrite h_flags (to_le 2 (flags h)) (with_version buf) ∙ length-with_version

  pub length-with_containers : length (with_containers h buf) ≡ length buf
  length-with_containers =
      length-overwrite h_num_containers (to_le 4 h.num_containers) (with_flags h buf)
      ∙ length-with_flags

  pub length-written : length (written h buf) ≡ length buf
  unfolding written
  length-written =
      length-overwrite h_cardinality (to_le 4 (card_field h)) (with_containers h buf)
      ∙ length-with_containers

module _ (h : Header) (buf : Bytes) (fits : header_size ≤ length buf) where
  pub write-written : write h buf ≡ ok (written h buf)
  unfolding write written
  write-written = rw (write_u32-ok buf h_magic magic (omega arith)) (
      rw (write_u16-ok (with_magic buf) h_version version (omega (arith, length-with_magic h buf)))
        (rw
          (write_u16-ok (with_version buf) h_flags (flags h)
            (omega (arith, length-with_version h buf)))
          (rw
            (write_u32-ok (with_flags h buf) h_num_containers h.num_containers
              (omega (arith, length-with_flags h buf)))
            (write_u32-ok (with_containers h buf) h_cardinality (card_field h)
              (omega (arith, length-with_containers h buf))))))

  read_magic : read_u32 (written h buf) h_magic ≡ ok magic
  unfolding written
  read_magic =
      read_u32-overwrite-Apart (with_containers h buf) 12 0 (to_le 4 (card_field h))
        (inl (omega arith))
      ∙ read_u32-overwrite-Apart (with_flags h buf) 8 0 (to_le 4 h.num_containers)
          (inl (omega arith))
      ∙ read_u32-overwrite-Apart (with_version buf) 6 0 (to_le 2 (flags h)) (inl (omega arith))
      ∙ read_u32-overwrite-Apart (with_magic buf) 4 0 (to_le 2 version) (inl (omega arith))
      ∙ read_u32-overwrite_self buf 0 magic (omega arith) (omega arith)

  read_version : read_u16 (written h buf) h_version ≡ ok version
  unfolding written
  read_version =
      read_u16-overwrite-Apart (with_containers h buf) 12 4 (to_le 4 (card_field h))
        (inl (omega arith))
      ∙ read_u16-overwrite-Apart (with_flags h buf) 8 4 (to_le 4 h.num_containers)
          (inl (omega arith))
      ∙ read_u16-overwrite-Apart (with_version buf) 6 4 (to_le 2 (flags h)) (inl (omega arith))
      ∙ read_u16-overwrite_self (with_magic buf) 4 version (omega arith)
          (omega (arith, length-with_magic h buf))

  read_flags : flags h < 2 ^ 16 → read_u16 (written h buf) h_flags ≡ ok (flags h)
  unfolding written
  read_flags small =
      read_u16-overwrite-Apart (with_containers h buf) 12 6 (to_le 4 (card_field h))
        (inl (omega arith))
      ∙ read_u16-overwrite-Apart (with_flags h buf) 8 6 (to_le 4 h.num_containers)
          (inl (omega arith))
      ∙ read_u16-overwrite_self (with_version buf) 6 (flags h) small
          (omega (arith, length-with_version h buf))

  read_containers :
      h.num_containers < 2 ^ 32 → read_u32 (written h buf) h_num_containers ≡ ok h.num_containers
  unfolding written
  read_containers small =
      read_u32-overwrite-Apart (with_containers h buf) 12 8 (to_le 4 (card_field h))
        (inl (omega arith))
      ∙ read_u32-overwrite_self (with_flags h buf) 8 h.num_containers small
          (omega (arith, length-with_flags h buf))

  read_card : card_field h < 2 ^ 32 → read_u32 (written h buf) h_cardinality ≡ ok (card_field h)
  unfolding written
  read_card small =
      read_u32-overwrite_self (with_containers h buf) 12 (card_field h) small
        (omega (arith, length-with_containers h buf))

-- What `parse` makes of the flag word and the cardinality field.
abbrev decode_fields : ℕ → ℕ → ℕ → Header
decode_fields word card n = record {
  has_runs = has_flag word flag_has_runs;
  has_bitmap = has_flag word flag_has_bitmap;
  num_containers = n;
  cardinality = if has_flag word flag_full then full_cardinality else card;
}

flags-lt : (h : Header) → flags h < 8
unfolding flags
flags-lt h = ground arith

card_field-lt : (h : Header) → card_field h < 2 ^ 32
unfolding card_field
card_field-lt h = ground arith

decode-encode :
    (h : Header) → IsValid h → decode_fields (flags h) (card_field h) h.num_containers ≡ h
unfolding flags card_field
decode-encode h v = ground arith

-- A header that fits is written to the front of any buffer of sixteen bytes or more without a
-- panic, and `parse` reads the same header back; the buffer keeps its length.
pub parse-write :
    (h : Header) (buf : Bytes)
    → IsValid h
    → header_size ≤ length buf
    → (buf' : Bytes) × (write h buf ≡ ok buf')
      × (parse buf' ≡ ok (some h))
      × (length buf' ≡ length buf)
unfolding parse
parse-write h buf v fits = (written h buf, write-written h buf fits, parsed, length-written h buf)
  where
    long : ltb (length (written h buf)) header_size ≡ false
    long = ground (arith, length-written h buf)

    parsed : parse (written h buf) ≡ ok (some h)
    parsed =
        rw
          (
            long,
            read_magic h buf fits,
            read_version h buf fits,
            read_flags h buf fits (omega (arith, flags-lt h)),
            read_card h buf fits (card_field-lt h),
            read_containers h buf fits v.containers_fit,
          )
          (ap (λ x. ok (some x)) (decode-encode h v))
