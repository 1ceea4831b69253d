-- ===== src/Format/Header/Reject.antt =====
-- `Header::parse` on arbitrary bytes: it always answers, and accepts only its own magic and version.
use frostbit.Base.{◌≤◌, ◌≡◌, ◌≢◌, inl, inr, arith, some, length, ltb, Bool-cases}
use frostbit.Base.Exec.{ok, panic}
use frostbit.Format.Sizes.{magic, version, h_magic, h_version, h_num_containers, header_size}
use frostbit.Format.Endian.{Bytes, read_u16, read_u32}
use frostbit.Format.Endian.Laws.{read_u16_total, read_u32_total}
use frostbit.Format.Header.{Header, parse}

-- `parse` panics on no input.
pub parse-ne-panic : (bytes : Bytes) → parse bytes ≢ panic
unfolding parse
parse-ne-panic bytes = elim (Bool-cases (ltb (length bytes) header_size)) [
  | inl short ↦ rw short (λ e. cc)
  | inr long ↦
      let (m, em) = read_u32_total bytes 0 (ground arith) in
      let (v, ev) = read_u16_total bytes 4 (ground arith) in
      let (f, ef) = read_u16_total bytes 6 (ground arith) in
      let (c, ec) = read_u32_total bytes 12 (ground arith) in
      let (n, en) = read_u32_total bytes 8 (ground arith) in
      ground (arith, long, em, ev, ef, ec, en)
]

-- What an accepted header shows of its bytes.
record Accepted (bytes : Bytes) (h : Header) : Type 0 where
  long : header_size ≤ length bytes
  magic_read : read_u32 bytes h_magic ≡ ok magic
  version_read : read_u16 bytes h_version ≡ ok version
  containers_read : read_u32 bytes h_num_containers ≡ ok h.num_containers

-- Where `parse` accepts a buffer, it has sixteen bytes or more, it starts with the magic number and
-- the version, and the header's container count is the one that stands in it.
parse-Accepted : (bytes : Bytes) (h : Header) → parse bytes ≡ ok (some h) → Accepted bytes h
unfolding parse
parse-Accepted bytes h e = ground arith
