-- ===== src/Format/Endian.antt =====
-- src/format.rs: little-endian access to a byte buffer. A buffer is a list of bytes; an access
-- out of bounds panics.
pub mod Laws
pub mod Bounds
use frostbit.Base.{
  ℕ, zero, suc, ◌+◌, ◌*◌, ◌/◌, ◌%◌, List, [], ◌∷◌, length, take, drop, leb, if◌then◌else◌,
}
use frostbit.Base.Exec.{Exec, ok, panic, ◌>>=◌}

abbrev pub Bytes : Type 0
Bytes = List ℕ

-- `{u16,u32,u64}::to_le_bytes`, for a number of `w` bytes.
abbrev pub to_le : ℕ → ℕ → Bytes
to_le zero v = []
to_le (suc w) v = (v % 256) ∷ to_le w (v / 256)

-- `from_le_bytes`
abbrev pub from_le : Bytes → ℕ
from_le [] = 0
from_le (b ∷ bs) = b + 256 * from_le bs

-- `&bytes[off..off + n]`
unfoldable pub slice : Bytes → ℕ → ℕ → Exec Bytes
slice bytes off n = if leb (off + n) (length bytes) then ok (take n (drop off bytes)) else panic

-- The bytes of `buf` with those from `off` on replaced by `src`.
unfoldable pub overwrite : ℕ → Bytes → Bytes → Bytes
overwrite zero [] buf = buf
overwrite zero (x ∷ src) [] = []
overwrite zero (x ∷ src) (b ∷ buf) = x ∷ overwrite zero src buf
overwrite (suc off) src [] = []
overwrite (suc off) src (b ∷ buf) = b ∷ overwrite off src buf

-- `buf[off..off + src.len()].copy_from_slice(src)`
unfoldable pub copy_at : Bytes → ℕ → Bytes → Exec Bytes
copy_at buf off src =
    if leb (off + length src) (length buf) then ok (overwrite off src buf) else panic

unfoldable pub read_u16 : Bytes → ℕ → Exec ℕ
read_u16 bytes off = slice bytes off 2 >>= λ s. ok (from_le s)

unfoldable pub read_u32 : Bytes → ℕ → Exec ℕ
read_u32 bytes off = slice bytes off 4 >>= λ s. ok (from_le s)

unfoldable pub read_u64 : Bytes → ℕ → Exec ℕ
read_u64 bytes off = slice bytes off 8 >>= λ s. ok (from_le s)

unfoldable pub write_u16 : Bytes → ℕ → ℕ → Exec Bytes
write_u16 bytes off val = copy_at bytes off (to_le 2 val)

unfoldable pub write_u32 : Bytes → ℕ → ℕ → Exec Bytes
write_u32 bytes off val = copy_at bytes off (to_le 4 val)

unfoldable pub write_u64 : Bytes → ℕ → ℕ → Exec Bytes
write_u64 bytes off val = copy_at bytes off (to_le 8 val)
