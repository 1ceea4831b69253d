-- ===== src/Format/Inline.antt =====
-- src/format.rs: the magic of the inline encoding.
use frostbit.Base.{ℕ, Bool, false, ◌&&◌, [], ◌∷◌, ◌==◌}
use frostbit.Format.Endian.{Bytes}

-- `b"FI"`
abbrev pub inline_magic_f : ℕ
inline_magic_f = 0x46

abbrev pub inline_magic_i : ℕ
inline_magic_i = 0x49

-- Fewer than two bytes have no magic.
unfoldable pub has_inline_magic : Bytes → Bool
has_inline_magic [] = false
has_inline_magic (a ∷ []) = false
has_inline_magic (a ∷ b ∷ bytes) = (a == inline_magic_f) && (b == inline_magic_i)
