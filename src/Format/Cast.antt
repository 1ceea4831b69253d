-- ===== src/Format/Cast.antt =====
-- The casts of bytes to numbers that src/format.rs, src/container.rs and src/api/view.rs ask the crate
-- `bytemuck` for. Of the crate only the test that it makes is a parameter: an alignment, an element
-- size, an address and a length in bytes, accepted or not.
use frostbit.Base.{
  ℕ, zero, suc, ◌/◌, ◌%◌, ◌≡◌, ◌≢◌, Bool, true, false, Option, none, some, List, [], ◌∷◌, length,
  take, drop, if◌then◌else◌,
}
use frostbit.Base.Exec.{Exec, ok, panic}
use frostbit.Format.Endian.{Bytes, from_le}

abbrev pub Castable : Type 0
Castable = ℕ → ℕ → ℕ → ℕ → Bool

-- What the crate documents: a cast that asks for a greater alignment than the bytes have is refused,
-- and one to a whole number of elements at an aligned address is not.
pub record IsBytemuck (castable : Castable) : Type 0 where
  pub accepts :
      (align size addr len : ℕ)
      → addr % align ≡ 0
      → len % size ≡ 0
      → castable align size addr len ≡ true
  pub refuses : (align size addr len : ℕ) → addr % align ≢ 0 → castable align size addr len ≡ false

unfoldable pub unwrap {ℓ} : {A : Type ℓ} → Option A → Exec A
unwrap none = panic
unwrap (some a) = ok a

-- The numbers of `w` bytes, `n` of them, that a cast of bytes holds.
unfoldable pub cast_slice : ℕ → ℕ → Bytes → List ℕ
cast_slice w zero bytes = []
cast_slice w (suc n) bytes = from_le (take w bytes) ∷ cast_slice w n (drop w bytes)

-- `bytemuck::try_cast_slice` to numbers of `w` bytes, which are as aligned as they are wide; the
-- bytes stand at `addr`. `bytemuck::cast_slice` is it, unwrapped.
unfoldable pub try_cast : Castable → ℕ → ℕ → Bytes → Option (List ℕ)
try_cast castable w addr bytes =
    if castable w w addr (length bytes) then some (cast_slice w (length bytes / w) bytes) else none
