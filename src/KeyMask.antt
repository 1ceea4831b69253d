-- ===== src/KeyMask.antt =====
-- src/ops/keymask.rs: the set of live container keys, a bit for each of the 2 ^ 16 keys.
use frostbit.Base.{
  ℕ, ◌/◌, ◌%◌, ◌^◌, ◌<◌, ◌≡◌, refl, ap, ◌∙◌, bit_and, bit_or, Bool, true, false, ◌||◌, List, [],
  ◌∷◌, length, get_or, set, replicate, length-set, length-replicate, ◌==◌, if◌then◌else◌, arith,
}
use frostbit.Base.BitSet.{test_bit, test_bit-set_bit, get_or-replicate}
use frostbit.Base.Bits.{bit, bit_and-mask, bit-zero}

pub record KeyMask : Type 0 where
  pub words : List ℕ

abbrev pub mask_words : ℕ
mask_words = 2 ^ 10

unfoldable pub empty : KeyMask
empty = record { words = replicate mask_words 0 }

-- `self.words[key >> 6] |= 1 << (key & 63)`; a `u16` key has its word among the 1024.
unfoldable pub insert : ℕ → KeyMask → KeyMask
insert key m =
    let i = key / 2 ^ 6 in
    record { words = set m.words i (bit_or (get_or m.words i 0) (2 ^ bit_and key 63)) }

-- `(self.words[key >> 6] >> (key & 63)) & 1 == 1`
unfoldable pub contains : KeyMask → ℕ → Bool
contains m key = bit_and (get_or m.words (key / 2 ^ 6) 0 / 2 ^ bit_and key 63) 1 == 1

abbrev pub IsValid : KeyMask → Type 0
IsValid m = length m.words ≡ mask_words

-- The bit of a key, in plain arithmetic.
abbrev key_bit : KeyMask → ℕ → ℕ
key_bit m key = test_bit m.words key

low_six : (key : ℕ) → bit_and key 63 ≡ key % 64
low_six key = bit_and-mask 6 key

contains-key_bit : (m : KeyMask) (key : ℕ) → contains m key ≡ (key_bit m key == 1)
unfolding contains
contains-key_bit m key =
    rw low_six (rw (bit_and-mask 1 (get_or m.words (key / 64) 0 / 2 ^ (key % 64))))

-- Insertion sets the bit of its key and leaves every other key's bit.
key_bit-insert :
    (m : KeyMask) (key j : ℕ)
    → IsValid m
    → key < 2 ^ 16
    → key_bit (insert key m) j ≡ (if key == j then 1 else key_bit m j)
unfolding insert
key_bit-insert m key j v h = rw (low_six key) (test_bit-set_bit m.words key j (omega (arith, v)))

-- A new mask holds no key.
contains-empty : (j : ℕ) → contains empty j ≡ false
unfolding empty
contains-empty j =
    contains-key_bit empty j
    ∙ ap (λ w. bit w (j % 64) == 1) (get_or-replicate mask_words (j / 64))
    ∙ ap (λ b. b == 1) (bit-zero (j % 64))

contains-insert :
    (m : KeyMask) (key j : ℕ)
    → IsValid m
    → key < 2 ^ 16
    → contains (insert key m) j ≡ ((key == j) || contains m j)
contains-insert m key j v h =
    contains-key_bit (insert key m) j
    ∙ ap (λ b. b == 1) (key_bit-insert m key j v h)
    ∙ ground (arith, contains-key_bit m j)

insert-IsValid : (key : ℕ) (m : KeyMask) → IsValid m → IsValid (insert key m)
unfolding insert
insert-IsValid key m v = length-set m.words _ _ ∙ v

empty-IsValid : IsValid empty
unfolding empty
empty-IsValid = length-replicate {A = ℕ} mask_words 0

-- The mask of a list of surviving keys, as `MaskSrc::mask` of src/api/expr.rs builds it.
insert_all : List ℕ → KeyMask → KeyMask
insert_all [] m = m
insert_all (k ∷ ks) m = insert_all ks (insert k m)

unfoldable pub mask_of : List ℕ → KeyMask
unfolding insert_all
mask_of keys = insert_all keys empty

abbrev pub elem : List ℕ → ℕ → Bool
elem [] j = false
elem (k ∷ ks) j = (k == j) || elem ks j

abbrev pub AreKeys : List ℕ → Type 0
AreKeys [] = Unit {0}
AreKeys (k ∷ ks) = (k < 2 ^ 16) × AreKeys ks

contains-insert_all :
    (ks : List ℕ) (m : KeyMask) (j : ℕ)
    → IsValid m
    → AreKeys ks
    → contains (insert_all ks m) j ≡ (elem ks j || contains m j)
unfolding insert_all
contains-insert_all [] m j v h = refl
contains-insert_all (k ∷ ks) m j v (h, hs) =
    contains-insert_all ks (insert k m) j (insert-IsValid k m v) hs
    ∙ ap (λ b. elem ks j || b) (contains-insert m k j v h)
    ∙ or_swap (elem ks j) (k == j) (contains m j)
  where
    or_swap : (p q r : Bool) → (p || (q || r)) ≡ ((q || p) || r)
    or_swap true true r = refl
    or_swap true false r = refl
    or_swap false true r = refl
    or_swap false false r = refl

-- The mask of a list of `u16` keys contains exactly the keys of the list.
pub contains-mask_of :
    (keys : List ℕ) (j : ℕ) → AreKeys keys → contains (mask_of keys) j ≡ elem keys j
unfolding mask_of
contains-mask_of keys j h =
    contains-insert_all keys empty j empty-IsValid h
    ∙ ap (λ b. elem keys j || b) (contains-empty j)
    ∙ or_false (elem keys j)
  where
    or_false : (p : Bool) → (p || false) ≡ p
    or_false true = refl
    or_false false = refl
