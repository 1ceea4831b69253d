-- ===== src/View/Contents.antt =====
-- src/api/view.rs: what a view stands for. Its bytes are read as the packed values of the inline
-- encoding, or as containers by ascending key.
use frostbit.Base.{
  ℕ, zero, suc, ◌+◌, ◌*◌, ◌/◌, ◌%◌, ◌^◌, ◌<◌, ◌≤◌, ◌≡◌, ◌⊎◌, Bool, false, ◌&&◌, ◌||◌, List, [], ◌∷◌,
  ◌++◌, map, length, ◌==◌,
}
use frostbit.Base.Exec.{Exec, ok, ◌>>=◌}
use frostbit.Format.Cast.{cast_slice, Castable}
use frostbit.Format.Sizes.{inline_header_size, header_size, index_size, word_align}
use frostbit.Format.Endian.{Bytes, slice}
use frostbit.Format.Index.{read_index_entry}
use frostbit.Container.Lows.{has}
use frostbit.Container.Payload.{Data}
use frostbit.Container.Content.{holds, IsSound}
use frostbit.Container.Elements.{lows}
use frostbit.View.{View, Repr, standard, inline, entry_data}

pub record Container : Type 0 where
  pub key : ℕ
  pub card : ℕ
  pub payload : Data

pub data Contents : Type 0 where
  packed : List ℕ → Contents
  stored : List Container → Contents

module _ (castable : Castable) where
  module _ (base : ℕ) (bytes : Bytes) (n data_base : ℕ) where
    unfoldable pub read_container : ℕ → Exec Container
    read_container i = do
      e ← read_index_entry bytes n i
      d ← entry_data castable base bytes data_base e
      ok (record { key = e.key; card = e.cardinality; payload = d })

    -- The containers from position `i` on, `rest` of them.
    unfoldable pub read_containers : ℕ → ℕ → Exec (List Container)
    unfolding read_container
    read_containers i zero = ok []
    read_containers i (suc rest) = do
      c ← read_container i
      cs ← read_containers (i + 1) rest
      ok (c ∷ cs)

  unfoldable pub decode : View → Exec Contents
  unfolding read_containers
  decode view = elim view.repr [
    | inline count ↦
        slice view.bytes inline_header_size (4 * count) >>= λ s. ok (packed (cast_slice 4 count s))
    | standard n data_base ↦
        read_containers view.base view.bytes n data_base 0 n >>= λ cs. ok (stored cs)
  ]

-- Values ascend from `k` on, below 2 ^ 32.
abbrev pub ValuesFrom : ℕ → List ℕ → Type 0
ValuesFrom k [] = Unit {0}
ValuesFrom k (v ∷ vs) = (k ≤ v) × (v < 2 ^ 32) × ValuesFrom (v + 1) vs

-- Keys ascend from `k` on, below 2 ^ 16, and every payload is well formed.
abbrev pub ContainersFrom : ℕ → List Container → Type 0
ContainersFrom k [] = Unit {0}
ContainersFrom k (c ∷ cs) =
    (k ≤ c.key) × (c.key < 2 ^ 16) × IsSound c.card c.payload × ContainersFrom (c.key + 1) cs

abbrev pub sum_cards : List Container → ℕ
sum_cards [] = 0
sum_cards (c ∷ cs) = c.card + sum_cards cs

-- Contents in order, of `total` values by their cardinalities.
abbrev pub AreSound : ℕ → Contents → Type 0
AreSound total (packed vs) = ValuesFrom 0 vs × (length vs ≡ total)
AreSound total (stored cs) = ContainersFrom 0 cs × (sum_cards cs ≡ total)

-- Whether some container holds the value with this key and low half.
abbrev pub has_value : List Container → ℕ → ℕ → Bool
has_value [] key lo = false
has_value (c ∷ cs) key lo = (c.key == key) && holds c.payload lo || has_value cs key lo

abbrev pub member : Contents → ℕ → Bool
member (packed vs) x = has vs x
member (stored cs) x = has_value cs (x / 2 ^ 16) (x % 2 ^ 16)

-- The values of containers, one container after the other.
abbrev pub container_values : List Container → List ℕ
container_values [] = []
container_values (c ∷ cs) = map (λ lo. c.key * 2 ^ 16 + lo) (lows c.payload) ++ container_values cs

-- Every value.
abbrev pub elements : Contents → List ℕ
elements (packed vs) = vs
elements (stored cs) = container_values cs

-- The bytes have room for what the view reads, and stand where its casts accept them.
abbrev pub IsPlaced : ℕ → Bytes → Repr → Type 0
IsPlaced base bytes (inline count) =
    (inline_header_size + count * 4 ≤ length bytes) × ((count ≡ 0) ⊎ (base % 4 ≡ 0))
IsPlaced base bytes (standard n data_base) =
    (header_size + index_size n ≤ length bytes) × (base % word_align ≡ 0)

-- A view of a well-formed bitmap.
pub record IsWellFormed (castable : Castable) (view : View) : Type 0 where
  pub placed : IsPlaced view.base view.bytes view.repr
  pub contents : Contents
  pub decoded : decode castable view ≡ ok contents
  pub sound : AreSound view.cardinality contents
