-- ===== src/View/Query.antt =====
-- src/api/view.rs: the queries of a view.
use frostbit.Base.{ℕ, ◌+◌, ◌*◌, ◌/◌, ◌%◌, ◌^◌, Bool, true, false, Option, none, some, ◌==◌}
use frostbit.Base.Exec.{Exec, ok, ◌>>=◌}
use frostbit.Base.Search.{binary_search}
use frostbit.Format.Cast.{Castable, unwrap, try_cast}
use frostbit.Format.Sizes.{inline_header_size}
use frostbit.Format.Endian.{Bytes, slice}
use frostbit.Format.Index.{Index, index, find, entry}
use frostbit.Container.Payload.{is_some}
use frostbit.Container.Payload
use frostbit.View.{View, standard, inline, entry_data}

unfoldable pub as_bytes : View → Bytes
as_bytes view = view.bytes

unfoldable pub is_inline : View → Bool
is_inline view = elim view.repr [ inline count ↦ true | standard n data_base ↦ false ]

unfoldable pub len : View → ℕ
len view = view.cardinality

unfoldable pub is_empty : View → Bool
is_empty view = view.cardinality == 0

unfoldable pub num_containers : View → ℕ
num_containers view = elim view.repr [ standard n data_base ↦ n | inline count ↦ 0 ]

unfoldable pub standard_dims : View → Option (ℕ × ℕ)
standard_dims view = elim view.repr [
  | standard n data_base ↦ some (n, data_base)
  | inline count ↦ none
]

unfoldable pub inline_count : View → Option ℕ
inline_count view = elim view.repr [ inline count ↦ some count | standard n data_base ↦ none ]

module _ (castable : Castable) where
  -- The values, cast from the bytes behind the header.
  unfoldable pub inline_contains : ℕ → Bytes → ℕ → ℕ → Exec Bool
  inline_contains base bytes count value = do
    s ← slice bytes inline_header_size (4 * count)
    vals ← unwrap (try_cast castable 4 (base + inline_header_size) s)
    ok (is_some (binary_search vals value))

  -- The arm of `contains` for containers: what follows the search, and the whole.
  unfoldable pub found_contains : ℕ → Bytes → ℕ → Index → ℕ → Option ℕ → Exec Bool
  found_contains base bytes data_base idx value none = ok false
  found_contains base bytes data_base idx value (some i) = do
    e ← entry idx i
    d ← entry_data castable base bytes data_base e
    ok (Payload.contains d (value % 2 ^ 16))

  unfoldable pub standard_contains : ℕ → Bytes → ℕ → ℕ → ℕ → Exec Bool
  unfolding found_contains
  standard_contains base bytes n data_base value = do
    idx ← index castable base bytes n
    found_contains base bytes data_base idx value (find idx (value / 2 ^ 16 % 2 ^ 16))

  unfoldable pub contains : View → ℕ → Exec Bool
  unfolding inline_contains standard_contains
  contains view value = elim view.repr [
    | inline count ↦ inline_contains view.base view.bytes count value
    | standard n data_base ↦ standard_contains view.base view.bytes n data_base value
  ]
