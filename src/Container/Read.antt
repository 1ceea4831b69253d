-- ===== src/Container/Read.antt =====
-- src/container.rs: `Data::new`, a container's payload bytes as the typed slice of its kind.
use frostbit.Base.{
  ℕ, zero, suc, ◌+◌, ◌*◌, ◌/◌, Option, none, some, List, [], ◌∷◌, length, take, drop, leb, ◌==◌,
  if◌then◌else◌,
}
use frostbit.Base.Exec.{Exec, ok, panic, ◌>>=◌}
use frostbit.Format.Cast.{Castable, unwrap, try_cast}
use frostbit.Format.Sizes.{ct_array, ct_bitmap, ct_run, ct_inline, bitmap_bytes, bitmap_words}
use frostbit.Format.Endian.{Bytes, from_le, slice, read_u16}
use frostbit.Container.Run.{Run}
use frostbit.Container.Payload.{Data, array, bitmap, runs, inline}

-- `&bytes[start..]`
unfoldable pub tail : Bytes → ℕ → Exec Bytes
tail bytes start = if leb start (length bytes) then ok (drop start bytes) else panic

-- `n` runs of four bytes each, their start before their length.
unfoldable pub runs_of : ℕ → Bytes → List Run
runs_of zero bytes = []
runs_of (suc n) bytes =
    record { start = from_le (take 2 bytes); len = from_le (take 2 (drop 2 bytes)) }
    ∷ runs_of n (drop 4 bytes)

module _ (castable : Castable) where
  -- A run has four bytes, aligned to two.
  unfoldable pub try_cast_runs : ℕ → Bytes → Option (List Run)
  try_cast_runs addr bytes =
      if castable 2 4 addr (length bytes) then some (runs_of (length bytes / 4) bytes) else none

  unfoldable pub as_bitmap : ℕ → Bytes → Exec (List ℕ)
  as_bitmap addr bytes = do
    words ← unwrap (try_cast castable 8 addr bytes)
    if length words == bitmap_words then ok words else panic

  -- The arms of `Data::new`.
  unfoldable pub new_array : ℕ → ℕ → Bytes → Exec Data
  new_array card addr bytes = do
    payload ← slice bytes 0 (card * 2)
    values ← unwrap (try_cast castable 2 addr payload)
    ok (array values)

  unfoldable pub new_bitmap : ℕ → Bytes → Exec Data
  new_bitmap addr bytes = do
    payload ← slice bytes 0 bitmap_bytes
    words ← as_bitmap addr payload
    ok (bitmap words)

  unfoldable pub new_runs : ℕ → Bytes → Exec Data
  new_runs addr bytes = do
    nr ← read_u16 bytes 0
    payload ← slice bytes 2 (nr * 4)
    rs ← unwrap (try_cast_runs (addr + 2) payload)
    ok (runs rs)

  unfoldable pub new_inline : ℕ → ℕ → Bytes → Exec Data
  new_inline card addr bytes = do
    payload ← slice bytes 0 (card * 4)
    ids ← unwrap (try_cast castable 4 addr payload)
    ok (inline ids)

  -- `Data::new`, on bytes that stand at `addr`.
  unfoldable pub new : ℕ → ℕ → ℕ → Bytes → Exec Data
  new typ card addr bytes =
      if typ == ct_array
      then new_array card addr bytes
      else if typ == ct_bitmap
      then new_bitmap addr bytes
      else if typ == ct_run
      then new_runs addr bytes
      else if typ == ct_inline
      then new_inline card addr bytes
      else panic
