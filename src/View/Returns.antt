-- ===== src/View/Returns.antt =====
-- src/api/view.rs: the parts of parsing that read bytes do not panic.
use frostbit.Base.{
  ℕ, zero, suc, ◌+◌, ◌*◌, ◌<◌, ◌≤◌, ◌≡◌, refl, Bool, true, false, not, ◌||◌, Option, none, some,
  length, ltb, leb, ◌==◌, arith, inl, inr, Bool-cases, if◌then◌else◌,
}
use frostbit.Base.Exec.{Exec, ok, IsOk, bind-IsOk, ok-IsOk}
use frostbit.Format.Cast.{Castable}
use frostbit.Format.Sizes.{
  ct_array, ct_bitmap, ct_run, max_runs, run_bytes, header_size, index_size, keys_off, cards_off,
  type_offsets_off, inline_header_size, inline_count_off,
}
use frostbit.Format.Endian.{Bytes, read_u16, read_u32}
use frostbit.Format.Endian.Laws.{read_u16_total, read_u32_total}
use frostbit.Format.Index.{IndexEntry, read_index_entry}
use frostbit.Container.Read.{tail}
use frostbit.View.{inline_fits, inline_ascends, parse_inline, run_size, payload_size, not_above}
use frostbit.View.Payload.{payload_is_valid, runs_are_valid}

-- A test decides between two ways that both return.
pub if-IsOk {ℓ} :
    {A : Type ℓ} (b : Bool) (m k : Exec A) → IsOk m → IsOk k → IsOk (if b then m else k)
if-IsOk true m k h g = h
if-IsOk false m k h g = g

-- The second way only has to return when the test fails.
pub else-IsOk {ℓ} :
    {A : Type ℓ} (b : Bool) (m k : Exec A)
    → IsOk m
    → (b ≡ false → IsOk k)
    → IsOk (if b then m else k)
else-IsOk true m k h g = h
else-IsOk false m k h g = g refl

pub read_u16-IsOk : (bytes : Bytes) (off : ℕ) → off + 2 ≤ length bytes → IsOk (read_u16 bytes off)
read_u16-IsOk bytes off h = ok-IsOk (read_u16_total bytes off h).1

pub read_u32-IsOk : (bytes : Bytes) (off : ℕ) → off + 4 ≤ length bytes → IsOk (read_u32 bytes off)
read_u32-IsOk bytes off h = ok-IsOk (read_u32_total bytes off h).1

pub read_index_entry-IsOk :
    (bytes : Bytes) (n i : ℕ)
    → i < n
    → header_size + index_size n ≤ length bytes
    → IsOk (read_index_entry bytes n i)
unfolding read_index_entry
read_index_entry-IsOk bytes n i h room =
    bind-IsOk (read_u32 bytes (type_offsets_off n + i * 4)) _
      (read_u32-IsOk bytes (type_offsets_off n + i * 4) (omega arith))
      (λ to e.
        bind-IsOk (read_u16 bytes (keys_off + i * 2)) _
          (read_u16-IsOk bytes (keys_off + i * 2) (omega arith))
          (λ key f.
            bind-IsOk (read_u16 bytes (cards_off n + i * 2)) _
              (read_u16-IsOk bytes (cards_off n + i * 2) (omega arith)) (λ card g. tt)))

pub inline_ascends-IsOk :
    (bytes : Bytes) (rest i : ℕ) (prev : Option ℕ)
    → inline_header_size + (i + rest) * 4 ≤ length bytes
    → IsOk (inline_ascends bytes i rest prev)
unfolding inline_ascends
inline_ascends-IsOk bytes zero i prev room = tt
inline_ascends-IsOk bytes (suc rest) i prev room =
    let off = inline_header_size + i * 4 in
    bind-IsOk (read_u32 bytes off) _ (read_u32-IsOk bytes off (omega arith)) (λ v e.
      if-IsOk (not_above prev v) _ _ tt
        (inline_ascends-IsOk bytes rest (i + 1) (some v) (omega arith)))

pub parse_inline-IsOk : (base : ℕ) (bytes : Bytes) → IsOk (parse_inline base bytes)
unfolding parse_inline
parse_inline-IsOk base bytes = else-IsOk (ltb (length bytes) inline_header_size) _ _ tt (λ long.
    bind-IsOk (read_u16 bytes inline_count_off) _
      (read_u16-IsOk bytes inline_count_off (ground (arith, long)))
      (λ count c. else-IsOk (not (inline_fits base bytes count)) _ _ tt (λ f.
        bind-IsOk (inline_ascends bytes 0 count none) _
          (inline_ascends-IsOk bytes count 0 none (fits-room base bytes count f)) (λ a e. tt))))
  where
    fits-room :
        (base : ℕ) (bytes : Bytes) (count : ℕ)
        → not (inline_fits base bytes count) ≡ false
        → inline_header_size + (0 + count) * 4 ≤ length bytes
    fits-room base bytes count e = unfold inline_fits in ground arith

module _ (castable : Castable) where
  pub runs_are_valid-IsOk :
      (addr : ℕ) (payload : Bytes) (card : ℕ)
      → 2 ≤ length payload
      → IsOk (runs_are_valid castable addr payload card)
  unfolding runs_are_valid tail
  runs_are_valid-IsOk addr payload card h =
      bind-IsOk (read_u16 payload 0) _ (read_u16-IsOk payload 0 (omega arith)) (λ nr c.
        if-IsOk (nr == 0 || ltb max_runs nr || not (length payload == run_bytes nr)) _ _ tt
          (rw (two h) tt))
    where
      two : 2 ≤ length payload → leb 2 (length payload) ≡ true
      two h = ground arith

  pub payload_is_valid-IsOk :
      (addr : ℕ) (payload : Bytes) (typ card : ℕ)
      → ((typ == ct_run) ≡ true → 2 ≤ length payload)
      → IsOk (payload_is_valid castable addr payload typ card)
  unfolding payload_is_valid
  payload_is_valid-IsOk addr payload typ card h = if-IsOk (typ == ct_array) _ _ tt (
      if-IsOk (typ == ct_bitmap) _ _ tt (elim (Bool-cases (typ == ct_run)) [
        | inl y ↦ rw y (runs_are_valid-IsOk addr payload card (h y))
        | inr n ↦ rw n tt
      ]))

pub run_size-IsOk : (bytes : Bytes) (start : ℕ) → IsOk (run_size bytes start)
unfolding run_size
run_size-IsOk bytes start = else-IsOk (ltb (length bytes) (start + 2)) _ _ tt (λ room.
    bind-IsOk (read_u16 bytes start) _ (read_u16-IsOk bytes start (ground (arith, room)))
      (λ nr e. tt))

pub payload_size-IsOk :
    (bytes : Bytes) (e : IndexEntry) (start : ℕ) → IsOk (payload_size bytes e start)
unfolding payload_size
payload_size-IsOk bytes e start = if-IsOk (e.typ == ct_array) _ _ tt (
    if-IsOk (e.typ == ct_bitmap) _ _ tt
      (if-IsOk (e.typ == ct_run) _ _ (run_size-IsOk bytes start) tt))

-- A payload of runs has its count.
pub payload_size-count :
    (bytes : Bytes) (e : IndexEntry) (start size : ℕ)
    → payload_size bytes e start ≡ ok (some size)
    → (e.typ == ct_run) ≡ true
    → 2 ≤ size
unfolding payload_size run_size
payload_size-count bytes e start size h y = ground arith
