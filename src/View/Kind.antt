-- ===== src/View/Kind.antt =====
-- src/container.rs: which typed slice the payload of an entry is, by the type of the entry.
use frostbit.Base.{
  ℕ, ◌+◌, ◌*◌, ◌<◌, ◌≤◌, ◌≡◌, sym, Bool, true, false, length, if◌then◌else◌, take, drop, leb, ◌==◌,
  arith, inl, inr, Bool-cases,
}
use mathlib.Core.Path.{subst}
use frostbit.Base.Exec.{ok, panic, Exec-cases, ok-injective, ok-ne-panic}
use frostbit.Format.Cast.{cast_slice, Castable, unwrap, try_cast}
use frostbit.Format.Sizes.{ct_array, ct_bitmap, ct_run, ct_inline}
use frostbit.Format.Endian.{Bytes, slice, read_u16}
use frostbit.Format.Index.{IndexEntry}
use frostbit.Container.Payload.{Data, array, bitmap, runs}
use frostbit.Container.Content.{IsSound}
use frostbit.Container.Read.{tail, new, new_inline, runs_of}
use frostbit.View.{entry_data}
use frostbit.View.Payload.SoundRuns.{length-runs_of}
use frostbit.View.Typed.{new_array-cast, new_bitmap-cast, new_runs-cast}

-- The payload of an entry whose bytes are those from `start` on.
pub data Kind (bytes : Bytes) (e : IndexEntry) (start : ℕ) : Data → Type 0 where
  as_array :
      (e.typ == ct_array) ≡ true
      → e.cardinality * 2 ≤ length (drop start bytes)
      → Kind bytes e start
          (array (cast_slice 2 e.cardinality (take (2 * e.cardinality) (drop start bytes))))
  as_bitmap :
      (e.typ == ct_array) ≡ false
      → (e.typ == ct_bitmap) ≡ true
      → 8192 ≤ length (drop start bytes)
      → Kind bytes e start (bitmap (cast_slice 8 1024 (take (8 * 1024) (drop start bytes))))
  as_runs :
      (e.typ == ct_array) ≡ false
      → (e.typ == ct_bitmap) ≡ false
      → (e.typ == ct_run) ≡ true
      → (nr : ℕ) → read_u16 (drop start bytes) 0 ≡ ok nr
      → 2 + nr * 4 ≤ length (drop start bytes)
      → 0 < nr
      → Kind bytes e start (runs (runs_of nr (take (nr * 4) (drop 2 (drop start bytes)))))

-- No stored container has the inline kind.
new_inline-unsound :
    (castable : Castable) (card addr : ℕ) (bytes : Bytes) (d : Data)
    → new_inline castable card addr bytes ≡ ok d
    → IsSound card d
    → ⊥
unfolding new_inline
new_inline-unsound castable card addr bytes d e s = elim (Exec-cases (slice bytes 0 (card * 4))) [
  | inl p ↦ ok-ne-panic (rw p at e)
  | inr (payload, p) ↦ elim (Exec-cases (unwrap (try_cast castable 4 addr payload))) [
    | inl q ↦ ok-ne-panic (rw (p, q) at e)
    | inr (ids, q) ↦ subst (IsSound card) (sym (ok-injective (rw (p, q) at e))) s
  ]
]

pub entry_data-Kind :
    (castable : Castable) (base : ℕ) (bytes : Bytes) (data_base : ℕ) (e : IndexEntry) (d : Data)
    → entry_data castable base bytes data_base e ≡ ok d
    → IsSound e.cardinality d
    → (data_base + e.data_offset ≤ length bytes) × Kind bytes e (data_base + e.data_offset) d
unfolding entry_data tail new
entry_data-Kind castable base bytes data_base e d h s =
    let start = data_base + e.data_offset in
    let rest = drop start bytes in
    let addr = base + start in
    elim (Bool-cases (leb start (length bytes))) [
      | inr n ↦ absurd (ok-ne-panic (rw n at h))
      | inl y ↦
          let reach : start ≤ length bytes = ground (arith, y) in
          elim (Bool-cases (e.typ == ct_array)) [
            | inl a ↦
                let (room, same) =
                  new_array-cast castable addr rest e.cardinality d (rw (y, a) at h) in
                (reach, subst (Kind bytes e start) same (as_array a room))
            | inr na ↦ elim (Bool-cases (e.typ == ct_bitmap)) [
              | inl b ↦
                  let (room, same) = new_bitmap-cast castable addr rest d (rw (y, na, b) at h) in
                  (reach, subst (Kind bytes e start) same (as_bitmap na b room))
              | inr nb ↦ elim (Bool-cases (e.typ == ct_run)) [
                | inl r ↦
                    let (nr, count, room, same) =
                      new_runs-cast castable addr rest d (rw (y, na, nb, r) at h) in
                    let (f, t, nonempty, few) = subst (IsSound e.cardinality) (sym same) s in
                    let some_run = subst (λ m. 0 < m) (length-runs_of nr _) nonempty in
                    (
                      reach,
                      subst (Kind bytes e start) same (as_runs na nb r nr count room some_run),
                    )
                | inr other ↦ absurd (no_other (e.typ == ct_inline) (rw (y, na, nb, other) at h))
              ]
            ]
          ]
    ]
  where
    no_other :
        (b : Bool)
        → (if b
            then new_inline castable e.cardinality
                (base + (data_base + e.data_offset))
                (drop (data_base + e.data_offset) bytes)
            else panic)
          ≡ ok d
        → ⊥
    no_other false p = ok-ne-panic p
    no_other true p =
        new_inline-unsound castable e.cardinality (base + (data_base + e.data_offset))
          (drop (data_base + e.data_offset) bytes) d p s
