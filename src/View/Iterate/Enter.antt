-- ===== src/View/Iterate/Enter.antt =====
-- The cursor of a well-formed container starts at its first low and yields them all.
use frostbit.Base.{
  ℕ, zero, suc, ◌+◌, ◌*◌, ◌<◌, ◌≤◌, ◌≡◌, refl, sym, ap, ◌∙◌, ◌++◌, length, take, drop, arith,
  length-drop, drop-drop, drop-take, take-drop-take,
}
use mathlib.Core.Path.{subst}
use frostbit.Base.Exec.{ok}
use frostbit.Base.Ones.{ones_from}
use frostbit.Format.Cast.{cast_slice, Castable}
use frostbit.Format.Endian.{Bytes, from_le, read_u16, read_u64}
use frostbit.Format.Endian.Laws.{slice-ok}
use frostbit.Format.Endian.Bounds.{AreBytes, drop-AreBytes, from_le-u64}
use frostbit.Format.Index.{IndexEntry}
use frostbit.Format.Index.Borrow.{cast_slice-cons}
use frostbit.Container.Payload.{Data}
use frostbit.Container.Content.{IsSound}
use frostbit.Container.Elements.{lows, count_up, run_values, word_values}
use frostbit.Container.Read.{runs_of}
use frostbit.View.{entry_data}
use frostbit.View.Entry.{read_u16-drop}
use frostbit.View.Kind.{Kind, as_array, as_bitmap, as_runs, entry_data-Kind}
use frostbit.View.Iterate.{Cont, enter, enter_bitmap, enter_runs}
use frostbit.View.Iterate.Cursor.{Yields, array-Yields, bitmap-Yields, run-Yields}

-- Runs need only their own bytes.
pub runs_of-take : (n : ℕ) (bytes : Bytes) → runs_of n (take (n * 4) bytes) ≡ runs_of n bytes
unfolding runs_of
runs_of-take zero bytes = refl
runs_of-take (suc n) bytes =
    let e : suc n * 4 ≡ 4 + n * 4 = omega arith in
    rw
      (
        e,
        take-drop-take 2 0 (4 + n * 4) bytes (omega arith),
        take-drop-take 2 2 (4 + n * 4) bytes (omega arith),
        drop-take 4 (n * 4) bytes,
        runs_of-take n (drop 4 bytes),
      )
      refl

pub read_u16-front :
    (bytes : Bytes) (off : ℕ)
    → off + 2 ≤ length bytes
    → read_u16 bytes off ≡ ok (from_le (take 2 (drop off bytes)))
unfolding read_u16
read_u16-front bytes off h = rw (slice-ok bytes off 2 h) refl

-- The values of the first run behind the count, and of the others.
pub run_values-cons :
    (k start : ℕ) (bytes : Bytes)
    → run_values (runs_of (suc k) (drop (start + 2) bytes))
      ≡ count_up
          (from_le (take 2 (drop (start + 4) bytes)) + 1)
          (from_le (take 2 (drop (start + 2) bytes)))
        ++ run_values (runs_of k (drop (start + 2 + (0 + 1) * 4) bytes))
unfolding runs_of
run_values-cons k start bytes =
    let four : start + 2 + 2 ≡ start + 4 = omega arith in
    let six : start + 2 + 4 ≡ start + 2 + (0 + 1) * 4 = omega arith in
    rw (drop-drop 2 (start + 2) bytes, drop-drop 4 (start + 2) bytes, four, six) refl

module _ (bytes : Bytes) (start : ℕ) (reach : start ≤ length bytes) where
  enter_array :
      (card : ℕ)
      → card * 2 ≤ length (drop start bytes)
      → Yields bytes
          (Cont.array start card 0)
          (cast_slice 2 card (take (2 * card) (drop start bytes)))
  enter_array card room =
      let here : start + 0 * 2 ≡ start = omega arith in
      rw here at (
        array-Yields bytes start card 0 card (omega arith)
          (omega (arith, room, length-drop start bytes)))

  enter_bitmap_lem :
      AreBytes bytes
      → 8192 ≤ length (drop start bytes)
      → (c : Cont) × (enter_bitmap bytes start ≡ ok c)
        × Yields bytes c (word_values (cast_slice 8 1024 (take (8 * 1024) (drop start bytes))) 0)
  unfolding enter_bitmap read_u64
  enter_bitmap_lem are room =
      let word = from_le (take 8 (drop start bytes)) in
      let inside : start + 8192 ≤ length bytes = omega (arith, room, length-drop start bytes) in
      let next : start + (0 + 1) * 8 ≡ start + 8 = omega arith in
      (
        Cont.bitmap start 0 word,
        rw (slice-ok bytes start 8 (omega (arith, inside))) refl,
        rw (cast_slice-cons 8 1023 start bytes, ← next)
            (bitmap-Yields bytes start 1023 0 word (ones_from 64 word (0 * 64)) (omega arith)
              (from_le-u64 (drop start bytes) (drop-AreBytes start bytes are)) are inside refl),
      )

  enter_runs_lem :
      (nr : ℕ)
      → read_u16 (drop start bytes) 0 ≡ ok nr
      → 2 + nr * 4 ≤ length (drop start bytes)
      → 0 < nr
      → (c : Cont) × (enter_runs bytes start ≡ ok c)
        × Yields bytes c (run_values (runs_of nr (take (nr * 4) (drop 2 (drop start bytes)))))
  unfolding enter_runs
  enter_runs_lem zero c room p = absurd (omega arith)
  enter_runs_lem (suc k) c room p =
      let inside : start + 2 + suc k * 4 ≤ length bytes =
        omega (arith, room, length-drop start bytes) in
      let r = from_le (take 2 (drop (start + 2) bytes)) in
      let l = from_le (take 2 (drop (start + 4) bytes)) in
      let count : read_u16 bytes start ≡ ok (suc k) =
        sym (read_u16-drop bytes start (omega (arith, inside))) ∙ c in
      let values =
        ap run_values (
          runs_of-take (suc k) (drop 2 (drop start bytes))
          ∙ ap (runs_of (suc k)) (drop-drop 2 start bytes))
        ∙ run_values-cons k start bytes in
      (
        Cont.run start (suc k) 0 r (r + l),
        rw
            (
              count,
              read_u16-front bytes (start + 2) (omega (arith, inside)),
              read_u16-front bytes (start + 4) (omega (arith, inside)),
            )
            refl,
        subst (Yields bytes (Cont.run start (suc k) 0 r (r + l))) (sym values) (
            run-Yields bytes start k 0 (suc k) r (r + l) (l + 1) (omega arith) (omega arith)
              inside),
      )

-- The cursor that `enter` sets up for an entry with a well-formed payload.
pub enter_lem :
    (castable : Castable) (base : ℕ) (bytes : Bytes) (data_base : ℕ) (e : IndexEntry) (d : Data)
    → AreBytes bytes
    → entry_data castable base bytes data_base e ≡ ok d
    → IsSound e.cardinality d
    → (c : Cont) × (enter bytes e (data_base + e.data_offset) ≡ ok c) × Yields bytes c (lows d)
unfolding enter
enter_lem castable base bytes data_base e d are h s =
    let start = data_base + e.data_offset in
    let (reach, kind) = entry_data-Kind castable base bytes data_base e d h s in
    by_kind start reach d kind
  where
    by_kind :
        (start : ℕ)
        → start ≤ length bytes
        → (d : Data) → Kind bytes e start d
        → (c : Cont) × (enter bytes e start ≡ ok c) × Yields bytes c (lows d)
    by_kind start reach d (as_array y room) = (
      Cont.array start e.cardinality 0,
      rw (enter, y) refl,
      enter_array bytes start reach e.cardinality room,
    )
    by_kind start reach d (as_bitmap n y room) =
        let (c, en, ys) = enter_bitmap_lem bytes start reach are room in
        (c, rw (enter, n, y) en, ys)
    by_kind start reach d (as_runs n m r nr count room p) =
        let (c, en, ys) = enter_runs_lem bytes start reach nr count room p in
        (c, rw (enter, n, m) en, ys)
