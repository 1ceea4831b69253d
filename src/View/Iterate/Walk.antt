-- ===== src/View/Iterate/Walk.antt =====
-- The walk over a well-formed view visits its elements, one by one.
use frostbit.Base.{
  ℕ, zero, suc, ◌+◌, ◌-◌, ◌*◌, ◌^◌, ◌≤◌, ◌≡◌, refl, sym, ◌∙◌, bit_or, true, false, none, some, List,
  [], ◌∷◌, ◌++◌, map, length, take, drop, leb, arith,
}
use mathlib.Core.Path.{subst}
use frostbit.Base.Exec.{ok}
use frostbit.Base.Bits.{bit_or-shifted}
use frostbit.Format.Cast.{cast_slice, Castable}
use frostbit.Format.Sizes.{inline_header_size}
use frostbit.Format.Endian.{Bytes, from_le, read_u32}
use frostbit.Format.Endian.Laws.{slice-ok}
use frostbit.Format.Endian.Bounds.{AreBytes}
use frostbit.Format.Index.Borrow.{cast_slice-cons}
use frostbit.Container.Lows.{LowsFrom}
use frostbit.Container.Content.{IsSound}
use frostbit.Container.Elements.{lows}
use frostbit.Container.Elements.Order.{lows-LowsFrom}
use frostbit.View.Contents.{Container, read_containers, ContainersFrom, container_values}
use frostbit.View.Read.{read_containers-nil, read_containers-cons, read_container-key}
use frostbit.View.Iterate.{Cont, Mode, packed, stored, next_lo, next_stored, next_packed, next_mode}
use frostbit.View.Iterate.Cursor.{Yields, stop, step}
use frostbit.View.Iterate.Enter.{enter_lem}

-- `next` gives these values in this mode, one by one, and then none.
pub data Walks (bytes : Bytes) : Mode → List ℕ → Type 0 where
  finish : (m m' : Mode) → next_mode bytes m ≡ ok (none, m') → Walks bytes m []
  visit :
      (m m' : Mode) (v : ℕ) (vs : List ℕ)
      → next_mode bytes m ≡ ok (some v, m')
      → Walks bytes m' vs
      → Walks bytes m (v ∷ vs)

same_mode :
    (bytes : Bytes) (m : Mode) {k : Mode} {vs : List ℕ}
    → next_mode bytes m ≡ next_mode bytes k
    → Walks bytes k vs
    → Walks bytes m vs
same_mode bytes m e (finish k k' h) = finish m k' (e ∙ h)
same_mode bytes m e (visit k k' v ws h y) = visit m k' v ws (e ∙ h) y

module _ (bytes : Bytes) where
  pub packed-Walks :
      (k pos count : ℕ)
      → pos + k ≡ count
      → inline_header_size + count * 4 ≤ length bytes
      → Walks bytes
          (packed pos count)
          (cast_slice 4 k (take (4 * k) (drop (inline_header_size + pos * 4) bytes)))
  unfolding next_mode next_packed read_u32
  packed-Walks zero pos count e room =
      let over : leb count pos ≡ true = ground (arith, e) in
      unfold cast_slice in finish (packed pos count) (packed pos count) (rw over refl)
  packed-Walks (suc k) pos count e room =
      let off = inline_header_size + pos * 4 in
      let under : leb count pos ≡ false = ground (arith, e) in
      let next : inline_header_size + (pos + 1) * 4 ≡ off + 4 = omega arith in
      rw (cast_slice-cons 4 k off bytes) (
        visit (packed pos count) (packed (pos + 1) count) (from_le (take 4 (drop off bytes)))
          (cast_slice 4 k (take (4 * k) (drop (off + 4) bytes)))
          (rw (under, slice-ok bytes off 4 (omega (arith, e))) refl)
          (rw next at (packed-Walks k (pos + 1) count (omega (arith, e)) room)))

  next_stored-some :
      (rest n data_base ci hi : ℕ) (c c' : Cont) (lo : ℕ)
      → next_lo bytes c ≡ ok (some lo, c')
      → next_stored rest bytes n data_base ci hi c
        ≡ ok (some (bit_or hi lo), stored n data_base ci hi c')
  unfolding next_stored
  next_stored-some zero n data_base ci hi c c' lo h = rw h refl
  next_stored-some (suc rest) n data_base ci hi c c' lo h = rw h refl

module _ (castable : Castable) (base : ℕ) (bytes : Bytes) (n data_base : ℕ)
    (are : AreBytes bytes) where
  -- What is left of the container at hand, and then the containers that are still to be entered.
  pub stored-Walks :
      (rest ci key j k : ℕ) (cont : Cont) (ls : List ℕ) (cs : List Container)
      → ci + rest ≡ n
      → read_containers castable base bytes n data_base ci rest ≡ ok cs
      → ContainersFrom k cs
      → LowsFrom j ls
      → Yields bytes cont ls
      → Walks bytes
          (stored n data_base ci (key * 2 ^ 16) cont)
          (map (λ lo. key * 2 ^ 16 + lo) ls ++ container_values cs)
  unfolding next_mode next_stored
  stored-Walks zero ci key j k cont ls cs e r f g (stop c c' h) =
      let none_left : n - ci ≡ 0 = omega (arith, e) in
      subst (λ t. Walks bytes (stored n data_base ci (key * 2 ^ 16) cont) (container_values t))
        (read_containers-nil castable base bytes n data_base ci cs r)
        (finish (stored n data_base ci (key * 2 ^ 16) cont)
          (stored n data_base ci (key * 2 ^ 16) c') (rw (none_left, h) refl))
  stored-Walks (suc rest) ci key j k cont ls cs e r f g (stop c c' h) =
      let (d, ds, p, q, same) = read_containers-cons castable base bytes n data_base rest ci cs r in
      let (en, re, rd, as_key, as_card) =
        read_container-key castable base bytes n data_base ci d p in
      let (b, w, s, after) = subst (ContainersFrom k) (sym same) f in
      let sound = subst (λ m. IsSound m d.payload) (sym as_card) s in
      let (cont', enters, ys) = enter_lem castable base bytes data_base en d.payload are rd sound in
      let left : n - ci ≡ suc rest = omega (arith, e) in
      let fewer : n - (ci + 1) ≡ rest = omega (arith, e) in
      subst (λ t. Walks bytes (stored n data_base ci (key * 2 ^ 16) cont) (container_values t)) same
        (same_mode bytes (stored n data_base ci (key * 2 ^ 16) cont)
          {k = stored n data_base (ci + 1) (d.key * 2 ^ 16) cont'}
          (rw (left, fewer) (rw h (rw re (rw (enters, as_key) refl))))
          (stored-Walks rest (ci + 1) d.key 0 (d.key + 1) cont' (lows d.payload) ds
            (omega (arith, e)) q after (lows-LowsFrom d.card d.payload s) ys))
  stored-Walks rest ci key j k cont ls cs e r f g (step c c' v vs h y) =
      let (a, b, after) = g in
      let left : n - ci ≡ rest = omega (arith, e) in
      let joined : bit_or (key * 2 ^ 16) v ≡ key * 2 ^ 16 + v = bit_or-shifted 16 key v b in
      visit (stored n data_base ci (key * 2 ^ 16) cont) (stored n data_base ci (key * 2 ^ 16) c')
        (key * 2 ^ 16 + v) (map (λ lo. key * 2 ^ 16 + lo) vs ++ container_values cs)
        (rw (left, ← joined)
          (next_stored-some bytes rest n data_base ci (key * 2 ^ 16) cont c' v h))
        (stored-Walks rest ci key (v + 1) k c' vs cs e r f after y)
