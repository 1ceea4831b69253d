-- ===== src/Cursor/Tests.antt =====
-- A masked cursor over three containers.
use frostbit.Base.{ℕ, ◌≡◌, true, false, List, [], ◌∷◌, arith}
use frostbit.KeyMask.{KeyMask, mask_of, contains, contains-mask_of, AreKeys, elem}
use frostbit.Cursor.{ContainerRef, peek_key, advance, advance_to, drop_dead}
use frostbit.Cursor.Masked.{RestsLive, view, with_mask, masked_refines, advance_to_dead}

abbrev array_at : ℕ → ContainerRef
array_at key = record { key = key; typ = 0; card = 1; data_len = 2; run_count = 0 }

abbrev refs : List ContainerRef
refs = array_at 1 ∷ array_at 4 ∷ array_at 9 ∷ []

abbrev mask : KeyMask
mask = mask_of (1 ∷ 9 ∷ [])

mask_keys : AreKeys (1 ∷ 9 ∷ [])
mask_keys = (omega arith, (omega arith, tt))

live : contains mask 1 ≡ true
live = contains-mask_of (1 ∷ 9 ∷ []) 1 mask_keys

target_live : contains mask 9 ≡ true
target_live = contains-mask_of (1 ∷ 9 ∷ []) 9 mask_keys

dead : contains mask 4 ≡ false
dead = contains-mask_of (1 ∷ 9 ∷ []) 4 mask_keys

contains-mask_of_example : contains mask 9 ≡ elem (1 ∷ 9 ∷ []) 9
contains-mask_of_example = contains-mask_of (1 ∷ 9 ∷ []) 9 (omega arith, (omega arith, tt))

masked_refines_example :
    (peek_key (with_mask mask refs) ≡ peek_key (view mask (with_mask mask refs)))
    × (view mask (advance (with_mask mask refs)) ≡ advance (view mask (with_mask mask refs)))
    × RestsLive mask (advance (with_mask mask refs)).rest
    × (view mask (advance_to 9 (with_mask mask refs)).0
        ≡ (advance_to 9 (view mask (with_mask mask refs))).0)
    × ((advance_to 9 (with_mask mask refs)).1 ≡ (advance_to 9 (view mask (with_mask mask refs))).1)
    × RestsLive mask (advance_to 9 (with_mask mask refs)).0.rest
masked_refines_example =
    masked_refines mask 0 9 refs (omega arith, (omega arith, (omega arith, tt))) live target_live

advance_to_dead_example :
    ((advance_to 4 (with_mask mask refs)).1 ≡ true)
    × ((advance_to 4 (with_mask mask refs)).0.rest ≡ drop_dead mask (array_at 9 ∷ []))
advance_to_dead_example =
    advance_to_dead mask (array_at 1) (array_at 4) (array_at 9 ∷ []) dead (omega arith)
