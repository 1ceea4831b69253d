-- ===== src/Cursor.antt =====
-- src/ops/cursor.rs: the ascending cursor over the containers of one fold input. A backing is the
-- list of its containers that the cursor has not passed; a container's payload enters by its length
-- and, for a run container, by the run count at its front.
pub mod Masked
mod Tests
use frostbit.Base.{
  ℕ, ◌*◌, Bool, true, false, Option, none, some, List, [], ◌∷◌, ltb, ◌==◌, if◌then◌else◌,
}
use frostbit.Base.Exec.{Exec, ok, panic}
use frostbit.Format.Sizes.{ct_array, ct_bitmap, ct_run, ct_inline, bitmap_bytes}
use frostbit.KeyMask.{KeyMask, contains}

pub record ContainerRef : Type 0 where
  pub key : ℕ
  pub typ : ℕ
  pub card : ℕ
  pub data_len : ℕ
  pub run_count : ℕ

-- `ContainerRef::stored_bytes`
unfoldable pub stored_bytes : ContainerRef → Exec ℕ
stored_bytes c =
    if c.typ == ct_array
    then ok (c.card * 2)
    else if c.typ == ct_bitmap
    then ok bitmap_bytes
    else if c.typ == ct_run
    then ok c.data_len
    else if c.typ == ct_inline
    then ok (c.card * 2)
    else panic

-- `ContainerRef::num_runs`
unfoldable pub num_runs : ContainerRef → ℕ
num_runs c = if c.typ == ct_run then c.run_count else 0

pub record Cursor : Type 0 where
  pub rest : List ContainerRef
  pub live : Option KeyMask

abbrev pub head_key : List ContainerRef → Option ℕ
head_key [] = none
head_key (c ∷ cs) = some c.key

-- `peek_key`
unfoldable pub peek_key : Cursor → Option ℕ
peek_key c = head_key c.rest

abbrev pub tail : List ContainerRef → List ContainerRef
tail [] = []
tail (c ∷ cs) = cs

-- `skip_dead`: past the leading keys that are not in the mask.
unfoldable pub drop_dead : KeyMask → List ContainerRef → List ContainerRef
drop_dead m [] = []
drop_dead m (c ∷ cs) = if contains m c.key then c ∷ cs else drop_dead m cs

unfoldable pub skip_dead : Option KeyMask → List ContainerRef → List ContainerRef
unfolding drop_dead
skip_dead none cs = cs
skip_dead (some m) cs = drop_dead m cs

-- `new` and `new_live`
abbrev pub new : List ContainerRef → Cursor
new cs = record { rest = cs; live = none }

unfoldable pub new_live : List ContainerRef → KeyMask → Cursor
unfolding skip_dead
new_live cs m = record { rest = skip_dead (some m) cs; live = some m }

-- `advance`
unfoldable pub advance : Cursor → Cursor
unfolding skip_dead
advance c = record c { rest = skip_dead c.live (tail c.rest) }

unfoldable pub drop_below : ℕ → List ContainerRef → List ContainerRef
drop_below target [] = []
drop_below target (c ∷ cs) = if ltb c.key target then drop_below target cs else c ∷ cs

abbrev pub rests_on : ℕ → List ContainerRef → Bool
rests_on target [] = false
rests_on target (c ∷ cs) = c.key == target

-- `advance_to`: the cursor afterwards, and whether it hit the target.
unfoldable pub advance_to : ℕ → Cursor → Cursor × Bool
unfolding skip_dead drop_below
advance_to target c =
    if rests_on target c.rest
    then (c, true)
    else let rest = drop_below target c.rest in
      (record c { rest = skip_dead c.live rest }, rests_on target rest)
