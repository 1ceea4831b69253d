-- ===== src/Expr/Interface.antt =====
-- What src/api/expr.rs takes from the rest of the crate: bitmaps and their views, the arenas that folds
-- write, and the three folds of src/ops/kernels. The operand stack's entries stand on them.
use frostbit.Base.{Option, List}
use frostbit.Cursor.{ContainerRef}
use frostbit.KeyMask.{KeyMask}
use frostbit.Plan.{Op, Plan}
use frostbit.Shape.{Shape}

-- A working operand.
pub data Acc (V A : Type 0) : Type 0 where
  leaf : V → Acc V A
  arena : A → Acc V A
  empty : Acc V A

-- `containers` and `arena_containers` are what a cursor over a view and over an arena yields;
-- `view_shape` is the shape of the former. `fold` is the dispatch on the operation, on an arena made
-- from the plan, with the operands' cursors hole-punched by the mask.
pub record Kernels : Type 1 where
  pub View : Type 0
  pub Bitmap : Type 0
  pub Arena : Type 0
  pub view : Bitmap → View
  pub containers : View → List ContainerRef
  pub arena_containers : Arena → List ContainerRef
  pub view_shape : View → Shape
  pub fold : Op → Plan → Option KeyMask → List (Acc View Arena) → Arena
  pub serialize_compact : Arena → Bitmap
  pub from_bytes_trusted : View → Bitmap
  pub empty_bitmap : Bitmap
