-- ===== src/Lib.antt =====
-- frostbit: frozen bitmaps of `u32` values, immutable and read in place. A value is a key, its high
-- 16 bits, and a low half; the lows of a key stand in one container, which is a sorted array, a
-- bitmap of 1024 words or a list of runs. The parts, and the files that model them:
--
-- - src/format.rs, the byte layout: Format/Sizes (constants, sizes, offsets, `align_up`),
--   Format/Endian (`read_u16` ... `write_u64` on a list of bytes), Format/Header (`Header::write`,
--   `Header::parse`) and Format/Index (`read_index_entry`, `write_index_entry`, and the borrowed
--   `Index` with `new`, `key`, `find`, `entry`; `new` is `index` here), Format/Inline, and Format/Cast.
-- - src/container.rs: Container/Run (`Run`, `end`), Container/Payload (`Data`, `contains`) and
--   Container/Read (`Data::new`). Container/Content says what a payload holds, Container/Elements lists
--   it. The casts, there and of the index, are those of the crate bytemuck, of which the test is a
--   parameter: an alignment, an element size, an address and a length in bytes are accepted or not.
--   `IsBytemuck` in Format/Cast is what the crate documents of it; that a cast reads
--   little-endian numbers is the target's byte order.
-- - src/ops/kernels/run.rs: Runs, with `intersect`, `union`, `diff`, `diff_array`, `copy`. A pair of
--   an index and a slice is the list that is still to be read; `out` is its written prefix together
--   with its capacity, the argument `room`, and a write past the capacity panics.
-- - src/ops/keymask.rs: KeyMask (`set` is `insert` here), and `MaskSrc::mask` of src/api/expr.rs.
-- - src/ops/cursor.rs: Cursor, the walk over the containers of an input, with the key mask that it
--   skips by. A backing is the list of containers not yet passed.
-- - src/api/builder.rs: Builder, from pushes to finished containers; Builder/Extract,
--   Builder/Fewest and Builder/Build are about one container, Builder/Push about the state across pushes.
-- - src/api/view.rs: View (`from_bytes`, `from_bytes_trusted`), View/Payload (`payload_is_valid`),
--   View/Query (accessors, `contains`), View/Extrema (`min`, `max`; `data_start` is written out where
--   it is called) and View/Iterate (`Iter`). A byte slice is its list of bytes
--   and the address that it stands at. View/Contents says what bytes decode to; View/Accepted,
--   View/Total, View/Trusted and View/Counted are about parsing, View/Contains,
--   View/Misaligned and View/Iterate/Visits about reading.
-- - src/api/pool.rs: Pool, the free lists with their budget. The thread locals are a state that is
--   passed; a take that panics leaves a state too. The chained setters of `PoolConfig` have the
--   prefix `with_`.
-- - src/ops/analyze/decide.rs, with the promotion rules of src/ops/analyze/plan.rs: Decide.
-- - src/ops/analyze/plan.rs: Plan, the arena layout of an operation, and `plan_union_observed`, which
--   makes a union's layout again from its operands (Plan/Observed, Plan/Refold); Plan/Diff is
--   `plan_diff`.
-- - src/ops/analyze/shape.rs: Shape, the shapes that a tree's nodes are predicted to have; Shape/Keys
--   and Shape/Combine are about their keys, Shape/Differences is about `diff_shape`. `cap` is `capacity`
--   here.
-- - src/api/expr.rs: Expr, the compilation of an expression to stack code (`FoldPlan::combine` is
--   `combine_all`, `FoldPlan::diff` is `difference`), and Expr/Execute, its execution. The fold
--   kernels, arenas and views are a record of operations, Expr/Interface, with the laws that the code
--   relies on, Expr/Laws. The kernels are not modelled, and the laws are assumed of them; Expr/Model
--   meets them with functions for bitmaps and folds that keep what the plan has a slot for. They are
--   about plans that the compiler makes or `execute` makes again, about fewer than 2 ^ 16 operands of
--   a fold, since aggregates count them in a `u16`, and about a pool that allocates beyond its budget
--   and does not panic. Expr/Meaning is the Boolean meaning of a tree, Expr/Sound what every plan and spliced child keeps, Expr/Correct the
--   whole. A guard's jump is a count of instructions to skip; no list of code is run twice, so
--   execution needs no fuel.
--
-- The builder fills containers by the decisions of src/container.rs and the sizes of src/format.rs,
-- the cursor walks the index with a key mask, and the decisions size the slots that kernels such as
-- those of Runs fill; shapes are made by the decisions, plans from shapes, and an expression's code
-- carries plans. The view parses the header, borrows the index and reads each container's bytes as a
-- typed payload. Base holds what the parts share: code that can panic (Exec), lists and tests
-- on native numbers, bits (Bits, BitSet) and the standard library's binary search (Search).
--
-- Numbers are natural numbers, with the wrap-around of `u16`, `u32`, `u64` and a `usize` of 64 bits
-- written out where the code can reach it. Every loop is by recursion on what it still has to read;
-- on fuel run `binary_search`, with its length, of which each round uses half the range; the rounds of
-- `intersect_shape` and `union_shape_agg`, with the number of the inputs' containers, of which each
-- round takes one at least; and in the iterator the search for the next bit, with the words that are
-- left, and for the next container, with those that are left.
--
-- Not modelled: the planners of unions and intersections of leaves, the arena and the folds over it,
-- the equality of views, and the serialization of a build; the pools of buffers behind the plans and the operand stack, which hold them empty; the SIMD kernels,
-- which are intrinsics; conversions, tests and benchmarks.
pub mod Base
pub mod Format
pub mod Container
pub mod Runs
pub mod Builder
pub mod Pool
pub mod Decide
pub mod Plan
pub mod Shape
pub mod Expr
pub mod View
pub mod KeyMask
pub mod Cursor
