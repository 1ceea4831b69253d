-- ===== src/Format.antt =====
-- src/format.rs: the wire format. Sizes and offsets, little-endian access to a byte buffer, the
-- header codec and the container index.
pub mod Sizes
pub mod Endian
pub mod Cast
pub mod Header
pub mod Inline
pub mod Index
mod Tests
