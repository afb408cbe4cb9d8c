-- ===== src/Pool.antt =====
-- The pool of fixed-size buffers (src/edge_runtime/buffer/).
pub mod Layout
pub mod State
pub mod Blocks
pub mod Write
pub mod Read
pub mod Owned
pub mod HandOver
pub mod Header
pub mod Create
pub mod Status
pub mod Remove
mod Tests
