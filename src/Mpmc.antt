-- ===== src/Mpmc.antt =====
-- The bounded queue of many producers and consumers (src/edge_runtime/queue/).
pub mod Layout
pub mod State
pub mod Gate
pub mod Admission
pub mod Push
pub mod Pop
pub mod Wait
pub mod Remove
pub mod Status
pub mod Create
pub mod Header
pub mod Invariant
pub mod Laps
pub mod Refusals
pub mod Fifo
pub mod Ops
pub mod Spec
pub mod Refine
mod Tests
