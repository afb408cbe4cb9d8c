-- ===== src/Channel.antt =====
-- The channel from one producer to one consumer that reads the latest sample
-- (src/edge_runtime/channel/).
pub mod Layout
pub mod State
pub mod Slot
pub mod Identity
pub mod Header
pub mod Use
pub mod Publish
pub mod Read
pub mod Recovery
pub mod Quiet
pub mod Delivery
mod Tests
