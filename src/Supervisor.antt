-- ===== src/Supervisor.antt =====
-- The supervisor of a producer process (src/edge_runtime/process/).
pub mod Restart
mod Tests
