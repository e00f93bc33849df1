-- ===== src/Core.antt =====
-- src/core/src/MBT_core.c: the core thread.
pub mod BulkService
pub mod Draining
pub mod Loop
pub mod Start
pub mod Restart
pub mod Ota
pub mod Unconfigured
pub mod FirstTurn
mod Tests
