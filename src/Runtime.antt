-- ===== src/Runtime.antt =====
-- The engine that runs game servers as child processes: apps/panel/src/server/modules/runtime.
pub mod Console
pub mod Slot
pub mod Launch
