-- ===== src/Schedules.antt =====
-- Schedules and their runner: apps/panel/src/server/modules/schedules.
pub mod Cron
pub mod Task
pub mod Store
pub mod Run
pub mod Accepted
