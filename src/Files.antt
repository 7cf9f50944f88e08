-- ===== src/Files.antt =====
-- The files of a server: apps/panel/src/server/modules/files.
pub mod Properties
