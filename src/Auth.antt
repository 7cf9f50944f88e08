-- ===== src/Auth.antt =====
-- Who a request acts for: apps/panel/src/server/modules/auth.
pub mod RateLimit
pub mod ApiKeys
pub mod Service
