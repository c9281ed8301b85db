-- ===== src/Cron.antt =====
-- Schedule expressions and the search for their next boundary (honker-core/src/cron.rs).
pub mod Text
pub mod Field
pub mod Expr
pub mod Calendar
pub mod Search
pub mod Zone
