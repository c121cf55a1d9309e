-- ===== src/Db.antt =====
-- src/megaraid_dashboard/db: what is kept of the collected data.
pub mod Retention
