-- ===== src/Services.antt =====
-- src/megaraid_dashboard/services: the rules on top of the collected data.
pub mod Events
pub mod EventDetector
pub mod Health
pub mod DiskMonitor
pub mod Notifier
pub mod Telegram
pub mod EventPages
pub mod ObservationHealth
pub mod Collector
pub mod DriveActions
