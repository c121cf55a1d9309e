-- ===== src/Tests.antt =====
-- Concrete runs of the components.
mod RateLimit
mod Detector
mod Alerts
mod Telegram
mod Retention
mod Pages
mod Commands
mod Collector
mod Replace
mod Runner
mod Access
