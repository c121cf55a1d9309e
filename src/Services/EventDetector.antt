-- ===== src/Services/EventDetector.antt =====
-- src/megaraid_dashboard/services/event_detector.py: events from two successive snapshots.
pub mod Thresholds
pub mod Temperature
pub mod Roc
pub mod VirtualDrives
pub mod PhysicalDrives
pub mod CacheVault
pub mod ForeignConfig
pub mod Detect
