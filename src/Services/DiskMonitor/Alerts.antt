-- ===== src/Services/DiskMonitor/Alerts.antt =====
-- Runs of the disk check: the latest event follows the free space, and does not flap.
use megaraid_dashboard.Prelude.{
  ℕ, ◌+◌, ◌≤◌, ◌≡◌, ◌≢◌, Option, none, some, arith, Bool, false, not, ◌&&◌, ltb, if◌then◌else◌,
}
use megaraid_dashboard.Services.Events.{Severity, info, warning, critical}
use megaraid_dashboard.Services.DiskMonitor.{
  DiskSettings, DiskEvent, suppress_window, recovery_hysteresis_mb, should_suppress, alert_level,
  disk_event, severity_eq, check_data_partition_free_space,
}

abbrev latest_after : Option DiskEvent → Option DiskEvent → Option DiskEvent
latest_after latest none = latest
latest_after latest (some e) = some e

-- The latest event after a check.
unfoldable pub after_check : DiskSettings → ℕ → ℕ → Option DiskEvent → Option DiskEvent
after_check c free_mb now latest =
    latest_after latest (check_data_partition_free_space c free_mb now latest)

abbrev pub severity_of : Option DiskEvent → Option Severity
severity_of none = none
severity_of (some e) = some e.severity

abbrev is_alert_level : Option Severity → Bool
is_alert_level none = false
is_alert_level (some s) = not (severity_eq s info)

-- The level that stands after a check, from the level before it and the free space alone.
unfoldable pub next_level : DiskSettings → ℕ → Option Severity → Option Severity
next_level c free_mb level =
    if ltb free_mb c.disk_critical_free_mb
    then some critical
    else if ltb free_mb c.disk_warning_free_mb
    then some warning
    else if is_alert_level level && ltb (c.disk_warning_free_mb + recovery_hysteresis_mb) free_mb
    then some info
    else level

-- The severity of the latest disk event after a check is a function of the one before it and of the
-- free space: critical below the critical threshold, a warning below the warning threshold, info
-- once the space is above that threshold by more than the hysteresis after an alert, and else what
-- it was. The suppression of repeated events, whatever the time, does not show in it.
pub after_check-level :
    (c : DiskSettings) (free_mb now : ℕ) (latest : Option DiskEvent)
    → severity_of (after_check c free_mb now latest) ≡ next_level c free_mb (severity_of latest)
unfolding after_check check_data_partition_free_space alert_level should_suppress disk_event
    next_level
after_check-level c free_mb now none = ground arith
after_check-level c free_mb now (some e) = ground arith

-- A check that raised an alert is followed by silence: for six hours, at most, a check that calls for
-- the same level returns no event.
pub no_repeat_within_window :
    (c : DiskSettings) (free_mb free_mb' now now' : ℕ) (latest : Option DiskEvent) (e : DiskEvent)
    → check_data_partition_free_space c free_mb now latest ≡ some e
    → alert_level c free_mb' ≡ alert_level c free_mb
    → e.severity ≢ info
    → now' ≤ now + suppress_window
    → check_data_partition_free_space c free_mb' now' (some e) ≡ none
unfolding check_data_partition_free_space should_suppress disk_event
no_repeat_within_window c free_mb free_mb' now now' latest e h same alert soon = ground arith
