-- ===== src/Services/DiskMonitor.antt =====
-- src/megaraid_dashboard/services/disk_monitor.py: events about the free space of the data partition.
-- Times are seconds; the database has one event list, newest last by time and number.
pub mod Alerts
use Prim.Native.String.{◌++◌ as cat}
use megaraid_dashboard.Prelude.{
  ℕ, ◌+◌, ◌*◌, String, Bool, true, false, not, ◌&&◌, ◌||◌, Option, none, some, List, [], ◌∷◌, ltb,
  leb, ◌==◌, if◌then◌else◌,
}
use megaraid_dashboard.Prelude.Int.{pos}
use megaraid_dashboard.Prelude.Text.{decimal}
use megaraid_dashboard.Services.Events.{Severity, info, warning, critical, Json, Fields}

abbrev pub recovery_hysteresis_mb : ℕ
recovery_hysteresis_mb = 50

-- Six hours.
abbrev pub suppress_window : ℕ
suppress_window = 6 * 3600

pub record DiskSettings : Type 0 where
  pub disk_warning_free_mb : ℕ
  pub disk_critical_free_mb : ℕ

-- The fields of an `Event` in the category `disk_space`.
pub record DiskEvent : Type 0 where
  pub occurred_at : ℕ
  pub severity : Severity
  pub summary : String
  pub after_json : Fields

abbrev pub severity_eq : Severity → Severity → Bool
severity_eq info info = true
severity_eq warning warning = true
severity_eq critical critical = true
severity_eq _ _ = false

abbrev pub severity_text : Severity → String
severity_text info = "info"
severity_text warning = "warning"
severity_text critical = "critical"

-- `occurred_at >= now - SUPPRESS_WINDOW`.
unfoldable pub should_suppress : Option DiskEvent → Severity → ℕ → Bool
should_suppress none severity now = false
should_suppress (some e) severity now =
    severity_eq e.severity severity && leb now (e.occurred_at + suppress_window)

-- The alert that the free space calls for, with the threshold it fell below.
unfoldable pub alert_level : DiskSettings → ℕ → Option (Severity × ℕ)
alert_level c free_mb =
    if ltb free_mb c.disk_critical_free_mb
    then some (critical, c.disk_critical_free_mb)
    else if ltb free_mb c.disk_warning_free_mb
    then some (warning, c.disk_warning_free_mb)
    else none

unfoldable pub disk_event : DiskSettings → ℕ → ℕ → Severity → String → DiskEvent
disk_event c free_mb now severity summary = record {
  occurred_at = now;
  severity = severity;
  summary = summary;
  after_json =
      ("free_mb", Json.num (pos free_mb))
      ∷ ("warning_free_mb", Json.num (pos c.disk_warning_free_mb))
      ∷ ("critical_free_mb", Json.num (pos c.disk_critical_free_mb))
      ∷ [];
}

-- `severity in {"warning", "critical"}`.
abbrev pub is_alert : Option DiskEvent → Bool
is_alert none = false
is_alert (some e) = not (severity_eq e.severity info)

abbrev below_text : ℕ → Severity → ℕ → String
below_text free_mb severity threshold_mb = cat "Free space on data partition: " (
    cat (decimal free_mb) (
      cat " MB (below "
        (cat (severity_text severity) (cat " threshold " (cat (decimal threshold_mb) " MB)")))))

abbrev pub report :
    DiskSettings → ℕ → ℕ → Option DiskEvent → Option (Severity × ℕ) → Option DiskEvent
report c free_mb now latest (some (severity, threshold_mb)) =
    if should_suppress latest severity now
    then none
    else some (disk_event c free_mb now severity (below_text free_mb severity threshold_mb))
report c free_mb now latest none =
    if is_alert latest && ltb (c.disk_warning_free_mb + recovery_hysteresis_mb) free_mb
    then some
        (disk_event c free_mb now info (cat "Free space recovered: " (cat (decimal free_mb) " MB")))
    else none

-- `check_data_partition_free_space` from the free space and the latest disk event on: the event
-- that it returns, if any.
unfoldable pub check_data_partition_free_space :
    DiskSettings → ℕ → ℕ → Option DiskEvent → Option DiskEvent
check_data_partition_free_space c free_mb now latest =
    report c free_mb now latest (alert_level c free_mb)
