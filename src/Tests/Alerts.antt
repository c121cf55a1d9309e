-- ===== src/Tests/Alerts.antt =====
-- Runs of the notifier, of the disk monitor and of the health assessment.
use megaraid_dashboard.Prelude.{
  ℕ, ◌+◌, ◌≡◌, ◌≢◌, ◌↔◌, refl, String, Bool, true, false, Option, none, some, List, [], ◌∷◌, arith,
  length, All, not, str_eq,
}
use megaraid_dashboard.Prelude.Int.{pos}
use megaraid_dashboard.Prelude.Text.{casefold, strip, decimal}
use megaraid_dashboard.Storcli.States.{normalized_state, alias}
use megaraid_dashboard.Storcli.Models.{PhysicalDrive}
use megaraid_dashboard.Services.Events.{Severity, physical_drive_state_severity}
use megaraid_dashboard.Services.Health.{HealthSeverity, Grade, assess_drive_health}
use megaraid_dashboard.Services.Health.Agreement.{
  HasNoFault, assess-optimal_iff, assess-critical_of_event,
}
use megaraid_dashboard.Services.DiskMonitor.{
  DiskSettings, DiskEvent, disk_event, alert_level, should_suppress,
  check_data_partition_free_space,
}
use megaraid_dashboard.Services.DiskMonitor.Alerts.{
  severity_of, after_check, next_level, after_check-level, no_repeat_within_window,
}
use megaraid_dashboard.Services.Notifier.{Event, NotifierSettings, run_notifier_cycle}
use megaraid_dashboard.Services.Notifier.Delivery.{
  IsNotified, AreDistinctIncidents, AreDistinctRows,
}
use megaraid_dashboard.Services.Notifier.Order.{outbox_once, outbox_recorded}

abbrev disk_settings : DiskSettings
disk_settings = record { disk_warning_free_mb = 500; disk_critical_free_mb = 100 }

abbrev first_alert : DiskEvent
first_alert =
    disk_event disk_settings 400 1000 Severity.warning
      "Free space on data partition: 400 MB (below warning threshold 500 MB)"

first_check : check_data_partition_free_space disk_settings 400 1000 none ≡ some first_alert
unfolding check_data_partition_free_space alert_level should_suppress decimal
first_check = refl

same_level : alert_level disk_settings 350 ≡ alert_level disk_settings 400
unfolding alert_level
same_level = refl

alert_severity : first_alert.severity ≢ Severity.info
unfolding disk_event
alert_severity h = cc

after_check-level_example :
    severity_of (after_check disk_settings 520 2000 (some first_alert))
    ≡ next_level disk_settings 520 (some Severity.warning)
unfolding disk_event
after_check-level_example = after_check-level disk_settings 520 2000 (some first_alert)

no_repeat_within_window_example :
    check_data_partition_free_space disk_settings 350 9000 (some first_alert) ≡ none
no_repeat_within_window_example =
    no_repeat_within_window disk_settings 400 350 1000 9000 none first_alert first_check same_level
      alert_severity (omega arith)

abbrev spare : PhysicalDrive
spare = record {
  enclosure_id = 252;
  slot_id = 7;
  serial_number = "Z1";
  state = "DHS";
  temperature_celsius = some (pos 31);
  media_errors = 0;
  other_errors = 0;
  predictive_failures = 0;
  smart_alert = false;
}

assess-optimal_iff_example :
    ((assess_drive_health spare Grade.ok).severity ≡ HealthSeverity.optimal)
    ↔ HasNoFault spare Grade.ok
assess-optimal_iff_example = assess-optimal_iff spare Grade.ok

abbrev lost : PhysicalDrive
lost = record spare { state = "Msng" }

lost_critical : physical_drive_state_severity lost.state ≡ Severity.critical
unfolding physical_drive_state_severity normalized_state alias casefold strip
lost_critical = refl

assess-critical_of_event_example :
    (assess_drive_health lost Grade.unknown).severity ≡ HealthSeverity.critical
assess-critical_of_event_example = assess-critical_of_event lost Grade.unknown lost_critical

abbrev notifier_settings : NotifierSettings
notifier_settings = record {
  alert_severity_threshold = Severity.warning;
  alert_suppress_window_minutes = 60;
  alert_throttle_per_hour = 20;
}

abbrev event : ℕ → ℕ → Severity → String → Option ℕ → Event
event id occurred_at severity subject notified_at = record {
  id = id;
  occurred_at = occurred_at;
  severity = severity;
  category = "pd_state";
  subject = subject;
  summary = "";
  before_json = none;
  after_json = none;
  notified_at = notified_at;
}

-- Two new events of one incident, one for which the transport fails, one below the threshold, and
-- one that is notified already.
abbrev table : List Event
table =
    event 1 100 Severity.critical "PD e252:s0" none
    ∷ event 2 200 Severity.critical "PD e252:s0" none
    ∷ event 3 150 Severity.warning "PD e252:s9" none
    ∷ event 4 150 Severity.info "PD e252:s1" none
    ∷ event 5 10 Severity.critical "PD e252:s2" (some 20)
    ∷ []

abbrev transport : Event → Bool
transport e = not (str_eq e.subject "PD e252:s9")

table-AreDistinctRows : AreDistinctRows table
table-AreDistinctRows = ground arith

outbox_once_example :
    AreDistinctIncidents
      (run_notifier_cycle notifier_settings transport 300 false true table).cycle.outbox
outbox_once_example =
    outbox_once notifier_settings transport 300 false true table table-AreDistinctRows

outbox_recorded_example :
    let s = (run_notifier_cycle notifier_settings transport 300 false true table).cycle in
    All (IsNotified 300 s.db) s.outbox
    × (length s.outbox ≡ s.sent)
    × (s.attempted ≡ s.sent + s.deduplicated + s.failed)
outbox_recorded_example =
    outbox_recorded notifier_settings transport 300 false true table table-AreDistinctRows
