-- ===== src/Tests/Detector.antt =====
-- Runs of services/event_detector.py.
use mathlib.Core.List.{Memᴰ}
use megaraid_dashboard.Prelude.{
  ℕ, ◌+◌, ◌≤◌, ◌≡◌, refl, String, true, false, Option, none, some, List, [], ◌∷◌, ◌++◌, arith,
  length, any_of, inr, All, if◌then◌else◌,
}
use megaraid_dashboard.Prelude.Int.{ℤ, pos, -ℤ_parts}
use megaraid_dashboard.Storcli.Models.{
  PhysicalDrive, slot_eq, slot_key, StorcliSnapshot, DriveKey, drive_key, drive_key_eq,
  insert_snapshot,
}
use megaraid_dashboard.Storcli.States.{normalized_state, alias}
use megaraid_dashboard.Prelude.Text.{casefold, strip}
use megaraid_dashboard.Services.Events.{Severity, DetectedEvent, physical_drive_state_severity}
use megaraid_dashboard.Services.EventDetector.Thresholds.{Thresholds, IsConfigured}
use megaraid_dashboard.Services.EventDetector.Temperature.{
  TempState, ok, warning, critical, temperature_transitions,
}
use megaraid_dashboard.Services.EventDetector.Temperature.Hysteresis.{
  settled, settled_or, temperature_transitions-settled, temperature_transitions-quiet,
}
use megaraid_dashboard.Services.EventDetector.Temperature.Alarms.{
  alarms, alarms-le-clears, raised, clears,
}
use megaraid_dashboard.Services.EventDetector.Roc.{detect_roc_temperature}
use megaraid_dashboard.Services.EventDetector.Roc.Missed.{slow_clear_missed}
use megaraid_dashboard.Services.EventDetector.PhysicalDrives.Failures.{reports_failure, Differs}
use megaraid_dashboard.Services.EventDetector.Detect.{EventDetector, detect}
use megaraid_dashboard.Services.EventDetector.Detect.Failures.{detect-reports_failure}
use megaraid_dashboard.Services.EventDetector.Detect.Total.{detect_total}
use megaraid_dashboard.Services.EventDetector.Detect.Quiet.{events_of, detect_quiet}

abbrev pub config : Thresholds
config = record {
  temp_warning = pos 55;
  temp_critical = pos 60;
  temp_hysteresis = pos 5;
  roc_temp_warning = pos 95;
  roc_temp_critical = pos 105;
  roc_temp_hysteresis = pos 5;
  cv_capacitance_warning_percent = 70;
}

pub config-IsConfigured : IsConfigured config
config-IsConfigured = record {
  critical_above = omega arith;
  hysteresis_positive = omega arith;
  hysteresis_below = omega arith;
  roc_critical_above = omega arith;
  roc_hysteresis_positive = omega arith;
  roc_hysteresis_below = omega arith;
}

abbrev drive : ℕ → String → String → Option ℤ → PhysicalDrive
drive slot_id serial_number state temperature = record {
  enclosure_id = 252;
  slot_id = slot_id;
  serial_number = serial_number;
  state = state;
  temperature_celsius = temperature;
  media_errors = 0;
  other_errors = 2;
  predictive_failures = 0;
  smart_alert = false;
}

abbrev hot_drive : PhysicalDrive
hot_drive = drive 0 "S1" "Onln" (some (pos 57))

abbrev failed_drive : PhysicalDrive
failed_drive = drive 1 "S2" "UBad" none

abbrev snapshot : List PhysicalDrive → StorcliSnapshot
snapshot drives = record {
  controller = record {
    alarm_state = "On";
    cv_present = true;
    roc_temperature_celsius = some (pos 80);
  };
  virtual_drives = record { vd_id = 0; state = "Optl" } ∷ record { vd_id = 1; state = "Dgrd" } ∷ [];
  physical_drives = drives;
  cachevault =
      some
        (record { state = "Optimal"; capacitance_percent = some 90; replacement_required = false });
  foreign_config =
      some (record { present = false; dg_count = 0; drive_count = 0; digest = "none" });
}

abbrev healthy : StorcliSnapshot
healthy = snapshot (hot_drive ∷ drive 1 "S2" "Onln" none ∷ [])

abbrev pub broken : StorcliSnapshot
broken = snapshot (hot_drive ∷ failed_drive ∷ [])

abbrev states : DriveKey → Option TempState
states k = if drive_key_eq k (drive_key hot_drive) then some warning else none

abbrev pub detector : EventDetector
detector = record {
  thresholds = config;
  temperature_states = states;
  temperature_updates = [];
  temperature_clears = [];
  previous_foreign_config_present = some false;
}

slot-Differs :
    All
      (λ p. slot_eq (slot_key p) (slot_key failed_drive) ≡ true → Differs failed_drive p)
      (insert_snapshot healthy).physical_drives
unfolding insert_snapshot normalized_state alias casefold strip
slot-Differs = (λ h. cc, (λ h. inr refl, tt))

ubad_critical : physical_drive_state_severity failed_drive.state ≡ Severity.critical
unfolding physical_drive_state_severity normalized_state alias casefold strip
ubad_critical = refl

detect-reports_failure_example :
    (r : List DetectedEvent × EventDetector) × (detect
        (some (insert_snapshot healthy))
        broken
        detector
      ≡ some r)
    × (any_of (reports_failure failed_drive) r.0 ≡ true)
detect-reports_failure_example =
    detect-reports_failure (insert_snapshot healthy) broken detector failed_drive
      config-IsConfigured (Memᴰ.tail (Memᴰ.head refl)) ubad_critical slot-Differs

temperature_transitions-settled_example :
    (events : List DetectedEvent) × (temperature_transitions config hot_drive critical
      ≡ some (events, settled_or config hot_drive.temperature_celsius critical))
    × (length events ≤ 2)
temperature_transitions-settled_example =
    temperature_transitions-settled config config-IsConfigured hot_drive critical

temperature_transitions-quiet_example :
    temperature_transitions config hot_drive (settled_or config hot_drive.temperature_celsius ok)
    ≡ some ([], settled_or config hot_drive.temperature_celsius ok)
temperature_transitions-quiet_example =
    temperature_transitions-quiet config config-IsConfigured hot_drive ok

abbrev readings : List ℤ
readings = pos 61 ∷ pos 58 ∷ pos 61 ∷ pos 54 ∷ pos 60 ∷ []

alarms-le-clears_example :
    alarms config hot_drive ok readings + raised ok ≤ clears config readings + 1
alarms-le-clears_example = alarms-le-clears config config-IsConfigured hot_drive ok readings

slow_clear_missed_example :
    detect_roc_temperature config (some (pos 97)) (some (pos 93))
      ++ detect_roc_temperature config (some (pos 93)) (some (pos 88))
    ≡ []
slow_clear_missed_example =
    slow_clear_missed config config-IsConfigured (pos 97) (pos 93) (pos 88) (omega arith)
      (omega arith) (omega (arith, -ℤ_parts (pos 95) (pos 5))) (omega arith)
      (omega (arith, -ℤ_parts (pos 95) (pos 5)))

detect_total_example :
    (r : List DetectedEvent × EventDetector) × (detect
        (some (insert_snapshot healthy))
        broken
        detector
      ≡ some r)
detect_total_example =
    detect_total (some (insert_snapshot healthy)) broken detector config-IsConfigured

hot_drive-settled :
    detector.temperature_states (drive_key hot_drive)
    ≡ some (settled_or config hot_drive.temperature_celsius warning)
unfolding settled_or settled
hot_drive-settled = ground (arith, -ℤ_parts (pos 55) (pos 5))

detect_quiet_example : events_of (detect (some (insert_snapshot broken)) broken detector) ≡ some []
detect_quiet_example =
    detect_quiet detector broken config-IsConfigured ((refl, tt), (tt, tt)) ((refl, tt), (tt, tt))
      ((warning, hot_drive-settled), (tt, tt)) refl
