-- ===== src/Services/EventDetector/Detect.antt =====
-- `EventDetector.detect`: the state of the detector and one cycle of it.
pub mod Failures
pub mod Total
pub mod Quiet
use megaraid_dashboard.Prelude.{
  ℕ, String, Bool, not, ◌&&◌, Option, none, some, List, [], ◌∷◌, ◌++◌, map, str_eq, any_of,
  if◌then◌else◌, Option-cases,
}
use Prim.Native.String.{◌++◌ as cat}
use megaraid_dashboard.Prelude.Dict.{get, put, put_all}
use megaraid_dashboard.Prelude.Int.{ℤ}
use megaraid_dashboard.Storcli.Models.{
  PhysicalDrive, CacheVault, StorcliSnapshot, ControllerSnapshot, SlotKey, DriveKey, slot_key,
  slot_eq, drive_key, drive_key_eq,
}
use megaraid_dashboard.Services.Events.{Severity, info, critical, Json, Fields, DetectedEvent}
use megaraid_dashboard.Services.EventDetector.Thresholds.{Thresholds}
use megaraid_dashboard.Services.EventDetector.Temperature.{
  TempState, ok, physical_drive_subject, temperature_transitions, temperature_state_from_reading,
}
use megaraid_dashboard.Services.EventDetector.Roc.{detect_roc_temperature}
use megaraid_dashboard.Services.EventDetector.VirtualDrives.{
  new_virtual_drive_event, detect_virtual_drives,
}
use megaraid_dashboard.Services.EventDetector.PhysicalDrives.{
  new_physical_drive_events, detect_drive_replacements, detect_physical_drives, Replacements,
}
use megaraid_dashboard.Services.EventDetector.CacheVault.{
  cv_missing_event, new_cachevault_events, detect_cachevault,
}
use megaraid_dashboard.Services.EventDetector.ForeignConfig.{detect_foreign_config}

-- The instance's state: the temperature states set before the cycle, the updates and clears that
-- the cycle leaves, and the last known presence of a foreign configuration.
pub record EventDetector : Type 0 where
  pub thresholds : Thresholds
  pub temperature_states : DriveKey → Option TempState
  pub temperature_updates : List (DriveKey × TempState)
  pub temperature_clears : List SlotKey
  pub previous_foreign_config_present : Option Bool

unfoldable pub set_temperature_states :
    (DriveKey → Option TempState) → EventDetector → EventDetector
set_temperature_states states s = record s { temperature_states = states }

unfoldable pub controller_event : String → String → DetectedEvent
controller_event previous current = record {
  severity = info;
  category = "controller_alarm_setting_changed";
  subject = "Controller";
  summary = cat "Controller buzzer setting changed from " (cat previous (cat " to " current));
  before = some (("alarm_state", Json.text previous) ∷ []);
  after = some (("alarm_state", Json.text current) ∷ []);
}

unfoldable pub detect_controller : String → String → List DetectedEvent
detect_controller previous current =
    if str_eq previous current then [] else controller_event previous current ∷ []

abbrev flat_map {ℓ} : {A : Type ℓ} → (A → List DetectedEvent) → List A → List DetectedEvent
flat_map f [] = []
flat_map f (x ∷ xs) = f x ++ flat_map f xs

unfoldable pub baseline_cachevault : ℕ → Bool → Option CacheVault → List DetectedEvent
baseline_cachevault warning_percent cv_present (some cv) = new_cachevault_events warning_percent cv
baseline_cachevault warning_percent cv_present none =
    if cv_present then [] else cv_missing_event none "CacheVault is not detected" ∷ []

unfoldable pub detect_baseline : Thresholds → StorcliSnapshot → List DetectedEvent
detect_baseline c s =
    flat_map new_virtual_drive_event s.virtual_drives
    ++ (flat_map new_physical_drive_events s.physical_drives
        ++ baseline_cachevault c.cv_capacitance_warning_percent s.controller.cv_present
            s.cachevault)

abbrev pub or_else {ℓ} : {A : Type ℓ} → Option A → Option A → Option A
or_else (some a) b = some a
or_else none b = b

abbrev pub or_default {ℓ} : {A : Type ℓ} → Option A → A → A
or_default (some a) d = a
or_default none d = d

abbrev reading_state : Thresholds → DriveKey → PhysicalDrive → Option ℤ → Option TempState
reading_state c k d none = none
reading_state c k d (some t) =
    if drive_key_eq (drive_key d) k then some (temperature_state_from_reading c (some t)) else none

-- `_temperature_states_from_previous`, as the look-up in its dictionary: of two drives with one key
-- the later one counts.
unfoldable pub previous_state : Thresholds → List PhysicalDrive → DriveKey → Option TempState
previous_state c [] k = none
previous_state c (d ∷ ds) k =
    or_else (previous_state c ds k) (reading_state c k d d.temperature_celsius)

unfoldable pub initial_state :
    EventDetector → List PhysicalDrive → List SlotKey → PhysicalDrive → TempState
initial_state s previous replaced_slots d =
    if any_of (slot_eq (slot_key d)) replaced_slots
    then ok
    else or_default
        (or_else (s.temperature_states (drive_key d))
          (previous_state s.thresholds previous (drive_key d)))
        ok

abbrev pub TempRun : Type 0
TempRun = List DetectedEvent × List (DriveKey × TempState)

abbrev pub store :
    PhysicalDrive → Option (List DetectedEvent × TempState) → TempRun → Option TempRun
store d none run = none
store d (some (next_events, next)) (events, updates) =
    some (events ++ next_events, put drive_key_eq (drive_key d) next updates)

abbrev pub with_reading :
    EventDetector
    → List PhysicalDrive
    → List SlotKey
    → PhysicalDrive
    → Option ℤ
    → TempRun
    → Option TempRun
with_reading s previous replaced_slots d none run = some run
with_reading s previous replaced_slots d (some _) run =
    store d (temperature_transitions s.thresholds d (initial_state s previous replaced_slots d)) run

-- The loop of `_detect_temperatures`; `none` when a temperature loop does not end.
unfoldable pub detect_temperatures :
    EventDetector
    → List PhysicalDrive
    → List SlotKey
    → List PhysicalDrive
    → TempRun
    → Option TempRun
detect_temperatures s previous replaced_slots [] run = some run
detect_temperatures s previous replaced_slots (d ∷ ds) run =
    elim (with_reading s previous replaced_slots d d.temperature_celsius run) [
      | none ↦ none
      | some run' ↦ detect_temperatures s previous replaced_slots ds run'
    ]

-- The events before the temperatures, the slots replaced and the slots cleared.
unfoldable pub compared : Thresholds → Option ControllerSnapshot → StorcliSnapshot → Replacements
compared c none s = (detect_baseline c s, [], [])
compared c (some p) s =
    let (events, replaced, clears) =
      detect_drive_replacements p.physical_drives s.physical_drives in
    (
      detect_controller p.alarm_state s.controller.alarm_state
          ++ (detect_virtual_drives p.virtual_drives s.virtual_drives
              ++ (events
                  ++ (detect_physical_drives p.physical_drives replaced s.physical_drives
                      ++ detect_cachevault c.cv_capacitance_warning_percent p.cv_present
                          p.cachevault s.controller.cv_present s.cachevault))),
      replaced,
      clears,
    )

abbrev pub previous_roc : Option ControllerSnapshot → Option ℤ
previous_roc none = none
previous_roc (some p) = p.roc_temperature_celsius

abbrev pub previous_drives : Option ControllerSnapshot → List PhysicalDrive
previous_drives none = []
previous_drives (some p) = p.physical_drives

abbrev fields_of : Option Fields → Fields
fields_of none = []
fields_of (some fs) = fs

abbrev pub with_serial : DetectedEvent → Option (String) → DetectedEvent
with_serial e none = e
with_serial e (some serial) = record e {
  after = some (put str_eq "serial_number" (Json.text serial) (fields_of e.after));
}

abbrev pub serials : List PhysicalDrive → List (String × String) → List (String × String)
serials [] d = d
serials (x ∷ xs) d = serials xs (put str_eq (physical_drive_subject x) x.serial_number d)

-- The last statement of `detect`: the serial number of the drive in the event's slot.
unfoldable pub add_serials : List PhysicalDrive → List DetectedEvent → List DetectedEvent
add_serials drives events =
    map (λ e. with_serial e (get str_eq e.subject (serials drives []))) events

abbrev pub finish :
    EventDetector
    → StorcliSnapshot
    → List DetectedEvent
    → List SlotKey
    → Option TempRun
    → Option (List DetectedEvent × EventDetector)
finish s current before clears none = none
finish s current before clears (some (temps, updates)) =
    let (foreign, present) =
      detect_foreign_config s.previous_foreign_config_present current.foreign_config in
    some (
      add_serials current.physical_drives (before ++ (temps ++ foreign)),
      record s {
        temperature_updates = updates;
        temperature_clears = clears;
        previous_foreign_config_present = present;
      },
    )

unfoldable pub detect :
    Option ControllerSnapshot
    → StorcliSnapshot
    → EventDetector
    → Option (List DetectedEvent × EventDetector)
detect previous current s =
    let (events, replaced, clears) = compared s.thresholds previous current in
    let roc =
      detect_roc_temperature s.thresholds (previous_roc previous)
        current.controller.roc_temperature_celsius in
    finish s current (events ++ roc) clears
      (detect_temperatures s (previous_drives previous) replaced current.physical_drives ([], []))
