-- ===== src/Services/EventDetector/PhysicalDrives.antt =====
-- `_detect_drive_replacements`, `_detect_physical_drives` and the events of one drive.
pub mod Failures
pub mod Quiet
use Prim.Native.String.{◌++◌ as cat}
use megaraid_dashboard.Prelude.{
  ℕ, String, Bool, true, false, not, ◌&&◌, Option, none, some, List, [], ◌∷◌, ◌++◌, leb, ltb,
  str_eq, any_of, if◌then◌else◌,
}
use megaraid_dashboard.Prelude.Int.{pos}
use megaraid_dashboard.Prelude.Dict.{get, put_all}
use megaraid_dashboard.Prelude.Text.{decimal}
use megaraid_dashboard.Storcli.States.{normalized_state}
use megaraid_dashboard.Storcli.Models.{PhysicalDrive, SlotKey, slot_key, slot_eq}
use megaraid_dashboard.Services.Events.{
  Severity, info, warning, critical, Json, Fields, DetectedEvent, physical_drive_state_severity,
}
use megaraid_dashboard.Services.EventDetector.Temperature.{physical_drive_subject}
use megaraid_dashboard.Services.EventDetector.VirtualDrives.{presence_event}

-- An event about a drive; the callers differ in the rest.
abbrev drive_event :
    PhysicalDrive → Severity → String → String → Option Fields → Fields → DetectedEvent
drive_event d severity category summary before after = record {
  severity = severity;
  category = category;
  subject = physical_drive_subject d;
  summary = summary;
  before = before;
  after = some after;
}

unfoldable pub physical_drive_state_event : PhysicalDrive → PhysicalDrive → DetectedEvent
physical_drive_state_event p d =
    drive_event d (physical_drive_state_severity d.state) "pd_state"
      (cat (physical_drive_subject d)
        (cat " state changed from " (cat p.state (cat " to " d.state))))
      (some (("state", Json.text p.state) ∷ [])) (("state", Json.text d.state) ∷ [])

-- One row of the table of counters: field, severity, label, and the value read from a drive.
abbrev new_counter : PhysicalDrive → String → Severity → String → ℕ → List DetectedEvent
new_counter d field severity label value =
    if leb value 0
    then []
    else drive_event d severity field (cat label (cat " is " (decimal value))) none
        ((field, Json.num (pos value)) ∷ [])
      ∷ []

unfoldable pub new_counter_events : PhysicalDrive → List DetectedEvent
new_counter_events d =
    new_counter d "media_errors" critical "Media error count" d.media_errors
    ++ (new_counter d "other_errors" warning "Other error count" d.other_errors
        ++ new_counter d "predictive_failures" critical "Predictive failure count"
            d.predictive_failures)

abbrev counter : PhysicalDrive → String → Severity → String → ℕ → ℕ → List DetectedEvent
counter d field severity label before_value after_value =
    if leb after_value before_value
    then []
    else drive_event d severity field
        (cat label
          (cat " increased from " (cat (decimal before_value) (cat " to " (decimal after_value)))))
        (some ((field, Json.num (pos before_value)) ∷ []))
        ((field, Json.num (pos after_value)) ∷ [])
      ∷ []

unfoldable pub counter_events : PhysicalDrive → PhysicalDrive → List DetectedEvent
counter_events p d =
    counter d "media_errors" critical "Media error count" p.media_errors d.media_errors
    ++ (counter d "other_errors" warning "Other error count" p.other_errors d.other_errors
        ++ counter d "predictive_failures" critical "Predictive failure count" p.predictive_failures
            d.predictive_failures)

abbrev smart_before : Option Bool → Option Fields
smart_before none = none
smart_before (some b) = some (("smart_alert", Json.bool b) ∷ [])

unfoldable pub smart_alert_event : Option Bool → PhysicalDrive → DetectedEvent
smart_alert_event previous_smart_alert d =
    drive_event d critical "smart_alert" "SMART alert flagged by drive"
      (smart_before previous_smart_alert) (("smart_alert", Json.bool d.smart_alert) ∷ [])

unfoldable pub new_state_event : Severity → PhysicalDrive → List DetectedEvent
new_state_event info d = []
new_state_event severity d =
    drive_event d severity "pd_state" (cat (physical_drive_subject d) (cat " state is " d.state))
      none (("state", Json.text d.state) ∷ [])
    ∷ []

abbrev new_smart_events : PhysicalDrive → List DetectedEvent
new_smart_events d = if d.smart_alert then smart_alert_event none d ∷ [] else []

unfoldable pub new_physical_drive_events : PhysicalDrive → List DetectedEvent
new_physical_drive_events d =
    new_state_event (physical_drive_state_severity d.state) d
    ++ (new_counter_events d ++ new_smart_events d)

abbrev pub by_slot : List PhysicalDrive → List (SlotKey × PhysicalDrive)
by_slot ds = put_all slot_eq slot_key ds []

abbrev pub Replacements : Type 0
Replacements = List DetectedEvent × List SlotKey × List SlotKey

-- The passes of the two loops of `_detect_drive_replacements`: the events, the slots replaced, and
-- the slots whose temperature state is cleared.
unfoldable pub absent_slot : SlotKey → PhysicalDrive → Option PhysicalDrive → Replacements
absent_slot k p (some _) = ([], [], [])
absent_slot k p none = (
  presence_event "pd_state" (physical_drive_subject p) false "Missing" (some p.state)
        (some p.serial_number)
      ∷ [],
  [],
  k ∷ [],
)

unfoldable pub replaced_slot : PhysicalDrive → Option PhysicalDrive → Replacements
replaced_slot d none = (
  presence_event "pd_state" (physical_drive_subject d) true d.state none (some d.serial_number)
      ∷ [],
  slot_key d ∷ [],
  slot_key d ∷ [],
)
replaced_slot d (some p) = if str_eq p.serial_number d.serial_number then ([], [], []) else (
  drive_event d info "pd_state"
        (cat "Drive replaced: " (cat p.serial_number (cat " -> " d.serial_number)))
        (some (("serial_number", Json.text p.serial_number) ∷ []))
        (("serial_number", Json.text d.serial_number) ∷ [])
      ∷ [],
  slot_key d ∷ [],
  slot_key d ∷ [],
)

abbrev join : Replacements → Replacements → Replacements
join (e, r, c) (e', r', c') = (e ++ e', r ++ r', c ++ c')

unfoldable pub absences :
    List (SlotKey × PhysicalDrive) → List (SlotKey × PhysicalDrive) → Replacements
absences current_slots [] = ([], [], [])
absences current_slots ((k, p) ∷ rest) =
    join (absent_slot k p (get slot_eq k current_slots)) (absences current_slots rest)

unfoldable pub replacements : List (SlotKey × PhysicalDrive) → List PhysicalDrive → Replacements
replacements previous_by_slot [] = ([], [], [])
replacements previous_by_slot (d ∷ ds) =
    join (replaced_slot d (get slot_eq (slot_key d) previous_by_slot))
      (replacements previous_by_slot ds)

unfoldable pub detect_drive_replacements : List PhysicalDrive → List PhysicalDrive → Replacements
detect_drive_replacements previous current =
    join (absences (by_slot current) (by_slot previous)) (replacements (by_slot previous) current)

abbrev same_state : PhysicalDrive → PhysicalDrive → Bool
same_state p d = str_eq (normalized_state p.state) (normalized_state d.state)

-- One pass of the loop of `_detect_physical_drives`.
unfoldable pub drive_changes : Bool → PhysicalDrive → Option PhysicalDrive → List DetectedEvent
drive_changes replaced d none = new_physical_drive_events d
drive_changes true d (some p) =
    if same_state p d
    then new_physical_drive_events d
    else physical_drive_state_event p d ∷ (new_counter_events d ++ new_smart_events d)
drive_changes false d (some p) =
    (if same_state p d then [] else physical_drive_state_event p d ∷ [])
    ++ (counter_events p d
        ++ (if d.smart_alert && not p.smart_alert
            then smart_alert_event (some p.smart_alert) d ∷ []
            else []))

unfoldable pub detect_physical_drives_in :
    List (SlotKey × PhysicalDrive) → List SlotKey → List PhysicalDrive → List DetectedEvent
detect_physical_drives_in previous_by_slot replaced_slots [] = []
detect_physical_drives_in previous_by_slot replaced_slots (d ∷ ds) =
    drive_changes (any_of (slot_eq (slot_key d)) replaced_slots) d
      (get slot_eq (slot_key d) previous_by_slot)
    ++ detect_physical_drives_in previous_by_slot replaced_slots ds

unfoldable pub detect_physical_drives :
    List PhysicalDrive → List SlotKey → List PhysicalDrive → List DetectedEvent
detect_physical_drives previous replaced_slots current =
    detect_physical_drives_in (by_slot previous) replaced_slots current
