-- ===== src/Services/EventDetector/VirtualDrives.antt =====
-- `_presence_event`, `_detect_virtual_drives` and `_new_virtual_drive_event`.
pub mod Quiet
use Prim.Native.String.{◌++◌ as cat}
use megaraid_dashboard.Prelude.{
  ℕ, String, Bool, true, false, not, Option, none, some, List, [], ◌∷◌, ◌++◌, ◌==◌, str_eq,
  if◌then◌else◌,
}
use megaraid_dashboard.Prelude.Dict.{get, put_all}
use megaraid_dashboard.Prelude.Text.{decimal}
use megaraid_dashboard.Storcli.States.{normalized_state}
use megaraid_dashboard.Storcli.Models.{VirtualDrive, ControllerSnapshot, StorcliSnapshot}
use megaraid_dashboard.Services.Events.{
  Severity, info, warning, critical, Json, Fields, DetectedEvent, virtual_drive_state_severity,
}

abbrev pub optional_text : Option String → Json
optional_text none = Json.null
optional_text (some s) = Json.text s

abbrev pub serial_field : Option String → Fields
serial_field none = []
serial_field (some s) = ("serial_number", Json.text s) ∷ []

unfoldable pub presence_event :
    String → String → Bool → String → Option String → Option String → DetectedEvent
presence_event category subject present state previous_state serial = record {
  severity = if present then info else critical;
  category = category;
  subject = subject;
  summary = cat subject (cat " " (if present then "detected" else "no longer detected"));
  before =
      some (("present", Json.bool (not present)) ∷ ("state", optional_text previous_state) ∷ []);
  after = some (("present", Json.bool present) ∷ ("state", Json.text state) ∷ serial_field serial);
}

unfoldable pub vd_subject : ℕ → String
vd_subject vd_id = cat "VD " (decimal vd_id)

unfoldable pub new_virtual_drive_event_of : Severity → VirtualDrive → List DetectedEvent
new_virtual_drive_event_of info d = []
new_virtual_drive_event_of severity d =
    record {
      severity = severity;
      category = "vd_state";
      subject = vd_subject d.vd_id;
      summary = cat (vd_subject d.vd_id) (cat " state is " d.state);
      before = none;
      after = some (("state", Json.text d.state) ∷ []);
    }
    ∷ []

-- `None` is the empty list.
unfoldable pub new_virtual_drive_event : VirtualDrive → List DetectedEvent
new_virtual_drive_event d = new_virtual_drive_event_of (virtual_drive_state_severity d.state) d

unfoldable pub vd_changed : VirtualDrive → Option VirtualDrive → List DetectedEvent
vd_changed p none =
    presence_event "vd_state" (vd_subject p.vd_id) false "Offline" (some p.state) none ∷ []
vd_changed p (some d) =
    if str_eq (normalized_state p.state) (normalized_state d.state)
    then []
    else record {
      severity = virtual_drive_state_severity d.state;
      category = "vd_state";
      subject = vd_subject p.vd_id;
      summary =
          cat (vd_subject p.vd_id) (cat " state changed from " (cat p.state (cat " to " d.state)));
      before = some (("state", Json.text p.state) ∷ []);
      after = some (("state", Json.text d.state) ∷ []);
    }
      ∷ []

unfoldable pub vd_appeared : VirtualDrive → Option VirtualDrive → List DetectedEvent
vd_appeared d (some _) = []
vd_appeared d none =
    presence_event "vd_state" (vd_subject d.vd_id) true d.state none none
    ∷ new_virtual_drive_event d

abbrev pub by_id : List VirtualDrive → List (ℕ × VirtualDrive)
by_id ds = put_all ◌==◌ (λ (d : VirtualDrive). d.vd_id) ds []

-- The two loops; `current_by_id.get` and the set of previous numbers are the dictionaries' look-ups.
unfoldable pub vd_losses : List (ℕ × VirtualDrive) → List VirtualDrive → List DetectedEvent
vd_losses current_by_id [] = []
vd_losses current_by_id (p ∷ ps) =
    vd_changed p (get ◌==◌ p.vd_id current_by_id) ++ vd_losses current_by_id ps

unfoldable pub vd_gains : List (ℕ × VirtualDrive) → List VirtualDrive → List DetectedEvent
vd_gains previous_by_id [] = []
vd_gains previous_by_id (d ∷ ds) =
    vd_appeared d (get ◌==◌ d.vd_id previous_by_id) ++ vd_gains previous_by_id ds

unfoldable pub detect_virtual_drives : List VirtualDrive → List VirtualDrive → List DetectedEvent
detect_virtual_drives previous current =
    vd_losses (by_id current) previous ++ vd_gains (by_id previous) current
