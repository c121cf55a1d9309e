-- ===== src/Services/Telegram/Decision.antt =====
-- `delivery_relevance` of services/telegram_relevance.py.
pub mod Fresh
pub mod Known
use megaraid_dashboard.Prelude.{
  ℕ, ◌+◌, ◌*◌, max, String, Bool, true, false, not, ◌&&◌, Option, none, some, [], ◌∷◌, leb, ltb,
  str_eq, any_of, find_first, lookup_text, if◌then◌else◌,
}
use megaraid_dashboard.Prelude.Int.{ℤ, pos, leb_ℤ}
use megaraid_dashboard.Prelude.Text.{decimal_ℤ, casefold}
use megaraid_dashboard.Prelude.Words.{begins}
use megaraid_dashboard.Storcli.States.{normalized_state}
use megaraid_dashboard.Storcli.Models.{
  PhysicalDrive, VirtualDrive, CacheVault, ControllerSnapshot, SlotKey, drive_key,
}
use megaraid_dashboard.Services.Events.{Json, Fields}
use megaraid_dashboard.Services.DiskMonitor.{severity_text}
use megaraid_dashboard.Services.EventDetector.Temperature.{TempState, state_text}
use megaraid_dashboard.Services.EventDetector.VirtualDrives.{vd_subject}
use megaraid_dashboard.Services.Notifier.{Event}
use megaraid_dashboard.Services.Telegram.Messages.{or_empty, is_true, is_false}
use megaraid_dashboard.Services.Telegram.Relevance.{
  second, Captured, Database, Settings, Relevance, active, obsolete, raised, waiting, active_if,
  temperature_relevance, drive_subject,
}
use megaraid_dashboard.Services.Telegram.Recovery.{latest_snapshot, drive_in, drive_serial_at}
use megaraid_dashboard.Services.Telegram.Superseded.{incident_superseded}

-- `str` of a value of the event, where a missing one is `None`.
abbrev json_text : Option Json → String
json_text none = "None"
json_text (some Json.null) = "None"
json_text (some (Json.bool true)) = "True"
json_text (some (Json.bool false)) = "False"
json_text (some (Json.num n)) = decimal_ℤ n
json_text (some (Json.text s)) = s

abbrev same_state : String → String → Bool
same_state a b = str_eq (normalized_state a) (normalized_state b)

abbrev pub vd_state_relevance : Fields → Option Json → Option VirtualDrive → Relevance
vd_state_relevance after (some (Json.text state)) none =
    active_if (str_eq (normalized_state state) "offline")
vd_state_relevance after (some (Json.text state)) (some d) =
    active_if (not (is_false (lookup_text "present" after)) && same_state d.state state)
vd_state_relevance after _ _ = waiting "awaiting_incident_state"

unfoldable pub vd_relevance : ControllerSnapshot → Event → Relevance
vd_relevance s e =
    let after = or_empty e.after_json in
    vd_state_relevance after (lookup_text "state" after)
      (find_first (λ (d : VirtualDrive). str_eq e.subject (vd_subject d.vd_id)) s.virtual_drives)

-- `(cv is not None) == after["present"]`.
abbrev equals_flag : Bool → Json → Bool
equals_flag a (Json.bool true) = a
equals_flag a (Json.bool false) = not a
equals_flag true (Json.num n) = leb_ℤ n (pos 1) && leb_ℤ (pos 1) n
equals_flag false (Json.num n) = leb_ℤ n (pos 0) && leb_ℤ (pos 0) n
equals_flag a _ = false

abbrev pub is_present : Option CacheVault → Bool
is_present none = false
is_present (some _) = true

-- The chain on the fields, from the look-ups of `present` and `state`.
abbrev cv_active : Fields → Option CacheVault → Option Json → Option Json → Bool
cv_active after cv (some present) state = equals_flag (is_present cv) present
cv_active after none none state = false
cv_active after (some cv) none (some state) = same_state cv.state (json_text (some state))
cv_active after (some cv) none none =
    cv.replacement_required && is_true (lookup_text "replacement_required" after)

unfoldable pub cv_relevance : ControllerSnapshot → Event → Relevance
cv_relevance s e =
    let after = or_empty e.after_json in
    if not (is_present s.cachevault) && s.cv_present
    then waiting "awaiting_incident_state"
    else active_if
        (cv_active after s.cachevault (lookup_text "present" after) (lookup_text "state" after))

-- `isinstance(value, int)`: a flag is a number too.
abbrev int_value : Option Json → Option ℤ
int_value (some (Json.num n)) = some n
int_value (some (Json.bool b)) = some (pos (if b then 1 else 0))
int_value _ = none

-- `getattr(drive_pd, event.category)`; the columns that hold a counter.
abbrev pub counter_of : String → PhysicalDrive → Option ℕ
counter_of category d = lookup_text category (
    ("media_errors", d.media_errors)
    ∷ ("other_errors", d.other_errors)
    ∷ ("predictive_failures", d.predictive_failures)
    ∷ [])

abbrev pub counter_relevance : Option ℤ → Option ℕ → Relevance
counter_relevance none counter = waiting "awaiting_incident_state"
counter_relevance (some value) none = raised
counter_relevance (some value) (some n) = active_if (leb_ℤ (pos 1) (pos n) && leb_ℤ value (pos n))

abbrev pub other_grade : Option TempState → Event → Bool
other_grade none e = false
other_grade (some state) e = not (str_eq (state_text state) (severity_text e.severity))

-- The drive that the event is about is still in its slot.
unfoldable pub same_drive_relevance : Settings → Database → Event → PhysicalDrive → Relevance
same_drive_relevance c db e d =
    let after = or_empty e.after_json in
    if str_eq e.category "temperature"
    then (if other_grade (db.temperature_states (drive_key d)) e
        then obsolete
        else temperature_relevance d.temperature_celsius e.severity c.thresholds.temp_warning
            c.thresholds.temp_critical c.thresholds.temp_hysteresis false)
    else if str_eq e.category "pd_state"
    then active_if (
        not (is_false (lookup_text "present" after))
        && same_state d.state (json_text (lookup_text "state" after)))
    else if str_eq e.category "smart_alert"
    then active_if d.smart_alert
    else counter_relevance (int_value (lookup_text e.category after)) (counter_of e.category d)

abbrev pub lost_relevance : Option String → Relevance
lost_relevance none = waiting "awaiting_drive_identity"
lost_relevance (some _) = active

abbrev pub slot_relevance :
    Settings → Database → Event → Option PhysicalDrive → Option String → Relevance
slot_relevance c db e none serial =
    if str_eq e.category "pd_state"
      && str_eq (normalized_state (json_text (lookup_text "state" (or_empty e.after_json))))
          "missing"
    then lost_relevance serial
    else obsolete
slot_relevance c db e (some d) none = waiting "awaiting_drive_identity"
slot_relevance c db e (some d) (some serial) =
    if str_eq d.serial_number ""
    then waiting "awaiting_drive_identity"
    else if str_eq d.serial_number serial
    then same_drive_relevance c db e d
    else obsolete

abbrev pub drive_relevance :
    Settings → Database → ControllerSnapshot → Event → Option SlotKey → Relevance
drive_relevance c db s e none = waiting "awaiting_drive_identity"
drive_relevance c db s e (some slot) =
    slot_relevance c db e (drive_in slot s.physical_drives) (drive_serial_at db e)

-- The branches behind the checks on the age of the data, by the event's category.
unfoldable pub current_relevance : Settings → Database → ControllerSnapshot → Event → Relevance
current_relevance c db s e =
    if str_eq e.category "controller_temperature"
    then temperature_relevance s.roc_temperature_celsius e.severity c.thresholds.roc_temp_warning
        c.thresholds.roc_temp_critical c.thresholds.roc_temp_hysteresis true
    else if str_eq e.category "vd_state"
    then vd_relevance s e
    else if str_eq e.category "cv_state"
    then cv_relevance s e
    else drive_relevance c db s e (drive_subject e.subject)

-- SQLite's LIKE does not tell the case of ASCII letters.
abbrev pub collection_failed : ℕ → ℕ → Event → Bool
collection_failed since now e =
    str_eq e.category "system"
    && begins "collection failed:" (casefold e.summary)
    && leb since e.occurred_at
    && leb e.occurred_at now

abbrev pub freshness : Settings → ℕ
freshness c = max 60 (2 * c.metrics_interval_seconds) * second

abbrev pub recovered_since : Event → Option Captured → Bool
recovered_since e none = false
recovered_since e (some s) = leb e.occurred_at s.captured_at

abbrev pub hardware_relevance : Settings → Database → ℕ → Event → Option Captured → Relevance
hardware_relevance c db now e none = waiting "awaiting_fresh_data"
hardware_relevance c db now e (some s) =
    if ltb (s.captured_at + freshness c) now
    then waiting "awaiting_fresh_data"
    else if any_of (collection_failed s.captured_at now) db.events
    then waiting "awaiting_fresh_data"
    else if incident_superseded c.thresholds db now none e
    then obsolete
    else current_relevance c db s.row e

unfoldable pub delivery_relevance : Settings → Database → ℕ → Event → Relevance
delivery_relevance c db now e =
    let snapshot = latest_snapshot now db.snapshots in
    if str_eq e.category "system"
    then (if recovered_since e snapshot then obsolete else active)
    else hardware_relevance c db now e snapshot
