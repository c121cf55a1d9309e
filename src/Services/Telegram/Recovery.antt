-- ===== src/Services/Telegram/Recovery.antt =====
-- When an incident has ended: the recovery times of the controller, and `incident_superseded`.
pub mod Cleared
use megaraid_dashboard.Prelude.{
  ℕ, String, Bool, true, false, not, ◌&&◌, ◌||◌, Option, none, some, List, [], ◌∷◌, leb, ltb, ◌==◌,
  max, str_eq, any_of, keep, find_first, lookup_text, if◌then◌else◌,
}
use megaraid_dashboard.Prelude.Int.{ℤ, leb_ℤ, ◌-ℤ◌}
use megaraid_dashboard.Storcli.Models.{
  PhysicalDrive, ControllerSnapshot, SlotKey, slot_key, slot_eq,
}
use megaraid_dashboard.Services.Events.{Severity, info, warning, critical, Json, Fields}
use megaraid_dashboard.Services.DiskMonitor.{severity_eq}
use megaraid_dashboard.Services.EventDetector.Thresholds.{Thresholds}
use megaraid_dashboard.Services.Notifier.{Event}
use megaraid_dashboard.Services.Telegram.Messages.{
  or_empty, is_true, is_false, incident_key, key_eq,
}
use megaraid_dashboard.Services.Telegram.Relevance.{Captured, Database, drive_subject}

unfoldable pub controller_clear_boundary : Thresholds → Severity → ℤ
controller_clear_boundary c severity =
    (if severity_eq severity critical then c.roc_temp_critical else c.roc_temp_warning)
    -ℤ c.roc_temp_hysteresis

abbrev pub at_most : Option ℤ → ℤ → Bool
at_most none boundary = false
at_most (some t) boundary = leb_ℤ t boundary

-- The latest capture time up to a moment with a reading at the boundary or below it.
unfoldable pub last_clear : ℕ → ℤ → List Captured → Option ℕ
last_clear until boundary [] = none
last_clear until boundary (s ∷ ss) =
    let rest = last_clear until boundary ss in
    if leb s.captured_at until && at_most s.row.roc_temperature_celsius boundary
    then later rest s.captured_at
    else rest
  where
    later : Option ℕ → ℕ → Option ℕ
    later none t = some t
    later (some u) t = some (max t u)

abbrev or_observed : Option ℕ → Option ℕ → Option ℕ → Option ℕ
or_observed none none bootstrap = bootstrap
or_observed none (some t) bootstrap = some t
or_observed (some e) observed bootstrap = observed

abbrev newer : Option ℕ → Option ℕ → Option ℕ
newer existing none = existing
newer none (some t) = some t
newer (some e) (some t) = if ltb e t then some t else some e

-- One key of the loop of `record_controller_temperature_clears`.
unfoldable pub next_clear : List Captured → Option ℤ → ℕ → ℤ → Option ℕ → Option ℕ
next_clear snapshots temperature captured boundary existing = newer existing (
    or_observed existing (if at_most temperature boundary then some captured else none)
      (last_clear captured boundary snapshots))

unfoldable pub record_controller_temperature_clears :
    Thresholds → Option ℤ → ℕ → Database → Database
record_controller_temperature_clears c temperature captured_at db = record db {
  warning_cleared_at =
      next_clear db.snapshots temperature captured_at (controller_clear_boundary c warning)
        db.warning_cleared_at;
  critical_cleared_at =
      next_clear db.snapshots temperature captured_at (controller_clear_boundary c critical)
        db.critical_cleared_at;
}

abbrev pub stored_clear_time : Database → Severity → Option ℕ
stored_clear_time db critical = db.critical_cleared_at
stored_clear_time db warning = db.warning_cleared_at
stored_clear_time db info = none

abbrev pub within : ℕ → ℕ → Option ℕ → Bool
within after until none = false
within after until (some t) = ltb after t && leb t until

unfoldable pub controller_temperature_recovered : Thresholds → Database → ℕ → Event → Bool
controller_temperature_recovered c db until e =
    str_eq e.category "controller_temperature"
    && not (severity_eq e.severity info)
    && (within e.occurred_at until (stored_clear_time db e.severity)
        || any_of
            (λ (s : Captured).
              ltb e.occurred_at s.captured_at
              && (leb s.captured_at until
                  && at_most s.row.roc_temperature_celsius
                      (controller_clear_boundary c e.severity)))
            db.snapshots)

-- `ORDER BY captured_at DESC, id DESC LIMIT 1`.
abbrev is_later : Captured → Captured → Bool
is_later a b = ltb b.captured_at a.captured_at || (a.captured_at == b.captured_at && ltb b.id a.id)

abbrev pub latest_of : Captured → Option Captured → Captured
latest_of s none = s
latest_of s (some t) = if is_later t s then t else s

unfoldable pub latest_snapshot : ℕ → List Captured → Option Captured
latest_snapshot until [] = none
latest_snapshot until (s ∷ ss) =
    let rest = latest_snapshot until ss in
    if leb s.captured_at until then some (latest_of s rest) else rest

-- `serial or None`.
abbrev pub non_empty : String → Option String
non_empty s = if str_eq s "" then none else some s

abbrev pub drive_in : SlotKey → List PhysicalDrive → Option PhysicalDrive
drive_in slot drives = find_first (λ (d : PhysicalDrive). slot_eq (slot_key d) slot) drives

abbrev serial_of : Option PhysicalDrive → Option String
serial_of none = none
serial_of (some d) = non_empty d.serial_number

abbrev serial_in : SlotKey → Option Captured → Option String
serial_in slot none = none
serial_in slot (some s) = serial_of (drive_in slot s.row.physical_drives)

abbrev serial_at_slot : Database → ℕ → Option SlotKey → Option String
serial_at_slot db at none = none
serial_at_slot db at (some slot) = serial_in slot (latest_snapshot at db.snapshots)

abbrev saved_serial : Option Json → Option String → Option String
saved_serial (some (Json.text s)) otherwise = non_empty s
saved_serial _ otherwise = otherwise

unfoldable pub drive_serial_at : Database → Event → Option String
drive_serial_at db e =
    saved_serial (lookup_text "serial_number" (or_empty e.after_json))
      (serial_at_slot db e.occurred_at (drive_subject e.subject))

abbrev rises : Option String → Event → Bool
rises none e = false
rises (some field) e =
    is_false (lookup_text field (or_empty e.before_json))
    && is_true (lookup_text field (or_empty e.after_json))

unfoldable pub flag_incident_started : Event → Bool
flag_incident_started e =
    rises
      (lookup_text e.category
        (("smart_alert", "smart_alert") ∷ ("cv_state", "replacement_required") ∷ []))
      e
