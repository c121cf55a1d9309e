-- ===== src/Services/EventDetector/ForeignConfig.antt =====
-- `_detect_foreign_config`: presence of a foreign configuration, remembered by the detector.
use Prim.Native.String.{◌++◌ as cat}
use megaraid_dashboard.Prelude.{
  String, Bool, true, false, Option, none, some, List, [], ◌∷◌, if◌then◌else◌,
}
use megaraid_dashboard.Prelude.Int.{pos}
use megaraid_dashboard.Prelude.Text.{decimal}
use megaraid_dashboard.Storcli.Models.{ForeignConfig}
use megaraid_dashboard.Services.Events.{Severity, info, warning, Json, Fields, DetectedEvent}

unfoldable pub foreign_event : Severity → String → Option Fields → Fields → DetectedEvent
foreign_event severity summary before after = record {
  severity = severity;
  category = "foreign_config_detected";
  subject = "Controller foreign config";
  summary = summary;
  before = before;
  after = some after;
}

-- `not previous_present`, where `None` is the unknown presence after a start.
abbrev pub was_present : Option Bool → Bool
was_present none = false
was_present (some b) = b

unfoldable pub foreign_changes : Bool → ForeignConfig → List DetectedEvent
foreign_changes previous f =
    if f.present
    then if previous
      then []
      else foreign_event warning
          (cat "Foreign configuration detected: " (
            cat (decimal f.dg_count)
              (cat " DG, " (cat (decimal f.drive_count) (cat " drives (" (cat f.digest ")"))))))
          none
          (("present", Json.bool true)
            ∷ ("dg_count", Json.num (pos f.dg_count))
            ∷ ("drive_count", Json.num (pos f.drive_count))
            ∷ ("digest", Json.text f.digest)
            ∷ [])
        ∷ []
    else if previous
    then foreign_event info "Foreign configuration cleared"
        (some (("present", Json.bool true) ∷ [])) (("present", Json.bool false) ∷ [])
      ∷ []
    else []

-- The events, and the presence that the detector remembers.
unfoldable pub detect_foreign_config :
    Option Bool → Option ForeignConfig → List DetectedEvent × Option Bool
detect_foreign_config previous none = ([], previous)
detect_foreign_config previous (some f) = (foreign_changes (was_present previous) f, some f.present)
