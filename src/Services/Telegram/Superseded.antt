-- ===== src/Services/Telegram/Superseded.antt =====
-- `incident_superseded` of services/telegram_relevance.py.
use megaraid_dashboard.Prelude.{
  ℕ, String, Bool, true, false, not, ◌&&◌, ◌||◌, Option, none, some, leb, ltb, str_eq, any_of,
  lookup_text, if◌then◌else◌,
}
use megaraid_dashboard.Prelude.Int.{ℤ, pos, leb_ℤ}
use megaraid_dashboard.Services.Events.{Json, Fields}
use megaraid_dashboard.Services.DiskMonitor.{severity_eq}
use megaraid_dashboard.Services.EventDetector.Thresholds.{Thresholds}
use megaraid_dashboard.Services.Notifier.{Event}
use megaraid_dashboard.Services.Telegram.Messages.{or_empty, incident_key, key_eq}
use megaraid_dashboard.Services.Telegram.Relevance.{Database}
use megaraid_dashboard.Services.Telegram.Recovery.{
  controller_temperature_recovered, flag_incident_started,
}

-- A field other than the serial number stands in both.
unfoldable pub shares_field : Fields → Fields → Bool
shares_field fields other =
    any_of
      (λ (f : String × Json).
        not (str_eq f.0 "serial_number") && any_of (λ (g : String × Json). str_eq g.0 f.0) other)
      fields

-- Python's `==` on values: a flag is the number 1 or 0.
abbrev num_eq : ℤ → ℤ → Bool
num_eq a b = leb_ℤ a b && leb_ℤ b a

abbrev as_num : Bool → ℤ
as_num b = pos (if b then 1 else 0)

abbrev json_eq : Json → Json → Bool
json_eq Json.null Json.null = true
json_eq (Json.text s) (Json.text t) = str_eq s t
json_eq (Json.num a) (Json.num b) = num_eq a b
json_eq (Json.bool a) (Json.bool b) = num_eq (as_num a) (as_num b)
json_eq (Json.bool a) (Json.num b) = num_eq (as_num a) b
json_eq (Json.num a) (Json.bool b) = num_eq a (as_num b)
json_eq _ _ = false

-- `dict.get`, with `None` for a missing key.
abbrev get_or_null : Option Json → Json
get_or_null none = Json.null
get_or_null (some v) = v

abbrev same_serial : Event → Event → Bool
same_serial a b =
    json_eq (get_or_null (lookup_text "serial_number" (or_empty a.after_json)))
      (get_or_null (lookup_text "serial_number" (or_empty b.after_json)))

abbrev below : Option ℕ → ℕ → Bool
below none id = true
below (some before_id) id = ltb id before_id

-- The rows of the query: later events about the same object.
abbrev follows : Event → ℕ → Option ℕ → Event → Bool
follows e until before_id other =
    str_eq other.category e.category
    && str_eq other.subject e.subject
    && ltb e.id other.id
    && leb other.occurred_at until
    && below before_id other.id

-- The test on one row.
unfoldable pub supersedes : Event → Event → Bool
supersedes e other =
    shares_field (or_empty e.after_json) (or_empty other.after_json)
    && (not (severity_eq other.severity e.severity)
        || not (key_eq (incident_key other) (incident_key e))
        || flag_incident_started other
        || (str_eq e.category "pd_state" && not (same_serial other e)))

unfoldable pub incident_superseded : Thresholds → Database → ℕ → Option ℕ → Event → Bool
incident_superseded c db until before_id e =
    any_of (λ (other : Event). follows e until before_id other && supersedes e other) db.events
    || controller_temperature_recovered c db until e
