-- ===== src/Services/Telegram/Messages.antt =====
-- The identity of an incident, of services/telegram_messages.py.
use text.Mathlib.Text.{is_le}
use Prim.Native.String.{compare}
use megaraid_dashboard.Prelude.{
  String, Bool, true, false, not, ◌&&◌, Option, none, some, [], ◌∷◌, str_eq, lookup_text,
  if◌then◌else◌,
}
use megaraid_dashboard.Storcli.States.{normalized_state}
use megaraid_dashboard.Services.Events.{Json, Fields}
use megaraid_dashboard.Services.Notifier.{Event}

-- `event.after_json or {}`.
abbrev pub or_empty : Option Fields → Fields
or_empty none = []
or_empty (some fs) = fs

abbrev pub is_true : Option Json → Bool
is_true (some (Json.bool b)) = b
is_true _ = false

abbrev pub is_false : Option Json → Bool
is_false (some (Json.bool b)) = not b
is_false _ = false

unfoldable pub is_monitoring_outage : Event → Bool
is_monitoring_outage e =
    str_eq e.category "system"
    && str_eq e.subject "Controller"
    && is_true (lookup_text "monitoring_outage" (or_empty e.after_json))

abbrev state_of : Option Json → Option String
state_of (some (Json.text s)) = some (normalized_state s)
state_of _ = none

unfoldable pub incident_state : Event → Option String
incident_state e = state_of (lookup_text "state" (or_empty e.after_json))

-- A flag or a text is kept; of another value only the name is.
abbrev key_value : Json → Json
key_value (Json.bool b) = Json.bool b
key_value (Json.text s) = Json.text s
key_value _ = Json.null

unfoldable pub insert_field : String × Json → Fields → Fields
insert_field f [] = f ∷ []
insert_field f (g ∷ gs) =
    let rest = g ∷ insert_field f gs in if is_le (compare f.0 g.0) then f ∷ g ∷ gs else rest

unfoldable pub flag_fields : Fields → Fields
flag_fields [] = []
flag_fields ((name, value) ∷ fs) =
    let rest = flag_fields fs in
    if str_eq name "serial_number" then rest else insert_field (name, key_value value) rest

abbrev key_of : Option String → Fields → Fields
key_of (some state) after = ("state", Json.text state) ∷ []
key_of none after = flag_fields after

unfoldable pub incident_key : Event → Fields
incident_key e = key_of (incident_state e) (or_empty e.after_json)

abbrev value_eq : Json → Json → Bool
value_eq (Json.bool true) (Json.bool b) = b
value_eq (Json.bool false) (Json.bool b) = not b
value_eq (Json.text s) (Json.text t) = str_eq s t
value_eq Json.null Json.null = true
value_eq _ _ = false

-- Equality of two keys; a key has no numbers.
unfoldable pub key_eq : Fields → Fields → Bool
key_eq [] [] = true
key_eq ((n, v) ∷ fs) ((m, w) ∷ gs) = str_eq n m && value_eq v w && key_eq fs gs
key_eq _ _ = false
