-- ===== src/Services/EventDetector/Temperature.antt =====
-- `_temperature_transitions` and `_temperature_state_from_reading`: drive temperatures with hysteresis.
pub mod Hysteresis
pub mod Alarms
use Prim.Native.String.{◌++◌ as cat}
use megaraid_dashboard.Prelude.{
  ℕ, zero, suc, String, Bool, true, false, ◌&&◌, Option, none, some, List, [], ◌∷◌, ◌++◌,
  if◌then◌else◌,
}
use megaraid_dashboard.Prelude.Int.{ℤ, ltb_ℤ, leb_ℤ, ◌-ℤ◌, pos}
use megaraid_dashboard.Prelude.Text.{decimal, decimal_ℤ}
use megaraid_dashboard.Storcli.Models.{PhysicalDrive}
use megaraid_dashboard.Services.Events.{Severity, Json, Fields, DetectedEvent}
use megaraid_dashboard.Services.EventDetector.Thresholds.{Thresholds}

pub data TempState : Type 0 where
  ok warning critical : TempState

abbrev pub state_text : TempState → String
state_text ok = "ok"
state_text warning = "warning"
state_text critical = "critical"

unfoldable pub physical_drive_subject : PhysicalDrive → String
physical_drive_subject d = cat "PD e" (cat (decimal d.enclosure_id) (cat ":s" (decimal d.slot_id)))

abbrev pub optional_num : Option ℤ → Json
optional_num none = Json.null
optional_num (some n) = Json.num n

unfoldable pub temperature_event :
    PhysicalDrive → Severity → String → TempState → TempState → DetectedEvent
temperature_event drive severity summary before_state after_state = record {
  severity = severity;
  category = "temperature";
  subject = physical_drive_subject drive;
  summary = summary;
  before = some (
      ("state", Json.text (state_text before_state))
      ∷ ("temperature_celsius", optional_num drive.temperature_celsius)
      ∷ []);
  after = some (
      ("state", Json.text (state_text after_state))
      ∷ ("temperature_celsius", optional_num drive.temperature_celsius)
      ∷ []);
}

-- What one pass of the loop does: the severity and summary of its event, and the next state.
pub record Transition : Type 0 where
  pub severity : Severity
  pub label : String
  pub next_state : TempState

abbrev move : Severity → String → TempState → Option Transition
move severity label next_state =
    some (record { severity = severity; label = label; next_state = next_state })

-- One pass of `while True`; `none` is the final `return`.
unfoldable pub transition : Thresholds → ℤ → TempState → Option Transition
transition c t ok =
    if leb_ℤ c.temp_warning t
    then move Severity.warning "Temperature reached warning threshold: " warning
    else none
transition c t warning =
    if leb_ℤ c.temp_critical t
    then move Severity.critical "Temperature reached critical threshold: " critical
    else if ltb_ℤ t (c.temp_warning -ℤ c.temp_hysteresis)
    then move Severity.info "Temperature back to normal: " ok
    else none
transition c t critical =
    if ltb_ℤ t (c.temp_critical -ℤ c.temp_hysteresis)
    then move Severity.info "Temperature back below critical: " warning
    else none

-- The loop, on fuel; `none` when the fuel ran out.
unfoldable pub transitions_on :
    ℕ
    → Thresholds
    → PhysicalDrive
    → ℤ
    → List DetectedEvent
    → TempState
    → Option (List DetectedEvent × TempState)
transitions_on zero c drive t events state = none
transitions_on (suc fuel) c drive t events state = elim (transition c t state) [
  | none ↦ some (events, state)
  | some m ↦
      transitions_on fuel c drive t
        (events
          ++ temperature_event drive m.severity (cat m.label (cat (decimal_ℤ t) " C")) state
              m.next_state
            ∷ [])
        m.next_state
]

-- Two moves and the final pass.
abbrev pub passes : ℕ
passes = 3

abbrev pub transitions_at :
    Thresholds → PhysicalDrive → TempState → Option ℤ → Option (List DetectedEvent × TempState)
transitions_at c drive initial_state none = some ([], initial_state)
transitions_at c drive initial_state (some t) = transitions_on passes c drive t [] initial_state

unfoldable pub temperature_transitions :
    Thresholds → PhysicalDrive → TempState → Option (List DetectedEvent × TempState)
temperature_transitions c drive initial_state =
    transitions_at c drive initial_state drive.temperature_celsius

unfoldable pub temperature_state_from_reading : Thresholds → Option ℤ → TempState
temperature_state_from_reading c none = ok
temperature_state_from_reading c (some t) =
    if leb_ℤ c.temp_critical t then critical else if leb_ℤ c.temp_warning t then warning else ok
