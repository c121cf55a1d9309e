-- ===== src/Services/Events.antt =====
-- `DetectedEvent` of src/megaraid_dashboard/services/event_detector.py, and the severities of states.
use megaraid_dashboard.Prelude.{String, Bool, Option, List, [], ◌∷◌, if◌then◌else◌, str_mem, str_eq}
use megaraid_dashboard.Prelude.Int.{ℤ}
use megaraid_dashboard.Storcli.States.{normalized_state}

pub data Severity : Type 0 where
  info warning critical : Severity

-- The values that events carry.
pub data Json : Type 0 where
  null : Json
  bool : Bool → Json
  num : ℤ → Json
  text : String → Json

abbrev pub Fields : Type 0
Fields = List (String × Json)

pub record DetectedEvent : Type 0 where
  pub severity : Severity
  pub category : String
  pub subject : String
  pub summary : String
  pub before : Option Fields
  pub after : Option Fields

abbrev vd_info_states : List String
vd_info_states = "optl" ∷ "optimal" ∷ []

abbrev vd_critical_states : List String
vd_critical_states =
    "degraded" ∷ "dgrd" ∷ "partially degraded" ∷ "pdgd" ∷ "failed" ∷ "offline" ∷ "offln" ∷ "ofln"
    ∷ []

unfoldable pub virtual_drive_state_severity : String → Severity
virtual_drive_state_severity state =
    if str_mem (normalized_state state) vd_info_states
    then info
    else if str_mem (normalized_state state) vd_critical_states
    then critical
    else warning

unfoldable pub physical_drive_state_severity : String → Severity
physical_drive_state_severity current_state =
    if str_mem (normalized_state current_state) ("failed" ∷ "missing" ∷ "offline" ∷ "ubad" ∷ [])
    then critical
    else if str_mem (normalized_state current_state) ("jbod" ∷ "ugood" ∷ [])
    then warning
    else info

unfoldable pub cachevault_state_severity : String → Severity
cachevault_state_severity state =
    if str_eq (normalized_state state) "optimal" then info else critical
