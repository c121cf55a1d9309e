-- ===== src/Services/Health.antt =====
-- src/megaraid_dashboard/services/drive_health.py and controller_health.py.
pub mod Agreement
use Prim.Native.String.{◌++◌ as cat}
use megaraid_dashboard.Prelude.{
  ℕ, String, Bool, true, false, not, ◌&&◌, Option, none, some, List, [], ◌∷◌, ◌++◌, ltb, ◌==◌,
  str_eq, str_mem, lookup_text, if◌then◌else◌,
}
use megaraid_dashboard.Prelude.Int.{ℤ, leb_ℤ}
use megaraid_dashboard.Prelude.Text.{decimal}
use megaraid_dashboard.Storcli.States.{normalized_state}
use megaraid_dashboard.Storcli.Models.{PhysicalDrive, CacheVault, ControllerSnapshot}

pub data HealthSeverity : Type 0 where
  optimal warning critical : HealthSeverity

pub record DriveHealthAssessment : Type 0 where
  pub severity : HealthSeverity
  pub label : String
  pub reasons : List String

-- The temperature grade that the views supply.
pub data Grade : Type 0 where
  unknown ok warning critical : Grade

abbrev pub state_faults : List (String × String)
state_faults =
    ("failed", "Controller reports drive failure.")
    ∷ ("offline", "Drive is offline.")
    ∷ ("missing", "No drive detected.")
    ∷ ("ubad", "Controller marks drive unusable (UBad).")
    ∷ []

abbrev pub reason_if : Bool → String → List String
reason_if test reason = if test then reason ∷ [] else []

unfoldable pub count_text : ℕ → String → String
count_text value description =
    cat (decimal value) (cat " " (cat description (if value == 1 then "." else "s.")))

-- The chain on the state, on the results of its tests: the critical and the warning reasons.
abbrev pub fault_reasons : String → Option String → Bool → Bool → Bool → List String × List String
fault_reasons raw (some fault) rebuilding jbod known_good = (fault ∷ [], [])
fault_reasons raw none true jbod known_good = ([], "Rebuild in progress." ∷ [])
fault_reasons raw none false true known_good = ([], "JBOD drive; not a RAID member." ∷ [])
fault_reasons raw none false false true = ([], [])
fault_reasons raw none false false false = ([], cat "Unrecognized drive state: " (cat raw ".") ∷ [])

abbrev pub reasons_of_state : String → String → List String × List String
reasons_of_state raw state =
    fault_reasons raw (lookup_text state state_faults)
      (str_mem state ("rbld" ∷ "rebld" ∷ "rebuild" ∷ "rebuilding" ∷ [])) (str_eq state "jbod")
      (str_mem state ("onln" ∷ "online" ∷ "ugood" ∷ "dhs" ∷ "ghs" ∷ []))

unfoldable pub state_reasons : PhysicalDrive → List String × List String
state_reasons d = reasons_of_state d.state (normalized_state d.state)

abbrev pub is_hot : Grade → Bool
is_hot Grade.critical = true
is_hot _ = false

abbrev pub is_elevated : Grade → Bool
is_elevated Grade.warning = true
is_elevated _ = false

unfoldable pub critical_reasons : PhysicalDrive → Grade → List String
critical_reasons d temperature =
    (state_reasons d).0
    ++ (reason_if d.smart_alert "S.M.A.R.T. alert is active."
        ++ (reason_if (ltb 0 d.predictive_failures)
              (count_text d.predictive_failures "predictive failure")
            ++ reason_if (is_hot temperature) "Drive temperature is critical."))

unfoldable pub warning_reasons : PhysicalDrive → Grade → List String
warning_reasons d temperature =
    (state_reasons d).1
    ++ (reason_if (is_elevated temperature) "Drive temperature is elevated."
        ++ (reason_if (ltb 0 d.media_errors) (count_text d.media_errors "historical media error")
            ++ reason_if (ltb 0 d.other_errors) (count_text d.other_errors "other error")))

abbrev label_of : String → String
label_of state =
    if str_eq state "ugood"
    then "Ready"
    else if str_mem state ("dhs" ∷ "ghs" ∷ [])
    then "Hot spare"
    else "Healthy"

abbrev pub assess_reasons : String → List String → List String → DriveHealthAssessment
assess_reasons state [] [] = record {
  severity = HealthSeverity.optimal;
  label = label_of state;
  reasons = [];
}
assess_reasons state [] (w ∷ ws) = record {
  severity = HealthSeverity.warning;
  label = "Attention";
  reasons = w ∷ ws;
}
assess_reasons state (c ∷ cs) ws = record {
  severity = HealthSeverity.critical;
  label = "Critical";
  reasons = (c ∷ cs) ++ ws;
}

unfoldable pub assess_drive_health : PhysicalDrive → Grade → DriveHealthAssessment
assess_drive_health d temperature =
    assess_reasons (normalized_state d.state) (critical_reasons d temperature)
      (warning_reasons d temperature)

-- The configured thresholds; the callers may supply none.
pub record HealthSettings : Type 0 where
  pub cv_capacitance_warning_percent : ℕ
  pub roc_temp_warning_celsius : ℤ
  pub roc_temp_critical_celsius : ℤ

pub record ControllerComponentHealth : Type 0 where
  pub severity : HealthSeverity
  pub reasons : List String

abbrev low_capacitance : Option HealthSettings → Option ℕ → Bool
low_capacitance none _ = false
low_capacitance (some s) none = false
low_capacitance (some s) (some n) = ltb n s.cv_capacitance_warning_percent

unfoldable pub cv_reasons :
    Option HealthSettings → Bool → Option CacheVault → List String × List String
cv_reasons settings cv_present none =
    if cv_present
    then ([], "CacheVault status is unverified." ∷ [])
    else ("CacheVault is not detected." ∷ [], [])
cv_reasons settings cv_present (some cv) = (
  reason_if (not (str_eq (normalized_state cv.state) "optimal"))
        (cat "CacheVault reports " (cat cv.state "."))
      ++ reason_if cv.replacement_required "CacheVault replacement is required.",
  reason_if (not cv_present) "CacheVault presence evidence conflicts."
      ++ reason_if (low_capacitance settings cv.capacitance_percent)
          "CacheVault capacitance is below the warning threshold.",
)

unfoldable pub roc_reasons : Option HealthSettings → Option ℤ → List String × List String
roc_reasons none _ = ([], [])
roc_reasons (some s) none = ([], [])
roc_reasons (some s) (some t) =
    if leb_ℤ s.roc_temp_critical_celsius t
    then ("Controller temperature is critical." ∷ [], [])
    else ([], reason_if (leb_ℤ s.roc_temp_warning_celsius t) "Controller temperature is elevated.")

abbrev pub severity_of : List String → List String → HealthSeverity
severity_of (c ∷ cs) ws = HealthSeverity.critical
severity_of [] (w ∷ ws) = HealthSeverity.warning
severity_of [] [] = HealthSeverity.optimal

abbrev pub join_reasons :
    List String × List String → List String × List String → ControllerComponentHealth
join_reasons (c, w) (c', w') = record {
  severity = severity_of (c ++ c') (w ++ w');
  reasons = (c ++ c') ++ (w ++ w');
}

unfoldable pub assess_controller_components :
    Option HealthSettings → ControllerSnapshot → ControllerComponentHealth
assess_controller_components settings s =
    join_reasons (cv_reasons settings s.cv_present s.cachevault)
      (roc_reasons settings s.roc_temperature_celsius)
