-- ===== src/Services/EventDetector/Roc.antt =====
-- `_detect_roc_temperature`: the controller's temperature, from two adjacent samples.
pub mod Missed
use Prim.Native.String.{◌++◌ as cat}
use megaraid_dashboard.Prelude.{
  String, Bool, ◌&&◌, Option, none, some, List, [], ◌∷◌, ◌++◌, if◌then◌else◌,
}
use megaraid_dashboard.Prelude.Int.{ℤ, ltb_ℤ, leb_ℤ, ◌-ℤ◌}
use megaraid_dashboard.Prelude.Text.{decimal_ℤ}
use megaraid_dashboard.Services.Events.{Severity, Json, DetectedEvent}
use megaraid_dashboard.Services.EventDetector.Thresholds.{Thresholds}
use megaraid_dashboard.Services.EventDetector.Temperature.{optional_num}

unfoldable pub roc_temperature_event : Severity → String → Option ℤ → ℤ → DetectedEvent
roc_temperature_event severity summary previous_temperature current_temperature = record {
  severity = severity;
  category = "controller_temperature";
  subject = "Controller";
  summary = summary;
  before = some (("roc_temperature_celsius", optional_num previous_temperature) ∷ []);
  after = some (("roc_temperature_celsius", Json.num current_temperature) ∷ []);
}

-- `if test: events.append(event)`.
abbrev pub event_if : Bool → DetectedEvent → List DetectedEvent
event_if test event = if test then event ∷ [] else []

abbrev summary_of : ℤ → String → ℤ → String → String
summary_of t middle threshold tail =
    cat "RoC temperature "
      (cat (decimal_ℤ t) (cat middle (cat " (" (cat (decimal_ℤ threshold) tail))))

-- The branch for a sample that follows an unavailable one, then the branch for two samples.
unfoldable pub roc_first : Thresholds → ℤ → List DetectedEvent
roc_first c t =
    event_if (leb_ℤ c.roc_temp_warning t) (
      roc_temperature_event Severity.warning
        (summary_of t " C reached warning threshold" c.roc_temp_warning
          " C) after unavailable sample")
        none t)
    ++ event_if (leb_ℤ c.roc_temp_critical t) (
        roc_temperature_event Severity.critical
          (summary_of t " C reached critical threshold" c.roc_temp_critical
            " C) after unavailable sample")
          none t)

unfoldable pub roc_next : Thresholds → ℤ → ℤ → List DetectedEvent
roc_next c p t =
    event_if (ltb_ℤ p c.roc_temp_warning && leb_ℤ c.roc_temp_warning t) (
      roc_temperature_event Severity.warning
        (summary_of t " C crossed warning threshold" c.roc_temp_warning " C)") (some p) t)
    ++ (event_if (ltb_ℤ p c.roc_temp_critical && leb_ℤ c.roc_temp_critical t) (
          roc_temperature_event Severity.critical
            (summary_of t " C crossed critical threshold" c.roc_temp_critical " C)") (some p) t)
        ++ (event_if
              (leb_ℤ c.roc_temp_critical p
                && leb_ℤ t (c.roc_temp_critical -ℤ c.roc_temp_hysteresis))
              (roc_temperature_event Severity.info
                (cat "RoC temperature " (cat (decimal_ℤ t) " C cleared critical threshold"))
                (some p) t)
            ++ event_if
                (leb_ℤ c.roc_temp_warning p
                  && leb_ℤ t (c.roc_temp_warning -ℤ c.roc_temp_hysteresis))
                (roc_temperature_event Severity.info
                  (cat "RoC temperature " (cat (decimal_ℤ t) " C cleared warning threshold"))
                  (some p) t)))

unfoldable pub detect_roc_temperature : Thresholds → Option ℤ → Option ℤ → List DetectedEvent
detect_roc_temperature c previous none = []
detect_roc_temperature c none (some t) = roc_first c t
detect_roc_temperature c (some p) (some t) = roc_next c p t
