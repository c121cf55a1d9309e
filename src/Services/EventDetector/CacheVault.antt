-- ===== src/Services/EventDetector/CacheVault.antt =====
-- `_detect_cachevault` and `_new_cachevault_events`.
use Prim.Native.String.{◌++◌ as cat}
use megaraid_dashboard.Prelude.{
  ℕ, String, Bool, true, false, not, ◌&&◌, Option, none, some, List, [], ◌∷◌, ◌++◌, ltb, leb,
  str_eq, if◌then◌else◌,
}
use megaraid_dashboard.Prelude.Int.{pos}
use megaraid_dashboard.Prelude.Text.{decimal}
use megaraid_dashboard.Storcli.States.{normalized_state}
use megaraid_dashboard.Storcli.Models.{CacheVault}
use megaraid_dashboard.Services.Events.{
  Severity, info, warning, critical, Json, Fields, DetectedEvent, cachevault_state_severity,
}

unfoldable pub cv_event : Severity → String → Option Fields → Fields → DetectedEvent
cv_event severity summary before after = record {
  severity = severity;
  category = "cv_state";
  subject = "CacheVault";
  summary = summary;
  before = before;
  after = some after;
}

unfoldable pub cv_missing_event : Option Fields → String → DetectedEvent
cv_missing_event before summary =
    cv_event critical summary before (("present", Json.bool false) ∷ [])

unfoldable pub new_cv_state : Severity → CacheVault → List DetectedEvent
new_cv_state info cv = []
new_cv_state severity cv =
    cv_event severity (cat "CacheVault state is " cv.state) none
      (("state", Json.text cv.state) ∷ [])
    ∷ []

abbrev replacement_event : Option Fields → CacheVault → DetectedEvent
replacement_event before cv =
    cv_event critical "CacheVault replacement required" before
      (("replacement_required", Json.bool cv.replacement_required) ∷ [])

unfoldable pub new_cv_capacitance : ℕ → Option ℕ → List DetectedEvent
new_cv_capacitance warning_percent none = []
new_cv_capacitance warning_percent (some n) =
    if ltb n warning_percent
    then cv_event warning
        (cat "CacheVault capacitance below "
          (cat (decimal warning_percent) (cat "%: " (cat (decimal n) "%"))))
        none (("capacitance_percent", Json.num (pos n)) ∷ [])
      ∷ []
    else []

unfoldable pub new_cachevault_events : ℕ → CacheVault → List DetectedEvent
new_cachevault_events warning_percent cv =
    new_cv_state (cachevault_state_severity cv.state) cv
    ++ ((if cv.replacement_required then replacement_event none cv ∷ [] else [])
        ++ new_cv_capacitance warning_percent cv.capacitance_percent)

abbrev above : ℕ → Option ℕ → Bool
above warning_percent none = true
above warning_percent (some n) = leb warning_percent n

abbrev percent_text : Option ℕ → String
percent_text none = "unknown"
percent_text (some n) = cat (decimal n) "%"

abbrev optional_percent : Option ℕ → Json
optional_percent none = Json.null
optional_percent (some n) = Json.num (pos n)

unfoldable pub capacitance_drop : ℕ → Option ℕ → Option ℕ → List DetectedEvent
capacitance_drop warning_percent previous none = []
capacitance_drop warning_percent previous (some n) =
    if ltb n warning_percent && above warning_percent previous
    then cv_event warning
        (cat "CacheVault capacitance dropped below " (
          cat (decimal warning_percent)
            (cat "%: " (cat (percent_text previous) (cat " -> " (cat (decimal n) "%"))))))
        (some (("capacitance_percent", optional_percent previous) ∷ []))
        (("capacitance_percent", Json.num (pos n)) ∷ [])
      ∷ []
    else []

unfoldable pub cv_changes : ℕ → CacheVault → CacheVault → List DetectedEvent
cv_changes warning_percent p cv =
    (if str_eq (normalized_state p.state) (normalized_state cv.state)
      then []
      else cv_event (cachevault_state_severity cv.state)
          (cat "CacheVault state changed from " (cat p.state (cat " to " cv.state)))
          (some (("state", Json.text p.state) ∷ [])) (("state", Json.text cv.state) ∷ [])
        ∷ [])
    ++ ((if cv.replacement_required && not p.replacement_required
          then replacement_event
              (some (("replacement_required", Json.bool p.replacement_required) ∷ [])) cv
            ∷ []
          else [])
        ++ capacitance_drop warning_percent p.capacitance_percent cv.capacitance_percent)

abbrev lost_before : Option CacheVault → Fields
lost_before none = ("present", Json.bool true) ∷ []
lost_before (some p) = ("present", Json.bool true) ∷ ("state", Json.text p.state) ∷ []

abbrev known : Bool → Option CacheVault → Bool
known cv_present none = cv_present
known cv_present (some _) = true

-- The arguments: the old flag and CacheVault, then the new ones.
unfoldable pub detect_cachevault :
    ℕ → Bool → Option CacheVault → Bool → Option CacheVault → List DetectedEvent
detect_cachevault warning_percent previous_present previous true none = []
detect_cachevault warning_percent previous_present previous false none =
    if known previous_present previous
    then cv_missing_event (some (lost_before previous)) "CacheVault no longer detected" ∷ []
    else []
detect_cachevault warning_percent previous_present none current_present (some cv) =
    (if previous_present
      then []
      else cv_event info "CacheVault detected" (some (("present", Json.bool false) ∷ []))
          (("present", Json.bool true) ∷ ("state", Json.text cv.state) ∷ [])
        ∷ [])
    ++ new_cachevault_events warning_percent cv
detect_cachevault warning_percent previous_present (some p) current_present (some cv) =
    cv_changes warning_percent p cv
