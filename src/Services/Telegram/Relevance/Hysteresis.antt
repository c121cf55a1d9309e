-- ===== src/Services/Telegram/Relevance/Hysteresis.antt =====
-- The relevance of a temperature alert against the hysteresis of the event detector.
use megaraid_dashboard.Prelude.{◌≡◌, ◌≢◌, refl, Bool, true, false, some, arith}
use megaraid_dashboard.Prelude.Int.{ℤ}
use megaraid_dashboard.Services.Events.{Severity}
use megaraid_dashboard.Services.EventDetector.Thresholds.{Thresholds}
use megaraid_dashboard.Services.EventDetector.Temperature.{TempState, ok, warning, critical}
use megaraid_dashboard.Services.EventDetector.Temperature.Hysteresis.{settled}
use megaraid_dashboard.Services.Telegram.Relevance.{active_if, temperature_relevance}

-- The severity of the event that enters a state.
abbrev pub entry_severity : TempState → Severity
entry_severity ok = Severity.info
entry_severity warning = Severity.warning
entry_severity critical = Severity.critical

abbrev pub same_temp_state : TempState → TempState → Bool
same_temp_state ok ok = true
same_temp_state warning warning = true
same_temp_state critical critical = true
same_temp_state _ _ = false

-- At every temperature and with any thresholds, the alert that a drive entered the warning or the
-- critical state is active when the detector's hysteresis rule leaves the drive in that state, and
-- obsolete otherwise.
pub temperature_relevance-settled :
    (c : Thresholds) (t : ℤ) (s : TempState)
    → s ≢ ok
    → temperature_relevance
        (some t)
        (entry_severity s)
        c.temp_warning
        c.temp_critical
        c.temp_hysteresis
        false
      ≡ active_if (same_temp_state (settled c t s) s)
unfolding temperature_relevance settled
temperature_relevance-settled c t ok h = absurd (h refl)
temperature_relevance-settled c t warning h = ground arith
temperature_relevance-settled c t critical h = ground arith
