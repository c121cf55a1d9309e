-- ===== src/Services/EventDetector/Temperature/Alarms.antt =====
-- How often a drive raises the critical temperature alarm over a run of readings.
use megaraid_dashboard.Prelude.{ℕ, ◌+◌, ◌≤◌, List, [], ◌∷◌, arith, if◌then◌else◌}
use megaraid_dashboard.Prelude.Int.{ℤ, ltb_ℤ, ◌-ℤ◌, -ℤ_parts}
use megaraid_dashboard.Storcli.Models.{PhysicalDrive}
use megaraid_dashboard.Services.Events.{Severity, DetectedEvent}
use megaraid_dashboard.Services.EventDetector.Thresholds.{Thresholds, IsConfigured}
use megaraid_dashboard.Services.EventDetector.Temperature.{
  TempState, ok, warning, critical, transition, transitions_on, passes, temperature_event,
}
use megaraid_dashboard.Services.EventDetector.Temperature.Hysteresis.{events_of, settled}

abbrev is_critical : Severity → ℕ
is_critical Severity.critical = 1
is_critical Severity.warning = 0
is_critical Severity.info = 0

abbrev criticals : List DetectedEvent → ℕ
criticals [] = 0
criticals (e ∷ es) = is_critical e.severity + criticals es

abbrev pub raised : TempState → ℕ
raised critical = 1
raised warning = 0
raised ok = 0

-- Readings strictly below the critical threshold less the hysteresis.
abbrev pub clears : Thresholds → List ℤ → ℕ
clears c [] = 0
clears c (t ∷ ts) = (if ltb_ℤ t (c.temp_critical -ℤ c.temp_hysteresis) then 1 else 0) + clears c ts

-- The critical events of the cycles of one drive, each from the state that the last one left.
unfoldable pub alarms : Thresholds → PhysicalDrive → TempState → List ℤ → ℕ
alarms c drive s [] = 0
alarms c drive s (t ∷ ts) =
    criticals (events_of (transitions_on passes c drive t [] s)) + alarms c drive (settled c t s) ts

alarm_step :
    (c : Thresholds) (drive : PhysicalDrive) (t : ℤ) (s : TempState)
    → IsConfigured c
    → criticals (events_of (transitions_on passes c drive t [] s)) + raised s
      ≤ (if ltb_ℤ t (c.temp_critical -ℤ c.temp_hysteresis) then 1 else 0) + raised (settled c t s)
unfolding transitions_on transition settled temperature_event
alarm_step c drive t s v =
    ground
      (arith, -ℤ_parts c.temp_warning c.temp_hysteresis, -ℤ_parts c.temp_critical c.temp_hysteresis)

raised-le : (s : TempState) → raised s ≤ 1
raised-le ok = omega arith
raised-le warning = omega arith
raised-le critical = omega arith

-- With checked thresholds, however the readings move, a drive raises the critical alarm at most once
-- more than the number of readings that fell below the critical threshold less the hysteresis.
pub alarms-le-clears :
    (c : Thresholds)
    → IsConfigured c
    → (drive : PhysicalDrive) (s : TempState) (ts : List ℤ)
    → alarms c drive s ts + raised s ≤ clears c ts + 1
unfolding alarms
alarms-le-clears c v drive s [] = omega (arith, raised-le s)
alarms-le-clears c v drive s (t ∷ ts) =
    omega (arith, alarm_step c drive t s v, alarms-le-clears c v drive (settled c t s) ts)
