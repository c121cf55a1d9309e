-- ===== src/Services/EventDetector/Temperature/Hysteresis.antt =====
-- The temperature loop ends, and where it ends.
use megaraid_dashboard.Prelude.{
  ◌≤◌, ◌≡◌, refl, Option, none, some, List, [], arith, length, if◌then◌else◌,
}
use megaraid_dashboard.Prelude.Int.{ℤ, ltb_ℤ, leb_ℤ, ◌-ℤ◌, -ℤ_parts}
use megaraid_dashboard.Storcli.Models.{PhysicalDrive}
use megaraid_dashboard.Services.Events.{DetectedEvent}
use megaraid_dashboard.Services.EventDetector.Thresholds.{Thresholds, IsConfigured}
use megaraid_dashboard.Services.EventDetector.Temperature.{
  TempState, ok, warning, critical, transition, transitions_on, transitions_at, passes,
  temperature_transitions,
}

-- Where a drive in a state belongs at a temperature: a state is entered at its threshold, and left
-- only below the threshold less the hysteresis.
unfoldable pub settled : Thresholds → ℤ → TempState → TempState
settled c t ok =
    if leb_ℤ c.temp_critical t then critical else if leb_ℤ c.temp_warning t then warning else ok
settled c t warning =
    if leb_ℤ c.temp_critical t
    then critical
    else if ltb_ℤ t (c.temp_warning -ℤ c.temp_hysteresis)
    then ok
    else warning
settled c t critical =
    if ltb_ℤ t (c.temp_critical -ℤ c.temp_hysteresis)
    then if ltb_ℤ t (c.temp_warning -ℤ c.temp_hysteresis) then ok else warning
    else critical

abbrev pub end_state : Option (List DetectedEvent × TempState) → Option TempState
end_state none = none
end_state (some (events, s)) = some s

abbrev pub events_of : Option (List DetectedEvent × TempState) → List DetectedEvent
events_of none = []
events_of (some (events, s)) = events

module _ (c : Thresholds) (v : IsConfigured c) (drive : PhysicalDrive) (t : ℤ) where
  pub transitions_settle :
      (s : TempState)
      → (end_state (transitions_on passes c drive t [] s) ≡ some (settled c t s))
        × (length (events_of (transitions_on passes c drive t [] s)) ≤ 2)
  unfolding transitions_on transition settled
  transitions_settle s =
      ground (
        arith,
        -ℤ_parts c.temp_warning c.temp_hysteresis,
        -ℤ_parts c.temp_critical c.temp_hysteresis,
      )

  transition-settled : (s : TempState) → transition c t (settled c t s) ≡ none
  unfolding transition settled
  transition-settled s =
      ground (
        arith,
        -ℤ_parts c.temp_warning c.temp_hysteresis,
        -ℤ_parts c.temp_critical c.temp_hysteresis,
      )

unfoldable pub settled_or : Thresholds → Option ℤ → TempState → TempState
settled_or c none s = s
settled_or c (some t) s = settled c t s

some_pair :
    (o : Option (List DetectedEvent × TempState)) (s : TempState)
    → end_state o ≡ some s
    → o ≡ some (events_of o, s)
some_pair none s h = cc
some_pair (some (events, s')) s h = cc

-- With checked thresholds the loop ends within its passes, from every state and at every reading: in
-- the state that the hysteresis rule gives (the old state where there is no reading), with at most
-- two events.
pub temperature_transitions-settled :
    (c : Thresholds)
    → IsConfigured c
    → (drive : PhysicalDrive) (s : TempState)
    → (events : List DetectedEvent) × (temperature_transitions c drive s
        ≡ some (events, settled_or c drive.temperature_celsius s))
      × (length events ≤ 2)
unfolding temperature_transitions settled_or
temperature_transitions-settled c v drive s = at drive.temperature_celsius
  where
    at :
        (r : Option ℤ)
        → (events : List DetectedEvent) × (transitions_at c drive s r
            ≡ some (events, settled_or c r s))
          × (length events ≤ 2)
    at none = ([], refl, omega arith)
    at (some t) =
        let (e, few) = transitions_settle c v drive t s in
        (events_of (transitions_on passes c drive t [] s), some_pair _ _ e, few)

settle_quiet :
    (c : Thresholds) (drive : PhysicalDrive) (t : ℤ) (s : TempState)
    → transition c t s ≡ none
    → transitions_on passes c drive t [] s ≡ some ([], s)
unfolding transitions_on
settle_quiet c drive t s h = rw (h, transitions_on)

-- With checked thresholds a second cycle at the same reading reports nothing and stays in its state.
pub temperature_transitions-quiet :
    (c : Thresholds)
    → IsConfigured c
    → (drive : PhysicalDrive) (s : TempState)
    → let s' = settled_or c drive.temperature_celsius s in
      temperature_transitions c drive s' ≡ some ([], s')
unfolding temperature_transitions settled_or
temperature_transitions-quiet c v drive s = at drive.temperature_celsius
  where
    at : (r : Option ℤ) → transitions_at c drive (settled_or c r s) r ≡ some ([], settled_or c r s)
    at none = refl
    at (some t) = settle_quiet c drive t (settled c t s) (transition-settled c v drive t s)
