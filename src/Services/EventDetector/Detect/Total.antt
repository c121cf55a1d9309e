-- ===== src/Services/EventDetector/Detect/Total.antt =====
-- A cycle of the detector ends.
use megaraid_dashboard.Prelude.{◌≡◌, refl, Option, none, some, List, [], ◌∷◌}
use megaraid_dashboard.Prelude.Int.{ℤ}
use megaraid_dashboard.Storcli.Models.{PhysicalDrive, StorcliSnapshot, ControllerSnapshot, SlotKey}
use megaraid_dashboard.Services.Events.{DetectedEvent}
use megaraid_dashboard.Services.EventDetector.Thresholds.{IsConfigured}
use megaraid_dashboard.Services.EventDetector.Temperature.Hysteresis.{
  temperature_transitions-settled,
}
use megaraid_dashboard.Services.EventDetector.Detect.{
  EventDetector, TempRun, initial_state, with_reading, detect_temperatures, finish, compared,
  previous_drives, detect,
}

abbrev pub Returns {ℓ} : {A : Type ℓ} → Option A → Type ℓ
Returns {A} o = (a : A) × (o ≡ some a)

module _ (s : EventDetector) (v : IsConfigured s.thresholds) (previous : List PhysicalDrive)
    (slots : List SlotKey) where
  reading-Returns :
      (d : PhysicalDrive) (r : Option ℤ) (run : TempRun)
      → Returns (with_reading s previous slots d r run)
  reading-Returns d none run = (run, refl)
  reading-Returns d (some t) run =
      let (events, e, few) =
        temperature_transitions-settled s.thresholds v d (initial_state s previous slots d) in
      rw e (_, refl)

  pub temperatures-Return :
      (ds : List PhysicalDrive) (run : TempRun)
      → Returns (detect_temperatures s previous slots ds run)
  unfolding detect_temperatures
  temperatures-Return [] run = (run, refl)
  temperatures-Return (d ∷ ds) run =
      let (run', e) = reading-Returns d d.temperature_celsius run in
      rw (e, detect_temperatures) (temperatures-Return ds run')

finish-Returns :
    (s : EventDetector) (current : StorcliSnapshot) (before : List DetectedEvent)
    (clears : List SlotKey) (o : Option TempRun)
    → Returns o
    → Returns (finish s current before clears o)
finish-Returns s current before clears o (run, e) = rw e (_, refl)

-- With checked thresholds a cycle of the detector returns its events and its new state, for every
-- pair of snapshots: no temperature loop runs on.
pub detect_total :
    (previous : Option ControllerSnapshot) (current : StorcliSnapshot) (s : EventDetector)
    → IsConfigured s.thresholds
    → (r : List DetectedEvent × EventDetector) × (detect previous current s ≡ some r)
unfolding detect
detect_total previous current s v = finish-Returns s current _ _ _ (
    temperatures-Return s v (previous_drives previous) (compared s.thresholds previous current).1
      current.physical_drives ([], []))
