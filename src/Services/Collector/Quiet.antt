-- ===== src/Services/Collector/Quiet.antt =====
-- A collector that sees the snapshot it has just stored.
use megaraid_dashboard.Prelude.{
  ◌≡◌, refl, ◌∙◌, Bool, true, Option, none, some, List, [], ◌∷◌, arith, any_of, All, All-imp,
}
use megaraid_dashboard.Prelude.Int.{ℤ}
use megaraid_dashboard.Storcli.Models.{
  PhysicalDrive, StorcliSnapshot, ControllerSnapshot, ForeignConfig, DriveKey, drive_key,
  drive_key_eq, insert_snapshot,
}
use megaraid_dashboard.Services.Events.{DetectedEvent}
use megaraid_dashboard.Services.EventDetector.Thresholds.{IsConfigured}
use megaraid_dashboard.Services.EventDetector.Temperature.{TempState}
use megaraid_dashboard.Services.EventDetector.VirtualDrives.Quiet.{HasDistinctIds}
use megaraid_dashboard.Services.EventDetector.PhysicalDrives.Quiet.{HasDistinctSlots}
use megaraid_dashboard.Services.EventDetector.ForeignConfig.{detect_foreign_config}
use megaraid_dashboard.Services.EventDetector.Detect.{
  EventDetector, set_temperature_states, detect, compared, previous_drives,
}
use megaraid_dashboard.Services.EventDetector.Detect.Quiet.{
  SettledAt, IsSettled, IsKnown, events_of, detect_quiet,
}
use megaraid_dashboard.Services.Collector.{
  Collector, TempTable, load_temperature_states, upsert_temp_states, clear_temp_states, stored,
  run_once,
}
use megaraid_dashboard.Services.Collector.Settles.{
  UpdatedAt, IsUpdated, Looped, temperatures-Looped, drive_key_eq_iff,
}

abbrev IsLoaded : List PhysicalDrive → PhysicalDrive → Type 0
IsLoaded ds d = any_of (λ (x : PhysicalDrive). drive_key_eq (drive_key x) (drive_key d)) ds ≡ true

All-IsLoaded : (ds : List PhysicalDrive) → All (IsLoaded ds) ds
All-IsLoaded [] = tt
All-IsLoaded (d ∷ ds) = (
  rw ((drive_key_eq_iff (drive_key d) (drive_key d)).1 refl) refl,
  All-imp (IsLoaded ds) (IsLoaded (d ∷ ds)) (λ x h. ground (arith, h)) ds (All-IsLoaded ds),
)

-- The events of a cycle of the collector.
abbrev pub reported : Option (List DetectedEvent × Collector) → Option (List DetectedEvent)
reported none = none
reported (some (events, s)) = some events

reported-stored :
    (snapshot : StorcliSnapshot) (s : Collector) (o : Option (List DetectedEvent × EventDetector))
    → reported (stored snapshot s o) ≡ events_of o
reported-stored snapshot s none = refl
reported-stored snapshot s (some (events, detector)) = refl

module _ (s s' : EventDetector) (same : s'.thresholds ≡ s.thresholds)
    (updates : List (DriveKey × TempState)) (table : TempTable) (all : List PhysicalDrive) where
  abbrev next : EventDetector
  next = set_temperature_states (load_temperature_states (upsert_temp_states updates table) all) s'

  reading-SettledAt :
      (d : PhysicalDrive) (r : Option ℤ)
      → UpdatedAt s updates d r
      → IsLoaded all d
      → SettledAt next d r
  unfolding set_temperature_states load_temperature_states upsert_temp_states
  reading-SettledAt d none u l = tt
  reading-SettledAt d (some t) (before, known) l = (before, rw (l, known, same) refl)

  drives-IsSettled :
      (ds : List PhysicalDrive)
      → All (IsUpdated s updates) ds
      → All (IsLoaded all) ds
      → All (IsSettled next) ds
  drives-IsSettled [] u l = tt
  drives-IsSettled (d ∷ ds) u l =
      (reading-SettledAt d d.temperature_celsius u.0 l.0, drives-IsSettled ds u.1 l.1)

foreign-IsKnown :
    (s : EventDetector) (p : Option Bool) (f : Option ForeignConfig)
    → s.previous_foreign_config_present ≡ (detect_foreign_config p f).1
    → IsKnown s f
unfolding detect_foreign_config
foreign-IsKnown s p none h = tt
foreign-IsKnown s p (some f) h = h

-- The detector that a cycle leaves with these updates.
abbrev after :
    EventDetector
    → Option ControllerSnapshot
    → StorcliSnapshot
    → List (DriveKey × TempState)
    → EventDetector
after s latest now updates = record s {
  temperature_updates = updates;
  temperature_clears = (compared s.thresholds latest now).2;
  previous_foreign_config_present =
      (detect_foreign_config s.previous_foreign_config_present now.foreign_config).1;
}

detect-after :
    (s : EventDetector) (v : IsConfigured s.thresholds) (latest : Option ControllerSnapshot)
    (now : StorcliSnapshot)
    (loop : Looped s v
      (previous_drives latest)
      (compared s.thresholds latest now).1
      now.physical_drives
      ([], []))
    → (events : List DetectedEvent) × (detect latest now s
        ≡ some (events, after s latest now loop.updates))
unfolding detect
detect-after s v latest now loop = rw loop.returns (_, refl)

-- What the transaction leaves beside such a detector.
abbrev left : Collector → StorcliSnapshot → EventDetector → Collector
left c now detector = record {
  latest = some (insert_snapshot now);
  temp_states =
      upsert_temp_states detector.temperature_updates
        (clear_temp_states detector.temperature_clears c.temp_states);
  detector = detector;
}

-- With checked thresholds and a snapshot of distinct drive numbers and slots, a cycle of the
-- collector succeeds from every state, whatever it had stored before; and a further cycle on an equal
-- snapshot detects no event.
pub run_once_quiet :
    (now : StorcliSnapshot) (c : Collector)
    → IsConfigured c.detector.thresholds
    → HasDistinctIds now.virtual_drives
    → HasDistinctSlots now.physical_drives
    → (events : List DetectedEvent) × (c' : Collector) × (run_once now c ≡ some (events, c'))
      × (reported (run_once now c') ≡ some [])
unfolding run_once set_temperature_states
run_once_quiet now c v vds pds =
    let s =
      set_temperature_states (load_temperature_states c.temp_states now.physical_drives)
        c.detector in
    let loop =
      temperatures-Looped s v (previous_drives c.latest) (compared s.thresholds c.latest now).1
        now.physical_drives ([], []) pds in
    let s' = after s c.latest now loop.updates in
    let n =
      next s s' refl loop.updates (clear_temp_states s'.temperature_clears c.temp_states)
        now.physical_drives in
    let (events, e) = detect-after s v c.latest now loop in
    let c' = left c now s' in
    (
      events,
      c',
      rw e refl,
      reported-stored now c' (detect c'.latest now n)
          ∙ detect_quiet n now v vds pds
              (drives-IsSettled s s' refl loop.updates
                (clear_temp_states s'.temperature_clears c.temp_states) now.physical_drives
                now.physical_drives loop.updated (All-IsLoaded now.physical_drives))
              (foreign-IsKnown n c.detector.previous_foreign_config_present now.foreign_config
                refl),
    )
