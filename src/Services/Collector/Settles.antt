-- ===== src/Services/Collector/Settles.antt =====
-- Two cycles of the collector on one snapshot.
use megaraid_dashboard.Prelude.{
  ◌≡◌, ◌↔◌, refl, ◌∙◌, true, false, Option, none, some, List, [], ◌∷◌, ◌++◌, arith, All, All-imp,
  str_eq_iff,
}
use megaraid_dashboard.Prelude.Dict.{get, put}
use megaraid_dashboard.Prelude.Dict.Laws.{get-put}
use megaraid_dashboard.Prelude.Int.{ℤ}
use megaraid_dashboard.Storcli.Models.{
  PhysicalDrive, SlotKey, slot_key, slot_eq, DriveKey, drive_key, drive_key_eq,
}
use megaraid_dashboard.Services.Events.{DetectedEvent}
use megaraid_dashboard.Services.EventDetector.Thresholds.{IsConfigured}
use megaraid_dashboard.Services.EventDetector.Temperature.{TempState}
use megaraid_dashboard.Services.EventDetector.Temperature.Hysteresis.{
  settled_or, temperature_transitions-settled,
}
use megaraid_dashboard.Services.EventDetector.PhysicalDrives.Quiet.{HasDistinctSlots}
use megaraid_dashboard.Services.EventDetector.Detect.{
  EventDetector, TempRun, initial_state, with_reading, detect_temperatures,
}

pub drive_key_eq_iff : (a b : DriveKey) → (drive_key_eq a b ≡ true) ↔ (a ≡ b)
drive_key_eq_iff a b = ground (arith, str_eq_iff a.serial_number b.serial_number)

other_slot :
    (x d : PhysicalDrive)
    → slot_eq (slot_key x) (slot_key d) ≡ false
    → drive_key_eq (drive_key x) (drive_key d) ≡ false
other_slot x d h = ground arith

-- The update of a drive with a reading is the state that the hysteresis rule gives it.
abbrev pub UpdatedAt :
    EventDetector → List (DriveKey × TempState) → PhysicalDrive → Option ℤ → Type 0
UpdatedAt s updates d none = Unit
UpdatedAt s updates d (some _) =
    (before : TempState) × (get drive_key_eq (drive_key d) updates
      ≡ some (settled_or s.thresholds d.temperature_celsius before))

abbrev pub IsUpdated : EventDetector → List (DriveKey × TempState) → PhysicalDrive → Type 0
IsUpdated s updates d = UpdatedAt s updates d d.temperature_celsius

UpdatedAt-same :
    (s : EventDetector) (d : PhysicalDrive) (r : Option ℤ) (u u' : List (DriveKey × TempState))
    → get drive_key_eq (drive_key d) u' ≡ get drive_key_eq (drive_key d) u
    → UpdatedAt s u d r
    → UpdatedAt s u' d r
UpdatedAt-same s d none u u' e h = tt
UpdatedAt-same s d (some t) u u' e (before, known) = (before, e ∙ known)

module _ (s : EventDetector) (v : IsConfigured s.thresholds) (previous : List PhysicalDrive)
    (slots : List SlotKey) where
  -- What one drive's pass of the loop leaves.
  pub record Passed (d : PhysicalDrive) (r : Option ℤ) (run : TempRun) : Type 0 where
    pub events : List DetectedEvent
    pub updates : List (DriveKey × TempState)
    pub returns : with_reading s previous slots d r run ≡ some (events, updates)
    pub updated : UpdatedAt s updates d r
    pub others :
        (k : DriveKey)
        → drive_key_eq (drive_key d) k ≡ false
        → get drive_key_eq k updates ≡ get drive_key_eq k run.1

  reading-Passed : (d : PhysicalDrive) (r : Option ℤ) (run : TempRun) → Passed d r run
  reading-Passed d none (ev, u) = record {
    events = ev;
    updates = u;
    returns = refl;
    updated = tt;
    others = λ k h. refl;
  }
  reading-Passed d (some t) (ev, u) =
      let before = initial_state s previous slots d in
      let (events, e, few) = temperature_transitions-settled s.thresholds v d before in
      let next = settled_or s.thresholds d.temperature_celsius before in
      record {
        events = ev ++ events;
        updates = put drive_key_eq (drive_key d) next u;
        returns = rw e refl;
        updated = (
          before,
          rw
              (
                get-put drive_key_eq drive_key_eq_iff (drive_key d) (drive_key d) next u,
                (drive_key_eq_iff (drive_key d) (drive_key d)).1 refl,
              )
              refl,
        );
        others = λ k h. rw (get-put drive_key_eq drive_key_eq_iff (drive_key d) k next u, h) refl;
      }

  -- What the whole loop leaves.
  pub record Looped (ds : List PhysicalDrive) (run : TempRun) : Type 0 where
    pub events : List DetectedEvent
    pub updates : List (DriveKey × TempState)
    pub returns : detect_temperatures s previous slots ds run ≡ some (events, updates)
    pub updated : All (IsUpdated s updates) ds
    pub others :
        (k : DriveKey)
        → All (λ d. drive_key_eq (drive_key d) k ≡ false) ds
        → get drive_key_eq k updates ≡ get drive_key_eq k run.1

  pub temperatures-Looped :
      (ds : List PhysicalDrive) (run : TempRun) → HasDistinctSlots ds → Looped ds run
  unfolding detect_temperatures
  temperatures-Looped [] (ev, u) h = record {
    events = ev;
    updates = u;
    returns = refl;
    updated = tt;
    others = λ k h. refl;
  }
  temperatures-Looped (d ∷ ds) run h =
      let one = reading-Passed d d.temperature_celsius run in
      let rest = temperatures-Looped ds (one.events, one.updates) h.1 in
      record {
        events = rest.events;
        updates = rest.updates;
        returns = rw (one.returns, detect_temperatures) rest.returns;
        updated = (
          UpdatedAt-same s d d.temperature_celsius one.updates rest.updates
              (rest.others (drive_key d) (All-imp _ _ (λ x f. other_slot x d f) ds h.0))
              one.updated,
          rest.updated,
        );
        others = λ k f. rest.others k f.1 ∙ one.others k f.0;
      }
