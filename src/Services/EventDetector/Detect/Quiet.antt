-- ===== src/Services/EventDetector/Detect/Quiet.antt =====
-- A cycle that sees what the last one stored reports nothing.
use megaraid_dashboard.Prelude.{
  ◌≡◌, refl, Bool, true, false, Option, none, some, List, [], ◌∷◌, arith, str_eq_refl, All, ℕ,
}
use megaraid_dashboard.Prelude.Int.{ℤ}
use megaraid_dashboard.Storcli.States.{normalized_state}
use megaraid_dashboard.Storcli.Models.{
  PhysicalDrive, CacheVault, ForeignConfig, StorcliSnapshot, SlotKey, DriveKey, drive_key,
  insert_snapshot,
}
use megaraid_dashboard.Services.Events.{DetectedEvent}
use megaraid_dashboard.Services.EventDetector.Thresholds.{Thresholds, IsConfigured}
use megaraid_dashboard.Services.EventDetector.Temperature.{TempState}
use megaraid_dashboard.Services.EventDetector.Temperature.Hysteresis.{
  settled_or, temperature_transitions-quiet,
}
use megaraid_dashboard.Services.EventDetector.Roc.Missed.{detect_roc_temperature-quiet}
use megaraid_dashboard.Services.EventDetector.VirtualDrives.Quiet.{
  HasDistinctIds, detect_virtual_drives-quiet,
}
use megaraid_dashboard.Services.EventDetector.PhysicalDrives.Quiet.{
  HasDistinctSlots, detect_drive_replacements-quiet, detect_physical_drives-quiet,
}
use megaraid_dashboard.Services.EventDetector.CacheVault.{
  cv_changes, capacitance_drop, detect_cachevault,
}
use megaraid_dashboard.Services.EventDetector.ForeignConfig.{foreign_changes, detect_foreign_config}
use megaraid_dashboard.Services.EventDetector.Detect.{
  EventDetector, TempRun, initial_state, with_reading, detect_temperatures, finish, compared,
  detect_controller, add_serials, detect,
}

-- The stored state of a drive with a reading is one that a cycle at this reading left.
abbrev pub SettledAt : EventDetector → PhysicalDrive → Option ℤ → Type 0
SettledAt s d none = Unit
SettledAt s d (some _) =
    (before : TempState) × (s.temperature_states (drive_key d)
      ≡ some (settled_or s.thresholds d.temperature_celsius before))

abbrev pub IsSettled : EventDetector → PhysicalDrive → Type 0
IsSettled s d = SettledAt s d d.temperature_celsius

abbrev pub IsKnown : EventDetector → Option ForeignConfig → Type 0
IsKnown s none = Unit
IsKnown s (some f) = s.previous_foreign_config_present ≡ some f.present

abbrev NoEvents : Option TempRun → Type 0
NoEvents none = ⊥
NoEvents (some (events, updates)) = events ≡ []

abbrev pub events_of : Option (List DetectedEvent × EventDetector) → Option (List DetectedEvent)
events_of none = none
events_of (some (events, s)) = some events

cachevault_quiet :
    (w : ℕ) (present : Bool) (cv : Option CacheVault)
    → detect_cachevault w present cv present cv ≡ []
unfolding detect_cachevault cv_changes capacitance_drop
cachevault_quiet w true none = refl
cachevault_quiet w false none = refl
cachevault_quiet w present (some cv) = ground (arith, str_eq_refl (normalized_state cv.state))

foreign_quiet :
    (s : EventDetector) (f : Option ForeignConfig)
    → IsKnown s f
    → (detect_foreign_config s.previous_foreign_config_present f).0 ≡ []
unfolding detect_foreign_config foreign_changes
foreign_quiet s none h = refl
foreign_quiet s (some f) h = rw h (ground arith)

module _ (s : EventDetector) (v : IsConfigured s.thresholds) (previous : List PhysicalDrive) where
  reading_quiet :
      (d : PhysicalDrive) (r : Option ℤ) (updates : List (DriveKey × TempState))
      → SettledAt s d r
      → (u : List (DriveKey × TempState)) × (with_reading s previous [] d r ([], updates)
          ≡ some ([], u))
  unfolding initial_state
  reading_quiet d none updates h = (updates, refl)
  reading_quiet d (some t) updates (before, known) =
      rw (known, temperature_transitions-quiet s.thresholds v d before) (_, refl)

  temperatures_quiet :
      (ds : List PhysicalDrive) (updates : List (DriveKey × TempState))
      → All (IsSettled s) ds
      → NoEvents (detect_temperatures s previous [] ds ([], updates))
  unfolding detect_temperatures
  temperatures_quiet [] updates h = refl
  temperatures_quiet (d ∷ ds) updates h =
      let (u, e) = reading_quiet d d.temperature_celsius updates h.0 in
      rw (e, detect_temperatures) (temperatures_quiet ds u h.1)

compared_quiet :
    (c : Thresholds) (now : StorcliSnapshot)
    → HasDistinctIds now.virtual_drives
    → HasDistinctSlots now.physical_drives
    → compared c (some (insert_snapshot now)) now ≡ ([], [], [])
unfolding compared insert_snapshot detect_controller
compared_quiet c now vds pds =
    rw
      (
        detect_drive_replacements-quiet now.physical_drives pds,
        str_eq_refl now.controller.alarm_state,
        detect_virtual_drives-quiet now.virtual_drives vds,
        detect_physical_drives-quiet now.physical_drives pds,
        cachevault_quiet c.cv_capacitance_warning_percent now.controller.cv_present now.cachevault,
      )
      refl

finish_quiet :
    (s : EventDetector) (now : StorcliSnapshot) (clears : List SlotKey) (o : Option TempRun)
    → IsKnown s now.foreign_config
    → NoEvents o
    → events_of (finish s now [] clears o) ≡ some []
unfolding add_serials
finish_quiet s now clears none f h = absurd h
finish_quiet s now clears (some (events, updates)) f h =
    rw (h, foreign_quiet s now.foreign_config f) refl

-- With checked thresholds, a cycle whose snapshot equals the stored one reports no event at all, if
-- the drive numbers and the slots of the snapshot are distinct, the stored temperature state of
-- every drive with a reading was left by a cycle at its present reading, and the presence of a foreign
-- configuration is the remembered one (or its probe failed).
pub detect_quiet :
    (s : EventDetector) (now : StorcliSnapshot)
    → IsConfigured s.thresholds
    → HasDistinctIds now.virtual_drives
    → HasDistinctSlots now.physical_drives
    → All (IsSettled s) now.physical_drives
    → IsKnown s now.foreign_config
    → events_of (detect (some (insert_snapshot now)) now s) ≡ some []
unfolding detect insert_snapshot
detect_quiet s now v vds pds settled known =
    rw
      (
        compared_quiet s.thresholds now vds pds,
        detect_roc_temperature-quiet s.thresholds v now.controller.roc_temperature_celsius,
      )
      (finish_quiet s now [] _ known
        (temperatures_quiet s v now.physical_drives now.physical_drives [] settled))
