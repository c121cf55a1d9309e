-- ===== src/Services/Collector.antt =====
-- `CollectorService.run_once` of src/megaraid_dashboard/services/scheduler.py, from a collected
-- snapshot on: the latest row, the stored temperature states and the detector. The transaction also
-- records the events, a "Collection recovered" event after an outage and the clears of the
-- controller's temperature, which no part of this state depends on.
pub mod Settles
pub mod Quiet
use megaraid_dashboard.Prelude.{
  ℕ, Bool, true, false, Option, none, some, List, [], ◌∷◌, any_of, if◌then◌else◌,
}
use megaraid_dashboard.Prelude.Dict.{get}
use megaraid_dashboard.Storcli.Models.{
  PhysicalDrive, StorcliSnapshot, ControllerSnapshot, SlotKey, slot_eq, DriveKey, drive_key,
  drive_key_eq, insert_snapshot,
}
use megaraid_dashboard.Services.Events.{DetectedEvent}
use megaraid_dashboard.Services.EventDetector.Temperature.{TempState}
use megaraid_dashboard.Services.EventDetector.Detect.{
  EventDetector, set_temperature_states, detect, or_else,
}

-- The table of temperature states has one row for each enclosure, slot and serial number.
abbrev pub TempTable : Type 0
TempTable = DriveKey → Option TempState

pub record Collector : Type 0 where
  pub latest : Option ControllerSnapshot
  pub temp_states : TempTable
  pub detector : EventDetector

-- `_load_temperature_states`: the states of the drives of the snapshot.
unfoldable pub load_temperature_states : TempTable → List PhysicalDrive → TempTable
load_temperature_states table drives k =
    if any_of (λ (d : PhysicalDrive). drive_key_eq (drive_key d) k) drives then table k else none

abbrev slot_of : DriveKey → SlotKey
slot_of k = (k.enclosure_id, k.slot_id)

-- `clear_temp_state_for_slot` of db/dao.py, for every slot of a list.
unfoldable pub clear_temp_states : List SlotKey → TempTable → TempTable
clear_temp_states slots table k = if any_of (slot_eq (slot_of k)) slots then none else table k

-- `upsert_temp_state` of db/dao.py, for every update.
unfoldable pub upsert_temp_states : List (DriveKey × TempState) → TempTable → TempTable
upsert_temp_states updates table k = or_else (get drive_key_eq k updates) (table k)

abbrev pub stored :
    StorcliSnapshot
    → Collector
    → Option (List DetectedEvent × EventDetector)
    → Option (List DetectedEvent × Collector)
stored snapshot s none = none
stored snapshot s (some (events, detector)) = some (
  events,
  record {
    latest = some (insert_snapshot snapshot);
    temp_states =
        upsert_temp_states detector.temperature_updates
          (clear_temp_states detector.temperature_clears s.temp_states);
    detector = detector;
  },
)

-- The detected events, and what the transaction leaves; `none` is its failure.
unfoldable pub run_once : StorcliSnapshot → Collector → Option (List DetectedEvent × Collector)
run_once snapshot s = stored snapshot s (
    detect s.latest snapshot (
      set_temperature_states (load_temperature_states s.temp_states snapshot.physical_drives)
        s.detector))
