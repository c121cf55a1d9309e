-- ===== src/Storcli/Models.antt =====
-- src/megaraid_dashboard/storcli/models.py and the snapshot tables of db/models.py: the fields that
-- the rules read. Slots, drive numbers and error counters are unsigned; temperatures are signed.
use megaraid_dashboard.Prelude.{ℕ, String, Bool, Option, List, ◌&&◌, ◌==◌, str_eq}
use megaraid_dashboard.Prelude.Int.{ℤ}

pub record PhysicalDrive : Type 0 where
  pub enclosure_id : ℕ
  pub slot_id : ℕ
  pub serial_number : String
  pub state : String
  pub temperature_celsius : Option ℤ
  pub media_errors : ℕ
  pub other_errors : ℕ
  pub predictive_failures : ℕ
  pub smart_alert : Bool

pub record VirtualDrive : Type 0 where
  pub vd_id : ℕ
  pub state : String

pub record CacheVault : Type 0 where
  pub state : String
  pub capacitance_percent : Option ℕ
  pub replacement_required : Bool

pub record ForeignConfig : Type 0 where
  pub present : Bool
  pub dg_count : ℕ
  pub drive_count : ℕ
  pub digest : String

pub record ControllerInfo : Type 0 where
  pub alarm_state : String
  pub cv_present : Bool
  pub roc_temperature_celsius : Option ℤ

pub record StorcliSnapshot : Type 0 where
  pub controller : ControllerInfo
  pub virtual_drives : List VirtualDrive
  pub physical_drives : List PhysicalDrive
  pub cachevault : Option CacheVault
  pub foreign_config : Option ForeignConfig

-- `ControllerSnapshot`, a row of the database with its drives.
pub record ControllerSnapshot : Type 0 where
  pub alarm_state : String
  pub cv_present : Bool
  pub roc_temperature_celsius : Option ℤ
  pub virtual_drives : List VirtualDrive
  pub physical_drives : List PhysicalDrive
  pub cachevault : Option CacheVault

abbrev pub SlotKey : Type 0
SlotKey = ℕ × ℕ

pub record DriveKey : Type 0 where
  pub enclosure_id : ℕ
  pub slot_id : ℕ
  pub serial_number : String

abbrev pub slot_eq : SlotKey → SlotKey → Bool
slot_eq a b = a.0 == b.0 && a.1 == b.1

abbrev pub drive_key_eq : DriveKey → DriveKey → Bool
drive_key_eq a b =
    a.enclosure_id == b.enclosure_id
    && a.slot_id == b.slot_id
    && str_eq a.serial_number b.serial_number

abbrev pub slot_key : PhysicalDrive → SlotKey
slot_key d = (d.enclosure_id, d.slot_id)

abbrev pub drive_key : PhysicalDrive → DriveKey
drive_key d = record {
  enclosure_id = d.enclosure_id;
  slot_id = d.slot_id;
  serial_number = d.serial_number;
}

-- `insert_snapshot` of db/dao.py: the row that stores these fields of a snapshot.
unfoldable pub insert_snapshot : StorcliSnapshot → ControllerSnapshot
insert_snapshot s = record {
  alarm_state = s.controller.alarm_state;
  cv_present = s.controller.cv_present;
  roc_temperature_celsius = s.controller.roc_temperature_celsius;
  virtual_drives = s.virtual_drives;
  physical_drives = s.physical_drives;
  cachevault = s.cachevault;
}

-- The live state of a drive, from `show all` of one drive.
pub record DriveShow : Type 0 where
  pub serial_number : String
  pub state : String
