-- ===== src/Services/EventDetector/Detect/Failures.antt =====
-- The report of a failed drive reaches the events of the whole cycle, of `detect` in
-- src/megaraid_dashboard/services/event_detector.py.
use mathlib.Core.List.{Memᴰ}
use megaraid_dashboard.Prelude.{
  ◌≡◌, refl, String, true, Option, none, some, List, [], ◌∷◌, ◌++◌, str_eq, any_of,
  any_of-append_left, any_of-append_right, All,
}
use megaraid_dashboard.Prelude.Dict.{get}
use megaraid_dashboard.Storcli.Models.{
  PhysicalDrive, SlotKey, slot_key, slot_eq, StorcliSnapshot, ControllerSnapshot,
}
use megaraid_dashboard.Services.Events.{critical, DetectedEvent, physical_drive_state_severity}
use megaraid_dashboard.Services.EventDetector.Thresholds.{IsConfigured}
use megaraid_dashboard.Services.EventDetector.PhysicalDrives.{
  detect_drive_replacements, detect_physical_drives,
}
use megaraid_dashboard.Services.EventDetector.PhysicalDrives.Failures.{
  reports_failure, Differs, failed_drive_reported,
}
use megaraid_dashboard.Services.EventDetector.VirtualDrives.{detect_virtual_drives}
use megaraid_dashboard.Services.EventDetector.CacheVault.{detect_cachevault}
use megaraid_dashboard.Services.EventDetector.ForeignConfig.{detect_foreign_config}
use megaraid_dashboard.Services.EventDetector.Detect.{
  EventDetector, TempRun, serials, with_serial, add_serials, finish, compared, detect_controller,
  previous_drives, detect,
}
use megaraid_dashboard.Services.EventDetector.Detect.Total.{temperatures-Return}

module _ (d : PhysicalDrive) where
  with_serial-reports :
      (e : DetectedEvent) (serial : Option String)
      → reports_failure d (with_serial e serial) ≡ reports_failure d e
  with_serial-reports e none = refl
  with_serial-reports e (some serial) = refl

  add_serials-reports :
      (drives : List PhysicalDrive) (events : List DetectedEvent)
      → any_of (reports_failure d) (add_serials drives events) ≡ any_of (reports_failure d) events
  unfolding add_serials
  add_serials-reports drives [] = refl
  add_serials-reports drives (e ∷ events) =
      rw
        (
          with_serial-reports e (get str_eq e.subject (serials drives [])),
          add_serials-reports drives events,
        )
        refl

  finish-reports :
      (s : EventDetector) (current : StorcliSnapshot) (before : List DetectedEvent)
      (clears : List SlotKey) (o : Option TempRun)
      → any_of (reports_failure d) before ≡ true
      → ((run : TempRun) × (o ≡ some run))
      → (r : List DetectedEvent × EventDetector) × (finish s current before clears o ≡ some r)
        × (any_of (reports_failure d) r.0 ≡ true)
  finish-reports s current before clears o reported ((temps, updates), e) =
      let (foreign, present) =
        detect_foreign_config s.previous_foreign_config_present current.foreign_config in
      rw e (
        _,
        refl,
        rw (add_serials-reports current.physical_drives (before ++ (temps ++ foreign)))
            (any_of-append_left (reports_failure d) before (temps ++ foreign) reported),
      )

  compared-reports :
      (s : EventDetector) (previous : ControllerSnapshot) (current : StorcliSnapshot)
      → Memᴰ d current.physical_drives
      → physical_drive_state_severity d.state ≡ critical
      → All (λ p. slot_eq (slot_key p) (slot_key d) ≡ true → Differs d p) previous.physical_drives
      → any_of (reports_failure d) (compared s.thresholds (some previous) current).0 ≡ true
  unfolding compared
  compared-reports s previous current m h differs =
      let replacements =
        detect_drive_replacements previous.physical_drives current.physical_drives in
      let controller = detect_controller previous.alarm_state current.controller.alarm_state in
      let volumes = detect_virtual_drives previous.virtual_drives current.virtual_drives in
      let drives =
        detect_physical_drives previous.physical_drives replacements.1 current.physical_drives in
      let cachevault =
        detect_cachevault s.thresholds.cv_capacitance_warning_percent previous.cv_present
          previous.cachevault current.controller.cv_present current.cachevault in
      let reported =
        failed_drive_reported previous.physical_drives current.physical_drives d m h differs in
      let p = reports_failure d in
      any_of-append_right p controller (volumes ++ (replacements.0 ++ (drives ++ cachevault))) (
        any_of-append_right p volumes (replacements.0 ++ (drives ++ cachevault)) (
          any_of-append_right p replacements.0 (drives ++ cachevault)
            (any_of-append_left p drives cachevault reported)))

-- With checked thresholds, a cycle that compares a snapshot with a previous one returns, and if a drive
-- of the current snapshot has a critical state, such as failed, missing, offline or UBad, and every
-- drive of the previous snapshot in its slot had another serial number or another normalised state
-- (so too when the slot was empty), then the drive is the subject of a critical state event among the
-- events of the cycle.
pub detect-reports_failure :
    (previous : ControllerSnapshot) (current : StorcliSnapshot) (s : EventDetector)
    (d : PhysicalDrive)
    → IsConfigured s.thresholds
    → Memᴰ d current.physical_drives
    → physical_drive_state_severity d.state ≡ critical
    → All (λ p. slot_eq (slot_key p) (slot_key d) ≡ true → Differs d p) previous.physical_drives
    → (r : List DetectedEvent × EventDetector) × (detect (some previous) current s ≡ some r)
      × (any_of (reports_failure d) r.0 ≡ true)
unfolding detect
detect-reports_failure previous current s d v m h differs =
    finish-reports d s current _ _ _
      (any_of-append_left (reports_failure d) (compared s.thresholds (some previous) current).0 _
        (compared-reports d s previous current m h differs))
      (temperatures-Return s v (previous_drives (some previous))
        (compared s.thresholds (some previous) current).1 current.physical_drives ([], []))
