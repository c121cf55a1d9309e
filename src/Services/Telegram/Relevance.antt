-- ===== src/Services/Telegram/Relevance.antt =====
-- Whether a queued incident still stands, of services/telegram_relevance.py. Times are microseconds.
pub mod Hysteresis
use Prim.Native.Nat.{ℕ, zero, suc}
use Prim.Native.Char.{code}
use megaraid_dashboard.Prelude.{
  ◌+◌, ◌-◌, ◌*◌, max, String, Bool, true, false, not, ◌&&◌, ◌||◌, Option, none, some, List, [], ◌∷◌,
  leb, ltb, ◌==◌, str_eq, any_of, keep, find_first, lookup_text, if◌then◌else◌,
}
use megaraid_dashboard.Prelude.Int.{ℤ, pos, ltb_ℤ, leb_ℤ, ◌-ℤ◌}
use megaraid_dashboard.Prelude.Text.{decimal_ℤ, decimal}
use megaraid_dashboard.Prelude.Scan.{read_number, drop_text, ◌>>=◌}
use megaraid_dashboard.Storcli.States.{normalized_state}
use megaraid_dashboard.Storcli.Models.{
  PhysicalDrive, VirtualDrive, CacheVault, ControllerSnapshot, SlotKey, DriveKey, slot_key, slot_eq,
  drive_key,
}
use megaraid_dashboard.Services.Events.{Severity, info, warning, critical, Json, Fields}
use megaraid_dashboard.Services.DiskMonitor.{severity_eq, severity_text}
use megaraid_dashboard.Services.EventDetector.Thresholds.{Thresholds}
use megaraid_dashboard.Services.EventDetector.Temperature.{TempState, state_text}
use megaraid_dashboard.Services.EventDetector.VirtualDrives.{vd_subject}
use megaraid_dashboard.Services.Notifier.{Event}
use megaraid_dashboard.Services.Telegram.Messages.{
  or_empty, is_true, is_false, incident_key, key_eq,
}

abbrev pub second : ℕ
second = 1_000_000

-- A snapshot's row with its number and time.
pub record Captured : Type 0 where
  pub id : ℕ
  pub captured_at : ℕ
  pub row : ControllerSnapshot

-- The tables that the queries read, and the stored times at which the controller last was below its
-- clear boundaries (`none` where there is none or it is malformed).
pub record Database : Type 0 where
  pub events : List Event
  pub snapshots : List Captured
  pub temperature_states : DriveKey → Option TempState
  pub warning_cleared_at : Option ℕ
  pub critical_cleared_at : Option ℕ

pub record Settings : Type 0 where
  pub thresholds : Thresholds
  pub metrics_interval_seconds : ℕ
  pub telegram_warning_confirm_minutes : ℕ

-- `waiting` carries the diagnostic; `raised` is the `AttributeError` of `getattr`.
pub data Relevance : Type 0 where
  active obsolete raised : Relevance
  waiting : String → Relevance

abbrev pub active_if : Bool → Relevance
active_if test = if test then active else obsolete

unfoldable pub temperature_relevance : Option ℤ → Severity → ℤ → ℤ → ℤ → Bool → Relevance
temperature_relevance none severity warning_at critical_at hysteresis clear_at_boundary =
    waiting "awaiting_temperature"
temperature_relevance (some t) severity warning_at critical_at hysteresis clear_at_boundary =
    let is_critical = severity_eq severity critical in
    let boundary = (if is_critical then critical_at else warning_at) -ℤ hysteresis in
    let above_boundary = if clear_at_boundary then ltb_ℤ boundary t else leb_ℤ boundary t in
    active_if (above_boundary && (is_critical || ltb_ℤ t critical_at))

-- `PD e(\d+):s(\d+)`, with ASCII digits.
unfoldable pub drive_subject : String → Option SlotKey
drive_subject subject = drop_text "PD e" subject >>= (λ s.
    read_number false 0 s >>= (λ (enclosure, s'). drop_text ":s" s' >>= (λ s''.
      read_number false 0 s''
      >>= (λ (slot, rest). if str_eq rest "" then some (enclosure, slot) else none))))
