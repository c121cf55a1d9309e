-- ===== src/Services/DriveActions.antt =====
-- The command builders and the guards of src/megaraid_dashboard/services/drive_actions.py.
pub mod Allowed
pub mod Guards
pub mod Rebuild
use Prim.Native.String.{◌++◌ as cat}
use megaraid_dashboard.Prelude.{
  ℕ, String, Bool, true, false, not, ◌&&◌, Option, none, some, List, [], ◌∷◌, leb, str_eq, str_mem,
  if◌then◌else◌,
}
use megaraid_dashboard.Prelude.Int.{ℤ, pos, negsuc}
use megaraid_dashboard.Prelude.Text.{decimal_ℤ}

pub data LocateAction : Type 0 where
  start stop : LocateAction

pub data PatrolReadMode : Type 0 where
  auto manual disable : PatrolReadMode

pub data ConsistencyCheckMode : Type 0 where
  concurrent sequential : ConsistencyCheckMode

pub data ReplaceStep : Type 0 where
  offline missing : ReplaceStep

-- The integers from 0 to a bound.
abbrev pub in_range : ℕ → ℤ → Bool
in_range top (pos n) = leb n top
in_range top (negsuc n) = false

-- Both return where it is true, and raise a `ValueError` elsewhere.
unfoldable pub validate_enclosure_slot : ℤ → ℤ → Bool
validate_enclosure_slot enclosure slot = in_range 255 enclosure && in_range 255 slot

unfoldable pub validate_virtual_drive : ℤ → Bool
validate_virtual_drive vd_id = in_range 255 vd_id

abbrev pub Command : Type 0
Command = List String

-- `none` is a `ValueError`.
abbrev pub checked : Bool → Command → Option Command
checked ok args = if ok then some args else none

unfoldable pub drive_path : ℤ → ℤ → String
drive_path enclosure slot = cat "/c0/e" (cat (decimal_ℤ enclosure) (cat "/s" (decimal_ℤ slot)))

abbrev pub locate_verb : LocateAction → String
locate_verb start = "start"
locate_verb stop = "stop"

unfoldable pub on_drive : ℤ → ℤ → List String → Option Command
on_drive enclosure slot words =
    checked (validate_enclosure_slot enclosure slot) (drive_path enclosure slot ∷ words)

unfoldable pub build_locate_command : ℤ → ℤ → LocateAction → Option Command
build_locate_command enclosure slot action =
    on_drive enclosure slot (locate_verb action ∷ "locate" ∷ "J" ∷ [])

abbrev pub build_alarm_silence_command : Command
build_alarm_silence_command = "/c0" ∷ "set" ∷ "alarm=silence" ∷ []

abbrev pub build_alarm_disable_command : Command
build_alarm_disable_command = "/c0" ∷ "set" ∷ "alarm=off" ∷ []

abbrev pub build_alarm_enable_command : Command
build_alarm_enable_command = "/c0" ∷ "set" ∷ "alarm=on" ∷ []

unfoldable pub build_set_offline_command : ℤ → ℤ → Option Command
build_set_offline_command enclosure slot = on_drive enclosure slot ("set" ∷ "offline" ∷ "J" ∷ [])

unfoldable pub build_set_missing_command : ℤ → ℤ → Option Command
build_set_missing_command enclosure slot = on_drive enclosure slot ("set" ∷ "missing" ∷ "J" ∷ [])

unfoldable pub build_mark_unconfigured_bad_command : ℤ → ℤ → Option Command
build_mark_unconfigured_bad_command enclosure slot = on_drive enclosure slot ("set" ∷ "bad" ∷ [])

unfoldable pub build_mark_unconfigured_good_command : ℤ → ℤ → Option Command
build_mark_unconfigured_good_command enclosure slot = on_drive enclosure slot ("set" ∷ "good" ∷ [])

unfoldable pub build_spin_down_command : ℤ → ℤ → Option Command
build_spin_down_command enclosure slot = on_drive enclosure slot ("spindown" ∷ [])

unfoldable pub build_make_hot_spare_command : ℤ → ℤ → ℤ → Option Command
build_make_hot_spare_command enclosure slot dg_id =
    checked (validate_enclosure_slot enclosure slot && in_range 63 dg_id)
      (drive_path enclosure slot ∷ "add" ∷ "hotsparedrive" ∷ cat "dgs=" (decimal_ℤ dg_id) ∷ [])

unfoldable pub build_show_drive_command : ℤ → ℤ → Option Command
build_show_drive_command enclosure slot = on_drive enclosure slot ("show" ∷ "all" ∷ "J" ∷ [])

unfoldable pub build_rebuild_status_command : ℤ → ℤ → Option Command
build_rebuild_status_command enclosure slot =
    on_drive enclosure slot ("show" ∷ "rebuild" ∷ "J" ∷ [])

abbrev pub build_patrol_read_show_command : Command
build_patrol_read_show_command = "/c0" ∷ "show" ∷ "patrolread" ∷ "J" ∷ []

abbrev pub build_patrol_read_start_command : Command
build_patrol_read_start_command = "/c0" ∷ "start" ∷ "patrolread" ∷ "J" ∷ []

abbrev pub build_patrol_read_stop_command : Command
build_patrol_read_stop_command = "/c0" ∷ "stop" ∷ "patrolread" ∷ "J" ∷ []

abbrev pub build_patrol_read_mode_command : PatrolReadMode → Command
build_patrol_read_mode_command auto = "/c0" ∷ "set" ∷ "patrolread=on" ∷ "mode=auto" ∷ "J" ∷ []
build_patrol_read_mode_command manual = "/c0" ∷ "set" ∷ "patrolread=on" ∷ "mode=manual" ∷ "J" ∷ []
build_patrol_read_mode_command disable = "/c0" ∷ "set" ∷ "patrolread=off" ∷ "J" ∷ []

abbrev pub build_consistency_check_show_command : Command
build_consistency_check_show_command = "/c0" ∷ "show" ∷ "cc" ∷ "J" ∷ []

abbrev pub build_consistency_check_show_progress_command : Command
build_consistency_check_show_progress_command = "/c0/vall" ∷ "show" ∷ "cc" ∷ "J" ∷ []

unfoldable pub build_consistency_check_start_command : Option ℤ → Option Command
build_consistency_check_start_command none = some ("/c0/vall" ∷ "start" ∷ "cc" ∷ "J" ∷ [])
build_consistency_check_start_command (some vd_id) =
    checked (validate_virtual_drive vd_id)
      (cat "/c0/v" (decimal_ℤ vd_id) ∷ "start" ∷ "cc" ∷ "J" ∷ [])

abbrev pub build_consistency_check_stop_command : Command
build_consistency_check_stop_command = "/c0/vall" ∷ "stop" ∷ "cc" ∷ "J" ∷ []

abbrev pub build_consistency_check_mode_command : ConsistencyCheckMode → Command
build_consistency_check_mode_command concurrent = "/c0" ∷ "set" ∷ "cc=conc" ∷ "J" ∷ []
build_consistency_check_mode_command sequential = "/c0" ∷ "set" ∷ "cc=seq" ∷ "J" ∷ []

unfoldable pub build_insert_replacement_command : ℤ → ℤ → ℤ → ℤ → ℤ → Option Command
build_insert_replacement_command enclosure slot dg array row =
    checked
      (validate_enclosure_slot enclosure slot
        && in_range 63 dg
        && in_range 63 array
        && in_range 255 row)
      (drive_path enclosure slot
        ∷ "insert"
        ∷ cat "dg=" (decimal_ℤ dg)
        ∷ cat "array=" (decimal_ℤ array)
        ∷ cat "row=" (decimal_ℤ row)
        ∷ "J"
        ∷ [])

abbrev pub build_foreign_config_show_command : Command
build_foreign_config_show_command = "/c0/fall" ∷ "show" ∷ "all" ∷ "J" ∷ []

abbrev pub build_foreign_config_import_command : Command
build_foreign_config_import_command = "/c0/fall" ∷ "import" ∷ "J" ∷ []

abbrev pub build_foreign_config_clear_command : Command
build_foreign_config_clear_command = "/c0/fall" ∷ "delete" ∷ "J" ∷ []
