-- ===== src/Services/DriveActions/Allowed.antt =====
-- Every command that a builder emits, against the allow-list of the runner.
pub mod Words
pub mod Drives
pub mod Numbers
use Prim.Native.String.{◌++◌ as cat}
use megaraid_dashboard.Prelude.{
  ℕ, zero, suc, ◌≡◌, ◌≢◌, refl, sym, subst, String, Bool, true, false, not, ◌&&◌, ◌||◌, Option,
  none, some, List, [], ◌∷◌, arith, any_of, any_of-imp, drop, str_eq, str_mem, if◌then◌else◌,
}
use megaraid_dashboard.Prelude.Int.{ℤ, pos, negsuc}
use megaraid_dashboard.Prelude.Text.{decimal, decimal_ℤ}
use megaraid_dashboard.Storcli.Commands.{
  Part, matches, matches_part, is_drive, is_numbered, allowed_command_patterns, has_space,
  validate_command, with_json_flag,
}
use megaraid_dashboard.Services.DriveActions
use megaraid_dashboard.Services.DriveActions.{
  LocateAction, start, stop, PatrolReadMode, auto, manual, disable, ConsistencyCheckMode,
  concurrent, sequential, ReplaceStep, offline, missing, Command, on_drive, checked, in_range,
  drive_path, validate_enclosure_slot, validate_virtual_drive, locate_verb,
}
use megaraid_dashboard.Services.DriveActions.Allowed.Words.{
  is_numbered-decimal, is_drive-drive_path, is_bad, word_good, path_good, has_space-decimal,
  valid_from, show-ne,
}
use megaraid_dashboard.Services.DriveActions.Allowed.Drives.{
  IsJudged, path, on_drive_parts, show-ne_path, drive-IsJudged,
}
use megaraid_dashboard.Services.DriveActions.Allowed.Numbers.{
  make_hot_spare-IsJudged, insert_replacement-IsJudged, consistency_check_start-IsJudged,
}

-- A call of a builder.
pub data BuilderCall : Type 0 where
  locate : ℤ → ℤ → LocateAction → BuilderCall
  alarm_silence alarm_disable alarm_enable : BuilderCall
  replace : ReplaceStep → ℤ → ℤ → BuilderCall
  mark_unconfigured_bad mark_unconfigured_good spin_down : ℤ → ℤ → BuilderCall
  make_hot_spare : ℤ → ℤ → ℤ → BuilderCall
  show_drive rebuild_status : ℤ → ℤ → BuilderCall
  patrol_read_show patrol_read_start patrol_read_stop : BuilderCall
  patrol_read_mode : PatrolReadMode → BuilderCall
  consistency_check_show consistency_check_show_progress consistency_check_stop : BuilderCall
  consistency_check_start : Option ℤ → BuilderCall
  consistency_check_mode : ConsistencyCheckMode → BuilderCall
  insert_replacement : ℤ → ℤ → ℤ → ℤ → ℤ → BuilderCall
  foreign_config_show foreign_config_import foreign_config_clear : BuilderCall

unfoldable pub build : BuilderCall → Option Command
build (locate e s action) = DriveActions.build_locate_command e s action
build alarm_silence = some DriveActions.build_alarm_silence_command
build alarm_disable = some DriveActions.build_alarm_disable_command
build alarm_enable = some DriveActions.build_alarm_enable_command
build (replace offline e s) = DriveActions.build_set_offline_command e s
build (replace missing e s) = DriveActions.build_set_missing_command e s
build (mark_unconfigured_bad e s) = DriveActions.build_mark_unconfigured_bad_command e s
build (mark_unconfigured_good e s) = DriveActions.build_mark_unconfigured_good_command e s
build (spin_down e s) = DriveActions.build_spin_down_command e s
build (make_hot_spare e s dg) = DriveActions.build_make_hot_spare_command e s dg
build (show_drive e s) = DriveActions.build_show_drive_command e s
build (rebuild_status e s) = DriveActions.build_rebuild_status_command e s
build patrol_read_show = some DriveActions.build_patrol_read_show_command
build patrol_read_start = some DriveActions.build_patrol_read_start_command
build patrol_read_stop = some DriveActions.build_patrol_read_stop_command
build (patrol_read_mode mode) = some (DriveActions.build_patrol_read_mode_command mode)
build consistency_check_show = some DriveActions.build_consistency_check_show_command
build consistency_check_show_progress =
    some DriveActions.build_consistency_check_show_progress_command
build consistency_check_stop = some DriveActions.build_consistency_check_stop_command
build (consistency_check_start vd) = DriveActions.build_consistency_check_start_command vd
build (consistency_check_mode mode) = some (DriveActions.build_consistency_check_mode_command mode)
build (insert_replacement e s dg array row) =
    DriveActions.build_insert_replacement_command e s dg array row
build foreign_config_show = some DriveActions.build_foreign_config_show_command
build foreign_config_import = some DriveActions.build_foreign_config_import_command
build foreign_config_clear = some DriveActions.build_foreign_config_clear_command

abbrev pub reads : BuilderCall → Bool
reads (show_drive e s) = true
reads (rebuild_status e s) = true
reads patrol_read_show = true
reads consistency_check_show = true
reads consistency_check_show_progress = true
reads foreign_config_show = true
reads other = false

abbrev pub marks_bad : BuilderCall → Bool
marks_bad (mark_unconfigured_bad e s) = true
marks_bad other = false

fixed-IsJudged :
    (built args : Command) (read : Bool)
    → some built ≡ some args
    → IsJudged true read built
    → IsJudged true read args
fixed-IsJudged built args read h judged =
    let e : built ≡ args = cc in subst (IsJudged true read) e judged

-- The patterns of drives that hold after the drive's word.
after_first : List String → List Part → Bool
after_first words [] = false
after_first words (p ∷ ps) = matches ps words

no_pattern :
    (a : String) (words : List String) (ps : List (List Part))
    → any_of (after_first words) ps ≡ false
    → any_of (λ (p : List Part). matches p (a ∷ words)) ps ≡ false
unfolding after_first matches
no_pattern a words [] h = refl
no_pattern a words ([] ∷ ps) h = no_pattern a words ps h
no_pattern a words ((p ∷ rest) ∷ ps) h = ground (arith, no_pattern a words ps)

mark_bad-IsJudged :
    (e s : ℤ) (args : Command)
    → DriveActions.build_mark_unconfigured_bad_command e s ≡ some args
    → IsJudged false false args
unfolding DriveActions.build_mark_unconfigured_bad_command after_first matches matches_part
    with_json_flag validate_command has_space
mark_bad-IsJudged e s args h =
    let (m, n, eq) = on_drive_parts e s ("set" ∷ "bad" ∷ []) args h in
    subst (IsJudged false false) eq (
      rw (no_pattern (path m n) ("set" ∷ "bad" ∷ "J" ∷ []) allowed_command_patterns refl)
          (ground arith),
      rw (show-ne_path m n) refl,
    )

-- Whatever a builder emits, the runner accepts it, except the command that marks a drive as
-- unconfigured bad, which no pattern of the runner admits; and it holds the word `show` just when
-- the request is a read, so that exactly the writes are subject to the authorization.
pub build-IsJudged :
    (r : BuilderCall) (args : Command)
    → build r ≡ some args
    → IsJudged (not (marks_bad r)) (reads r) args
unfolding build with_json_flag has_space matches matches_part DriveActions.build_locate_command
    DriveActions.build_set_offline_command DriveActions.build_set_missing_command
    DriveActions.build_mark_unconfigured_bad_command
    DriveActions.build_mark_unconfigured_good_command DriveActions.build_spin_down_command
    DriveActions.build_show_drive_command DriveActions.build_rebuild_status_command
build-IsJudged (locate e s start) args h =
    drive-IsJudged 21 ("start" ∷ "locate" ∷ "J" ∷ []) ("start" ∷ "locate" ∷ "J" ∷ []) false refl
      refl refl e s args (λ m n. refl) h
build-IsJudged (locate e s stop) args h =
    drive-IsJudged 21 ("stop" ∷ "locate" ∷ "J" ∷ []) ("stop" ∷ "locate" ∷ "J" ∷ []) false refl refl
      refl e s args (λ m n. refl) h
build-IsJudged alarm_silence args h =
    fixed-IsJudged DriveActions.build_alarm_silence_command args false h
      (valid_from 14 _ refl refl, refl)
build-IsJudged alarm_disable args h =
    fixed-IsJudged DriveActions.build_alarm_disable_command args false h
      (valid_from 14 _ refl refl, refl)
build-IsJudged alarm_enable args h =
    fixed-IsJudged DriveActions.build_alarm_enable_command args false h
      (valid_from 14 _ refl refl, refl)
build-IsJudged (replace offline e s) args h =
    drive-IsJudged 22 ("set" ∷ "offline" ∷ "J" ∷ []) ("set" ∷ "offline" ∷ "J" ∷ []) false refl refl
      refl e s args (λ m n. refl) h
build-IsJudged (replace missing e s) args h =
    drive-IsJudged 22 ("set" ∷ "missing" ∷ "J" ∷ []) ("set" ∷ "missing" ∷ "J" ∷ []) false refl refl
      refl e s args (λ m n. refl) h
build-IsJudged (mark_unconfigured_bad e s) args h = mark_bad-IsJudged e s args h
build-IsJudged (mark_unconfigured_good e s) args h =
    drive-IsJudged 22 ("set" ∷ "good" ∷ []) ("set" ∷ "good" ∷ "J" ∷ []) false refl refl refl e s
      args (λ m n. refl) h
build-IsJudged (spin_down e s) args h =
    drive-IsJudged 23 ("spindown" ∷ []) ("spindown" ∷ "J" ∷ []) false refl refl refl e s args
      (λ m n. refl) h
build-IsJudged (make_hot_spare e s dg) args h = make_hot_spare-IsJudged e s dg args h
build-IsJudged (show_drive e s) args h =
    drive-IsJudged 19 ("show" ∷ "all" ∷ "J" ∷ []) ("show" ∷ "all" ∷ "J" ∷ []) true refl refl refl e
      s args (λ m n. refl) h
build-IsJudged (rebuild_status e s) args h =
    drive-IsJudged 20 ("show" ∷ "rebuild" ∷ "J" ∷ []) ("show" ∷ "rebuild" ∷ "J" ∷ []) true refl refl
      refl e s args (λ m n. refl) h
build-IsJudged patrol_read_show args h =
    fixed-IsJudged DriveActions.build_patrol_read_show_command args true h
      (valid_from 5 _ refl refl, refl)
build-IsJudged patrol_read_start args h =
    fixed-IsJudged DriveActions.build_patrol_read_start_command args false h
      (valid_from 6 _ refl refl, refl)
build-IsJudged patrol_read_stop args h =
    fixed-IsJudged DriveActions.build_patrol_read_stop_command args false h
      (valid_from 6 _ refl refl, refl)
build-IsJudged (patrol_read_mode auto) args h =
    fixed-IsJudged (DriveActions.build_patrol_read_mode_command auto) args false h
      (valid_from 7 _ refl refl, refl)
build-IsJudged (patrol_read_mode manual) args h =
    fixed-IsJudged (DriveActions.build_patrol_read_mode_command manual) args false h
      (valid_from 7 _ refl refl, refl)
build-IsJudged (patrol_read_mode disable) args h =
    fixed-IsJudged (DriveActions.build_patrol_read_mode_command disable) args false h
      (valid_from 8 _ refl refl, refl)
build-IsJudged consistency_check_show args h =
    fixed-IsJudged DriveActions.build_consistency_check_show_command args true h
      (valid_from 9 _ refl refl, refl)
build-IsJudged consistency_check_show_progress args h =
    fixed-IsJudged DriveActions.build_consistency_check_show_progress_command args true h
      (valid_from 10 _ refl refl, refl)
build-IsJudged consistency_check_stop args h =
    fixed-IsJudged DriveActions.build_consistency_check_stop_command args false h
      (valid_from 12 _ refl refl, refl)
build-IsJudged (consistency_check_start vd) args h = consistency_check_start-IsJudged vd args h
build-IsJudged (consistency_check_mode concurrent) args h =
    fixed-IsJudged (DriveActions.build_consistency_check_mode_command concurrent) args false h
      (valid_from 13 _ refl refl, refl)
build-IsJudged (consistency_check_mode sequential) args h =
    fixed-IsJudged (DriveActions.build_consistency_check_mode_command sequential) args false h
      (valid_from 13 _ refl refl, refl)
build-IsJudged (insert_replacement e s dg array row) args h =
    insert_replacement-IsJudged e s dg array row args h
build-IsJudged foreign_config_show args h =
    fixed-IsJudged DriveActions.build_foreign_config_show_command args true h
      (valid_from 16 _ refl refl, refl)
build-IsJudged foreign_config_import args h =
    fixed-IsJudged DriveActions.build_foreign_config_import_command args false h
      (valid_from 17 _ refl refl, refl)
build-IsJudged foreign_config_clear args h =
    fixed-IsJudged DriveActions.build_foreign_config_clear_command args false h
      (valid_from 18 _ refl refl, refl)
