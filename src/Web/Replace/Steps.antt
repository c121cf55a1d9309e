-- ===== src/Web/Replace/Steps.antt =====
-- `_run_replace_step` of src/megaraid_dashboard/web/routes.py: the steps `offline` and `missing`.
use megaraid_dashboard.Prelude.{
  String, Bool, true, false, not, ◌&&◌, ◌||◌, Option, none, List, [], ◌∷◌, str_eq, if◌then◌else◌,
}
use megaraid_dashboard.Prelude.Int.{ℤ}
use megaraid_dashboard.Storcli.States.{normalized_state}
use megaraid_dashboard.Services.DriveActions.{
  ReplaceStep, offline, missing, Command, validate_enclosure_slot, drive_path,
  build_set_offline_command, build_set_missing_command,
}
use megaraid_dashboard.Services.DriveActions.Guards.{can_transition}
use megaraid_dashboard.Web.Replace.{
  AuditEvent, DriveShow, Reply, ok, err, WriteSettings, SlotRequest, Response, Check, go, refuse,
  ◌>>=◌, ◌>>◌, guard, or_refuse, answer, recorded, parse_query_dry_run, step_name, replace_message,
  failed_outcome, precheck_outcome,
}

-- What the request meets: the latest row of the slot's drive, what the controller shows before the
-- command, its answer to the command and what it shows after, and whether the audit is stored.
pub record StepWorld : Type 0 where
  pub snapshot : ℤ → ℤ → Option DriveShow
  pub live : Reply DriveShow
  pub written : Reply (Unit {0})
  pub observed : Reply DriveShow
  pub audit_stored : Bool

pub record StepPlan : Type 0 where
  pub enclosure : ℤ
  pub slot : ℤ
  pub serial_number : String
  pub dry_run : Bool
  pub snapshot_state : String
  pub argv : Command

abbrev pub build_step : ReplaceStep → ℤ → ℤ → Option Command
build_step offline enclosure slot = build_set_offline_command enclosure slot
build_step missing enclosure slot = build_set_missing_command enclosure slot

-- The checks up to the command line.
unfoldable pub step_plan : StepWorld → ReplaceStep → SlotRequest → Check StepPlan
step_plan w step r = do
  enclosure ← or_refuse r.enclosure 400 "enclosure and slot must be integers"
  slot ← or_refuse r.slot 400 "enclosure and slot must be integers"
  guard (validate_enclosure_slot enclosure slot) 400 "must be int in [0, 255]"
  query_dry_run ←
      or_refuse (parse_query_dry_run r.query_dry_run) 400
        "dry_run query parameter must be a boolean"
  body ← or_refuse r.body 400 "invalid request body"
  drive ← or_refuse (w.snapshot enclosure slot) 404 "no snapshot for slot"
  guard (str_eq drive.serial_number body.serial_number) 409 "serial mismatch"
  argv ← or_refuse (build_step step enclosure slot) 400 "must be int in [0, 255]"
  go (record {
    enclosure = enclosure;
    slot = slot;
    serial_number = body.serial_number;
    dry_run = body.dry_run || query_dry_run;
    snapshot_state = drive.state;
    argv = argv;
  })

abbrev pub show_command : StepPlan → Command
show_command p = drive_path p.enclosure p.slot ∷ "show" ∷ "all" ∷ "J" ∷ []

abbrev uncertain : Reply Bool
uncertain =
    err "StorcliCommandFailed"
      "Controller accepted the command but the drive outcome is uncertain. Do not remove the drive or repeat the command. Inspect live state and Events."

abbrev confirmed : ReplaceStep → StepPlan → Reply DriveShow → Reply Bool
confirmed step p (err class text) = uncertain
confirmed step p (ok observed) =
    if str_eq observed.serial_number p.serial_number
      && str_eq (normalized_state observed.state) (step_name step)
    then ok true
    else uncertain

-- The `try` block; the value says whether the drive's state was verified.
unfoldable pub write_step :
    WriteSettings → StepWorld → ReplaceStep → StepPlan → Reply (Unit {0}) → Reply Bool
write_step s w step p (err class text) = err class text
write_step s w step p (ok _) =
    if s.full_supported_actions then confirmed step p w.observed else ok false

-- The command, and the look at the drive after it.
abbrev pub step_runs : WriteSettings → StepPlan → Reply (Unit {0}) → List Command
step_runs s p (err class text) = show_command p ∷ p.argv ∷ []
step_runs s p (ok _) =
    if s.full_supported_actions
    then show_command p ∷ p.argv ∷ show_command p ∷ []
    else show_command p ∷ p.argv ∷ []

unfoldable pub after_write :
    StepWorld → ReplaceStep → StepPlan → List Command → List AuditEvent → Reply Bool → Response
after_write w step p runs log (ok verified) =
    recorded w.audit_stored (replace_message step p.enclosure p.slot p.serial_number "succeeded")
      none 200 "" runs log
after_write w step p runs log (err class text) =
    recorded w.audit_stored
      (replace_message step p.enclosure p.slot p.serial_number (failed_outcome class text)) none 502
      "storcli command failed" runs log

unfoldable pub live_step :
    WriteSettings
    → StepWorld
    → ReplaceStep
    → StepPlan
    → List AuditEvent
    → Reply DriveShow
    → Response
live_step s w step p log (err class text) =
    recorded w.audit_stored
      (replace_message step p.enclosure p.slot p.serial_number (precheck_outcome text)) none 502
      "storcli precheck failed" (show_command p ∷ []) log
live_step s w step p log (ok live) =
    if not (str_eq live.serial_number p.serial_number)
    then answer 409 "live serial mismatch" (show_command p ∷ []) log
    else if not (can_transition live.state step)
    then answer 409 "cannot change drive currently in state" (show_command p ∷ []) log
    else after_write w step p (step_runs s p w.written) log (write_step s w step p w.written)

unfoldable pub run_plan :
    WriteSettings → StepWorld → ReplaceStep → List AuditEvent → Check StepPlan → Response
run_plan s w step log (refuse status error) = answer status error [] log
run_plan s w step log (go p) =
    if p.dry_run
    then if can_transition p.snapshot_state step
      then answer 200 "" [] log
      else answer 409 "cannot change drive currently in state" [] log
    else if not s.maintenance_mode || not s.destructive_mode
    then answer 403 "destructive operations require maintenance_mode and destructive_mode" [] log
    else live_step s w step p log w.live

unfoldable pub run_replace_step :
    WriteSettings → StepWorld → ReplaceStep → SlotRequest → List AuditEvent → Response
run_replace_step s w step r log = run_plan s w step log (step_plan w step r)
