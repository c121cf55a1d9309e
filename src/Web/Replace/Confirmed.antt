-- ===== src/Web/Replace/Confirmed.antt =====
-- What an answer 200 of the steps `offline` and `missing` stands for.
use megaraid_dashboard.Prelude.{
  ◌≡◌, if◌then◌else◌, some, [], ◌∷◌, Bool, true, false, not, ◌&&◌, ◌||◌, none, List, arith, str_eq,
  String,
}
use megaraid_dashboard.Storcli.States.{normalized_state}
use megaraid_dashboard.Services.DriveActions.{
  ReplaceStep, offline, missing, Command, drive_path, on_drive, build_set_offline_command,
  build_set_missing_command,
}
use megaraid_dashboard.Services.DriveActions.Guards.{can_transition}
use megaraid_dashboard.Web.Replace.{
  AuditEvent, DriveShow, Reply, ok, err, WriteSettings, SlotRequest, Response, go, step_name,
  replace_message, record_operator_action,
}
use megaraid_dashboard.Web.Replace.Steps.{
  StepWorld, StepPlan, build_step, step_plan, run_plan, live_step, write_step, after_write,
  run_replace_step,
}

abbrev can_be : ReplaceStep → String → Reply DriveShow → Bool
can_be step serial (err class text) = false
can_be step serial (ok d) = str_eq d.serial_number serial && can_transition d.state step

abbrev is_now : ReplaceStep → String → Reply DriveShow → Bool
is_now step serial (err class text) = false
is_now step serial (ok d) =
    str_eq d.serial_number serial && str_eq (normalized_state d.state) (step_name step)

abbrev succeeded : Reply (Unit {0}) → Bool
succeeded (err class text) = false
succeeded (ok _) = true

-- The words of a look at the plan's slot, and of the step there.
abbrev look : StepPlan → Command
look p = drive_path p.enclosure p.slot ∷ "show" ∷ "all" ∷ "J" ∷ []

abbrev setting : ReplaceStep → StepPlan → Command
setting step p = drive_path p.enclosure p.slot ∷ "set" ∷ step_name step ∷ "J" ∷ []

-- The requested slot, the commands, what was checked before the step's command, what came of it, and what was recorded.
pub record IsConfirmed (t : WriteSettings) (w : StepWorld) (step : ReplaceStep) (r : SlotRequest)
    (log : List AuditEvent) (p : StepPlan) (after : Response) : Type 0 where
  pub at_enclosure : r.enclosure ≡ some p.enclosure
  pub at_slot : r.slot ≡ some p.slot
  pub runs :
      after.runs ≡ look p ∷ setting step p ∷ (if t.full_supported_actions then look p ∷ [] else [])
  pub modes : (t.maintenance_mode && t.destructive_mode) ≡ true
  pub before : can_be step p.serial_number w.live ≡ true
  pub written : succeeded w.written ≡ true
  pub verified : (not t.full_supported_actions || is_now step p.serial_number w.observed) ≡ true
  pub stored :
      after.log
      ≡ record_operator_action
          (replace_message step p.enclosure p.slot p.serial_number "succeeded")
          none
          log

module _ (w : StepWorld) (step : ReplaceStep) (r : SlotRequest) (p : StepPlan)
    (planned : step_plan w step r ≡ go p) where
  plan_enclosure : r.enclosure ≡ some p.enclosure
  unfolding step_plan
  plan_enclosure = ground arith

  plan_slot : r.slot ≡ some p.slot
  unfolding step_plan
  plan_slot = ground arith

  plan_built : build_step step p.enclosure p.slot ≡ some p.argv
  unfolding step_plan
  plan_built = ground arith

step_setting :
    (step : ReplaceStep) (p : StepPlan)
    → build_step step p.enclosure p.slot ≡ some p.argv
    → p.argv ≡ setting step p
unfolding build_set_offline_command build_set_missing_command on_drive
step_setting offline p built = ground arith
step_setting missing p built = ground arith

plan-IsConfirmed :
    (t : WriteSettings) (w : StepWorld) (step : ReplaceStep) (r : SlotRequest)
    (log : List AuditEvent) (p : StepPlan)
    → step_plan w step r ≡ go p
    → p.dry_run ≡ false
    → (run_plan t w step log (go p)).status ≡ 200
    → IsConfirmed t w step r log p (run_plan t w step log (go p))
unfolding run_plan live_step write_step after_write
plan-IsConfirmed t w step r log p planned real h = record {
  at_enclosure = plan_enclosure w step r p planned;
  at_slot = plan_slot w step r p planned;
  runs = rw (← step_setting step p (plan_built w step r p planned)) (ground arith);
  modes = ground arith;
  before = ground arith;
  written = ground arith;
  verified = ground arith;
  stored = ground arith;
}

-- An answer 200 of a step that is no dry run means that the commands were exactly the look at the
-- requested slot, the step's own command there, and with the full set of actions the look again; that
-- both modes are on, that the controller showed
-- the drive with the typed serial number in a state that allows the step, that it accepted the command,
-- that with the full set of actions it then showed the same drive in the state of the step, and that
-- the success is recorded in front of the audit log.
pub run_replace_step-IsConfirmed :
    (t : WriteSettings) (w : StepWorld) (step : ReplaceStep) (r : SlotRequest)
    (log : List AuditEvent) (p : StepPlan)
    → step_plan w step r ≡ go p
    → p.dry_run ≡ false
    → (run_replace_step t w step r log).status ≡ 200
    → IsConfirmed t w step r log p (run_replace_step t w step r log)
unfolding run_replace_step
run_replace_step-IsConfirmed t w step r log p planned real h =
    rw planned (plan-IsConfirmed t w step r log p planned real (rw planned at h))
