-- ===== src/Tests/Replace.antt =====
-- Runs of the replacement of a drive, web/routes.py, and of the builders of drive_actions.py.
use megaraid_dashboard.Prelude.{
  ◌≡◌, refl, inl, String, true, false, ◌==◌, none, some, List, [], ◌∷◌, arith,
}
use megaraid_dashboard.Prelude.Int.{pos}
use megaraid_dashboard.Prelude.Text.{decimal_ℤ, decimal, strip, casefold}
use megaraid_dashboard.Prelude.Words.{contains_text, ends, words, pieces, read_word, span_word}
use megaraid_dashboard.Prelude.Words.Laws.{is_solid}
use megaraid_dashboard.Prelude.Scan.{read_number, drop_text}
use megaraid_dashboard.Storcli.States.{normalized_state, alias}
use megaraid_dashboard.Tests.Commands.{policy}
use megaraid_dashboard.Services.DriveActions
use megaraid_dashboard.Services.DriveActions.{missing, validate_enclosure_slot, drive_path}
use megaraid_dashboard.Services.DriveActions.Guards.{
  can_transition, can_transition_step3, replace_step_missing_success,
}
use megaraid_dashboard.Services.DriveActions.Allowed.{make_hot_spare, build, build-IsJudged}
use megaraid_dashboard.Services.DriveActions.Allowed.Drives.{IsJudged}
use megaraid_dashboard.Web.Replace.{
  AuditEvent, SlotRequest, DriveShow, ok, WriteSettings, Response, go,
  load_last_operator_action_for_slot, is_action_for_slot, slot_token, extract_serial_from_audit,
  parse_query_dry_run,
}
use megaraid_dashboard.Web.Replace.Steps
use megaraid_dashboard.Web.Replace.Steps.{StepWorld, StepPlan}
use megaraid_dashboard.Web.Replace.Insert
use megaraid_dashboard.Web.Replace.Insert.{InsertWorld}
use megaraid_dashboard.Web.Replace.Gate.{IsWord}
use megaraid_dashboard.Web.Replace.Gate.Missing.{gate, run_replace_step-gate}
use megaraid_dashboard.Web.Replace.Confirmed.{IsConfirmed, run_replace_step-IsConfirmed}
use megaraid_dashboard.Web.Replace.Authorized.{IsLook, drive_replace_insert-refused}

hot_spare_built :
    build (make_hot_spare (pos 252) (pos 3) (pos 0))
    ≡ some ("/c0/e252/s3" ∷ "add" ∷ "hotsparedrive" ∷ "dgs=0" ∷ [])
unfolding build DriveActions.build_make_hot_spare_command validate_enclosure_slot drive_path
    decimal_ℤ decimal
hot_spare_built = refl

build-IsJudged_example :
    IsJudged true false ("/c0/e252/s3" ∷ "add" ∷ "hotsparedrive" ∷ "dgs=0" ∷ [])
build-IsJudged_example =
    build-IsJudged (make_hot_spare (pos 252) (pos 3) (pos 0))
      ("/c0/e252/s3" ∷ "add" ∷ "hotsparedrive" ∷ "dgs=0" ∷ []) hot_spare_built

abbrev writing : WriteSettings
writing = record { maintenance_mode = true; destructive_mode = true; full_supported_actions = true }

abbrev request : String → SlotRequest
request serial = record {
  enclosure = some (pos 252);
  slot = some (pos 3);
  query_dry_run = none;
  body = some (record { serial_number = serial; dry_run = false });
}

abbrev drive : String → String → DriveShow
drive serial state = record { serial_number = serial; state = state }

abbrev world : StepWorld
world = record {
  snapshot = λ e s. some (drive "W1" "Offln");
  live = ok (drive "W1" "Offln");
  written = ok tt;
  observed = ok (drive "W1" "Msng");
  audit_stored = true;
}

abbrev plan : StepPlan
plan = record {
  enclosure = pos 252;
  slot = pos 3;
  serial_number = "W1";
  dry_run = false;
  snapshot_state = "Offln";
  argv = "/c0/e252/s3" ∷ "set" ∷ "missing" ∷ "J" ∷ [];
}

planned : Steps.step_plan world missing (request "W1") ≡ go plan
unfolding Steps.step_plan validate_enclosure_slot parse_query_dry_run
    DriveActions.build_set_missing_command DriveActions.on_drive drive_path decimal_ℤ decimal
planned = refl

abbrev answered : Response
answered = Steps.run_replace_step writing world missing (request "W1") []

done : answered.status ≡ 200
unfolding Steps.run_replace_step Steps.step_plan Steps.run_plan Steps.live_step Steps.write_step
    Steps.after_write validate_enclosure_slot parse_query_dry_run
    DriveActions.build_set_missing_command DriveActions.on_drive drive_path decimal_ℤ decimal
    can_transition normalized_state alias strip casefold
done = refl

w1-IsWord : IsWord "W1"
unfolding is_solid
w1-IsWord = record { solid = refl; some_character = refl }

run_replace_step-gate_example : gate true (pos 252) (pos 3) answered.log ≡ (answered.status == 200)
run_replace_step-gate_example =
    run_replace_step-gate writing world (request "W1") plan [] planned refl w1-IsWord (inl done)

run_replace_step-IsConfirmed_example :
    IsConfirmed writing world missing (request "W1") [] plan answered
run_replace_step-IsConfirmed_example =
    run_replace_step-IsConfirmed writing world missing (request "W1") [] plan planned refl done

abbrev new_world : InsertWorld
new_world = record {
  snapshot = λ e s. some (drive "W1" "Offln");
  policy = policy;
  last_known_group = λ e s. none;
  rows = [];
  live = ok (drive "W2" "UGood");
  written = ok tt;
  audit_stored = true;
}

abbrev audit : List AuditEvent
audit =
    (record {
      category = "operator_action";
      summary = "replace step missing drive 252:3 serial W1 succeeded";
      read_only_precheck = none;
    })
    ∷ []

abbrev inserted : String → Response
inserted serial = Insert.drive_replace_insert writing new_world (request serial) audit

refused_status : (inserted "W1").status ≡ 409
unfolding Insert.drive_replace_insert Insert.insert_plan Insert.run_insert validate_enclosure_slot
    parse_query_dry_run load_last_operator_action_for_slot is_action_for_slot slot_token casefold
    contains_text ends can_transition_step3 replace_step_missing_success read_number drop_text
    read_word span_word extract_serial_from_audit words pieces decimal_ℤ decimal
refused_status = refl

drive_replace_insert-refused_example :
    IsLook (Insert.insert_plan writing new_world (request "W1") audit) (inserted "W1").runs
    × ((inserted "W1").log ≡ audit)
drive_replace_insert-refused_example =
    drive_replace_insert-refused writing new_world (request "W1") audit
      (omega (arith, refused_status)) (omega (arith, refused_status))
