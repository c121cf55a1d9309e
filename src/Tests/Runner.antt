-- ===== src/Tests/Runner.antt =====
-- A run of `run_storcli` of storcli/runner.py, and the workflow of a policy.
use megaraid_dashboard.Prelude.{
  inl, ◌≡◌, refl, String, true, false, none, some, List, [], ◌∷◌, arith,
}
use megaraid_dashboard.Prelude.Int.{pos}
use megaraid_dashboard.Prelude.Text.{decimal, strip, lstrip, rstrip, casefold}
use megaraid_dashboard.Prelude.Scan.{read_number, drop_text}
use megaraid_dashboard.Prelude.Words.{ends, words, pieces, contains_text, text_length}
use megaraid_dashboard.Storcli.States.{normalize_alarm_state}
use megaraid_dashboard.Storcli.Commands.{
  validate_command, matches, matches_part, has_space, with_json_flag, join_spaces,
}
use megaraid_dashboard.Storcli.Json.{
  Value, Elements, num, text, arr, obj, Members, no_members, member,
}
use megaraid_dashboard.Storcli.Parser.{
  slot_of_path, ensure_inventory_success, ensure_success, first_controller, response_data,
}
use megaraid_dashboard.Storcli.Parser.Controller.{
  parse_controller_show_all, controller_info, others_valid, field_value, is_datetime,
  before_bracket, read_part, read_year, is_clock,
}
use megaraid_dashboard.Storcli.Responses.{is_write_response}
use megaraid_dashboard.Storcli.Policy.{CommandPolicy, permits}
use megaraid_dashboard.Storcli.Policy.Actions.{
  suffixes, tails, drive_action, drive_command, drive_commands, insert_tail, action_commands,
  action_refusal, refused_step, replacement_refusal, replacement_command_refusal,
}
use megaraid_dashboard.Storcli.Policy.Workflow.{
  IsWhole, drive_path, replacement_command_refusal-IsWhole,
}
use megaraid_dashboard.Storcli.Prewrite.{
  check_action_topology, vd_inventory, is_vd_identity, vd_name,
}
use megaraid_dashboard.Storcli.Runner.{
  run_storcli, dispatched, preflight, authorize, check_storcli_prewrite, policy_allows,
  live_evidence, foreign_allows, alarm_allows, activity_allows, same_policy,
}
use megaraid_dashboard.Storcli.Runner.Dispatch.{
  Machine, exited, dispatch, read, result_of, sudo_blocked,
}
use megaraid_dashboard.Storcli.Runner.Reads.{AllShow}
use megaraid_dashboard.Storcli.Runner.Approved.{
  IsOnlyWrite, has_write, run_storcli-IsApproved, run_storcli-unsent,
}

abbrev rules : CommandPolicy
rules = record {
  service_user = "megaraid";
  controller_serial = "SV30406000";
  virtual_drive = 0;
  disk_group = 0;
  replacements = record { slot = 3; dg = 0; array = 0; row = 3 } ∷ [];
  commands =
      record { command = "/c0/v0 start cc J"; evidence = "help text" }
      ∷ record { command = "/c0/e252/s3 set offline J"; evidence = "help text" }
      ∷ record { command = "/c0/e252/s3 set missing J"; evidence = "help text" }
      ∷ record { command = "/c0/e252/s3 insert dg=0 array=0 row=3 J"; evidence = "help text" }
      ∷ [];
}

not_refused :
    replacement_command_refusal rules (drive_path 3 ∷ "set" ∷ "offline" ∷ "J" ∷ []) ≡ false
unfolding replacement_command_refusal replacement_refusal refused_step action_refusal
    action_commands suffixes tails drive_action drive_commands drive_command insert_tail permits
    ends drop_text slot_of_path words pieces with_json_flag join_spaces decimal
not_refused = refl

replacement_command_refusal-IsWhole_example : IsWhole rules 3
replacement_command_refusal-IsWhole_example =
    replacement_command_refusal-IsWhole rules 3 ("set" ∷ "offline" ∷ "J" ∷ []) (omega arith)
      ("J" ∷ [], inl refl) not_refused

abbrev one : Value → Value
one v = arr (Elements.element v Elements.no_elements)

abbrev virtual_drives : Members → Members
virtual_drives rest =
    member "Virtual Drives" (num (pos 1))
      (member "VD LIST" (one (obj (member "DG/VD" (text "0/0") no_members))) rest)

abbrev basics : Value
basics = obj (
    member "Model" (text "LSI MegaRAID SAS 9270CV-8i") (
      member "Serial Number" (text "SV30406000") (
        member "PCI Address" (text "00:03:00:00")
          (member "Current System Date/time" (text "02/29/2024, 07:05:09") no_members))))

abbrev version : Value
version = obj (
    member "Firmware Version" (text "3.460") (
      member "Bios Version" (text "5.50") (
        member "Driver Name" (text "megaraid_sas")
          (member "Driver Version" (text "07.725") no_members))))

abbrev hwcfg : Value
hwcfg = obj (member "Alarm" (text "On") (member "BBU" (text "Absent") no_members))

abbrev response : Value
response = obj (
    member "Controllers"
      (one (
        obj (
          member "Command Status"
            (obj (member "Controller" (num (pos 0)) (member "Status" (text "Success") no_members)))
            (member "Response Data"
              (obj (
                virtual_drives (
                  member "Basics" basics
                    (member "Version" version (member "HwCfg" hwcfg no_members)))))
              no_members))))
      no_members)

abbrev machine : Machine
machine = record {
  use_sudo = true;
  pinned = λ n. true;
  policies = λ n. some rules;
  process = λ before args. exited true (some response) "";
  before_write = true;
  fingerprint = λ v. "";
}

abbrev check_start : List String
check_start = "/c0/v0" ∷ "start" ∷ "cc" ∷ []

sent : has_write (run_storcli machine true check_start none).trace ≡ true
unfolding run_storcli parse_controller_show_all controller_info others_valid field_value is_datetime
    before_bracket read_part read_year is_clock words pieces text_length ensure_inventory_success
    ensure_success first_controller response_data dispatched dispatch preflight authorize
    check_storcli_prewrite policy_allows live_evidence foreign_allows alarm_allows activity_allows
    read result_of sudo_blocked same_policy contains_text casefold is_write_response
    validate_command matches matches_part has_space with_json_flag join_spaces permits
    replacement_command_refusal check_action_topology vd_inventory is_vd_identity vd_name
    read_number drop_text decimal normalize_alarm_state strip lstrip rstrip
sent = refl

run_storcli-IsApproved_example :
    IsOnlyWrite machine
      (with_json_flag check_start)
      (run_storcli machine true check_start none).trace
run_storcli-IsApproved_example = run_storcli-IsApproved machine check_start none sent

abbrev revoked : Machine
revoked = record machine { before_write = false }

refused : (run_storcli revoked true check_start none).write_sent ≡ some false
unfolding run_storcli parse_controller_show_all controller_info others_valid field_value is_datetime
    before_bracket read_part read_year is_clock words pieces text_length ensure_inventory_success
    ensure_success first_controller response_data dispatched dispatch preflight authorize
    check_storcli_prewrite policy_allows live_evidence foreign_allows alarm_allows activity_allows
    read result_of sudo_blocked same_policy contains_text casefold is_write_response
    validate_command matches matches_part has_space with_json_flag join_spaces permits
    replacement_command_refusal check_action_topology vd_inventory is_vd_identity vd_name
    read_number drop_text decimal normalize_alarm_state strip lstrip rstrip
refused = refl

run_storcli-unsent_example : AllShow (run_storcli revoked true check_start none).trace
run_storcli-unsent_example = run_storcli-unsent revoked true check_start none refused
