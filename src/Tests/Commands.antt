-- ===== src/Tests/Commands.antt =====
-- A policy with two commands.
use megaraid_dashboard.Prelude.{◌≡◌, refl, String, true, List, [], ◌∷◌}
use megaraid_dashboard.Prelude.Text.{decimal}
use megaraid_dashboard.Prelude.Scan.{split_spaces, read_number, drop_text}
use megaraid_dashboard.Storcli.Commands.{
  validate_command, matches, matches_part, has_space, with_json_flag, join_spaces,
}
use megaraid_dashboard.Storcli.Policy.{
  CommandPolicy, validate_commands, commands_are_valid, command_is_valid, fields_in_bounds,
  is_service_account, user_rest, has_duplicate_slot, drive_slot, permits,
}
use megaraid_dashboard.Storcli.Policy.Permitted.{IsReviewed, permits-IsReviewed}

abbrev pub policy : CommandPolicy
policy = record {
  service_user = "megaraid";
  controller_serial = "SV30406000";
  virtual_drive = 0;
  disk_group = 0;
  replacements = record { slot = 3; dg = 0; array = 0; row = 3 } ∷ [];
  commands =
      record { command = "/c0/e252/s3 start locate J"; evidence = "help text" }
      ∷ record { command = "/c0/e252/s3 insert dg=0 array=0 row=3 J"; evidence = "help text" }
      ∷ [];
}

policy-valid : validate_commands policy ≡ true
unfolding validate_commands fields_in_bounds is_service_account user_rest has_duplicate_slot
    commands_are_valid command_is_valid validate_command split_spaces has_space matches matches_part
    drop_text read_number drive_slot decimal
policy-valid = refl

abbrev insertion : List String
insertion = "/c0/e252/s3" ∷ "insert" ∷ "dg=0" ∷ "array=0" ∷ "row=3" ∷ []

insertion-permitted : permits policy insertion ≡ true
unfolding permits join_spaces with_json_flag
insertion-permitted = refl

permits-IsReviewed_example :
    IsReviewed policy (split_spaces (join_spaces (with_json_flag insertion)))
permits-IsReviewed_example = permits-IsReviewed policy insertion policy-valid insertion-permitted
