-- ===== src/Storcli/Runner.antt =====
-- `run_storcli` and `check_storcli_prewrite` of src/megaraid_dashboard/storcli/runner.py. Texts of
-- errors are abbreviated.
pub mod Dispatch
pub mod Foreign
pub mod Reads
pub mod Approved
use megaraid_dashboard.Prelude.{
  String, Bool, true, false, not, ◌&&◌, ◌||◌, ◌==◌, Option, none, some, List, [], ◌∷◌, str_eq,
  str_mem, lookup_text, if◌then◌else◌,
}
use megaraid_dashboard.Prelude.Text.{strip, casefold}
use megaraid_dashboard.Storcli.States.{normalize_alarm_state}
use megaraid_dashboard.Storcli.Commands.{with_json_flag, validate_command}
use megaraid_dashboard.Storcli.Json.{Value, get_field, as_text}
use megaraid_dashboard.Storcli.Parser.{not_available, command_failed, Attempt, ok, raised}
use megaraid_dashboard.Storcli.Policy.{CommandPolicy, ApprovedCommand, ReplacementTopology, permits}
use megaraid_dashboard.Storcli.Policy.Actions.{replacement_command_refusal}
use megaraid_dashboard.Storcli.Prewrite.{word_at, check_action_topology, response_at}
use megaraid_dashboard.Storcli.Parser.Controller.{parse_controller_show_all}
use megaraid_dashboard.Storcli.Runner.Dispatch.{
  ◌>>=◌, ◌>>◌, Machine, Trace, Run, lift, guard, or_fail, dispatch, is_show, read, show_all,
}
use megaraid_dashboard.Storcli.Runner.Foreign.{is_controller, check_foreign_safety}

abbrev alarm_states : List (String × List String)
alarm_states =
    ("alarm=on", "Off" ∷ [])
    ∷ ("alarm=off", "On" ∷ "Silenced" ∷ [])
    ∷ ("alarm=silence", "On" ∷ [])
    ∷ []

abbrev in_states : String → Option (List String) → Bool
in_states state none = true
in_states state (some states) = str_mem state states

unfoldable pub alarm_allows : List String → Option String → Bool
alarm_allows args alarm_state =
    in_states (normalize_alarm_state alarm_state) (lookup_text (word_at 2 args) alarm_states)

abbrev activity_states : List (String × String)
activity_states = ("activityforlocate=on", "off") ∷ ("activityforlocate=off", "on") ∷ []

abbrev activity_of : Option Value → Option Value
activity_of none = none
activity_of (some response) = elim (get_field "Policies" response) [
  | none ↦ none
  | some policies ↦ get_field "Use drive activity for locate" policies
]

abbrev is_state : Option String → Option String → Bool
is_state none activity = true
is_state (some state) none = false
is_state (some state) (some activity) = str_eq (casefold (strip activity)) state

unfoldable pub activity_allows : List String → Value → Bool
activity_allows args identity =
    is_state (lookup_text (word_at 2 args) activity_states)
      (as_text (activity_of (response_at identity)))

abbrev topology_allows : List String → Option Value → CommandPolicy → Bool
topology_allows args none policy = false
topology_allows args (some response) policy = check_action_topology args response policy

unfoldable pub foreign_allows :
    Machine → List String → Value → CommandPolicy → Option String → Run (Unit {0})
foreign_allows m args identity policy expected =
    if str_eq (word_at 0 args) "/c0/fall"
    then check_foreign_safety m identity policy expected
    else lift (ok tt)

-- The checks of the live controller.
unfoldable pub live_evidence :
    Machine → List String → CommandPolicy → Option String → Value → Run (Unit {0})
live_evidence m args policy expected identity = do
  controller ← lift (parse_controller_show_all identity)
  guard (is_controller policy controller) (command_failed "Controller identity changed")
  guard (alarm_allows args (some controller.alarm_state))
      (command_failed "Buzzer state is unknown or conflicts")
  guard (activity_allows args identity)
      (command_failed "Locate activity setting is unknown or conflicts")
  guard (topology_allows args (response_at identity) policy)
      (command_failed "Approved local VD/DG topology cannot be verified")
  foreign_allows m args identity policy expected

-- The checks of the policy.
unfoldable pub policy_allows : Machine → List String → CommandPolicy → Run (Unit {0})
policy_allows m args policy = do
  guard (not (replacement_command_refusal policy args)) not_available
  guard (permits policy args) not_available

unfoldable pub check_storcli_prewrite : Machine → List String → Option String → Run (Unit {0})
check_storcli_prewrite m args expected = do
  guard (validate_command args) (command_failed "storcli command is not allowed")
  guard (m.pinned 0) not_available
  policy ← or_fail (m.policies 1) not_available
  policy_allows m args policy
  identity ← read m show_all
  live_evidence m args policy expected identity

abbrev same_topologies : List ReplacementTopology → List ReplacementTopology → Bool
same_topologies [] [] = true
same_topologies (a ∷ rest) (b ∷ more) =
    a.slot == b.slot
    && a.dg == b.dg
    && a.array == b.array
    && a.row == b.row
    && same_topologies rest more
same_topologies _ _ = false

abbrev same_commands : List ApprovedCommand → List ApprovedCommand → Bool
same_commands [] [] = true
same_commands (a ∷ rest) (b ∷ more) =
    str_eq a.command b.command && str_eq a.evidence b.evidence && same_commands rest more
same_commands _ _ = false

unfoldable pub same_policy : CommandPolicy → CommandPolicy → Bool
same_policy p q =
    str_eq p.service_user q.service_user
    && str_eq p.controller_serial q.controller_serial
    && p.virtual_drive == q.virtual_drive
    && p.disk_group == q.disk_group
    && same_topologies p.replacements q.replacements
    && same_commands p.commands q.commands

-- The block before a write.
unfoldable pub authorize : Machine → List String → Option String → Run (Unit {0})
authorize m args expected = do
  approved ← or_fail (m.policies 0) not_available
  check_storcli_prewrite m args expected
  latest ← or_fail (m.policies 2) not_available
  guard (same_policy latest approved) not_available
  guard (m.pinned 1) not_available

unfoldable pub preflight : Machine → Bool → List String → Option String → Run (Unit {0})
preflight m authorized args expected = do
  (if authorized && not (is_show args) then authorize m args expected else lift (ok tt))
  guard (is_show args || m.before_write) not_available

-- `write_sent` is false where the failure comes before the dispatch.
pub record Finished : Type 0 where
  pub result : Attempt Value
  pub write_sent : Option Bool
  pub trace : Trace

abbrev finished : Attempt Value × Trace → Finished
finished (result, t) = record { result = result; write_sent = none; trace = t }

unfoldable pub dispatched : Machine → Bool → List String → Attempt (Unit {0}) × Trace → Finished
dispatched m authorized args (raised e, t) = record {
  result = raised e;
  write_sent = some false;
  trace = t;
}
dispatched m authorized args (ok _, t) =
    finished (dispatch m (authorized && not (is_show args)) args t)

unfoldable pub run_storcli : Machine → Bool → List String → Option String → Finished
run_storcli m authorized args expected =
    let command_args = with_json_flag args in
    if validate_command command_args
    then dispatched m authorized command_args (preflight m authorized command_args expected [])
    else finished (raised (command_failed "storcli command is not allowed"), [])
