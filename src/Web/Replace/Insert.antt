-- ===== src/Web/Replace/Insert.antt =====
-- `drive_replace_insert` of src/megaraid_dashboard/web/routes.py: the third step.
use Prim.Native.String.{◌++◌ as cat}
use megaraid_dashboard.Prelude.{
  ℕ, String, Bool, false, not, ◌||◌, Option, none, some, List, [], ◌∷◌, str_eq, if◌then◌else◌,
}
use megaraid_dashboard.Prelude.Int.{ℤ, pos}
use megaraid_dashboard.Prelude.Text.{decimal}
use megaraid_dashboard.Storcli.Policy.{CommandPolicy}
use megaraid_dashboard.Services.DriveActions.{
  Command, validate_enclosure_slot, drive_path, build_insert_replacement_command,
}
use megaraid_dashboard.Services.DriveActions.Guards.{can_transition_step3}
use megaraid_dashboard.Web.Replace.{
  AuditEvent, DriveShow, Reply, ok, err, WriteSettings, SlotRequest, Response, Check, go, refuse,
  ◌>>=◌, ◌>>◌, guard, or_refuse, answer, recorded, parse_query_dry_run, slot_token, failed_outcome,
  precheck_outcome, load_last_operator_action_for_slot, extract_serial_from_audit,
}
use megaraid_dashboard.Web.Replace.Topology.{
  SlotTopology, DriveRow, approved_topology, derived_topology,
}

-- What the request meets: the latest row of the slot's drive, what the topology is derived from, what
-- the controller shows before the command, its answer, and whether the audit is stored.
pub record InsertWorld : Type 0 where
  pub snapshot : ℤ → ℤ → Option DriveShow
  pub policy : CommandPolicy
  pub last_known_group : ℤ → ℤ → Option ℕ
  pub rows : List DriveRow
  pub live : Reply DriveShow
  pub written : Reply (Unit {0})
  pub audit_stored : Bool

abbrev pub slot_topology : WriteSettings → InsertWorld → ℤ → ℤ → Option SlotTopology
slot_topology s w (pos e) (pos n) =
    if s.full_supported_actions
    then approved_topology w.policy (e, n)
    else derived_topology (w.last_known_group (pos e) (pos n)) w.rows (e, n)
slot_topology s w enclosure slot = none

pub record InsertPlan : Type 0 where
  pub enclosure : ℤ
  pub slot : ℤ
  pub serial_number : String
  pub dry_run : Bool
  pub topology : SlotTopology
  pub argv : Command

abbrev pub last_summary : Option AuditEvent → Option String
last_summary none = none
last_summary (some e) = some e.summary

abbrev message_or_empty : Option String → String
message_or_empty none = ""
message_or_empty (some m) = m

abbrev is_serial : String → Option String → Bool
is_serial serial none = false
is_serial serial (some s) = str_eq serial s

unfoldable pub insert_command : ℤ → ℤ → SlotTopology → Option Command
insert_command enclosure slot t =
    build_insert_replacement_command enclosure slot (pos t.dg) (pos t.array) (pos t.row)

-- The checks up to the command line.
unfoldable pub insert_plan :
    WriteSettings → InsertWorld → SlotRequest → List AuditEvent → Check InsertPlan
insert_plan s w r log = do
  enclosure ← or_refuse r.enclosure 400 "enclosure and slot must be integers"
  slot ← or_refuse r.slot 400 "enclosure and slot must be integers"
  guard (validate_enclosure_slot enclosure slot) 400 "must be int in [0, 255]"
  query_dry_run ←
      or_refuse (parse_query_dry_run r.query_dry_run) 400
        "dry_run query parameter must be a boolean"
  body ← or_refuse r.body 400 "invalid request body"
  drive ← or_refuse (w.snapshot enclosure slot) 404 "no snapshot for slot"
  let last_audit =
      last_summary (load_last_operator_action_for_slot s.full_supported_actions enclosure slot log)
  guard (can_transition_step3 last_audit) 409 "must complete replace step missing before insert"
  let outgoing_serial = extract_serial_from_audit (message_or_empty last_audit)
  guard (not (is_serial body.serial_number outgoing_serial)) 409
      "supplied serial matches the OUTGOING drive"
  guard
      (str_eq drive.serial_number body.serial_number
        || is_serial drive.serial_number outgoing_serial)
      409 "serial mismatch (replacement drive)"
  topology ←
      or_refuse (slot_topology s w enclosure slot) 409 "unable to derive insert topology for slot"
  argv ← or_refuse (insert_command enclosure slot topology) 400 "must be int"
  go (record {
    enclosure = enclosure;
    slot = slot;
    serial_number = body.serial_number;
    dry_run = body.dry_run || query_dry_run;
    topology = topology;
    argv = argv;
  })

unfoldable pub insert_message : InsertPlan → String → String
insert_message p outcome = cat "replace step insert " (
    cat (slot_token p.enclosure p.slot) (
      cat " serial " (
        cat p.serial_number (
          cat " dg=" (
            cat (decimal p.topology.dg) (
              cat " array=" (
                cat (decimal p.topology.array)
                  (cat " row=" (cat (decimal p.topology.row) (cat " " outcome))))))))))

abbrev pub show_live : InsertPlan → Command
show_live p = drive_path p.enclosure p.slot ∷ "show" ∷ "all" ∷ "J" ∷ []

unfoldable pub after_insert :
    InsertWorld → InsertPlan → List AuditEvent → Reply (Unit {0}) → Response
after_insert w p log (ok _) =
    recorded w.audit_stored (insert_message p "succeeded") none 200 "" (show_live p ∷ p.argv ∷ [])
      log
after_insert w p log (err class text) =
    recorded w.audit_stored (insert_message p (failed_outcome class text)) none 502
      "storcli command failed" (show_live p ∷ p.argv ∷ []) log

unfoldable pub live_insert : InsertWorld → InsertPlan → List AuditEvent → Reply DriveShow → Response
live_insert w p log (err class text) =
    recorded w.audit_stored (insert_message p (precheck_outcome text)) (some "replace_insert") 502
      "storcli precheck failed" (show_live p ∷ []) log
live_insert w p log (ok live) =
    if not (str_eq live.serial_number p.serial_number)
    then answer 409 "live serial mismatch (replacement drive)" (show_live p ∷ []) log
    else if not (str_eq live.state "UGood")
    then answer 409 "replacement insert requires a live UGood drive" (show_live p ∷ []) log
    else after_insert w p log w.written

unfoldable pub run_insert :
    WriteSettings → InsertWorld → List AuditEvent → Check InsertPlan → Response
run_insert s w log (refuse status error) = answer status error [] log
run_insert s w log (go p) =
    if p.dry_run
    then answer 200 "" [] log
    else if not s.maintenance_mode || not s.destructive_mode
    then answer 403 "destructive operations require maintenance_mode and destructive_mode" [] log
    else live_insert w p log w.live

unfoldable pub drive_replace_insert :
    WriteSettings → InsertWorld → SlotRequest → List AuditEvent → Response
drive_replace_insert s w r log = run_insert s w log (insert_plan s w r log)
