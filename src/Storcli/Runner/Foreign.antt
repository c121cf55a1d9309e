-- ===== src/Storcli/Runner/Foreign.antt =====
-- `check_foreign_safety` of src/megaraid_dashboard/storcli/prewrite.py.
use Prim.Native.String.{◌++◌ as cat}
use megaraid_dashboard.Prelude.{
  String, Bool, not, ◌&&◌, Option, none, some, List, [], ◌∷◌, str_eq, if◌then◌else◌,
}
use megaraid_dashboard.Prelude.Text.{decimal}
use megaraid_dashboard.Storcli.Json.{Value}
use megaraid_dashboard.Storcli.Parser.{Error, command_failed, Attempt, ok, raised}
use megaraid_dashboard.Storcli.Policy.{CommandPolicy}
use megaraid_dashboard.Storcli.Prewrite.{
  Drive, is_read_response, physical_inventory, same_inventory,
}
use megaraid_dashboard.Storcli.Prewrite.Idle.{is_idle}
use megaraid_dashboard.Storcli.Models.{ForeignConfig}
use megaraid_dashboard.Storcli.Parser.Foreign.{parse_foreign_config}
use megaraid_dashboard.Storcli.Parser.Controller.{ControllerIdentity, parse_controller_show_all}
use megaraid_dashboard.Storcli.Runner.Dispatch.{
  ◌>>=◌, ◌>>◌, Machine, Trace, Run, lift, guard, or_fail, read, show_all,
}

abbrev pub show_foreign : List String
show_foreign = "/c0/fall" ∷ "show" ∷ "all" ∷ "J" ∷ []

abbrev pub drive_target : Drive → String
drive_target d = cat "/c0/e252/s" (decimal d.slot)

abbrev pub show_rebuild : Drive → List String
show_rebuild d = drive_target d ∷ "show" ∷ "rebuild" ∷ "J" ∷ []

abbrev pub refused : Error
refused = command_failed "Foreign action refused"

abbrev pub is_digest : String → ForeignConfig → Bool
is_digest expected config = config.present && str_eq config.digest expected

unfoldable pub foreign_evidence : Machine → String → Value → Run (Unit {0})
foreign_evidence m expected payload = do
  guard (is_read_response payload) refused
  config ← lift (parse_foreign_config m.fingerprint payload)
  guard (is_digest expected config) refused

-- The loop over the drives.
unfoldable pub rebuilds_idle : Machine → List Drive → Run (Unit {0})
rebuilds_idle m [] = lift (ok tt)
rebuilds_idle m (d ∷ ds) = do
  guard (not (str_eq d.state "Rbld")) refused
  payload ← read m (show_rebuild d)
  guard (is_read_response payload) refused
  idle ← lift (is_idle payload (drive_target d))
  guard idle refused
  rebuilds_idle m ds

abbrev pub is_controller : CommandPolicy → ControllerIdentity → Bool
is_controller policy c =
    str_eq c.serial_number policy.controller_serial
    && str_eq c.model_name "LSI MegaRAID SAS 9270CV-8i"

-- The checks in the `try` block.
unfoldable pub foreign_checks : Machine → Value → CommandPolicy → String → Run (Unit {0})
foreign_checks m identity policy expected = do
  inventory ← or_fail (physical_inventory identity) refused
  before ← read m show_foreign
  foreign_evidence m expected before
  rebuilds_idle m inventory
  current ← read m show_all
  controller ← lift (parse_controller_show_all current)
  guard (is_controller policy controller) refused
  latest ← or_fail (physical_inventory current) refused
  guard (same_inventory inventory latest) refused
  foreign ← read m show_foreign
  foreign_evidence m expected foreign

-- No `TypeError` gets here: each response is checked before it is read.
abbrev pub refusing : Attempt (Unit {0}) × Trace → Attempt (Unit {0}) × Trace
refusing (ok u, t) = (ok u, t)
refusing (raised e, t) = (raised refused, t)

unfoldable pub check_foreign_safety :
    Machine → Value → CommandPolicy → Option String → Run (Unit {0})
check_foreign_safety m identity policy none t =
    (raised (command_failed "Foreign confirmation is missing"), t)
check_foreign_safety m identity policy (some expected) t =
    if str_eq expected ""
    then (raised (command_failed "Foreign confirmation is missing"), t)
    else refusing (foreign_checks m identity policy expected t)
