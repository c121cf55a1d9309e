-- ===== src/Storcli/Prewrite/Idle.antt =====
-- The proof that no rebuild runs on a drive, of `check_foreign_safety` in
-- src/megaraid_dashboard/storcli/prewrite.py.
use megaraid_dashboard.Prelude.{String, Bool, false, ◌&&◌, Option, none, some, [], ◌∷◌, str_mem}
use megaraid_dashboard.Prelude.Text.{strip, casefold}
use megaraid_dashboard.Storcli.Json.{Value, Elements, arr, obj, member, get_field, as_text}
use megaraid_dashboard.Storcli.Parser.{Attempt, ok, raised}
use megaraid_dashboard.Storcli.Prewrite.{response_at}
use megaraid_dashboard.Services.DriveActions.Rebuild.{RebuildStatus, parse_rebuild_status}

abbrev first_row : Value → Option Value
first_row (arr (Elements.element row rows)) = some row
first_row other = none

-- The first row of the list, or of the first table.
abbrev proof_row : Option Value → Option Value
proof_row (some (obj (member name rows others))) = first_row rows
proof_row (some rows) = first_row rows
proof_row none = none

-- The first of the two names that is there.
abbrev alias_value : Value → Option Value
alias_value row = elim (get_field "Status" row) [ some v ↦ some v | none ↦ get_field "State" row ]

abbrev is_idle_word : Option String → Bool
is_idle_word none = false
is_idle_word (some s) =
    str_mem (casefold (strip s))
      ("not in progress" ∷ "idle" ∷ "none" ∷ "complete" ∷ "completed" ∷ [])

-- `_IdleRebuildProof`.
unfoldable pub is_idle_proof : Option Value → Bool
is_idle_proof none = false
is_idle_proof (some row) = is_idle_word (as_text (alias_value row))

abbrev idle_status : Value → Attempt RebuildStatus → Attempt Bool
idle_status payload (raised e) = raised e
idle_status payload (ok status) = ok (
    str_mem status.state ("Not in progress" ∷ "Complete" ∷ [])
    && is_idle_proof (proof_row (response_at payload)))

unfoldable pub is_idle : Value → String → Attempt Bool
is_idle payload path = idle_status payload (parse_rebuild_status payload (some path))
