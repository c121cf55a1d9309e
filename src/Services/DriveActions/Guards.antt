-- ===== src/Services/DriveActions/Guards.antt =====
-- The guards of src/megaraid_dashboard/services/drive_actions.py on the state of a drive and on the
-- last audit message of its slot.
use megaraid_dashboard.Prelude.{
  String, Bool, false, ◌&&◌, Option, none, some, List, [], ◌∷◌, str_eq, str_mem,
}
use megaraid_dashboard.Prelude.Scan.{read_number, drop_text, ◌>>=◌}
use megaraid_dashboard.Prelude.Words.{read_word}
use megaraid_dashboard.Services.DriveActions.{ReplaceStep, offline, missing}

abbrev pub offline_allowed_states : List String
offline_allowed_states = "Onln" ∷ "Offln" ∷ "Failed" ∷ "UBad" ∷ "UGood" ∷ []

abbrev pub missing_allowed_states : List String
missing_allowed_states = "Offln" ∷ []

abbrev pub spin_down_allowed_states : List String
spin_down_allowed_states = "UGood" ∷ "UBad" ∷ []

unfoldable pub can_transition : String → ReplaceStep → Bool
can_transition current_state offline = str_mem current_state offline_allowed_states
can_transition current_state missing = str_mem current_state missing_allowed_states

unfoldable pub can_mark_ubad : String → Bool
can_mark_ubad current_state = str_eq current_state "UGood"

unfoldable pub can_mark_ugood : String → Bool
can_mark_ugood current_state = str_eq current_state "UBad"

unfoldable pub can_spin_down : String → Bool
can_spin_down current_state = str_mem current_state spin_down_allowed_states

unfoldable pub can_make_hot_spare : String → Bool → Bool
can_make_hot_spare current_state has_existing_dgs = str_eq current_state "UGood" && has_existing_dgs

abbrev is_rest : String → Option (String × String) → Bool
is_rest expected none = false
is_rest expected (some (w, rest)) = str_eq rest expected

-- What follows the first number, the text and the second number.
abbrev after_slot : String → Option String
after_slot m =
    read_number false 0 m
    >>= (λ (e, r). drop_text ":" r >>= (λ r'. read_number false 0 r' >>= (λ (s, r''). some r'')))

-- `^replace step missing drive \d+:\d+ serial \S+ succeeded\Z`; no character of a word is a space, so
-- that no match gives back what it has read.
unfoldable pub replace_step_missing_success : String → Bool
replace_step_missing_success m = is_rest " succeeded" (
    drop_text "replace step missing drive " m
    >>= (λ r. after_slot r >>= (λ r'. drop_text " serial " r' >>= read_word)))

unfoldable pub can_transition_step3 : Option String → Bool
can_transition_step3 none = false
can_transition_step3 (some latest_audit_message) = replace_step_missing_success latest_audit_message
