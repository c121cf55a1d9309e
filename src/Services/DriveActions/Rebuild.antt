-- ===== src/Services/DriveActions/Rebuild.antt =====
-- `parse_rebuild_status` of src/megaraid_dashboard/services/drive_actions.py; the remaining time is
-- left out.
use megaraid_dashboard.Prelude.{
  ℕ, String, Bool, true, false, not, ◌&&◌, ◌||◌, ◌==◌, leb, ltb, Option, none, some, List, [], ◌∷◌,
  str_eq, str_mem, any_of, if◌then◌else◌,
}
use megaraid_dashboard.Prelude.Int.{pos}
use megaraid_dashboard.Prelude.Text.{strip, casefold}
use megaraid_dashboard.Prelude.Scan.{read_number, drop_text}
use megaraid_dashboard.Prelude.Words.{contains_text, text_length}
use megaraid_dashboard.Storcli.Commands.{is_drive}
use megaraid_dashboard.Storcli.Json.{
  Elements, Value, null, num, text, arr, obj, Members, no_members, member, get_field, lookup_field,
  as_fields,
}
use megaraid_dashboard.Storcli.Parser.{
  parse_error, command_failed, Attempt, ok, raised, ◌>>=◌, or_error, ensure_command_succeeded,
  command_err_msg,
}

pub record RebuildStatus : Type 0 where
  pub percent_complete : Option ℕ
  pub state : String

abbrev only_controller : Option Value → Option Members
only_controller (some (arr (Elements.element (obj controller) Elements.no_elements))) =
    some controller
only_controller other = none

abbrev says_failure : Option Value → Bool
says_failure (some (text s)) = str_eq (casefold s) "failure"
says_failure other = false

abbrev reported : Option Members → Option Value → Bool → Attempt Value
reported (some status) data_ allow_list =
    if says_failure (lookup_field "Status" status)
    then raised (command_failed (command_err_msg status))
    else elim data_ [
      | some (obj fs) ↦ ok (obj fs)
      | some (arr vs) ↦ if allow_list then ok (arr vs) else raised parse_error
      | other ↦ raised parse_error
    ]
reported none data_ allow_list = elim data_ [
  | some (obj fs) ↦ ok (obj fs)
  | some (arr vs) ↦ if allow_list then ok (arr vs) else raised parse_error
  | other ↦ raised parse_error
]

unfoldable pub single_controller_response_data : Value → Bool → Attempt Value
single_controller_response_data payload allow_list =
    or_error (only_controller (get_field "Controllers" payload)) parse_error
    >>= (λ (controller : Members).
        reported (as_fields (lookup_field "Command Status" controller))
          (lookup_field "Response Data" controller) allow_list)

-- `Drive (/c0/e\d+/s\d+) - Rebuild Progress`: the path in the middle.
abbrev up_to : String → String → Option String
up_to suffix String.[] = if str_eq suffix "" then some "" else none
up_to suffix (String.◌∷◌ c s) =
    if str_eq suffix (String.◌∷◌ c s)
    then some ""
    else elim (up_to suffix s) [ none ↦ none | some middle ↦ some (String.◌∷◌ c middle) ]

abbrev a_drive : String → Option String
a_drive path = if is_drive path then some path else none

abbrev table_of : Option String → Option String
table_of none = none
table_of (some rest) = elim (up_to " - Rebuild Progress" rest) [
  | none ↦ none
  | some path ↦ a_drive path
]

unfoldable pub table_drive : String → Option String
table_drive name = table_of (drop_text "Drive " name)

-- The drive that the table names, and its rows.
unfoldable pub rebuild_table : Value → Attempt (Option String × Value)
rebuild_table (obj (member name rows no_members)) = elim (table_drive name) [
  | none ↦ raised parse_error
  | some drive ↦ ok (some drive, rows)
]
rebuild_table (obj other) = raised parse_error
rebuild_table rows = ok (none, rows)

abbrev only_row : Value → Attempt Members
only_row (arr (Elements.element (obj row) Elements.no_elements)) = ok row
only_row other = raised parse_error

abbrev is_or_absent : String → Option String → Bool
is_or_absent drive none = true
is_or_absent drive (some table) = str_eq drive table

-- The drive that the row names, or else its table.
unfoldable pub drive_id_of : Members → Option String → Attempt (Option String)
drive_id_of row table = elim (lookup_field "Drive-ID" row) [
  | none ↦ ok table
  | some (text drive) ↦
      if is_drive drive && is_or_absent drive table then ok (some drive) else raised parse_error
  | other ↦ raised parse_error
]

abbrev is_requested : Option String → Option String → Bool
is_requested none drive = true
is_requested (some requested) none = false
is_requested (some requested) (some drive) = str_eq drive requested

abbrev percent_rest : String → Option (ℕ × String) → Option ℕ
percent_rest raw none = none
percent_rest raw (some (n, rest)) =
    if (str_eq rest "" && leb (text_length raw) 3) || (str_eq rest "%" && leb (text_length raw) 4)
    then if leb n 100 then some n else none
    else none

-- `\d{1,3}%?` up to 100.
unfoldable pub percent_of : String → Option ℕ
percent_of raw = percent_rest raw (read_number false 0 raw)

unfoldable pub parse_percent : Option Value → Attempt (Option ℕ)
parse_percent none = ok none
parse_percent (some null) = ok none
parse_percent (some (num (pos n))) = if leb n 100 then ok (some n) else raised parse_error
parse_percent (some (text s)) =
    if str_mem s ("" ∷ "-" ∷ "N/A" ∷ [])
    then ok none
    else elim (percent_of s) [ none ↦ raised parse_error | some n ↦ ok (some n) ]
parse_percent (some other) = raised parse_error

-- `row.get("Status", row.get("State"))`.
unfoldable pub explicit_state : Members → Attempt (Option String)
explicit_state row = elim (lookup_field "Status" row) [
  | some (text s) ↦ ok (some s)
  | some null ↦ ok none
  | some other ↦ raised parse_error
  | none ↦ elim (lookup_field "State" row) [
    | none ↦ ok none
    | some null ↦ ok none
    | some (text s) ↦ ok (some s)
    | some other ↦ raised parse_error
  ]
]

abbrev holds_one : List String → String → Bool
holds_one parts s = any_of (λ (part : String). contains_text part s) parts

abbrev or_blank : Option String → String
or_blank none = ""
or_blank (some s) = s

abbrev is_hundred : Option ℕ → Bool
is_hundred none = false
is_hundred (some n) = n == 100

abbrev is_between : Option ℕ → Bool
is_between none = false
is_between (some n) = ltb 0 n && ltb n 100

unfoldable pub normalize_rebuild_state : Option String → Option ℕ → String
normalize_rebuild_state raw_state percent =
    let lowered = casefold (strip (or_blank raw_state)) in
    if holds_one ("not" ∷ "none" ∷ "idle" ∷ []) lowered
    then "Not in progress"
    else if holds_one ("fail" ∷ "abort" ∷ "stop" ∷ []) lowered
    then "Unknown"
    else if str_mem lowered ("complete" ∷ "completed" ∷ []) && is_hundred percent
    then "Complete"
    else if holds_one ("progress" ∷ "rebuild" ∷ "rbld" ∷ "active" ∷ []) lowered
    then "In progress"
    else if is_between percent
    then "In progress"
    else "Unknown"

abbrev has_progress : Option ℕ → Option String → Bool
has_progress (some n) state = true
has_progress none none = false
has_progress none (some s) = not (str_eq s "")

abbrev known_status : Option ℕ → Option String → Attempt RebuildStatus
known_status percent state =
    if has_progress percent state
    then ok (record { percent_complete = percent; state = normalize_rebuild_state state percent })
    else raised parse_error

-- The row of a report, once its drive is the requested one.
unfoldable pub requested_row : Members → Option String → Option String → Attempt Members
requested_row row table requested = drive_id_of row table >>= (λ (drive : Option String).
    if is_requested requested drive then ok row else raised parse_error)

unfoldable pub parse_rebuild_status : Value → Option String → Attempt RebuildStatus
parse_rebuild_status payload requested_drive =
    single_controller_response_data payload true >>= (λ (response : Value).
      ensure_command_succeeded payload >>= (λ _. rebuild_table response >>= (λ (table, rows).
        only_row rows >>= (λ (row : Members).
          requested_row row table requested_drive >>= (λ (r : Members).
            parse_percent (lookup_field "Progress%" r) >>= (λ (percent : Option ℕ).
              explicit_state r >>= (λ (state : Option String). known_status percent state)))))))
