-- ===== src/Storcli/Parser.antt =====
-- The status and the drive of a response, src/megaraid_dashboard/storcli/parser.py.
pub mod Controller
pub mod Foreign
pub mod Sizes
use Prim.Native.String.{◌++◌ as cat}
use megaraid_dashboard.Prelude.{
  String, Bool, true, false, not, ◌&&◌, Option, none, some, List, [], ◌∷◌, ◌==◌, str_eq,
  if◌then◌else◌,
}
use megaraid_dashboard.Prelude.Int.{pos}
use megaraid_dashboard.Prelude.Text.{strip, casefold}
use megaraid_dashboard.Prelude.Scan.{drop_text}
use megaraid_dashboard.Prelude.Words.{begins, ends}
use megaraid_dashboard.Storcli.Json.{
  Value, bool, num, text, obj, Members, no_members, get_field, lookup_field, fields_of, as_items,
  as_fields, as_text, as_count,
}
use megaraid_dashboard.Storcli.Models.{DriveShow}

-- The classes of storcli/exceptions.py, and Python's `TypeError`; a failed command carries the
-- controller's message.
pub data Error : Type 0 where
  parse_error not_available type_error : Error
  command_failed : String → Error
  response_failed : Value → Error

pub data Attempt {ℓ} (A : Type ℓ) : Type ℓ where
  raised : Error → Attempt A
  ok : A → Attempt A

infixl 5 ◌>>=◌
abbrev pub ◌>>=◌ {ℓ κ} : {A : Type ℓ} {B : Type κ} → Attempt A → (A → Attempt B) → Attempt B
raised e >>= next = raised e
ok value >>= next = next value

abbrev pub or_error {ℓ} : {A : Type ℓ} → Option A → Error → Attempt A
or_error none e = raised e
or_error (some a) e = ok a

abbrev first : List Value → Option Value
first [] = none
first (v ∷ vs) = some v

abbrev first_item : Option (List Value) → Option Value
first_item none = none
first_item (some vs) = first vs

unfoldable pub first_controller : Value → Attempt Members
first_controller payload =
    or_error (as_fields (first_item (as_items (get_field "Controllers" payload)))) parse_error

abbrev pub or_empty : Option Value → Value
or_empty none = obj no_members
or_empty (some v) = v

-- `_mapping(controller.get(k, {}))`; `TypeError` is `none`.
abbrev pub mapping_at : String → Members → Option Members
mapping_at k controller = as_fields (some (or_empty (lookup_field k controller)))

unfoldable pub response_data : Members → Attempt Members
response_data controller = or_error (mapping_at "Response Data" controller) parse_error

-- `str(status.get("Status", "")).strip().casefold()`; the text of a value that is no text is not one
-- of the words that it is compared with.
abbrev pub status_word : Members → String
status_word status = elim (lookup_field "Status" status) [
  | some (text s) ↦ casefold (strip s)
  | other ↦ ""
]

-- none is the `TypeError` of a status that is no object.
abbrev pub is_failure : Option Members → Option Bool
is_failure none = none
is_failure (some status) = some (str_eq (status_word status) "failure")

unfoldable pub command_failed_status : Members → Option Bool
command_failed_status controller = is_failure (mapping_at "Command Status" controller)

abbrev nonempty : Option Value → Option String
nonempty (some (text s)) = if str_eq s "" then none else some s
nonempty other = none

abbrev err_msg_of : List Value → Option String
err_msg_of [] = none
err_msg_of (v ∷ vs) = elim (nonempty (get_field "ErrMsg" v)) [
  | some m ↦ some m
  | none ↦ err_msg_of vs
]

abbrev or_items : Option (List Value) → List Value
or_items none = []
or_items (some vs) = vs

abbrev either : Option String → Option String → Option String
either (some m) n = some m
either none n = n

abbrev or_unknown : Option String → String
or_unknown none = "unknown error"
or_unknown (some m) = m

-- The message is a text wherever it is given.
unfoldable pub command_err_msg : Members → String
command_err_msg status = or_unknown (
    either (err_msg_of (or_items (as_items (lookup_field "Detailed Status" status)))) (
      either (nonempty (lookup_field "Description" status))
        (nonempty (lookup_field "Status" status))))

abbrev pub or_same_members : Members → Option Members → Members
or_same_members m none = m
or_same_members m (some n) = n

abbrev success_of : Members → Option Members → Attempt Members
success_of controller none = raised type_error
success_of controller (some status) =
    if str_eq (status_word status) "failure"
    then raised (command_failed (command_err_msg status))
    else ok controller

unfoldable pub ensure_success : Value → Attempt Members
ensure_success payload =
    first_controller payload
    >>= (λ (controller : Members). success_of controller (mapping_at "Command Status" controller))

-- `status.get("Controller", 0) != 0`; False is equal to 0.
abbrev pub is_zero : Option Value → Bool
is_zero none = true
is_zero (some (num (pos n))) = n == 0
is_zero (some (bool b)) = not b
is_zero other = false

abbrev is_single : Option (List Value) → Bool
is_single (some (v ∷ [])) = true
is_single other = false

abbrev proven : Value → Members → Option Members → Attempt Members
proven payload controller none = raised parse_error
proven payload controller (some status) =
    if str_eq (status_word status) "success"
      && is_single (as_items (get_field "Controllers" payload))
      && is_zero (lookup_field "Controller" status)
    then ok controller
    else raised parse_error

-- A `TypeError` becomes a parse error.
abbrev caught : Attempt Members → Attempt Members
caught (raised type_error) = raised parse_error
caught r = r

unfoldable pub ensure_inventory_success : Value → Attempt Members
ensure_inventory_success payload = caught (ensure_success payload) >>= (λ (controller : Members).
    proven payload controller (mapping_at "Command Status" controller))

abbrev accepted : Option Members → Option String → Attempt (Unit {0})
accepted none word = raised parse_error
accepted (some status) none = raised parse_error
accepted (some status) (some word) =
    let value = casefold (strip word) in
    if str_eq value "success"
    then ok tt
    else if str_eq value "failure"
    then raised (command_failed (command_err_msg status))
    else raised parse_error

abbrev status_text : Option Members → Option String
status_text none = none
status_text (some status) = as_text (lookup_field "Status" status)

-- The bound on the length of the message is left out.
unfoldable pub ensure_command_succeeded : Value → Attempt (Unit {0})
ensure_command_succeeded payload = first_controller payload >>= (λ (controller : Members).
    let status = as_fields (lookup_field "Command Status" controller) in
    accepted status (status_text status))

abbrev pub is_drive_key : String → Bool
is_drive_key key = begins "Drive " key && not (ends " - Detailed Information" key)

abbrev drive_show : Option String → Option String → Attempt DriveShow
drive_show (some state) (some serial) = ok (record { serial_number = serial; state = state })
drive_show state serial = raised parse_error

abbrev attributes_at : String → Members → Option Value → Option Members
attributes_at key response none = none
attributes_at key response (some detail) =
    as_fields (get_field (cat key " Device attributes") detail)

abbrev serial_at : Option Members → Option String
serial_at none = none
serial_at (some attributes) = as_text (lookup_field "SN" attributes)

-- The serial number is a text, as `DriveShow` wants it.
unfoldable pub drive_of : Members → String → String → Attempt DriveShow
drive_of response key state = drive_show (some state) (
    serial_at
      (attributes_at key response (lookup_field (cat key " - Detailed Information") response)))

abbrev first_state : Value → Option String
first_state v =
    as_text
      (elim (first_item (as_items (some v))) [ none ↦ none | some row ↦ get_field "State" row ])

-- The loop of `_extract_drive_show`.
unfoldable pub extract_drive_show_in : Members → List (String × Value) → Attempt DriveShow
extract_drive_show_in response [] = raised parse_error
extract_drive_show_in response ((key, value) ∷ rest) =
    if is_drive_key key
    then elim (first_state value) [
      | some state ↦ drive_of response key state
      | none ↦ extract_drive_show_in response rest
    ]
    else extract_drive_show_in response rest

-- `replace("/s", ":")`; the flag says that the character was part of the last match.
abbrev colon_for_slash_s : Bool → String → String
colon_for_slash_s skip String.[] = String.[]
colon_for_slash_s true (String.◌∷◌ c s) = colon_for_slash_s false s
colon_for_slash_s false (String.◌∷◌ c s) =
    let hit = String.◌∷◌ ":" (colon_for_slash_s true s) in
    let miss = String.◌∷◌ c (colon_for_slash_s false s) in
    if begins "/s" (String.◌∷◌ c s) then hit else miss

abbrev or_same : String → Option String → String
or_same s none = s
or_same s (some t) = t

unfoldable pub slot_of_path : String → String
slot_of_path path = colon_for_slash_s false (or_same path (drop_text "/c0/e" path))

abbrev keep_row :
    Option (List Value) → String → Option (List (String × Value)) → Option (List (String × Value))
keep_row (some (row ∷ [])) key (some rows) = some ((key, row) ∷ rows)
keep_row other key rows = none

-- `none` is the `TypeError` of a summary that has not exactly one row.
unfoldable pub drive_rows : List (String × Value) → Option (List (String × Value))
drive_rows [] = some []
drive_rows ((key, value) ∷ rest) =
    let others = drive_rows rest in
    if is_drive_key key then keep_row (as_items (some value)) key others else others

abbrev same_text : String → Option String → Bool
same_text s none = false
same_text s (some t) = str_eq t s

abbrev identifies : String → Option (List (String × Value)) → Bool
identifies requested (some ((key, row) ∷ [])) =
    str_eq key (cat "Drive " requested)
    && same_text (slot_of_path requested) (as_text (get_field "EID:Slt" row))
identifies requested other = false

abbrev controller_zero : Option Members → Bool
controller_zero none = false
controller_zero (some status) = elim (as_count (lookup_field "Controller" status)) [
  | none ↦ false
  | some n ↦ n == 0
]

unfoldable pub is_requested_drive : Value → Members → Members → String → Bool
is_requested_drive payload controller response requested =
    is_single (as_items (get_field "Controllers" payload))
    && controller_zero (as_fields (lookup_field "Command Status" controller))
    && identifies requested (drive_rows (fields_of response))

abbrev checked_drive : Bool → Members → Attempt DriveShow
checked_drive true response = extract_drive_show_in response (fields_of response)
checked_drive false response = raised parse_error

abbrev is_wanted : Value → Members → Members → Option String → Bool
is_wanted payload controller response none = true
is_wanted payload controller response (some requested) =
    is_requested_drive payload controller response requested

unfoldable pub parse_drive_show : Value → Option String → Attempt DriveShow
parse_drive_show payload requested_drive = ensure_success payload >>= (λ (controller : Members).
    response_data controller >>= (λ (response : Members).
      checked_drive (is_wanted payload controller response requested_drive) response))
