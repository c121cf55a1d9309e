-- ===== src/Storcli/Responses.antt =====
-- The schemas of responses in src/megaraid_dashboard/storcli/runner.py, as tests on values.
use megaraid_dashboard.Prelude.{
  String, Bool, true, false, not, ◌&&◌, ◌||◌, ◌==◌, Option, none, some, List, str_eq, any_of,
  if◌then◌else◌,
}
use megaraid_dashboard.Prelude.Int.{ℤ, pos, negsuc}
use megaraid_dashboard.Storcli.Json.{
  Elements, Value, null, num, text, arr, get_field, items_of, as_int,
}

abbrev pub every : (Value → Bool) → List Value → Bool
every p vs = not (any_of (λ (v : Value). not (p v)) vs)

abbrev pub is_text : String → Option Value → Bool
is_text s (some (text t)) = str_eq t s
is_text s other = false

abbrev pub is_absent : Option Value → Bool
is_absent none = true
is_absent (some null) = true
is_absent other = false

-- A strict integer 0.
abbrev pub is_int_zero : Option Value → Bool
is_int_zero (some (num (pos n))) = n == 0
is_int_zero other = false

abbrev is_int : Option Value → Bool
is_int (some (num z)) = true
is_int other = false

-- The one controller of a response, and its status.
abbrev pub only_item : Option Value → Option Value
only_item (some (arr (Elements.element v Elements.no_elements))) = some v
only_item other = none

abbrev pub status_at : Option Value → Option Value
status_at none = none
status_at (some controller) = get_field "Command Status" controller

abbrev pub only_status : Value → Option Value
only_status payload = status_at (only_item (get_field "Controllers" payload))

abbrev list_or_absent : (Value → Bool) → Option Value → Bool
list_or_absent p (some (arr vs)) = every p (items_of vs)
list_or_absent p other = is_absent other

abbrev optional_zero : Option Value → Bool
optional_zero v = is_absent v || is_int_zero v

-- `_WriteDetail`.
unfoldable pub is_write_detail : Value → Bool
is_write_detail v =
    optional_zero (get_field "Controller" v)
    && optional_zero (get_field "Ctrl" v)
    && is_text "Success" (get_field "Status" v)

-- `_WriteStatus`.
abbrev is_write_status : Option Value → Bool
is_write_status none = false
is_write_status (some status) =
    is_int_zero (get_field "Controller" status)
    && (is_text "Success" (get_field "Status" status)
        || is_text "Failure" (get_field "Status" status))
    && list_or_absent is_write_detail (get_field "Detailed Status" status)

unfoldable pub is_write_response : Value → Bool
is_write_response payload = is_write_status (only_status payload)

abbrev is_nonempty_text : Option Value → Bool
is_nonempty_text (some (text s)) = not (str_eq s "")
is_nonempty_text other = false

abbrev optional_int : Option Value → Bool
optional_int v = is_absent v || is_int v

-- `_FailedDetail`.
unfoldable pub is_failed_detail : Value → Bool
is_failed_detail v =
    (is_absent (get_field "Status" v)
      || is_text "Failure" (get_field "Status" v)
      || is_text "Failed" (get_field "Status" v))
    && optional_int (get_field "Controller" v)
    && optional_int (get_field "Ctrl" v)
    && is_nonempty_text (get_field "ErrMsg" v)

abbrev int_eq : ℤ → ℤ → Bool
int_eq (pos m) (pos n) = m == n
int_eq (negsuc m) (negsuc n) = m == n
int_eq m n = false

-- The identity is not given, or is the controller's.
abbrev agrees : Option ℤ → Option Value → Bool
agrees (some z) (some (num x)) = int_eq z x
agrees (some z) other = true
agrees none other = false

abbrev is_own_detail : Option ℤ → Value → Bool
is_own_detail controller v =
    agrees controller (get_field "Controller" v) && agrees controller (get_field "Ctrl" v)

abbrev failed_details : Option ℤ → Option Value → Bool
failed_details controller (some (arr Elements.no_elements)) = false
failed_details controller (some (arr vs)) =
    every is_failed_detail (items_of vs) && every (is_own_detail controller) (items_of vs)
failed_details controller other = is_absent other

abbrev is_failed_status : Option Value → Bool
is_failed_status none = false
is_failed_status (some status) =
    is_int (get_field "Controller" status)
    && is_text "Failure" (get_field "Status" status)
    && failed_details (as_int (get_field "Controller" status)) (get_field "Detailed Status" status)

-- `_failed_response`.
unfoldable pub failed_response : Option Value → Option Value
failed_response none = none
failed_response (some payload) =
    if is_failed_status (only_status payload) then some payload else none
