-- ===== src/Storcli/Parser/Controller.antt =====
-- `parse_controller_show_all` of src/megaraid_dashboard/storcli/parser.py, with the checks of
-- `ControllerInfo` in storcli/models.py. What it keeps is the identity and the alarm; the other fields
-- are only checked. The text of a temperature is finite.
use Prim.Native.Char.{code}
use megaraid_dashboard.Prelude.{
  ℕ, suc, ◌%◌, String, Bool, true, false, ◌&&◌, ◌||◌, ◌==◌, leb, not, Option, none, some, [], ◌∷◌,
  any_of, if◌then◌else◌,
}
use megaraid_dashboard.Prelude.Text.{strip}
use megaraid_dashboard.Prelude.Scan.{read_number, drop_text, ◌>>=◌}
use megaraid_dashboard.Prelude.Words.{words, text_length}
use megaraid_dashboard.Storcli.Commands.{join_spaces}
use megaraid_dashboard.Storcli.Json.{
  Value, null, bool, num, text, arr, Members, lookup_field, as_fields, as_text,
}
use megaraid_dashboard.Storcli.Parser.{
  Attempt, ok, raised, parse_error, or_error, response_data, ensure_inventory_success,
}

pub record ControllerIdentity : Type 0 where
  pub serial_number : String
  pub model_name : String
  pub alarm_state : String

-- A number of one or two digits between two bounds, in front of a separator.
abbrev in_bounds : String → ℕ → ℕ → Option (ℕ × String) → Option (ℕ × String)
in_bounds s low high none = none
in_bounds s low high (some (n, rest)) =
    if leb low n && leb n high && leb (text_length s) (suc (suc (text_length rest)))
    then some (n, rest)
    else none

unfoldable pub read_part : ℕ → ℕ → String → Option (ℕ × String)
read_part low high s = in_bounds s low high (read_number false 0 s)

-- `%d` also takes a space and one digit.
abbrev read_day : String → Option (ℕ × String)
read_day (String.◌∷◌ c s) =
    let spaced = read_part 1 9 s in
    let plain = read_part 1 31 (String.◌∷◌ c s) in if code c == 32 then spaced else plain
read_day String.[] = none

abbrev four_digits : String → Option (ℕ × String) → Option (ℕ × String)
four_digits s none = none
four_digits s (some (n, rest)) =
    if leb 1 n && leb n 9999 && text_length s == suc (suc (suc (suc (text_length rest))))
    then some (n, rest)
    else none

unfoldable pub read_year : String → Option (ℕ × String)
read_year s = four_digits s (read_number false 0 s)

abbrev is_leap : ℕ → Bool
is_leap year = (year % 4 == 0 && not (year % 100 == 0)) || year % 400 == 0

abbrev is_day : ℕ → ℕ → ℕ → Bool
is_day year month day =
    if month == 2
    then leb day 28 || (day == 29 && is_leap year)
    else if any_of (λ m. m == month) (4 ∷ 6 ∷ 9 ∷ 11 ∷ [])
    then leb day 30
    else true

-- `%H:%M:%S` to the end.
unfoldable pub is_clock : String → Bool
is_clock s =
    elim (read_part 0 23 s
      >>= (λ (h, r). drop_text ":" r >>= (λ (r : String). read_part 0 59 r))
      >>= (λ (m, r). drop_text ":" r >>= (λ (r : String). read_part 0 59 r))) [
        | none ↦ false
        | some (seconds, rest) ↦ text_length rest == 0
      ]

abbrev dated : ℕ → ℕ → Option (ℕ × String) → Option String
dated year month none = none
dated year month (some (day, rest)) = if is_day year month day then some rest else none

abbrev american : String → Option String
american s = read_part 1 12 s >>= (λ (month, r). drop_text "/" r >>= (λ (r : String).
    read_day r >>= (λ (day, r). drop_text "/" r >>= (λ (r : String).
      read_year r >>= (λ (year, r). dated year month (some (day, r)) >>= drop_text ", ")))))

abbrev year_first : String → Option String
year_first s = read_year s >>= (λ (year, r). drop_text "/" r >>= (λ (r : String).
    read_part 1 12 r >>= (λ (month, r).
      drop_text "/" r >>= (λ (r : String). dated year month (read_day r) >>= drop_text " "))))

abbrev has_clock : Option String → Bool
has_clock none = false
has_clock (some s) = is_clock s

-- The part before the first parenthesis.
unfoldable pub before_bracket : String → String
before_bracket String.[] = String.[]
before_bracket (String.◌∷◌ c s) =
    let rest = String.◌∷◌ c (before_bracket s) in if code c == 40 then String.[] else rest

-- Whether `_parse_datetime` reads this text.
unfoldable pub is_datetime : String → Bool
is_datetime value =
    let normalized = join_spaces (words (strip (before_bracket value))) in
    has_clock (american normalized) || has_clock (year_first normalized)

abbrev is_datetime_value : Option Value → Bool
is_datetime_value (some (text s)) = is_datetime s
is_datetime_value other = false

-- `_yes_no_to_bool` accepts it.
abbrev is_yes_no : Option Value → Bool
is_yes_no (some (bool b)) = true
is_yes_no (some (num z)) = true
is_yes_no (some (text s)) = true
is_yes_no other = false

abbrev is_cachevault : Option Value → Bool
is_cachevault none = true
is_cachevault (some (arr vs)) = true
is_cachevault v = is_yes_no v

-- `_parse_optional_int` accepts it.
abbrev is_optional_int : Option Value → Bool
is_optional_int none = true
is_optional_int (some null) = true
is_optional_int v = is_yes_no v

abbrev later_first : Option Value → Option Value → Option Value
later_first none v = v
later_first (some w) v = some w

-- A value of `{**basics, **version}`, by the alias of the field or else by its name.
unfoldable pub field_value : Members → Members → String → String → Option Value
field_value basics version alias name =
    later_first (later_first (lookup_field alias version) (lookup_field alias basics))
      (later_first (lookup_field name version) (lookup_field name basics))

abbrev is_text_value : Option Value → Bool
is_text_value (some (text s)) = true
is_text_value other = false

-- The fields that are only checked.
unfoldable pub others_valid : Members → Members → Members → Members → Bool
others_valid basics version hwcfg response =
    is_text_value (field_value basics version "Firmware Version" "firmware_version")
    && is_text_value (field_value basics version "Bios Version" "bios_version")
    && is_text_value (field_value basics version "Driver Name" "driver_name")
    && is_text_value (field_value basics version "Driver Version" "driver_version")
    && is_text_value (field_value basics version "PCI Address" "pci_address")
    && is_datetime_value (field_value basics version "Current System Date/time" "system_time")
    && is_cachevault (lookup_field "Cachevault_Info" response)
    && is_yes_no (lookup_field "BBU" hwcfg)
    && is_optional_int (lookup_field "ROC temperature(Degree Celsius)" hwcfg)

abbrev identity_of :
    Bool → Option String → Option String → Option String → Option ControllerIdentity
identity_of true (some model) (some serial) (some alarm) =
    some (record { serial_number = serial; model_name = model; alarm_state = alarm })
identity_of valid model serial alarm = none

unfoldable pub controller_info : Members → Option ControllerIdentity
controller_info response = as_fields (lookup_field "Basics" response) >>= (λ (basics : Members).
    as_fields (lookup_field "Version" response) >>= (λ (version : Members).
      as_fields (lookup_field "HwCfg" response) >>= (λ (hwcfg : Members).
        identity_of (others_valid basics version hwcfg response)
          (as_text (field_value basics version "Model" "model_name"))
          (as_text (field_value basics version "Serial Number" "serial_number"))
          (as_text (lookup_field "Alarm" hwcfg)))))

abbrev read_info : Attempt Members → Attempt ControllerIdentity
read_info (raised e) = raised e
read_info (ok response) = or_error (controller_info response) parse_error

abbrev on_controller : Attempt Members → Attempt ControllerIdentity
on_controller (raised e) = raised e
on_controller (ok controller) = read_info (response_data controller)

unfoldable pub parse_controller_show_all : Value → Attempt ControllerIdentity
parse_controller_show_all payload = on_controller (ensure_inventory_success payload)
