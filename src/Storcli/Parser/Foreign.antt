-- ===== src/Storcli/Parser/Foreign.antt =====
-- `parse_foreign_config` of src/megaraid_dashboard/storcli/parser.py. Sizes are decimal numbers without
-- an exponent, below 10^15 bytes, where the rounding of the quotient is exact; counts and identifiers
-- are decimal too.
pub mod Groups
use Prim.Native.String.{◌++◌ as cat}
use megaraid_dashboard.Prelude.{
  ℕ, zero, ◌+◌, ◌/◌, ◌%◌, ◌^◌, ◌-◌, String, Bool, true, false, not, ◌&&◌, ◌||◌, ◌==◌, ltb, Option,
  none, some, List, [], ◌∷◌, ◌++◌, length, keep, any_of, if◌then◌else◌,
}
use megaraid_dashboard.Prelude.Int.{pos}
use megaraid_dashboard.Prelude.Text.{decimal, decimal_ℤ, strip, casefold}
use megaraid_dashboard.Prelude.Words.{contains_text}
use megaraid_dashboard.Storcli.Models.{ForeignConfig}
use megaraid_dashboard.Storcli.Json.{Value, num, text, Members, get_field, fields_of, as_items}
use megaraid_dashboard.Storcli.Parser.{
  Attempt, ok, raised, type_error, command_failed, first_controller, response_data,
  command_failed_status, command_err_msg, mapping_at, ensure_command_succeeded, or_same_members,
}
use megaraid_dashboard.Storcli.Parser.Sizes.{read_decimal}
use megaraid_dashboard.Storcli.Parser.Foreign.Groups.{
  items_or_none, DiskGroup, size_text, first_size, foreign_disk_groups,
}

abbrev no_foreign_config_markers : List String
no_foreign_config_markers =
    "no foreign configuration" ∷ "no foreign config" ∷ "foreign configuration not found" ∷ []

unfoldable pub is_no_foreign_config_error : String → Bool
is_no_foreign_config_error err_msg =
    any_of (λ (marker : String). contains_text marker (casefold err_msg)) no_foreign_config_markers

abbrev is_some {ℓ} : {A : Type ℓ} → Option A → Bool
is_some none = false
is_some (some a) = true

abbrev is_foreign_drive : Value → Bool
is_foreign_drive v = is_some (get_field "EID:Slt" v) || is_some (get_field "DID" v)

unfoldable pub foreign_drives : List (String × Value) → List Value
foreign_drives [] = []
foreign_drives ((key, value) ∷ rest) =
    let others = foreign_drives rest in
    if contains_text "pd list" (casefold key) || contains_text "drive" (casefold key)
    then keep is_foreign_drive (items_or_none (as_items (some value))) ++ others
    else others

abbrev truncated : Option (ℕ × ℕ) → ℕ
truncated none = 0
truncated (some (n, k)) = n / 10 ^ k

-- 0 where there is no count or it is not above 0.
unfoldable pub coerce_count : Value → ℕ
coerce_count (num (pos n)) = n
coerce_count (text s) = truncated (read_decimal (strip s))
coerce_count other = 0

abbrev is_count_key : String → Bool
is_count_key key =
    contains_text "total" key && contains_text "foreign" key && contains_text "count" key

abbrev count_in : String → ℕ → ℕ × ℕ → ℕ × ℕ
count_in key n (dg_count, drive_count) =
    if n == 0 || not (is_count_key key)
    then (dg_count, drive_count)
    else if contains_text "dg" key && dg_count == 0
    then (n, drive_count)
    else if contains_text "drive" key && drive_count == 0
    then (dg_count, n)
    else (dg_count, drive_count)

unfoldable pub foreign_summary_counts : List (String × Value) → ℕ × ℕ → ℕ × ℕ
foreign_summary_counts [] counts = counts
foreign_summary_counts ((key, value) ∷ rest) counts =
    foreign_summary_counts rest (count_in (casefold key) (coerce_count value) counts)

abbrev sum_sizes : List DiskGroup → Option ℕ
sum_sizes [] = none
sum_sizes (g ∷ gs) = elim g.size_bytes [
  | none ↦ sum_sizes gs
  | some n ↦ elim (sum_sizes gs) [ none ↦ some n | some m ↦ some (n + m) ]
]

unfoldable pub foreign_total_size_bytes : List (String × Value) → List DiskGroup → Option ℕ
foreign_total_size_bytes [] groups = sum_sizes groups
foreign_total_size_bytes ((key, value) ∷ rest) groups =
    let later = foreign_total_size_bytes rest groups in
    if contains_text "total" (casefold key) && contains_text "size" (casefold key)
    then first_size (size_text (some value)) later
    else later

-- `round`, which takes a half to the even neighbour.
unfoldable pub round_gb : ℕ → ℕ
round_gb n =
    let q = n / 10 ^ 9 in
    let r = n % 10 ^ 9 in if ltb r 500_000_000 || (r == 500_000_000 && q % 2 == 0) then q else q + 1

abbrev size_token : Option ℕ → String
size_token none = "UNKNOWN"
size_token (some n) = cat (decimal (round_gb n)) "GB"

abbrev dg_token : DiskGroup → String
dg_token g = cat "dg" (cat (decimal_ℤ g.dg_id) (cat ":" (decimal g.drive_count)))

abbrev dg_tokens : List DiskGroup → String
dg_tokens [] = ""
dg_tokens (g ∷ []) = dg_token g
dg_tokens (g ∷ h ∷ gs) = cat (dg_token g) (cat "," (dg_tokens (h ∷ gs)))

abbrev bracketed : List DiskGroup → String
bracketed [] = ""
bracketed (g ∷ gs) = cat "-[" (cat (dg_tokens (g ∷ gs)) "]")

unfoldable pub foreign_config_digest : ℕ → ℕ → Option ℕ → List DiskGroup → String
foreign_config_digest dg_count drive_count total_size_bytes disk_groups = cat "FC-DG" (
    cat (decimal dg_count) (
      cat "-PD" (
        cat (decimal drive_count)
          (cat "-" (cat (size_token total_size_bytes) (bracketed disk_groups))))))

abbrev absent : ForeignConfig
absent = record { present = false; dg_count = 0; drive_count = 0; digest = "" }

abbrev present_config : (Members → String) → Members → List DiskGroup → ℕ × ℕ → ForeignConfig
present_config fingerprint response groups (dg_count, drive_count) = record {
  present = true;
  dg_count = dg_count;
  drive_count = drive_count;
  digest =
      cat
        (foreign_config_digest dg_count drive_count
          (foreign_total_size_bytes (fields_of response) groups) groups)
        (cat "-" (fingerprint response));
}

abbrev or_summary : ℕ × ℕ → ℕ × ℕ → ℕ × ℕ
or_summary (zero, zero) summary = summary
or_summary counts summary = counts

abbrev if_any : (Members → String) → Members → List DiskGroup → ℕ × ℕ → ForeignConfig
if_any fingerprint response groups (zero, zero) = absent
if_any fingerprint response groups counts = present_config fingerprint response groups counts

-- From the response's data on. The fingerprint is the SHA-256 of the data as JSON.
unfoldable pub foreign_config : (Members → String) → Members → ForeignConfig
foreign_config fingerprint response =
    let drives = foreign_drives (fields_of response) in
    let groups = foreign_disk_groups (fields_of response) drives in
    if_any fingerprint response groups (
      or_summary (length groups, length drives)
        (foreign_summary_counts (fields_of response) (0, 0)))

abbrev of_response : (Members → String) → Attempt Members → Attempt ForeignConfig
of_response fingerprint (raised e) = ok absent
of_response fingerprint (ok response) = ok (foreign_config fingerprint response)

abbrev of_accepted : (Members → String) → Members → Attempt (Unit {0}) → Attempt ForeignConfig
of_accepted fingerprint controller (raised e) = raised e
of_accepted fingerprint controller (ok _) = of_response fingerprint (response_data controller)

abbrev failed_config : String → Attempt ForeignConfig
failed_config message =
    if is_no_foreign_config_error message then ok absent else raised (command_failed message)

abbrev of_status : (Members → String) → Value → Members → Option Bool → Attempt ForeignConfig
of_status fingerprint payload controller none = raised type_error
of_status fingerprint payload controller (some true) =
    failed_config
      (command_err_msg (or_same_members controller (mapping_at "Command Status" controller)))
of_status fingerprint payload controller (some false) =
    of_accepted fingerprint controller (ensure_command_succeeded payload)

abbrev of_controller : (Members → String) → Value → Attempt Members → Attempt ForeignConfig
of_controller fingerprint payload (raised e) = raised e
of_controller fingerprint payload (ok controller) =
    of_status fingerprint payload controller (command_failed_status controller)

unfoldable pub parse_foreign_config : (Members → String) → Value → Attempt ForeignConfig
parse_foreign_config fingerprint payload =
    of_controller fingerprint payload (first_controller payload)
