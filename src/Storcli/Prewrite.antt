-- ===== src/Storcli/Prewrite.antt =====
-- The evidence for a write, src/megaraid_dashboard/storcli/prewrite.py: the topology of the action,
-- and the safety of a foreign configuration.
pub mod Idle
use Prim.Native.String.{◌++◌ as cat}
use megaraid_dashboard.Prelude.{
  ℕ, zero, suc, String, Bool, true, false, not, ◌&&◌, ◌||◌, ◌==◌, leb, Option, none, some, List, [],
  ◌∷◌, map, length, str_eq, str_mem, any_of, if◌then◌else◌,
}
use megaraid_dashboard.Prelude.Int.{ℤ, pos, negsuc}
use megaraid_dashboard.Prelude.Text.{decimal}
use megaraid_dashboard.Prelude.Scan.{read_number, drop_text, ◌>>=◌}
use megaraid_dashboard.Prelude.Words.{begins}
use megaraid_dashboard.Storcli.Json.{Value, num, text, get_field, as_items, as_text, as_count}
use megaraid_dashboard.Storcli.Responses.{every, is_text, is_int_zero, only_item, only_status}
use megaraid_dashboard.Storcli.Policy.{CommandPolicy}

-- The words of a command by their place; the source takes the first three of each write.
abbrev pub word_at : ℕ → List String → String
word_at n [] = ""
word_at zero (w ∷ ws) = w
word_at (suc n) (w ∷ ws) = word_at n ws

-- `^\d+/\d+$`.
abbrev read_end : Option (ℕ × String) → Bool
read_end none = false
read_end (some (n, rest)) = str_eq rest ""

unfoldable pub is_vd_identity : String → Bool
is_vd_identity s = read_end (
    read_number false 0 s
    >>= (λ (g, r). drop_text "/" r >>= (λ (r' : String). read_number false 0 r')))

abbrev every_text : List (Option String) → Option (List String)
every_text [] = some []
every_text (none ∷ rest) = none
every_text (some s ∷ rest) = elim (every_text rest) [ none ↦ none | some ss ↦ some (s ∷ ss) ]

abbrev vd_identity : Value → Option String
vd_identity v = elim (as_text (get_field "DG/VD" v)) [
  | none ↦ none
  | some s ↦ if is_vd_identity s then some s else none
]

-- `_VDInventory`: the count and the identities.
abbrev vd_identities : Option (List Value) → Option (List String)
vd_identities none = none
vd_identities (some rows) = every_text (map vd_identity rows)

abbrev pair {ℓ κ} : {A : Type ℓ} {B : Type κ} → Option A → Option B → Option (A × B)
pair (some a) (some b) = some (a, b)
pair a b = none

unfoldable pub vd_inventory : Value → Option (ℕ × List String)
vd_inventory response =
    pair (as_count (get_field "Virtual Drives" response))
      (vd_identities (as_items (get_field "VD LIST" response)))

abbrev pub has_duplicate : List String → Bool
has_duplicate [] = false
has_duplicate (s ∷ ss) = str_mem s ss || has_duplicate ss

unfoldable pub vd_name : CommandPolicy → String
vd_name policy = cat (decimal policy.disk_group) (cat "/" (decimal policy.virtual_drive))

abbrev pub is_per_vd_start : CommandPolicy → List String → Bool
is_per_vd_start policy args =
    str_eq (word_at 0 args) (cat "/c0/v" (decimal policy.virtual_drive))
    && str_eq (word_at 1 args) "start"
    && str_eq (word_at 2 args) "cc"

abbrev local_vd : CommandPolicy → List String → Option (ℕ × List String) → Bool
local_vd policy args none = false
local_vd policy args (some (count, identities)) =
    count == length identities
    && not (has_duplicate identities)
    && str_mem (vd_name policy) identities
    && (is_per_vd_start policy args || length identities == 1)

-- `_GroupRow`: an integer or a dash in each of the three columns.
abbrev is_cell : Option Value → Bool
is_cell (some (num z)) = true
is_cell (some (text s)) = str_eq s "-"
is_cell other = false

abbrev is_group_row : Value → Bool
is_group_row row =
    is_cell (get_field "DG" row) && is_cell (get_field "Arr" row) && is_cell (get_field "Row" row)

abbrev is_header : Value → Bool
is_header row = is_text "-" (get_field "Arr" row) && is_text "-" (get_field "Row" row)

abbrev header_groups : List Value → List ℤ
header_groups [] = []
header_groups (row ∷ rows) = elim (get_field "DG" row) [
  | some (num z) ↦ if is_header row then z ∷ header_groups rows else header_groups rows
  | other ↦ header_groups rows
]

abbrev is_group : ℕ → ℤ → Bool
is_group n (pos m) = m == n
is_group n (negsuc m) = false

abbrev int_same : ℤ → ℤ → Bool
int_same (pos m) (pos n) = m == n
int_same (negsuc m) (negsuc n) = m == n
int_same a b = false

abbrev repeats : List ℤ → Bool
repeats [] = false
repeats (z ∷ zs) = any_of (int_same z) zs || repeats zs

abbrev approved_group : CommandPolicy → Option ℕ → Option (List Value) → Bool
approved_group policy (some count) (some rows) =
    every is_group_row rows
    && count == length (header_groups rows)
    && not (repeats (header_groups rows))
    && any_of (is_group policy.disk_group) (header_groups rows)
approved_group policy count rows = false

abbrev pub needs_vd : List String → Bool
needs_vd args =
    begins "/c0/v" (word_at 0 args)
    || begins "cc=" (word_at 2 args)
    || str_eq (word_at 1 args) "insert"
    || (str_eq (word_at 1 args) "set"
        && (str_eq (word_at 2 args) "offline" || str_eq (word_at 2 args) "missing"))

abbrev pub needs_group : List String → Bool
needs_group args = str_eq (word_at 1 args) "add" && str_eq (word_at 2 args) "hotsparedrive"

-- The `Response Data` of the one controller; false is the refusal.
unfoldable pub check_action_topology : List String → Value → CommandPolicy → Bool
check_action_topology args response policy =
    if needs_vd args
    then local_vd policy args (vd_inventory response)
    else if needs_group args
    then approved_group policy (as_count (get_field "Drive Groups" response))
        (as_items (get_field "TOPOLOGY" response))
    else true

-- `_Status` of a read that succeeded.
abbrev is_read_status : Option Value → Bool
is_read_status none = false
is_read_status (some status) =
    is_int_zero (get_field "Controller" status) && is_text "Success" (get_field "Status" status)

unfoldable pub is_read_response : Value → Bool
is_read_response payload = is_read_status (only_status payload)

pub record Drive : Type 0 where
  pub slot : ℕ
  pub device_id : ℕ
  pub state : String

abbrev drive_states : List String
drive_states =
    "Onln" ∷ "UGood" ∷ "UBad" ∷ "Offln" ∷ "Failed" ∷ "Rbld" ∷ "DHS" ∷ "GHS" ∷ "Msng" ∷ "JBOD" ∷ []

abbrev slot_below_8 : String → Option (ℕ × String) → Option ℕ
slot_below_8 s none = none
slot_below_8 s (some (n, rest)) =
    if str_eq s (decimal n) && leb n 7 && str_eq rest "" then some n else none

-- `^252:[0-7]$`.
unfoldable pub location_slot : String → Option ℕ
location_slot location =
    drop_text "252:" location >>= (λ (s : String). slot_below_8 s (read_number false 0 s))

abbrev drive_from : Option ℕ → Option ℕ → Option String → Option Drive
drive_from (some slot) (some device_id) (some state) =
    if str_mem state drive_states
    then some (record { slot = slot; device_id = device_id; state = state })
    else none
drive_from slot device_id state = none

-- `_Drive`.
unfoldable pub inventory_drive : Value → Option Drive
inventory_drive row =
    drive_from (as_text (get_field "EID:Slt" row) >>= location_slot)
      (as_count (get_field "DID" row)) (as_text (get_field "State" row))

abbrev every_drive : List (Option Drive) → Option (List Drive)
every_drive [] = some []
every_drive (none ∷ rest) = none
every_drive (some d ∷ rest) = elim (every_drive rest) [ none ↦ none | some ds ↦ some (d ∷ ds) ]

abbrev pub has_repeated : (Drive → ℕ) → List Drive → Bool
has_repeated key [] = false
has_repeated key (d ∷ ds) = any_of (λ (e : Drive). key e == key d) ds || has_repeated key ds

abbrev is_complete : ℕ → List Drive → Bool
is_complete count drives =
    leb 1 count
    && count == length drives
    && not (has_repeated (λ (d : Drive). d.slot) drives)
    && not (has_repeated (λ (d : Drive). d.device_id) drives)

abbrev complete : Option ℕ → Option (List Drive) → Option (List Drive)
complete (some count) (some drives) = if is_complete count drives then some drives else none
complete count drives = none

abbrev drives_at : Option (List Value) → Option (List Drive)
drives_at none = none
drives_at (some rows) = every_drive (map inventory_drive rows)

abbrev pub response_at : Value → Option Value
response_at payload = elim (only_item (get_field "Controllers" payload)) [
  | none ↦ none
  | some controller ↦ get_field "Response Data" controller
]

abbrev inventory_at : Option Value → Option (List Drive)
inventory_at none = none
inventory_at (some response) =
    complete (as_count (get_field "Physical Drives" response))
      (drives_at (as_items (get_field "PD LIST" response)))

unfoldable pub physical_inventory : Value → Option (List Drive)
physical_inventory identity =
    if is_read_response identity then inventory_at (response_at identity) else none

abbrev same_drive : Drive → Drive → Bool
same_drive d e = d.slot == e.slot && d.device_id == e.device_id && str_eq d.state e.state

-- The sets of drives are equal.
unfoldable pub same_inventory : List Drive → List Drive → Bool
same_inventory before after =
    not (any_of (λ (d : Drive). not (any_of (same_drive d) after)) before)
    && not (any_of (λ (d : Drive). not (any_of (same_drive d) before)) after)
