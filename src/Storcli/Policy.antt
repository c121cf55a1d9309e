-- ===== src/Storcli/Policy.antt =====
-- `CommandPolicy` of src/megaraid_dashboard/storcli/policy.py: the check of a policy, and what it
-- permits.
pub mod Concrete
pub mod Permitted
pub mod Actions
pub mod Workflow
use Prim.Native.Char.{code}
use Prim.Native.String.{◌++◌ as cat}
use text.Mathlib.Text.{starts_with}
use megaraid_dashboard.Prelude.{
  ℕ, ◌-◌, String, Bool, true, false, not, ◌&&◌, ◌||◌, Option, none, some, List, [], ◌∷◌, ◌++◌, map,
  take, drop, leb, ltb, ◌==◌, str_eq, str_mem, any_of, find_first, if◌then◌else◌,
}
use megaraid_dashboard.Prelude.Text.{decimal}
use megaraid_dashboard.Prelude.Scan.{read_number, drop_text, split_spaces, ◌>>=◌}
use megaraid_dashboard.Storcli.Commands.{
  validate_command, last_of, is_json, with_json_flag, join_spaces,
}

pub record ApprovedCommand : Type 0 where
  pub command : String
  pub evidence : String

pub record ReplacementTopology : Type 0 where
  pub slot : ℕ
  pub dg : ℕ
  pub array : ℕ
  pub row : ℕ

pub record CommandPolicy : Type 0 where
  pub service_user : String
  pub controller_serial : String
  pub virtual_drive : ℕ
  pub disk_group : ℕ
  pub replacements : List ReplacementTopology
  pub commands : List ApprovedCommand

-- The bounds of the fields.
abbrev topology_in_bounds : ReplacementTopology → Bool
topology_in_bounds t = leb t.slot 7 && leb t.dg 63 && leb t.array 63 && leb t.row 255

abbrev is_empty {ℓ} : {A : Type ℓ} → List A → Bool
is_empty [] = true
is_empty (x ∷ xs) = false

unfoldable pub fields_in_bounds : CommandPolicy → Bool
fields_in_bounds p =
    not (str_eq p.controller_serial "")
    && leb p.virtual_drive 63
    && leb p.disk_group 63
    && not (any_of (λ (t : ReplacementTopology). not (topology_in_bounds t)) p.replacements)
    && not (is_empty p.commands)
    && not (any_of (λ (c : ApprovedCommand). str_eq c.evidence "") p.commands)

-- `[a-z_][a-z0-9_-]*`.
abbrev is_user_start : ℕ → Bool
is_user_start n = (leb 97 n && leb n 122) || n == 95

abbrev is_user_char : ℕ → Bool
is_user_char n = is_user_start n || (leb 48 n && leb n 57) || n == 45

unfoldable pub user_rest : String → Bool
user_rest String.[] = true
user_rest (String.◌∷◌ c s) = is_user_char (code c) && user_rest s

unfoldable pub is_service_account : String → Bool
is_service_account String.[] = false
is_service_account (String.◌∷◌ c s) = is_user_start (code c) && user_rest s

unfoldable pub has_duplicate_slot : List ReplacementTopology → Bool
has_duplicate_slot [] = false
has_duplicate_slot (t ∷ ts) =
    any_of (λ (u : ReplacementTopology). u.slot == t.slot) ts || has_duplicate_slot ts

-- `/c0/e252/s([0-7])`, and `int` of the slot.
abbrev pub slot_below_8 : String → ℕ × String → Option ℕ
slot_below_8 s (n, rest) =
    if str_eq s (decimal n) && leb n 7 && str_eq rest "" then some n else none

unfoldable pub drive_slot : String → Option ℕ
drive_slot token = drop_text "/c0/e252/s" token >>= (λ s. read_number false 0 s >>= slot_below_8 s)

abbrev pub first_of : List String → String
first_of [] = ""
first_of (t ∷ ts) = t

abbrev pub is_none : Option ℕ → Bool
is_none none = true
is_none (some _) = false

abbrev pub list_eq : List String → List String → Bool
list_eq [] [] = true
list_eq (a ∷ rest) (b ∷ more) = str_eq a b && list_eq rest more
list_eq _ _ = false

abbrev pub matches_topology : CommandPolicy → List String → Option ReplacementTopology → Bool
matches_topology p tokens none = false
matches_topology p tokens (some t) =
    list_eq (take 3 (drop 2 tokens))
      (cat "dg=" (decimal t.dg) ∷ cat "array=" (decimal t.array) ∷ cat "row=" (decimal t.row) ∷ [])
    && t.dg == p.disk_group

abbrev pub topology_at : CommandPolicy → Option ℕ → Option ReplacementTopology
topology_at p none = none
topology_at p (some slot) = find_first (λ (t : ReplacementTopology). t.slot == slot) p.replacements

-- The tests on one command, each the negation of a `raise`.
abbrev pub is_write : List String → Bool
is_write tokens = is_json (last_of tokens) && not (str_mem "show" tokens)

abbrev pub names_drive : List String → Bool
names_drive tokens =
    not (starts_with (first_of tokens) "/c0/e" && is_none (drive_slot (first_of tokens)))

abbrev pub names_volume : CommandPolicy → List String → Bool
names_volume p tokens = not (
    starts_with (first_of tokens) "/c0/v"
    && not (str_mem (first_of tokens) ("/c0/vall" ∷ cat "/c0/v" (decimal p.virtual_drive) ∷ [])))

abbrev pub names_group : CommandPolicy → List String → Bool
names_group p tokens =
    not (str_mem "add" tokens && not (str_mem (cat "dgs=" (decimal p.disk_group)) tokens))

abbrev pub names_topology : CommandPolicy → List String → Bool
names_topology p tokens = not (
    str_mem "insert" tokens
    && not (matches_topology p tokens (topology_at p (drive_slot (first_of tokens)))))

unfoldable pub command_is_valid : CommandPolicy → List String → String → Bool
command_is_valid p seen command =
    let tokens = split_spaces command in
    validate_command tokens
    && not (str_mem command seen)
    && is_write tokens
    && names_drive tokens
    && names_volume p tokens
    && names_group p tokens
    && names_topology p tokens

unfoldable pub commands_are_valid : CommandPolicy → List String → List ApprovedCommand → Bool
commands_are_valid p seen [] = true
commands_are_valid p seen (c ∷ cs) =
    command_is_valid p seen c.command && commands_are_valid p (c.command ∷ seen) cs

-- The fields' checks and `validate_commands`; false is the `ValueError`.
unfoldable pub validate_commands : CommandPolicy → Bool
validate_commands p =
    fields_in_bounds p
    && is_service_account p.service_user
    && not (has_duplicate_slot p.replacements)
    && commands_are_valid p [] p.commands

unfoldable pub permits : CommandPolicy → List String → Bool
permits p args =
    any_of (λ (c : ApprovedCommand). str_eq c.command (join_spaces (with_json_flag args)))
      p.commands
