-- ===== src/Web/Replace.antt =====
-- The replacement of a drive in three requests, of src/megaraid_dashboard/web/routes.py: what the
-- requests share. The audit log lists the events newest first; a message is recorded in front.
pub mod Steps
pub mod Insert
pub mod Topology
pub mod Checks
pub mod Gate
pub mod Confirmed
pub mod Authorized
use Prim.Native.String.{◌++◌ as cat}
use megaraid_dashboard.Prelude.{
  ℕ, ◌+◌, String, Bool, true, false, not, ◌&&◌, ◌||◌, Option, none, some, List, [], ◌∷◌, leb,
  str_eq, str_mem, find_first, if◌then◌else◌,
}
use megaraid_dashboard.Prelude.Int.{ℤ}
use megaraid_dashboard.Prelude.Text.{decimal_ℤ, strip, casefold}
use megaraid_dashboard.Prelude.Words.{begins, contains_text, ends, words, text_length, take_text}
pub use megaraid_dashboard.Storcli.Models.{DriveShow}
use megaraid_dashboard.Storcli.Commands.{join_spaces}
use megaraid_dashboard.Services.DriveActions.{ReplaceStep, offline, missing, Command}

pub record AuditEvent : Type 0 where
  pub category : String
  pub summary : String
  pub read_only_precheck : Option String

-- A `StorcliError` carries the name of its class and its text.
pub data Reply {ℓ} (A : Type ℓ) : Type ℓ where
  ok : A → Reply A
  err : String → String → Reply A

-- `_write_settings`: with the maintenance mode that is in force now.
pub record WriteSettings : Type 0 where
  pub maintenance_mode : Bool
  pub destructive_mode : Bool
  pub full_supported_actions : Bool

-- A request: `int` of the parts of the path, none where it raises; the query's parameter; the body,
-- none where it is not the JSON that is wanted.
pub record ReplaceRequest : Type 0 where
  pub serial_number : String
  pub dry_run : Bool

pub record SlotRequest : Type 0 where
  pub enclosure : Option ℤ
  pub slot : Option ℤ
  pub query_dry_run : Option String
  pub body : Option ReplaceRequest

-- The status and the error of the answer, the commands that were handed to `run_storcli`, and the log.
pub record Response : Type 0 where
  pub status : ℕ
  pub error : String
  pub runs : List Command
  pub log : List AuditEvent

abbrev dry_run_true_values : List String
dry_run_true_values = "1" ∷ "true" ∷ "yes" ∷ "on" ∷ []

abbrev dry_run_false_values : List String
dry_run_false_values = "0" ∷ "false" ∷ "no" ∷ "off" ∷ []

abbrev dry_run_of : String → Option Bool
dry_run_of normalized =
    if str_mem normalized dry_run_true_values
    then some true
    else if str_mem normalized dry_run_false_values
    then some false
    else none

-- none is the answer 400.
unfoldable pub parse_query_dry_run : Option String → Option Bool
parse_query_dry_run none = some false
parse_query_dry_run (some raw) = dry_run_of (casefold (strip raw))

abbrev pub audit_detail_max_len : ℕ
audit_detail_max_len = 200

unfoldable pub truncate_audit_detail : String → String
truncate_audit_detail text =
    let collapsed = join_spaces (words text) in
    if leb (text_length collapsed) audit_detail_max_len
    then collapsed
    else cat (take_text 199 collapsed) "…"

abbrev pub step_name : ReplaceStep → String
step_name offline = "offline"
step_name missing = "missing"

-- `drive {enclosure}:{slot}`.
unfoldable pub slot_token : ℤ → ℤ → String
slot_token enclosure slot = cat "drive " (cat (decimal_ℤ enclosure) (cat ":" (decimal_ℤ slot)))

unfoldable pub replace_message : ReplaceStep → ℤ → ℤ → String → String → String
replace_message step enclosure slot serial outcome = cat "replace step " (
    cat (step_name step)
      (cat " " (cat (slot_token enclosure slot) (cat " serial " (cat serial (cat " " outcome))))))

unfoldable pub failed_outcome : String → String → String
failed_outcome class text = cat "failed: " (cat class (cat ": " (truncate_audit_detail text)))

unfoldable pub precheck_outcome : String → String
precheck_outcome text = cat "failed: storcli precheck failed: " (truncate_audit_detail text)

-- `record_operator_action` with the category that it has by default.
unfoldable pub record_operator_action : String → Option String → List AuditEvent → List AuditEvent
record_operator_action message read_only_precheck log =
    (record {
      category = "operator_action";
      summary = message;
      read_only_precheck = read_only_precheck;
    })
    ∷ log

abbrev marks_insert : Option String → Bool
marks_insert none = false
marks_insert (some v) = str_eq v "replace_insert"

-- The filters of the query. SQLite's LIKE does not tell the case of ASCII letters.
unfoldable pub is_action_for_slot : Bool → ℤ → ℤ → AuditEvent → Bool
is_action_for_slot full enclosure slot e =
    let token = casefold (slot_token enclosure slot) in
    let summary = casefold e.summary in
    str_eq e.category "operator_action"
    && not (marks_insert e.read_only_precheck)
    && (contains_text (cat token " ") summary || ends token summary)
    && not (full && begins "locate " summary)

unfoldable pub load_last_operator_action_for_slot :
    Bool → ℤ → ℤ → List AuditEvent → Option AuditEvent
load_last_operator_action_for_slot full enclosure slot log =
    find_first (is_action_for_slot full enclosure slot) log

abbrev serial_token : List String → Option String
serial_token [] = none
serial_token (t ∷ []) = none
serial_token (t ∷ next ∷ rest) = if str_eq t "serial" then some next else serial_token (next ∷ rest)

unfoldable pub extract_serial_from_audit : String → Option String
extract_serial_from_audit message = serial_token (words message)

-- The answers that come before a plan, and the plan itself.
pub data Check {ℓ} (A : Type ℓ) : Type ℓ where
  go : A → Check A
  refuse : ℕ → String → Check A

infixl 5 ◌>>=◌ ◌>>◌
abbrev pub ◌>>=◌ {ℓ κ} : {A : Type ℓ} {B : Type κ} → Check A → (A → Check B) → Check B
go a >>= f = f a
refuse status error >>= f = refuse status error

abbrev pub ◌>>◌ {ℓ} : {B : Type ℓ} → Check (Unit {0}) → Check B → Check B
m >> k = m >>= λ _. k

abbrev pub guard : Bool → ℕ → String → Check (Unit {0})
guard true status error = go tt
guard false status error = refuse status error

abbrev pub or_refuse {ℓ} : {A : Type ℓ} → Option A → ℕ → String → Check A
or_refuse none status error = refuse status error
or_refuse (some a) status error = go a

-- An answer that leaves the log as it was.
abbrev pub answer : ℕ → String → List Command → List AuditEvent → Response
answer status error runs log = record { status = status; error = error; runs = runs; log = log }

-- The record of an action, `audit_failed` where the database refuses it, with the answer after it.
abbrev pub recorded :
    Bool → String → Option String → ℕ → String → List Command → List AuditEvent → Response
recorded stored message mark status error runs log =
    if stored
    then answer status error runs (record_operator_action message mark log)
    else answer 500 "audit persistence failed" runs log
