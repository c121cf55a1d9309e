-- ===== src/Storcli/Policy/Actions.antt =====
-- `action_commands`, `action_refusal`, `replacement_refusal` and `replacement_command_refusal` of
-- src/megaraid_dashboard/storcli/policy.py. No path has a line break.
use Prim.Native.Char.{code}
use Prim.Native.String.{◌++◌ as cat}
use megaraid_dashboard.Prelude.{
  ℕ, ◌-◌, String, Bool, false, not, ◌&&◌, ◌||◌, ◌==◌, leb, Option, none, some, List, [], ◌∷◌,
  str_eq, any_of, keep, find_first, lookup_text, if◌then◌else◌,
}
use megaraid_dashboard.Prelude.Text.{decimal}
use megaraid_dashboard.Prelude.Scan.{drop_text, ◌>>=◌}
use megaraid_dashboard.Prelude.Words.{ends, words}
use megaraid_dashboard.Storcli.Commands.{with_json_flag, join_spaces}
use megaraid_dashboard.Storcli.Parser.{slot_of_path}
use megaraid_dashboard.Storcli.Policy.{CommandPolicy, ReplacementTopology, permits}

unfoldable pub suffixes : CommandPolicy → List (String × List String)
suffixes policy =
    ("/controller/buzzer/silence", "/c0 set alarm=silence J" ∷ [])
    ∷ ("/controller/buzzer/disable", "/c0 set alarm=off J" ∷ [])
    ∷ ("/controller/buzzer/enable", "/c0 set alarm=on J" ∷ [])
    ∷ ("/controller/patrol-read/start", "/c0 start patrolread J" ∷ [])
    ∷ ("/controller/patrol-read/stop", "/c0 stop patrolread J" ∷ [])
    ∷ (
      "/controller/patrol-read/mode",
      "/c0 set patrolread=on mode=auto J" ∷ "/c0 set patrolread=on mode=manual J"
          ∷ "/c0 set patrolread=off J" ∷ [],
    )
    ∷ (
      "/controller/consistency-check/start",
      "/c0/vall start cc J" ∷ cat "/c0/v" (cat (decimal policy.virtual_drive) " start cc J") ∷ [],
    )
    ∷ ("/controller/consistency-check/stop", "/c0/vall stop cc J" ∷ [])
    ∷ ("/controller/consistency-check/mode", "/c0 set cc=conc J" ∷ "/c0 set cc=seq J" ∷ [])
    ∷ ("/controller/foreign-config/import", "/c0/fall import J" ∷ [])
    ∷ ("/controller/foreign-config/clear", "/c0/fall delete J" ∷ [])
    ∷ []

abbrev suffix_of : String → List (String × List String) → Option (List String)
suffix_of path [] = none
suffix_of path ((suffix, commands) ∷ rest) =
    if ends suffix path then some commands else suffix_of path rest

-- `([0-7])/(.+)$`.
abbrev slot_and_action : String → Option (ℕ × String)
slot_and_action String.[] = none
slot_and_action (String.◌∷◌ c s) =
    if leb 48 (code c) && leb (code c) 55
    then drop_text "/" s
      >>= (λ (action : String). if str_eq action "" then none else some (code c - 48, action))
    else none

abbrev or_later {ℓ} : {A : Type ℓ} → Option A → Option A → Option A
or_later (some a) later = some a
or_later none later = later

-- The first match in the path.
unfoldable pub drive_action : String → Option (ℕ × String)
drive_action String.[] = none
drive_action (String.◌∷◌ c s) =
    or_later (drop_text "/drives/252:" (String.◌∷◌ c s) >>= slot_and_action) (drive_action s)

unfoldable pub tails : CommandPolicy → List (String × String)
tails policy =
    ("locate/start", "start locate J")
    ∷ ("locate/stop", "stop locate J")
    ∷ ("actions/mark-ugood", "set good J")
    ∷ ("actions/spindown", "spindown J")
    ∷ ("actions/hotspare", cat "add hotsparedrive dgs=" (cat (decimal policy.disk_group) " J"))
    ∷ ("replace/offline", "set offline J")
    ∷ ("replace/missing", "set missing J")
    ∷ []

unfoldable pub drive_command : ℕ → String → String
drive_command slot tail = cat "/c0/e252/s" (cat (decimal slot) (cat " " tail))

unfoldable pub insert_tail : ReplacementTopology → String
insert_tail t = cat "insert dg=" (
    cat (decimal t.dg)
      (cat " array=" (cat (decimal t.array) (cat " row=" (cat (decimal t.row) " J")))))

abbrev insert_commands : ℕ → Option ReplacementTopology → List String
insert_commands slot none = []
insert_commands slot (some t) = drive_command slot (insert_tail t) ∷ []

abbrev tail_commands : ℕ → Option String → List String
tail_commands slot none = []
tail_commands slot (some tail) = drive_command slot tail ∷ []

unfoldable pub drive_commands : CommandPolicy → Option (ℕ × String) → List String
drive_commands policy none = []
drive_commands policy (some (slot, action)) =
    if str_eq action "replace/insert"
    then insert_commands slot
        (find_first (λ (t : ReplacementTopology). t.slot == slot) policy.replacements)
    else tail_commands slot (lookup_text action (tails policy))

abbrev or_drive : List String → Option (List String) → List String
or_drive commands none = commands
or_drive commands (some fixed) = fixed

unfoldable pub action_commands : CommandPolicy → String → List String
action_commands policy path =
    or_drive (drive_commands policy (drive_action path)) (suffix_of path (suffixes policy))

abbrev chosen : Option (List String) → List String → List String
chosen none commands = commands
chosen (some selected) commands =
    keep (λ (candidate : String). str_eq candidate (join_spaces (with_json_flag selected))) commands

-- true where there is a refusal.
unfoldable pub action_refusal : CommandPolicy → String → Option (List String) → Bool
action_refusal policy path selected = not (
    any_of (λ (command : String). permits policy (words command))
      (chosen selected (action_commands policy path)))

unfoldable pub refused_step : CommandPolicy → String → String → Bool
refused_step policy base step = action_refusal policy (cat base (cat "/" step)) none

-- `path.rsplit("/", 1)[0]` is the argument.
unfoldable pub replacement_refusal : CommandPolicy → String → Bool
replacement_refusal policy base =
    refused_step policy base "offline"
    || refused_step policy base "missing"
    || refused_step policy base "insert"

abbrev pub is_replacement : List String → Bool
is_replacement (target ∷ verb ∷ what ∷ rest) =
    (str_eq verb "set" && (str_eq what "offline" || str_eq what "missing")) || str_eq verb "insert"
is_replacement (target ∷ verb ∷ []) = str_eq verb "insert"
is_replacement other = false

abbrev pub target_of : List String → String
target_of [] = ""
target_of (target ∷ rest) = target

abbrev pub replacement_base : List String → String
replacement_base args = cat "/drives/" (cat (slot_of_path (target_of args)) "/replace")

unfoldable pub replacement_command_refusal : CommandPolicy → List String → Bool
replacement_command_refusal policy args =
    is_replacement args && replacement_refusal policy (replacement_base args)
