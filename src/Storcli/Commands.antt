-- ===== src/Storcli/Commands.antt =====
-- `_ALLOWED_COMMAND_PATTERNS`, `_with_json_flag` and `_validate_command` of
-- src/megaraid_dashboard/storcli/runner.py. No argument contains a space, so that a pattern matches
-- the joined arguments when its parts match them one by one.
use Prim.Native.String.{◌++◌ as cat}
use megaraid_dashboard.Prelude.{
  ℕ, String, Bool, true, false, not, ◌&&◌, ◌||◌, Option, none, some, List, [], ◌∷◌, ◌++◌, str_eq,
  str_mem, any_of, if◌then◌else◌,
}
use megaraid_dashboard.Prelude.Text.{is_space}
use megaraid_dashboard.Prelude.Scan.{read_number, drop_text, ◌>>=◌}

-- A word of a pattern: a text, one of some texts, a text and a number, a volume, a drive.
pub data Part : Type 0 where
  word : String → Part
  one_of : List String → Part
  numbered : String → Part
  volume drive : Part

abbrev is_end : Option (ℕ × String) → Bool
is_end none = false
is_end (some (n, rest)) = str_eq rest ""

abbrev pub is_numbered : String → String → Bool
is_numbered prefix s = is_end (drop_text prefix s >>= (λ rest. read_number false 0 rest))

abbrev pub is_drive : String → Bool
is_drive s = is_end (
    drop_text "/c0/e" s >>= (λ r.
      read_number false 0 r
      >>= (λ (n, r'). drop_text "/s" r' >>= (λ r''. read_number false 0 r''))))

unfoldable pub matches_part : Part → String → Bool
matches_part (word w) s = str_eq s w
matches_part (one_of ws) s = str_mem s ws
matches_part (numbered prefix) s = is_numbered prefix s
matches_part volume s = str_eq s "/c0/vall" || is_numbered "/c0/v" s
matches_part drive s = is_drive s

unfoldable pub matches : List Part → List String → Bool
matches [] [] = true
matches (p ∷ ps) (s ∷ ss) = matches_part p s && matches ps ss
matches _ _ = false

abbrev json : Part
json = word "J"

abbrev pub allowed_command_patterns : List (List Part)
allowed_command_patterns =
    (word "/c0" ∷ word "show" ∷ word "all" ∷ json ∷ [])
    ∷ (word "/c0/vall" ∷ word "show" ∷ word "all" ∷ json ∷ [])
    ∷ (word "/c0/eall/sall" ∷ word "show" ∷ word "all" ∷ json ∷ [])
    ∷ (word "/c0/cv" ∷ word "show" ∷ word "all" ∷ json ∷ [])
    ∷ (word "/c0/bbu" ∷ word "show" ∷ word "all" ∷ json ∷ [])
    ∷ (word "/c0" ∷ word "show" ∷ word "patrolread" ∷ json ∷ [])
    ∷ (word "/c0" ∷ one_of ("start" ∷ "stop" ∷ []) ∷ word "patrolread" ∷ json ∷ [])
    ∷ (word "/c0"
        ∷ word "set"
        ∷ word "patrolread=on"
        ∷ one_of ("mode=auto" ∷ "mode=manual" ∷ [])
        ∷ json
        ∷ [])
    ∷ (word "/c0" ∷ word "set" ∷ word "patrolread=off" ∷ json ∷ [])
    ∷ (word "/c0" ∷ word "show" ∷ word "cc" ∷ json ∷ [])
    ∷ (word "/c0/vall" ∷ word "show" ∷ word "cc" ∷ json ∷ [])
    ∷ (volume ∷ word "start" ∷ word "cc" ∷ json ∷ [])
    ∷ (word "/c0/vall" ∷ word "stop" ∷ word "cc" ∷ json ∷ [])
    ∷ (word "/c0" ∷ word "set" ∷ one_of ("cc=conc" ∷ "cc=seq" ∷ []) ∷ json ∷ [])
    ∷ (word "/c0"
        ∷ word "set"
        ∷ one_of ("alarm=silence" ∷ "alarm=off" ∷ "alarm=on" ∷ [])
        ∷ json
        ∷ [])
    ∷ (word "/c0"
        ∷ word "set"
        ∷ one_of ("activityforlocate=on" ∷ "activityforlocate=off" ∷ [])
        ∷ json
        ∷ [])
    ∷ (word "/c0/fall" ∷ word "show" ∷ word "all" ∷ json ∷ [])
    ∷ (word "/c0/fall" ∷ word "import" ∷ json ∷ [])
    ∷ (word "/c0/fall" ∷ word "delete" ∷ json ∷ [])
    ∷ (drive ∷ word "show" ∷ word "all" ∷ json ∷ [])
    ∷ (drive ∷ word "show" ∷ word "rebuild" ∷ json ∷ [])
    ∷ (drive ∷ one_of ("start" ∷ "stop" ∷ []) ∷ word "locate" ∷ json ∷ [])
    ∷ (drive ∷ word "set" ∷ one_of ("offline" ∷ "missing" ∷ "good" ∷ []) ∷ json ∷ [])
    ∷ (drive ∷ word "spindown" ∷ json ∷ [])
    ∷ (drive ∷ word "add" ∷ word "hotsparedrive" ∷ numbered "dgs=" ∷ json ∷ [])
    ∷ (drive ∷ word "insert" ∷ numbered "dg=" ∷ numbered "array=" ∷ numbered "row=" ∷ json ∷ [])
    ∷ []

unfoldable pub has_space : String → Bool
has_space String.[] = false
has_space (String.◌∷◌ c s) = is_space c || has_space s

-- `_validate_command` returns; otherwise it raises `StorcliCommandFailed`.
unfoldable pub validate_command : List String → Bool
validate_command args =
    not (any_of (λ (arg : String). str_eq arg "" || has_space arg) args)
    && any_of (λ (p : List Part). matches p args) allowed_command_patterns

abbrev pub last_of : List String → Option String
last_of [] = none
last_of (a ∷ []) = some a
last_of (a ∷ b ∷ rest) = last_of (b ∷ rest)

abbrev pub is_json : Option String → Bool
is_json none = false
is_json (some s) = str_eq s "J"

unfoldable pub with_json_flag : List String → List String
with_json_flag args = if is_json (last_of args) then args else args ++ "J" ∷ []

unfoldable pub join_spaces : List String → String
join_spaces [] = ""
join_spaces (a ∷ []) = a
join_spaces (a ∷ b ∷ rest) = cat a (cat " " (join_spaces (b ∷ rest)))
