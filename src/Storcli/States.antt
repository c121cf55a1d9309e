-- ===== src/Storcli/States.antt =====
-- src/megaraid_dashboard/storcli/states.py: firmware spellings of states.
use megaraid_dashboard.Prelude.{
  String, List, lookup_text, str_mem, if◌then◌else◌, Option, none, some, [], ◌∷◌,
}
use megaraid_dashboard.Prelude.Text.{strip, casefold}

abbrev pub aliases : List (String × String)
aliases =
    ("optl", "optimal")
    ∷ ("msng", "missing")
    ∷ ("offln", "offline")
    ∷ ("ofln", "offline")
    ∷ ("dgrd", "degraded")
    ∷ ("pdgd", "partially degraded")
    ∷ ("partially-degraded", "partially degraded")
    ∷ []

abbrev or_self : String → Option String → String
or_self s none = s
or_self s (some t) = t

-- `_ALIASES.get(normalized, normalized)`.
unfoldable pub alias : String → String
alias s = or_self s (lookup_text s aliases)

unfoldable pub normalized_state : String → String
normalized_state state = alias (casefold (strip state))

abbrev or_empty : Option String → String
or_empty none = ""
or_empty (some v) = v

unfoldable pub normalize_alarm_state : Option String → String
normalize_alarm_state value =
    let normalized = casefold (strip (or_empty value)) in
    if str_mem normalized ("on" ∷ "enabled" ∷ "enable" ∷ [])
    then "On"
    else if str_mem normalized ("silenced" ∷ "silence" ∷ "mute" ∷ "muted" ∷ [])
    then "Silenced"
    else if str_mem normalized ("off" ∷ "disabled" ∷ "disable" ∷ [])
    then "Off"
    else "Unknown"
