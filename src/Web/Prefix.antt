-- ===== src/Web/Prefix.antt =====
-- The prefix of the paths that a proxy names, src/megaraid_dashboard/web/middleware.py.
use megaraid_dashboard.Prelude.{
  ℕ, Bool, false, not, ◌&&◌, ◌||◌, ◌==◌, leb, Option, none, some, List, [], ◌∷◌, any_of,
  if◌then◌else◌,
}
use megaraid_dashboard.Web.Auth.{Bytes, same_bytes, is_nonempty}

-- The pieces between slashes.
abbrev prepend : ℕ → List Bytes → List Bytes
prepend c [] = (c ∷ []) ∷ []
prepend c (s ∷ ss) = (c ∷ s) ∷ ss

unfoldable pub segments : Bytes → List Bytes
segments [] = [] ∷ []
segments (c ∷ s) = let rest = segments s in if c == 47 then [] ∷ rest else prepend c rest

abbrev trim : ℕ → Bytes → Bytes
trim c [] = if c == 47 then [] else c ∷ []
trim c (d ∷ s) = c ∷ d ∷ s

-- `rstrip("/")`.
unfoldable pub rstrip_slashes : Bytes → Bytes
rstrip_slashes [] = []
rstrip_slashes (c ∷ s) = trim c (rstrip_slashes s)

abbrev is_safe_char : ℕ → Bool
is_safe_char c =
    (leb 65 c && leb c 90)
    || (leb 97 c && leb c 122)
    || (leb 48 c && leb c 57)
    || c == 46
    || c == 95
    || c == 126
    || c == 45

abbrev is_dots : Bytes → Bool
is_dots s = same_bytes s (46 ∷ []) || same_bytes s (46 ∷ 46 ∷ [])

abbrev is_safe_segment : Bytes → Bool
is_safe_segment s =
    is_nonempty s && not (any_of (λ (c : ℕ). not (is_safe_char c)) s) && not (is_dots s)

abbrev are_safe : List Bytes → Bool
are_safe ([] ∷ s ∷ ss) = not (any_of (λ (t : Bytes). not (is_safe_segment t)) (s ∷ ss))
are_safe other = false

-- `_SAFE_PREFIX_RE` and the segments.
unfoldable pub is_safe_forwarded_prefix : Bytes → Bool
is_safe_forwarded_prefix value = are_safe (segments value)

unfoldable pub normalize_forwarded_prefix : Option Bytes → Option Bytes
normalize_forwarded_prefix none = none
normalize_forwarded_prefix (some value) =
    let normalized = rstrip_slashes value in
    if is_nonempty normalized && is_safe_forwarded_prefix normalized then some normalized else none
