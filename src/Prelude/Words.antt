-- ===== src/Prelude/Words.antt =====
-- Words of texts: `str.split()`, `\S+`, `in`, and slices.
pub mod Laws
use Prim.Native.Nat.{ℕ, zero, suc}
use Prim.Native.Char.{Char, code}
use Prim.Native.String.{String}
use mathlib.Core.Bool.{Bool, true, false, not, ◌||◌}
use mathlib.Core.Option.{Option, none, some}
use mathlib.Core.List.{List, [], ◌∷◌}
use text.Mathlib.Text.{◌==◌ as str_eq}
use megaraid_dashboard.Prelude.Tests.{if◌then◌else◌}
use megaraid_dashboard.Prelude.Lists.{keep}
use megaraid_dashboard.Prelude.Text.{is_space}
use megaraid_dashboard.Prelude.Scan.{drop_text}

abbrev pub is_found {ℓ} : {A : Type ℓ} → Option A → Bool
is_found none = false
is_found (some a) = true

-- `m.startswith(p)`.
abbrev pub begins : String → String → Bool
begins p m = is_found (drop_text p m)

-- `p in m`.
unfoldable pub contains_text : String → String → Bool
contains_text p String.[] = begins p String.[]
contains_text p (String.◌∷◌ c m) = begins p (String.◌∷◌ c m) || contains_text p m

-- `m.endswith(p)`.
unfoldable pub ends : String → String → Bool
ends p String.[] = str_eq p String.[]
ends p (String.◌∷◌ c m) = str_eq p (String.◌∷◌ c m) || ends p m

abbrev prepend : Char → List String → List String
prepend c [] = (String.◌∷◌ c String.[]) ∷ []
prepend c (w ∷ ws) = (String.◌∷◌ c w) ∷ ws

-- The pieces between the characters of white space.
unfoldable pub pieces : String → List String
pieces String.[] = String.[] ∷ []
pieces (String.◌∷◌ c s) =
    let rest = pieces s in if is_space c then String.[] ∷ rest else prepend c rest

unfoldable pub words : String → List String
words s = keep (λ (w : String). not (str_eq w "")) (pieces s)

-- The characters up to the first white space, and the rest.
unfoldable pub span_word : String → String × String
span_word String.[] = ("", "")
span_word (String.◌∷◌ c s) =
    let (w, rest) = span_word s in
    if is_space c then ("", String.◌∷◌ c s) else (String.◌∷◌ c w, rest)

abbrev nonempty : String × String → Option (String × String)
nonempty (w, rest) = if str_eq w "" then none else some (w, rest)

-- A match of `\S+`.
unfoldable pub read_word : String → Option (String × String)
read_word s = nonempty (span_word s)

-- `len` and a slice from the start, in characters.
unfoldable pub text_length : String → ℕ
text_length String.[] = zero
text_length (String.◌∷◌ c s) = suc (text_length s)

unfoldable pub take_text : ℕ → String → String
take_text zero s = String.[]
take_text (suc n) String.[] = String.[]
take_text (suc n) (String.◌∷◌ c s) = String.◌∷◌ c (take_text n s)
