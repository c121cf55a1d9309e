-- ===== src/Prelude/Scan.antt =====
-- Matching of texts from the left, as regular expressions of the source do it; digits are ASCII.
pub mod Decimal
use Prim.Native.Nat.{ℕ, ◌+◌, ◌-◌, ◌*◌}
use Prim.Native.Char.{Char, code}
use Prim.Native.String.{String}
use mathlib.Core.Bool.{Bool, true, ◌&&◌}
use mathlib.Core.Option.{Option, none, some}
use mathlib.Core.List.{List, [], ◌∷◌}
use megaraid_dashboard.Prelude.Tests.{leb, ◌==◌, if◌then◌else◌}

abbrev after_digit : Bool → ℕ → String → Option (ℕ × String)
after_digit seen n s = if seen then some (n, s) else none

unfoldable pub read_number : Bool → ℕ → String → Option (ℕ × String)
read_number seen n String.[] = after_digit seen n String.[]
read_number seen n (String.◌∷◌ c s) =
    let rest = read_number true (10 * n + (code c - 48)) s in
    if leb 48 (code c) && leb (code c) 57 then rest else after_digit seen n (String.◌∷◌ c s)

abbrev same_char : ℕ → ℕ → Option String → Option String
same_char a b rest = if a == b then rest else none

unfoldable pub drop_text : String → String → Option String
drop_text String.[] s = some s
drop_text (String.◌∷◌ c p) String.[] = none
drop_text (String.◌∷◌ c p) (String.◌∷◌ d s) = same_char (code c) (code d) (drop_text p s)

infixl 10 ◌>>=◌
abbrev pub ◌>>=◌ {ℓ κ} : {A : Type ℓ} {B : Type κ} → Option A → (A → Option B) → Option B
none >>= f = none
some a >>= f = f a

abbrev prepend : Char → List String → List String
prepend c [] = (String.◌∷◌ c String.[]) ∷ []
prepend c (w ∷ ws) = (String.◌∷◌ c w) ∷ ws

-- `split(" ")`.
unfoldable pub split_spaces : String → List String
split_spaces String.[] = String.[] ∷ []
split_spaces (String.◌∷◌ c s) =
    let rest = split_spaces s in if code c == 32 then String.[] ∷ rest else prepend c rest
