-- ===== src/Storcli/Parser/Sizes.antt =====
-- `size_string_to_bytes` of src/megaraid_dashboard/storcli/models.py; a number has no exponent.
use megaraid_dashboard.Prelude.{
  ℕ, ◌+◌, ◌*◌, ◌/◌, ◌^◌, ◌-◌, String, false, Option, none, some, List, [], ◌∷◌, str_eq, lookup_text,
  if◌then◌else◌,
}
use megaraid_dashboard.Prelude.Text.{casefold}
use megaraid_dashboard.Prelude.Scan.{read_number, drop_text, ◌>>=◌}
use megaraid_dashboard.Prelude.Words.{words, text_length}

-- A number with up to some digits after the point, as the digits and their number after the point.
abbrev pub after_point : ℕ → String → Option (ℕ × String) → Option (ℕ × ℕ)
after_point n rest none = if str_eq rest "." then some (n, 0) else none
after_point n rest (some (m, end)) =
    let k = text_length rest - 1 in if str_eq end "" then some (n * 10 ^ k + m, k) else none

abbrev pub read_fraction : Option (ℕ × String) → Option (ℕ × ℕ)
read_fraction none = none
read_fraction (some (n, rest)) =
    if str_eq rest ""
    then some (n, 0)
    else after_point n rest (drop_text "." rest >>= read_number false 0)

unfoldable pub read_decimal : String → Option (ℕ × ℕ)
read_decimal s = read_fraction (read_number false 0 s)

abbrev pub multipliers : List (String × ℕ)
multipliers =
    ("b", 1)
    ∷ ("bytes", 1)
    ∷ ("kb", 10 ^ 3)
    ∷ ("mb", 10 ^ 6)
    ∷ ("gb", 10 ^ 9)
    ∷ ("tb", 10 ^ 12)
    ∷ ("pb", 10 ^ 15)
    ∷ []

abbrev pub in_unit : Option ℕ → Option (ℕ × ℕ) → Option ℕ
in_unit (some multiplier) (some (n, k)) = some (n * multiplier / 10 ^ k)
in_unit multiplier number = none

unfoldable pub without_commas : String → String
without_commas String.[] = String.[]
without_commas (String.◌∷◌ c s) =
    let rest = without_commas s in if str_eq (String.◌∷◌ c "") "," then rest else String.◌∷◌ c rest

abbrev pub size_of : List String → Option ℕ
size_of [] = none
size_of (number ∷ []) = in_unit (some 1) (read_decimal number)
size_of (number ∷ unit ∷ more) =
    in_unit (lookup_text (casefold unit) multipliers) (read_decimal number)

-- none is the `ValueError`.
unfoldable pub size_string_to_bytes : String → Option ℕ
size_string_to_bytes value = size_of (words (without_commas value))
