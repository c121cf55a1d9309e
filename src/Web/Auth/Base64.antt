-- ===== src/Web/Auth/Base64.antt =====
-- `base64.b64decode(token, validate=True)` and the check of `decode("utf-8")`, on lists of bytes, for
-- src/megaraid_dashboard/web/auth.py.
use megaraid_dashboard.Prelude.{
  ℕ, zero, suc, ◌+◌, ◌-◌, ◌*◌, ◌/◌, ◌%◌, Bool, false, ◌&&◌, ◌==◌, leb, ltb, Option, none, some,
  List, [], ◌∷◌, if◌then◌else◌,
}

-- The six bits that a letter stands for.
unfoldable pub sextet : ℕ → Option ℕ
sextet c =
    if leb 65 c && leb c 90
    then some (c - 65)
    else if leb 97 c && leb c 122
    then some (c - 71)
    else if leb 48 c && leb c 57
    then some (c + 4)
    else if c == 43
    then some 62
    else if c == 47
    then some 63
    else none

abbrev pub first_byte : ℕ → ℕ → ℕ
first_byte x y = x * 4 + y / 16

abbrev pub second_byte : ℕ → ℕ → ℕ
second_byte y z = y % 16 * 16 + z / 4

abbrev pub third_byte : ℕ → ℕ → ℕ
third_byte z w = z % 4 * 64 + w

-- Four letters without padding, in front of what the others stand for.
abbrev pub whole_group : ℕ → ℕ → Option ℕ → Option ℕ → Option (List ℕ) → Option (List ℕ)
whole_group x y (some z) (some w) (some bytes) =
    some (first_byte x y ∷ second_byte y z ∷ third_byte z w ∷ bytes)
whole_group x y z w bytes = none

abbrev pub two_bytes : ℕ → ℕ → Option ℕ → Option (List ℕ)
two_bytes x y none = none
two_bytes x y (some z) = some (first_byte x y ∷ second_byte y z ∷ [])

-- Padding ends the text.
abbrev pub last_group : ℕ → ℕ → ℕ → List ℕ → Option (List ℕ)
last_group x y c [] = if c == 61 then some (first_byte x y ∷ []) else two_bytes x y (sextet c)
last_group x y c (e ∷ rest) = none

abbrev pub four_letters : Option ℕ → Option ℕ → ℕ → ℕ → List ℕ → Option (List ℕ) → Option (List ℕ)
four_letters (some x) (some y) c d rest bytes =
    if d == 61 then last_group x y c rest else whole_group x y (sextet c) (sextet d) bytes
four_letters x y c d rest bytes = none

unfoldable pub b64decode : List ℕ → Option (List ℕ)
b64decode [] = some []
b64decode (a ∷ b ∷ c ∷ d ∷ rest) = four_letters (sextet a) (sextet b) c d rest (b64decode rest)
b64decode other = none

-- How many bytes of a character are missing, and the bounds of the next one.
abbrev pub Pending : Type 0
Pending = ℕ × ℕ × ℕ

abbrev lead : ℕ → Option Pending
lead b =
    if ltb b 0x80
    then some (0, 0x80, 0xbf)
    else if leb 0xc2 b && leb b 0xdf
    then some (1, 0x80, 0xbf)
    else if b == 0xe0
    then some (2, 0xa0, 0xbf)
    else if b == 0xed
    then some (2, 0x80, 0x9f)
    else if leb 0xe1 b && leb b 0xef
    then some (2, 0x80, 0xbf)
    else if b == 0xf0
    then some (3, 0x90, 0xbf)
    else if leb 0xf1 b && leb b 0xf3
    then some (3, 0x80, 0xbf)
    else if b == 0xf4
    then some (3, 0x80, 0x8f)
    else none

abbrev utf8_step : Pending → ℕ → Option Pending
utf8_step (zero, low, high) b = lead b
utf8_step (suc n, low, high) b = if leb low b && leb b high then some (n, 0x80, 0xbf) else none

unfoldable pub utf8_from : Pending → List ℕ → Bool
utf8_from (n, low, high) [] = n == 0
utf8_from s (b ∷ bs) = elim (utf8_step s b) [ none ↦ false | some s' ↦ utf8_from s' bs ]

unfoldable pub is_utf8 : List ℕ → Bool
is_utf8 bytes = utf8_from (0, 0x80, 0xbf) bytes
