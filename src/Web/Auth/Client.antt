-- ===== src/Web/Auth/Client.antt =====
-- What a client sends for a name and a password, and that src/megaraid_dashboard/web/auth.py reads it.
use megaraid_dashboard.Prelude.{
  ℕ, ◌+◌, ◌-◌, ◌*◌, ◌/◌, ◌%◌, ◌<◌, ◌≡◌, refl, ap, false, ◌==◌, ltb, some, List, [], ◌∷◌, ◌++◌, All,
  arith, if◌then◌else◌,
}
use megaraid_dashboard.Web.Auth.Base64.{sextet, b64decode, first_byte, second_byte, third_byte}

unfoldable pub letter : ℕ → ℕ
letter n =
    if ltb n 26
    then n + 65
    else if ltb n 52
    then n + 71
    else if ltb n 62
    then n - 4
    else if n == 62
    then 43
    else 47

-- Base64 of RFC 4648.
unfoldable pub b64encode : List ℕ → List ℕ
b64encode [] = []
b64encode (x ∷ []) = letter (x / 4) ∷ letter (x % 4 * 16) ∷ 61 ∷ 61 ∷ []
b64encode (x ∷ y ∷ []) =
    letter (x / 4) ∷ letter (x % 4 * 16 + y / 16) ∷ letter (y % 16 * 4) ∷ 61 ∷ []
b64encode (x ∷ y ∷ z ∷ rest) =
    letter (x / 4)
    ∷ letter (x % 4 * 16 + y / 16)
    ∷ letter (y % 16 * 4 + z / 64)
    ∷ letter (z % 64)
    ∷ b64encode rest

-- `Basic ` and the token of the name and the password, of RFC 7617.
unfoldable pub basic_header : List ℕ → List ℕ → List ℕ
basic_header user password = 66 ∷ 97 ∷ 115 ∷ 105 ∷ 99 ∷ 32 ∷ b64encode (user ++ 58 ∷ password)

abbrev pub IsByte : ℕ → Type 0
IsByte b = b < 256

pub sextet-letter : (n : ℕ) → n < 64 → sextet (letter n) ≡ some n
unfolding sextet letter
sextet-letter n h = ground arith

letter-not_padding : (n : ℕ) → n < 64 → (letter n == 61) ≡ false
unfolding letter
letter-not_padding n h = ground arith

one_byte : (x : ℕ) → x < 256 → b64decode (b64encode (x ∷ [])) ≡ some (x ∷ [])
unfolding b64decode b64encode
one_byte x h =
    rw (sextet-letter (x / 4) (omega arith), sextet-letter (x % 4 * 16) (omega arith))
      (ap (λ b. some (b ∷ [])) (omega arith))

two_letters : (x y : ℕ) → x < 256 → y < 256 → b64decode (b64encode (x ∷ y ∷ [])) ≡ some (x ∷ y ∷ [])
unfolding b64decode b64encode
two_letters x y h k =
    rw
      (
        sextet-letter (x / 4) (omega arith),
        sextet-letter (x % 4 * 16 + y / 16) (omega arith),
        letter-not_padding (y % 16 * 4) (omega arith),
        sextet-letter (y % 16 * 4) (omega arith),
      )
      (let one : first_byte (x / 4) (x % 4 * 16 + y / 16) ≡ x = omega arith in
        let two : second_byte (x % 4 * 16 + y / 16) (y % 16 * 4) ≡ y = omega arith in
        rw (one, two) refl)

whole :
    (x y z : ℕ) (letters : List ℕ) (bytes : List ℕ)
    → x < 256
    → y < 256
    → z < 256
    → b64decode letters ≡ some bytes
    → b64decode (
        letter (x / 4)
        ∷ letter (x % 4 * 16 + y / 16)
        ∷ letter (y % 16 * 4 + z / 64)
        ∷ letter (z % 64)
        ∷ letters)
      ≡ some (x ∷ y ∷ z ∷ bytes)
unfolding b64decode
whole x y z letters bytes hx hy hz rest =
    rw
      (
        sextet-letter (x / 4) (omega arith),
        sextet-letter (x % 4 * 16 + y / 16) (omega arith),
        letter-not_padding (z % 64) (omega arith),
        sextet-letter (y % 16 * 4 + z / 64) (omega arith),
        sextet-letter (z % 64) (omega arith),
        rest,
      )
      (let one : first_byte (x / 4) (x % 4 * 16 + y / 16) ≡ x = omega arith in
        let two : second_byte (x % 4 * 16 + y / 16) (y % 16 * 4 + z / 64) ≡ y = omega arith in
        let three : third_byte (y % 16 * 4 + z / 64) (z % 64) ≡ z = omega arith in
        rw (one, two, three) refl)

pub b64decode-b64encode :
    (bytes : List ℕ) → All IsByte bytes → b64decode (b64encode bytes) ≡ some bytes
unfolding b64decode b64encode
b64decode-b64encode [] h = refl
b64decode-b64encode (x ∷ []) h = one_byte x h.0
b64decode-b64encode (x ∷ y ∷ []) h = two_letters x y h.0 h.1.0
b64decode-b64encode (x ∷ y ∷ z ∷ rest) h =
    whole x y z (b64encode rest) rest h.0 h.1.0 h.1.1.0 (b64decode-b64encode rest h.1.1.1)
