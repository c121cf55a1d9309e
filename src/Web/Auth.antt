-- ===== src/Web/Auth.antt =====
-- HTTP basic authentication, src/megaraid_dashboard/web/auth.py and web/_whitelist.py. A text that
-- comes from the wire is the list of its bytes, and one that is compared as bytes is that of its
-- UTF-8 encoding.
pub mod Base64
pub mod Client
pub mod RoundTrip
pub mod Admin
use megaraid_dashboard.Prelude.{
  ℕ, ◌+◌, String, Bool, true, false, not, ◌&&◌, ◌||◌, ◌==◌, leb, Option, none, some, List, [], ◌∷◌,
  str_eq, any_of, if◌then◌else◌,
}
use megaraid_dashboard.Prelude.Text.{casefold}
use megaraid_dashboard.Prelude.Scan.{◌>>=◌}
use megaraid_dashboard.Prelude.Words.{begins}
use megaraid_dashboard.Web.Auth.Base64.{b64decode, is_utf8}

abbrev pub Bytes : Type 0
Bytes = List ℕ

unfoldable pub is_whitelisted : String → Bool
is_whitelisted path = str_eq path "/healthz" || str_eq path "/favicon.ico" || begins "/static/" path

-- `bcrypt.checkpw` of a password and a hash; none where it raises `ValueError`.
abbrev pub CheckPassword : Type 0
CheckPassword = Bytes → Bytes → Option Bool

pub record Credentials : Type 0 where
  pub admin_username : Bytes
  pub admin_password_hash : Bytes

-- The first header with this name.
unfoldable pub get_authorization_header : List (String × Bytes) → Option Bytes
get_authorization_header [] = none
get_authorization_header ((name, value) ∷ headers) =
    if str_eq (casefold name) "authorization" then some value else get_authorization_header headers

abbrev pub same_bytes : Bytes → Bytes → Bool
same_bytes [] [] = true
same_bytes (a ∷ as_) (b ∷ bs) = a == b && same_bytes as_ bs
same_bytes _ _ = false

abbrev before : ℕ → Option (Bytes × Bytes) → Option (Bytes × Bytes)
before b none = none
before b (some (left, right)) = some (b ∷ left, right)

-- `split(separator, 1)` into two parts; none where the separator is not there.
unfoldable pub split_once : ℕ → Bytes → Option (Bytes × Bytes)
split_once separator [] = none
split_once separator (b ∷ bs) =
    let rest = before b (split_once separator bs) in if b == separator then some ([], bs) else rest

abbrev lower_byte : ℕ → ℕ
lower_byte b = if leb 65 b && leb b 90 then b + 32 else b

-- `scheme.lower() == "basic"`.
abbrev pub is_basic : Bytes → Bool
is_basic (b ∷ a ∷ s ∷ i ∷ c ∷ []) =
    lower_byte b == 98
    && lower_byte a == 97
    && lower_byte s == 115
    && lower_byte i == 105
    && lower_byte c == 99
is_basic other = false

abbrev pub is_token_byte : ℕ → Bool
is_token_byte b =
    (leb 65 b && leb b 90)
    || (leb 97 b && leb b 122)
    || (leb 48 b && leb b 57)
    || b == 43
    || b == 47
    || b == 61

abbrev pub is_nonempty : Bytes → Bool
is_nonempty [] = false
is_nonempty (b ∷ bs) = true

-- `_BASIC_TOKEN_RE`.
abbrev pub is_basic_token : Bytes → Bool
is_basic_token token = is_nonempty token && not (any_of (λ (b : ℕ). not (is_token_byte b)) token)

abbrev pub when : {A : Type 0} → Bool → A → Option A
when true a = some a
when false a = none

abbrev pub is_password : Option Bool → Bool
is_password none = false
is_password (some valid) = valid

-- The scheme and the token of the header.
unfoldable pub basic_token : Bytes → Option Bytes
basic_token header_value =
    split_once 32 header_value
    >>= (λ (scheme, token). when (is_basic scheme && is_basic_token token) token)

-- The text that the token stands for, at its first colon.
unfoldable pub decoded_credentials : Bytes → Option (Bytes × Bytes)
decoded_credentials token =
    b64decode token >>= (λ (decoded : Bytes). when (is_utf8 decoded) decoded >>= split_once 58)

unfoldable pub verified_user : CheckPassword → Credentials → Bytes × Bytes → Option Bytes
verified_user checkpw settings (username, password) =
    when
      (same_bytes username settings.admin_username
        && is_password (checkpw password settings.admin_password_hash))
      username

unfoldable pub verified_username : CheckPassword → Credentials → Option Bytes → Option Bytes
verified_username checkpw settings none = none
verified_username checkpw settings (some header_value) =
    basic_token header_value
    >>= (λ (token : Bytes). decoded_credentials token >>= verified_user checkpw settings)
