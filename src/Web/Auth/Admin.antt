-- ===== src/Web/Auth/Admin.antt =====
-- What a header stands for that `_verified_username` of src/megaraid_dashboard/web/auth.py accepts.
use megaraid_dashboard.Prelude.{
  ℕ, ◌≡◌, refl, ap, inl, inr, String, Bool, true, false, ◌&&◌, ◌==◌, Option, none, some, List, ◌∷◌,
  [], ◌++◌, arith, Bool-cases, Option-cases, and_parts,
}
use megaraid_dashboard.Web.Auth.{
  Bytes, CheckPassword, Credentials, get_authorization_header, same_bytes, is_basic, is_basic_token,
  split_once, is_password, when, basic_token, decoded_credentials, verified_user, verified_username,
}
use megaraid_dashboard.Web.Auth.Base64.{b64decode, is_utf8}
use megaraid_dashboard.Web.Auth.RoundTrip.{same_bytes-eq, is_password-some}

-- The first authorization header of the request is a basic one; its token stands for the configured
-- name, a colon and a password that bcrypt accepts for the configured hash.
pub record IsAdmin (checkpw : CheckPassword) (settings : Credentials)
    (headers : List (String × Bytes)) : Type 0 where
  pub scheme : Bytes
  pub token : Bytes
  pub sent : get_authorization_header headers ≡ some (scheme ++ 32 ∷ token)
  pub basic : is_basic scheme ≡ true
  pub password : Bytes
  pub stands_for : b64decode token ≡ some (settings.admin_username ++ 58 ∷ password)
  pub valid : checkpw password settings.admin_password_hash ≡ some true

when-some : {A : Type 0} (b : Bool) (a x : A) → when b a ≡ some x → (b ≡ true) × (a ≡ x)
when-some true a x h = (refl, cc)
when-some false a x h = cc

split_once-joined :
    (separator : ℕ) (bs left right : Bytes)
    → split_once separator bs ≡ some (left, right)
    → bs ≡ left ++ separator ∷ right
unfolding split_once
split_once-joined separator [] left right h = cc
split_once-joined separator (b ∷ bs) left right h = elim (Bool-cases (b == separator)) [
  | inl here ↦
      let k = rw here at h in
      let same : b ≡ separator = ground arith in
      let empty : left ≡ [] = cc in let rest : right ≡ bs = cc in rw (empty, rest, same) refl
  | inr later ↦
      let k = rw later at h in
      elim (Option-cases (split_once separator bs)) [
        | inl missing ↦ absurd (let j = rw missing at k in cc)
        | inr (c, found) ↦
            let j = rw found at k in
            let first : left ≡ b ∷ c.0 = cc in
            let second : right ≡ c.1 = cc in
            let joined = split_once-joined separator bs c.0 c.1 found in
            rw (first, second) (ap (λ l. b ∷ l) joined)
      ]
]

basic_token-joined :
    (header token : Bytes)
    → basic_token header ≡ some token
    → (scheme : Bytes) × (header ≡ scheme ++ 32 ∷ token) × (is_basic scheme ≡ true)
unfolding basic_token
basic_token-joined header token h = elim (Option-cases (split_once 32 header)) [
  | inl missing ↦ absurd (let k = rw missing at h in cc)
  | inr (c, found) ↦
      let (checks, same) =
        when-some (is_basic c.0 && is_basic_token c.1) c.1 token (rw found at h) in
      let joined = split_once-joined 32 header c.0 c.1 found in
      (c.0, rw (← same) joined, (and_parts (is_basic c.0) (is_basic_token c.1) checks).0)
]

decoded-joined :
    (token username password : Bytes)
    → decoded_credentials token ≡ some (username, password)
    → b64decode token ≡ some (username ++ 58 ∷ password)
unfolding decoded_credentials
decoded-joined token username password h = elim (Option-cases (b64decode token)) [
  | inl bad ↦ absurd (let k = rw bad at h in cc)
  | inr (bytes, found) ↦
      let k = rw found at h in
      elim (Bool-cases (is_utf8 bytes)) [
        | inl valid ↦
            let joined = split_once-joined 58 bytes username password (rw valid at k) in
            rw (found, joined) refl
        | inr invalid ↦ absurd (let j = rw invalid at k in cc)
      ]
]

verified_user-password :
    (checkpw : CheckPassword) (settings : Credentials) (username password user : Bytes)
    → verified_user checkpw settings (username, password) ≡ some user
    → (username ≡ settings.admin_username)
      × (user ≡ settings.admin_username)
      × (checkpw password settings.admin_password_hash ≡ some true)
unfolding verified_user
verified_user-password checkpw settings username password user h =
    let (checks, same) =
      when-some
        (same_bytes username settings.admin_username
          && is_password (checkpw password settings.admin_password_hash))
        username user h in
    let (named, valid) =
      and_parts (same_bytes username settings.admin_username)
        (is_password (checkpw password settings.admin_password_hash)) checks in
    let admin = same_bytes-eq username settings.admin_username named in
    (admin, cc, is_password-some (checkpw password settings.admin_password_hash) valid)

pub verified_username-IsAdmin :
    (checkpw : CheckPassword) (settings : Credentials) (headers : List (String × Bytes))
    (header : Option Bytes) (user : Bytes)
    → get_authorization_header headers ≡ header
    → verified_username checkpw settings header ≡ some user
    → IsAdmin checkpw settings headers × (user ≡ settings.admin_username)
unfolding verified_username
verified_username-IsAdmin checkpw settings headers none user sent h = cc
verified_username-IsAdmin checkpw settings headers (some header) user sent h =
    elim (Option-cases (basic_token header)) [
      | inl bad ↦ absurd (let k = rw bad at h in cc)
      | inr (token, found) ↦ elim (Option-cases (decoded_credentials token)) [
        | inl bad ↦ absurd (let k = rw (found, bad) at h in cc)
        | inr (c, decoded) ↦
            let (scheme, joined, basic) = basic_token-joined header token found in
            let (named, same, valid) =
              verified_user-password checkpw settings c.0 c.1 user (rw (found, decoded) at h) in
            (
              record {
                scheme = scheme;
                token = token;
                sent = rw (← joined) sent;
                basic = basic;
                password = c.1;
                stands_for = rw (← named) (decoded-joined token c.0 c.1 decoded);
                valid = valid;
              },
              same,
            )
      ]
    ]
