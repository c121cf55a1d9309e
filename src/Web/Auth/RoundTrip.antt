-- ===== src/Web/Auth/RoundTrip.antt =====
-- What a client sends for a name and a password is what `_verified_username` of
-- src/megaraid_dashboard/web/auth.py checks.
use megaraid_dashboard.Prelude.{
  ℕ, ◌+◌, ◌*◌, ◌/◌, ◌%◌, ◌<◌, ◌≡◌, refl, ◌↔◌, inl, inr, Bool, true, false, not, ◌&&◌, ◌==◌, Option,
  none, some, [], ◌∷◌, ◌++◌, All, any_of, arith, Bool-cases, and_parts,
}
use megaraid_dashboard.Web.Auth.Base64.{is_utf8}
use megaraid_dashboard.Web.Auth.Client.{
  letter, b64encode, IsByte, basic_header, b64decode-b64encode,
}
use megaraid_dashboard.Web.Auth.{
  Bytes, CheckPassword, Credentials, same_bytes, split_once, is_token_byte, is_nonempty,
  is_password, when, basic_token, decoded_credentials, verified_user, verified_username,
}

letter-is_token_byte : (n : ℕ) → n < 64 → is_token_byte (letter n) ≡ true
unfolding letter
letter-is_token_byte n h = ground arith

abbrev is_foreign : ℕ → Bool
is_foreign b = not (is_token_byte b)

whole_tokens :
    (x y z : ℕ) (rest : Bytes)
    → x < 256
    → y < 256
    → z < 256
    → any_of is_foreign rest ≡ false
    → any_of is_foreign (
        letter (x / 4)
        ∷ letter (x % 4 * 16 + y / 16)
        ∷ letter (y % 16 * 4 + z / 64)
        ∷ letter (z % 64)
        ∷ rest)
      ≡ false
whole_tokens x y z rest hx hy hz h =
    rw
      (
        letter-is_token_byte (x / 4) (omega arith),
        letter-is_token_byte (x % 4 * 16 + y / 16) (omega arith),
        letter-is_token_byte (y % 16 * 4 + z / 64) (omega arith),
        letter-is_token_byte (z % 64) (omega arith),
      )
      h

b64encode-tokens : (bytes : Bytes) → All IsByte bytes → any_of is_foreign (b64encode bytes) ≡ false
unfolding b64encode
b64encode-tokens [] h = refl
b64encode-tokens (x ∷ []) h =
    let small : x < 256 = h.0 in
    rw (letter-is_token_byte (x / 4) (omega arith), letter-is_token_byte (x % 4 * 16) (omega arith))
      refl
b64encode-tokens (x ∷ y ∷ []) h =
    let small : x < 256 = h.0 in
    let little : y < 256 = h.1.0 in
    rw
      (
        letter-is_token_byte (x / 4) (omega arith),
        letter-is_token_byte (x % 4 * 16 + y / 16) (omega arith),
        letter-is_token_byte (y % 16 * 4) (omega arith),
      )
      refl
b64encode-tokens (x ∷ y ∷ z ∷ rest) h =
    whole_tokens x y z (b64encode rest) h.0 h.1.0 h.1.1.0 (b64encode-tokens rest h.1.1.1)

b64encode-nonempty : (b : ℕ) (bs : Bytes) → is_nonempty (b64encode (b ∷ bs)) ≡ true
unfolding b64encode
b64encode-nonempty b [] = refl
b64encode-nonempty b (c ∷ []) = refl
b64encode-nonempty b (c ∷ d ∷ bs) = refl

nonempty-pair : (user password : Bytes) → is_nonempty (b64encode (user ++ 58 ∷ password)) ≡ true
nonempty-pair [] password = b64encode-nonempty 58 password
nonempty-pair (u ∷ us) password = b64encode-nonempty u (us ++ 58 ∷ password)

split_once-colon :
    (user password : Bytes)
    → any_of (λ (b : ℕ). b == 58) user ≡ false
    → split_once 58 (user ++ 58 ∷ password) ≡ some (user, password)
unfolding split_once
split_once-colon [] password h = refl
split_once-colon (u ∷ us) password h = elim (Bool-cases (u == 58)) [
  | inl colon ↦ absurd (let k = rw colon at h in cc)
  | inr other ↦ rw (other, split_once-colon us password (rw other at h)) refl
]

pub same_bytes-eq : (a b : Bytes) → same_bytes a b ≡ true → a ≡ b
same_bytes-eq [] [] h = refl
same_bytes-eq [] (y ∷ b) h = cc
same_bytes-eq (x ∷ a) [] h = cc
same_bytes-eq (x ∷ a) (y ∷ b) h =
    let (heads, tails) = and_parts (x == y) (same_bytes a b) h in
    let first : x ≡ y = ground arith in rw (first, same_bytes-eq a b tails) refl

same_bytes_refl : (a : Bytes) → same_bytes a a ≡ true
same_bytes_refl [] = refl
same_bytes_refl (x ∷ a) =
    let same : (x == x) ≡ true = ground arith in rw (same, same_bytes_refl a) refl

pub is_password-some : (o : Option Bool) → is_password o ≡ true → o ≡ some true
is_password-some none h = cc
is_password-some (some b) h = rw h refl

when-true : (b : Bool) (a x : Bytes) → when b a ≡ some x → b ≡ true
when-true true a x h = refl
when-true false a x h = cc

verified_user_iff :
    (checkpw : CheckPassword) (settings : Credentials) (user password : Bytes)
    → (verified_user checkpw settings (user, password) ≡ some user) ↔ (
        (user ≡ settings.admin_username)
        × (checkpw password settings.admin_password_hash ≡ some true))
unfolding verified_user
verified_user_iff checkpw settings user password = (
  λ h.
      let checks =
        and_parts (same_bytes user settings.admin_username)
          (is_password (checkpw password settings.admin_password_hash))
          (when-true
            (same_bytes user settings.admin_username
              && is_password (checkpw password settings.admin_password_hash))
            user user h) in
      (
        same_bytes-eq user settings.admin_username checks.0,
        is_password-some (checkpw password settings.admin_password_hash) checks.1,
      ),
  λ (same, valid). rw (same, same_bytes_refl settings.admin_username, valid) refl,
)

module _ (user password : Bytes) where
  basic_header-token :
      All IsByte (user ++ 58 ∷ password)
      → basic_token (basic_header user password) ≡ some (b64encode (user ++ 58 ∷ password))
  unfolding basic_token basic_header split_once
  basic_header-token h =
      rw (nonempty-pair user password, b64encode-tokens (user ++ 58 ∷ password) h) refl

  decoded-pair :
      All IsByte (user ++ 58 ∷ password)
      → is_utf8 (user ++ 58 ∷ password) ≡ true
      → any_of (λ (b : ℕ). b == 58) user ≡ false
      → decoded_credentials (b64encode (user ++ 58 ∷ password)) ≡ some (user, password)
  unfolding decoded_credentials
  decoded-pair h text no_colon =
      rw
        (
          b64decode-b64encode (user ++ 58 ∷ password) h,
          text,
          split_once-colon user password no_colon,
        )
        refl

-- The basic-authentication header of a name without a colon and a password, both UTF-8, is accepted,
-- as this name, exactly if the name is the configured one and bcrypt accepts the password.
pub verified_username-basic_header :
    (checkpw : CheckPassword) (settings : Credentials) (user password : Bytes)
    → All IsByte (user ++ 58 ∷ password)
    → is_utf8 (user ++ 58 ∷ password) ≡ true
    → any_of (λ (b : ℕ). b == 58) user ≡ false
    → (verified_username checkpw settings (some (basic_header user password)) ≡ some user) ↔ (
        (user ≡ settings.admin_username)
        × (checkpw password settings.admin_password_hash ≡ some true))
unfolding verified_username
verified_username-basic_header checkpw settings user password bytes text no_colon =
    rw (basic_header-token user password bytes, decoded-pair user password bytes text no_colon)
      (verified_user_iff checkpw settings user password)
