-- ===== src/Tests/Access.antt =====
-- Requests through the layers of src/megaraid_dashboard/web.
use megaraid_dashboard.Prelude.{◌-◌, ◌≤◌, ◌≡◌, refl, ◌↔◌, true, false, none, some, [], ◌∷◌, arith}
use megaraid_dashboard.Prelude.Scan.{drop_text}
use megaraid_dashboard.Prelude.Text.{casefold}
use megaraid_dashboard.Web.Auth.{
  Bytes, Credentials, same_bytes, is_whitelisted, get_authorization_header, split_once, basic_token,
  decoded_credentials, verified_user, verified_username,
}
use megaraid_dashboard.Web.Auth.Base64.{sextet, b64decode, utf8_from, is_utf8}
use megaraid_dashboard.Web.Auth.Client.{basic_header}
use megaraid_dashboard.Web.Auth.RoundTrip.{verified_username-basic_header}
use megaraid_dashboard.Web.RateLimit.{
  new, deque, evict_expired, prune_expired_attempts, reserve_in, reserve_attempt_slot,
}
use megaraid_dashboard.Web.Prefix.{
  normalize_forwarded_prefix, rstrip_slashes, segments, is_safe_forwarded_prefix,
}
use megaraid_dashboard.Web.Stack.{
  Request, Outside, has_header, extract_cookie, csrf_allows, route, csrf, basic_auth, rate_limited,
  forwarded, handle,
}
use megaraid_dashboard.Web.Stack.Admitted.{IsAdmitted, handle-IsAdmitted}
use megaraid_dashboard.Web.Stack.Headers.{handle-has_header}
use megaraid_dashboard.Web.Stack.Spending.{fresh}
use megaraid_dashboard.Web.Stack.Guesses.{guesses, guesses-le-limit}

-- The name `ops` and the password `pw`.
abbrev ops : Bytes
ops = 111 ∷ 112 ∷ 115 ∷ []

abbrev pw : Bytes
pw = 112 ∷ 119 ∷ []

abbrev settings : Credentials
settings = record { admin_username = ops; admin_password_hash = 36 ∷ [] }

abbrev outside : Outside
outside = record {
  checkpw = λ password hash. some (same_bytes password pw);
  csrf_cookie = λ header. some header;
  sets_csrf_cookie = λ header. true;
  token = "t";
  router = λ r. some (record { status = 200; headers = [] });
}

text : is_utf8 (111 ∷ 112 ∷ 115 ∷ 58 ∷ 112 ∷ 119 ∷ []) ≡ true
unfolding is_utf8 utf8_from
text = refl

verified_username-basic_header_example :
    (verified_username outside.checkpw settings (some (basic_header ops pw)) ≡ some ops)
    ↔ ((ops ≡ ops) × (outside.checkpw pw settings.admin_password_hash ≡ some true))
verified_username-basic_header_example =
    verified_username-basic_header outside.checkpw settings ops pw
      (omega arith, (omega arith, (omega arith, (omega arith, (omega arith, (omega arith, tt))))))
      text refl

-- `Basic b3BzOnB3`.
abbrev valid : Bytes
valid = 66 ∷ 97 ∷ 115 ∷ 105 ∷ 99 ∷ 32 ∷ 98 ∷ 51 ∷ 66 ∷ 122 ∷ 79 ∷ 110 ∷ 66 ∷ 51 ∷ []

abbrev post : Bytes → Request
post authorization = record {
  type_ = "http";
  path = "/drives";
  method = "POST";
  client_ip = "10.0.0.7";
  headers =
      ("authorization", authorization)
      ∷ ("cookie", 97 ∷ [])
      ∷ ("x-csrf-token", 97 ∷ [])
      ∷ ("x-forwarded-prefix", 47 ∷ 97 ∷ 47 ∷ [])
      ∷ [];
  root_path = [];
  user_username = none;
}

closed : is_whitelisted "/drives" ≡ false
unfolding is_whitelisted drop_text
closed = refl

abbrev seen : Request
seen = record (post valid) { root_path = 47 ∷ 97 ∷ []; user_username = some ops }

reached : (handle outside settings 5 (post valid) (new 2 1 0)).1 ≡ some seen
unfolding handle rate_limited basic_auth csrf route forwarded normalize_forwarded_prefix
    rstrip_slashes segments is_safe_forwarded_prefix csrf_allows extract_cookie
    get_authorization_header verified_username basic_token decoded_credentials verified_user
    split_once b64decode sextet is_utf8 utf8_from is_whitelisted reserve_attempt_slot reserve_in
    prune_expired_attempts new evict_expired drop_text casefold
reached = refl

handle-IsAdmitted_example : IsAdmitted outside settings 5 (post valid) (new 2 1 0) seen
handle-IsAdmitted_example =
    handle-IsAdmitted outside settings 5 (post valid) (new 2 1 0) seen closed reached

handle-has_header_example :
    has_header "x-frame-options" (handle outside settings 5 (post []) (new 2 1 0)).0.headers ≡ true
handle-has_header_example =
    handle-has_header outside settings 5 (post []) (new 2 1 0) "x-frame-options" refl refl

refused :
    verified_username outside.checkpw settings (get_authorization_header (post []).headers) ≡ none
unfolding verified_username get_authorization_header basic_token split_once casefold
refused = refl

guesses-le-limit_example :
    guesses outside settings "10.0.0.7" ((5, post []) ∷ (6, post []) ∷ []) (new 2 1 0)
    ≤ (new 2 1 0).limit - fresh 5 (deque ((new 2 1 0).attempts "10.0.0.7"))
guesses-le-limit_example =
    guesses-le-limit outside settings 5 "10.0.0.7" ((5, post []) ∷ (6, post []) ∷ []) (new 2 1 0)
      ((omega arith, omega arith), ((omega arith, omega arith), tt))
      ((λ same. refused), ((λ same. refused), tt))
