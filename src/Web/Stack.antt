-- ===== src/Web/Stack.antt =====
-- The layers around the router: web/middleware.py, web/csrf.py, web/security_headers.py and the calls
-- of web/rate_limit.py and web/auth.py, in the order of src/megaraid_dashboard/app.py. Texts of the
-- wire are lists of their Latin-1 codes. One request runs at a time.
pub mod Admitted
pub mod Headers
pub mod Spending
pub mod Guesses
use Prim.Native.String.{◌++◌ as cat}
use megaraid_dashboard.Prelude.{
  ℕ, String, Bool, true, false, not, ◌&&◌, ◌||◌, leb, Option, none, some, List, [], ◌∷◌, ◌++◌,
  str_eq, str_mem, any_of, if◌then◌else◌,
}
use megaraid_dashboard.Prelude.Text.{casefold}
use megaraid_dashboard.Web.Auth.{
  Bytes, CheckPassword, Credentials, is_whitelisted, get_authorization_header, same_bytes,
  verified_username,
}
use megaraid_dashboard.Web.Prefix.{normalize_forwarded_prefix}
use megaraid_dashboard.Web.RateLimit.{
  Limiter, AttemptSlot, Ending, raised, returned, reserve_attempt_slot, finish_call,
}

-- The scope of a request; the client is the one that `_client_ip` names.
pub record Request : Type 0 where
  pub type_ : String
  pub path : String
  pub method : String
  pub client_ip : String
  pub headers : List (String × Bytes)
  pub root_path : Bytes
  pub user_username : Option Bytes

pub record Response : Type 0 where
  pub status : ℕ
  pub headers : List (String × String)

-- What the layers rely on: bcrypt, `SimpleCookie` on a request (the value of the cookie) and on a
-- response (whether it sets the cookie), a fresh token, and the router (none where it raises).
pub record Outside : Type 0 where
  pub checkpw : CheckPassword
  pub csrf_cookie : Bytes → Option Bytes
  pub sets_csrf_cookie : String → Bool
  pub token : String
  pub router : Request → Option Response

-- What a layer passes out: the response, the request that reached the router, and what the
-- authentication has reported.
pub record Handled : Type 0 where
  pub response : Option Response
  pub reached : Option Request
  pub auth_result : Option Bool

abbrev pub answer : ℕ → List (String × String) → Handled
answer status headers = record {
  response = some (record { status = status; headers = headers });
  reached = none;
  auth_result = none;
}

-- `headers.get`; the server spells the names of headers in lower case.
abbrev pub header_value : String → List (String × Bytes) → Option Bytes
header_value name [] = none
header_value name ((k, v) ∷ headers) = if str_eq k name then some v else header_value name headers

abbrev pub is_exempt : Request → Bool
is_exempt r = not (str_eq r.type_ "http") || is_whitelisted r.path

abbrev pub is_protected : Request → Bool
is_protected r = str_mem (casefold r.method) ("post" ∷ "put" ∷ "delete" ∷ "patch" ∷ [])

abbrev csrf_cookie_of : Outside → Option Bytes → Option Bytes
csrf_cookie_of o none = none
csrf_cookie_of o (some header) = o.csrf_cookie header

unfoldable pub extract_cookie : Outside → Request → Option Bytes
extract_cookie o r = csrf_cookie_of o (header_value "cookie" r.headers)

abbrev is_ascii : Bytes → Bool
is_ascii s = not (any_of (λ (c : ℕ). leb 128 c) s)

-- `hmac.compare_digest` of two texts; none is its `TypeError`.
abbrev pub compare_digest : Bytes → Bytes → Option Bool
compare_digest a b = if is_ascii a && is_ascii b then some (same_bytes a b) else none

-- Whether the tokens admit the request; none is an exception.
abbrev pub tokens_match : Option Bytes → Option Bytes → Option Bool
tokens_match (some cookie_token) (some header_token) = compare_digest cookie_token header_token
tokens_match cookie_token header_token = some false

unfoldable pub csrf_allows : Outside → Request → Option Bool
csrf_allows o r =
    if is_protected r
    then tokens_match (extract_cookie o r) (header_value "x-csrf-token" r.headers)
    else some true

abbrev sets_cookie : Outside → List (String × String) → Bool
sets_cookie o headers =
    any_of (λ (name, value). str_eq name "set-cookie" && o.sets_csrf_cookie value) headers

unfoldable pub build_cookie : String → String
build_cookie token = cat "__Host-csrf=" (cat token "; Path=/; SameSite=Strict; Secure")

-- `send_with_csrf_cookie`, where the request has no cookie.
unfoldable pub with_csrf_cookie : Outside → Option Bytes → Response → Response
with_csrf_cookie o (some token) response = response
with_csrf_cookie o none response =
    if sets_cookie o response.headers
    then response
    else record response { headers = response.headers ++ ("set-cookie", build_cookie o.token) ∷ [] }

abbrev pub on_response : (Response → Response) → Option Response → Option Response
on_response f none = none
on_response f (some response) = some (f response)

unfoldable pub route : Outside → Request → Handled
route o r = record { response = o.router r; reached = some r; auth_result = none }

abbrev pub map_response : (Response → Response) → Handled → Handled
map_response f h = record h { response = on_response f h.response }

abbrev csrf_verdict : Outside → Request → Option Bool → Handled
csrf_verdict o r none = record { response = none; reached = none; auth_result = none }
csrf_verdict o r (some false) = answer 403 []
csrf_verdict o r (some true) = map_response (with_csrf_cookie o (extract_cookie o r)) (route o r)

-- `CsrfMiddleware.__call__`.
unfoldable pub csrf : Outside → Request → Handled
csrf o r = if is_exempt r then route o r else csrf_verdict o r (csrf_allows o r)

abbrev unauthorized : Handled
unauthorized = answer 401 (("www-authenticate", "Basic realm=\"megaraid-dashboard\"") ∷ [])

abbrev pub authenticated : Outside → Request → Option Bytes → Handled
authenticated o r none = record unauthorized { auth_result = some false }
authenticated o r (some username) = record (csrf o (record r { user_username = some username })) {
  auth_result = some true;
}

-- `BasicAuthMiddleware.__call__`.
unfoldable pub basic_auth : Outside → Credentials → Request → Handled
basic_auth o settings r =
    if is_exempt r
    then csrf o r
    else authenticated o r
        (verified_username o.checkpw settings (get_authorization_header r.headers))

abbrev ending_of : Option Response → Ending
ending_of none = raised
ending_of (some response) = returned (some response.status)

abbrev after_app : Request → AttemptSlot → Limiter → Handled → Handled × Limiter
after_app r slot l h = (
  h,
  finish_call r.client_ip slot
      (record { auth_result = h.auth_result; ending = ending_of h.response }) l,
)

abbrev pub reserved :
    Outside → Credentials → Request → Limiter × Option AttemptSlot → Handled × Limiter
reserved o settings r (l, none) = (answer 429 (("retry-after", "60") ∷ []), l)
reserved o settings r (l, some slot) = after_app r slot l (basic_auth o settings r)

-- `AuthRateLimitMiddleware.__call__`.
unfoldable pub rate_limited : Outside → Credentials → ℕ → Request → Limiter → Handled × Limiter
rate_limited o settings now r l =
    if is_exempt r
    then (basic_auth o settings r, l)
    else reserved o settings r (reserve_attempt_slot r.client_ip now l)

abbrev with_root : Request → Option Bytes → Request
with_root r none = r
with_root r (some prefix) = record r { root_path = prefix }

-- `ForwardedPrefixMiddleware.__call__`.
unfoldable pub forwarded : Request → Request
forwarded r =
    if str_mem r.type_ ("http" ∷ "websocket" ∷ [])
    then with_root r (normalize_forwarded_prefix (header_value "x-forwarded-prefix" r.headers))
    else r

abbrev pub security_headers : List (String × String)
security_headers =
    ("x-content-type-options", "nosniff")
    ∷ ("x-frame-options", "DENY")
    ∷ ("referrer-policy", "strict-origin-when-cross-origin")
    ∷ []

abbrev pub has_header : String → List (String × String) → Bool
has_header name headers = any_of (λ (k, v). str_eq k name) headers

-- The loop over `_HEADERS`.
unfoldable pub add_headers :
    List (String × String) → List (String × String) → List (String × String)
add_headers [] headers = headers
add_headers ((name, value) ∷ more) headers =
    add_headers more (if has_header name headers then headers else headers ++ (name, value) ∷ [])

-- An exception that no layer catches becomes a response 500.
abbrev pub or_server_error : Option Response → Response
or_server_error none = record { status = 500; headers = [] }
or_server_error (some response) = response

abbrev pub secured : Request → Response → Response
secured r response =
    if str_eq r.type_ "http"
    then record response { headers = add_headers security_headers response.headers }
    else response

-- The whole application: the response, the request that reached the router, and the limiter.
unfoldable pub handle :
    Outside → Credentials → ℕ → Request → Limiter → Response × Option Request × Limiter
handle o settings now r l =
    let out = rate_limited o settings now (forwarded r) l in
    (secured r (or_server_error out.0.response), out.0.reached, out.1)
