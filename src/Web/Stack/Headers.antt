-- ===== src/Web/Stack/Headers.antt =====
-- Every response carries the security headers, of src/megaraid_dashboard/web/security_headers.py.
use megaraid_dashboard.Prelude.{
  ◌≡◌, refl, ℕ, inl, inr, String, true, List, [], ◌∷◌, ◌++◌, str_eq, str_eq_refl, str_eq_iff, subst,
  any_of-append_left, any_of-append_right, Bool-cases, if◌then◌else◌,
}
use megaraid_dashboard.Web.Auth.{Credentials}
use megaraid_dashboard.Web.RateLimit.{Limiter}
use megaraid_dashboard.Web.Stack.{
  Request, Outside, forwarded, or_server_error, rate_limited, handle, has_header, add_headers,
  security_headers,
}

abbrev Headers : Type 0
Headers = List (String × String)

abbrev one_more : String → String → Headers → Headers
one_more name value headers =
    if has_header name headers then headers else headers ++ (name, value) ∷ []

has_header-one_more :
    (name value : String) (headers : Headers) → has_header name (one_more name value headers) ≡ true
has_header-one_more name value headers = elim (Bool-cases (has_header name headers)) [
  | inl there ↦ rw there there
  | inr missing ↦ rw missing (
      any_of-append_right (λ (k, v). str_eq k name) headers ((name, value) ∷ [])
        (rw (str_eq_refl name) refl))
]

one_more-keeps :
    (other name value : String) (headers : Headers)
    → has_header other headers ≡ true
    → has_header other (one_more name value headers) ≡ true
one_more-keeps other name value headers h = elim (Bool-cases (has_header name headers)) [
  | inl there ↦ rw there h
  | inr missing ↦
      rw missing (any_of-append_left (λ (k, v). str_eq k other) headers ((name, value) ∷ []) h)
]

add_headers-keeps :
    (other : String) (more headers : Headers)
    → has_header other headers ≡ true
    → has_header other (add_headers more headers) ≡ true
unfolding add_headers
add_headers-keeps other [] headers h = h
add_headers-keeps other ((name, value) ∷ more) headers h =
    add_headers-keeps other more (one_more name value headers)
      (one_more-keeps other name value headers h)

add_headers-has :
    (other : String) (more headers : Headers)
    → has_header other more ≡ true
    → has_header other (add_headers more headers) ≡ true
unfolding add_headers
add_headers-has other [] headers h = cc
add_headers-has other ((name, value) ∷ more) headers h = elim (Bool-cases (str_eq name other)) [
  | inl same ↦
      subst (λ x. has_header x (add_headers more (one_more name value headers)) ≡ true)
        ((str_eq_iff name other).0 same)
        (add_headers-keeps name more (one_more name value headers)
          (has_header-one_more name value headers))
  | inr different ↦ add_headers-has other more (one_more name value headers) (rw different at h)
]

-- Every response to an HTTP request, refusals and the answer 500 for an exception included, has each
-- of the three security headers.
pub handle-has_header :
    (o : Outside) (settings : Credentials) (now : ℕ) (r : Request) (l : Limiter) (name : String)
    → str_eq r.type_ "http" ≡ true
    → has_header name security_headers ≡ true
    → has_header name (handle o settings now r l).0.headers ≡ true
unfolding handle
handle-has_header o settings now r l name http listed = rw http (
    add_headers-has name security_headers
      (or_server_error (rate_limited o settings now (forwarded r) l).0.response).headers listed)
