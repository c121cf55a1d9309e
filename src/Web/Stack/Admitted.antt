-- ===== src/Web/Stack/Admitted.antt =====
-- Which requests reach the router, of src/megaraid_dashboard/app.py and its layers.
use megaraid_dashboard.Prelude.{
  ℕ, ◌≡◌, refl, arith, sym, subst, ap, inl, inr, Bool, true, false, Option, none, some, ◌∷◌, [],
  str_mem, Bool-cases, Option-cases,
}
use megaraid_dashboard.Web.Auth.{Bytes, Credentials, get_authorization_header, verified_username}
use megaraid_dashboard.Web.Auth.Admin.{IsAdmin, verified_username-IsAdmin}
use megaraid_dashboard.Web.Auth.RoundTrip.{same_bytes-eq}
use megaraid_dashboard.Web.RateLimit.{Limiter, AttemptSlot, reserve_attempt_slot}
use megaraid_dashboard.Web.Prefix.{normalize_forwarded_prefix}
use megaraid_dashboard.Web.Stack.{
  Request, Outside, header_value, is_exempt, is_protected, extract_cookie, compare_digest,
  tokens_match, csrf_allows, csrf, csrf_verdict, route, authenticated, basic_auth, reserved,
  rate_limited, forwarded, handle,
}

-- The token that the cookie and the header share.
pub record HasToken (o : Outside) (r : Request) : Type 0 where
  pub token : Bytes
  pub cookie : extract_cookie o r ≡ some token
  pub header : header_value "x-csrf-token" r.headers ≡ some token

digest-eq : (a b : Bytes) → compare_digest a b ≡ some true → a ≡ b
digest-eq a b h = same_bytes-eq a b (ground (arith, h))

tokens_match-HasToken :
    (o : Outside) (r : Request) (a b : Option Bytes)
    → extract_cookie o r ≡ a
    → header_value "x-csrf-token" r.headers ≡ b
    → tokens_match a b ≡ some true
    → HasToken o r
tokens_match-HasToken o r none b ha hb h = cc
tokens_match-HasToken o r (some a) none ha hb h = cc
tokens_match-HasToken o r (some a) (some b) ha hb h =
    let same = digest-eq a b h in record { token = a; cookie = ha; header = cc }

csrf_allows-HasToken :
    (o : Outside) (r : Request) → is_protected r ≡ true → csrf_allows o r ≡ some true → HasToken o r
unfolding csrf_allows
csrf_allows-HasToken o r protected h = tokens_match-HasToken o r _ _ refl refl (rw protected at h)

verdict_reaches :
    (o : Outside) (r s : Request) (v : Option Bool)
    → (csrf_verdict o r v).reached ≡ some s
    → (r ≡ s) × (v ≡ some true)
unfolding route
verdict_reaches o r s none h = cc
verdict_reaches o r s (some false) h = cc
verdict_reaches o r s (some true) h = (cc, refl)

csrf_reaches :
    (o : Outside) (r s : Request)
    → is_exempt r ≡ false
    → (csrf o r).reached ≡ some s
    → (r ≡ s) × (csrf_allows o r ≡ some true)
unfolding csrf
csrf_reaches o r s closed h = verdict_reaches o r s (csrf_allows o r) (rw closed at h)

pub record IsAdmitted (o : Outside) (settings : Credentials) (now : ℕ) (r : Request) (l : Limiter)
    (s : Request) : Type 0 where
  pub slot : AttemptSlot
  pub granted : (reserve_attempt_slot r.client_ip now l).1 ≡ some slot
  pub admin : IsAdmin o.checkpw settings r.headers
  pub named : s.user_username ≡ some settings.admin_username
  pub tokens : is_protected r ≡ true → HasToken o r

module _ (o : Outside) (settings : Credentials) (now : ℕ) (r : Request) (l : Limiter) where
  authenticated_reaches :
      (user : Option Bytes) (s : Request)
      → is_exempt r ≡ false
      → verified_username o.checkpw settings (get_authorization_header r.headers) ≡ user
      → (authenticated o r user).reached ≡ some s
      → IsAdmin o.checkpw settings r.headers
        × (s.user_username ≡ some settings.admin_username)
        × (is_protected r ≡ true → HasToken o r)
  unfolding extract_cookie
  authenticated_reaches none s closed v h = cc
  authenticated_reaches (some user) s closed v h =
      let (admin, name) =
        verified_username-IsAdmin o.checkpw settings r.headers (get_authorization_header r.headers)
          user refl v in
      let (same, allowed) = csrf_reaches o (record r { user_username = some user }) s closed h in
      (
        admin,
        (let k = ap (λ (x : Request). x.user_username) (sym same) in cc),
        (λ protected.
            let t =
              csrf_allows-HasToken o (record r { user_username = some user }) protected allowed in
            record { token = t.token; cookie = t.cookie; header = t.header }),
      )

  reserved_reaches :
      (g : Limiter × Option AttemptSlot) (s : Request)
      → is_exempt r ≡ false
      → reserve_attempt_slot r.client_ip now l ≡ g
      → (reserved o settings r g).0.reached ≡ some s
      → IsAdmitted o settings now r l s
  unfolding basic_auth
  reserved_reaches (l', none) s closed g h = cc
  reserved_reaches (l', some slot) s closed g h =
      let (admin, named, tokens) =
        authenticated_reaches
          (verified_username o.checkpw settings (get_authorization_header r.headers)) s closed refl
          (rw closed at h) in
      record { slot = slot; granted = rw g refl; admin = admin; named = named; tokens = tokens }

  rate_limited_reaches :
      (s : Request)
      → is_exempt r ≡ false
      → (rate_limited o settings now r l).0.reached ≡ some s
      → IsAdmitted o settings now r l s
  unfolding rate_limited
  rate_limited_reaches s closed h =
      reserved_reaches (reserve_attempt_slot r.client_ip now l) s closed refl (rw closed at h)

pub forwarded-root : (r : Request) → (p : Bytes) × (forwarded r ≡ record r { root_path = p })
unfolding forwarded
forwarded-root r = elim (Bool-cases (str_mem r.type_ ("http" ∷ "websocket" ∷ []))) [
  | inr other ↦ (r.root_path, rw other refl)
  | inl web ↦
      elim (Option-cases
        (normalize_forwarded_prefix (header_value "x-forwarded-prefix" r.headers))) [
          | inl none_ ↦ (r.root_path, rw (web, none_) refl)
          | inr (p, found) ↦ (p, rw (web, found) refl)
        ]
]

-- A request that is no health check, icon or static file reaches the router only if the limiter
-- granted its client an attempt and its authorization header is a basic one whose token stands for the
-- configured name and a password that bcrypt accepts for the configured hash; the router is told this
-- name. If the method changes state, the cookie and the header also carry one token.
pub handle-IsAdmitted :
    (o : Outside) (settings : Credentials) (now : ℕ) (r : Request) (l : Limiter) (s : Request)
    → is_exempt r ≡ false
    → (handle o settings now r l).1 ≡ some s
    → IsAdmitted o settings now r l s
unfolding handle extract_cookie
handle-IsAdmitted o settings now r l s closed h =
    let (p, same) = forwarded-root r in
    let a =
      rate_limited_reaches o settings now (record r { root_path = p }) l s closed
        (subst (λ (x : Request). (rate_limited o settings now x l).0.reached ≡ some s) same h) in
    record {
      slot = a.slot;
      granted = a.granted;
      admin = a.admin;
      named = a.named;
      tokens = λ protected.
          let t = a.tokens protected in
          record { token = t.token; cookie = t.cookie; header = t.header };
    }
