-- ===== src/Web/Stack/Guesses.antt =====
-- How often a client may guess the password: the authentication and the limiter of
-- src/megaraid_dashboard/web together.
use megaraid_dashboard.Prelude.{
  ℕ, ◌+◌, ◌-◌, ◌≤◌, ◌<◌, ◌≡◌, refl, sym, subst, inl, inr, String, Bool, true, false, not, ◌&&◌,
  ◌==◌, Option, none, some, List, [], ◌∷◌, arith, str_eq, str_eq_iff, All, Bool-cases,
  if◌then◌else◌,
}
use megaraid_dashboard.Web.Auth.{Credentials, get_authorization_header, verified_username}
use megaraid_dashboard.Web.RateLimit.{
  AttemptSlot, Limiter, window, deque, prune_expired_attempts, reserve_in, reserve_attempt_slot,
  finish_call,
}
use megaraid_dashboard.Web.Stack.{
  Request, Response, Outside, is_exempt, basic_auth, rate_limited, reserved, forwarded,
  or_server_error, secured, handle,
}
use megaraid_dashboard.Web.Stack.Admitted.{forwarded-root}
use megaraid_dashboard.Web.Stack.Spending.{
  fresh, Spends, Reserves, reserve_in-other, reserve_in-own, Spends-pruned, Reserves-pruned,
  release-other, Spends-trans,
}

abbrev pub count : Bool → ℕ
count b = if b then 1 else 0

-- A request of this client whose credentials were checked and refused.
abbrev pub is_guess : String → Request → ℕ → Bool
is_guess ip r status = not (is_exempt r) && str_eq r.client_ip ip && status == 401

-- How many of the requests, each at its time, are such guesses.
unfoldable pub guesses : Outside → Credentials → String → List (ℕ × Request) → Limiter → ℕ
guesses o settings ip [] l = 0
guesses o settings ip ((now, r) ∷ calls) l =
    let out = handle o settings now r l in
    count (is_guess ip r out.0.status) + guesses o settings ip calls out.2

abbrev pub IsWithin : ℕ → ℕ × Request → Type 0
IsWithin start call = (start ≤ call.0) × (call.0 < start + window)

-- The client never presents valid credentials.
abbrev pub IsStranger : Outside → Credentials → String → ℕ × Request → Type 0
IsStranger o settings ip call =
    str_eq call.1.client_ip ip ≡ true
    → verified_username o.checkpw settings (get_authorization_header call.1.headers) ≡ none

module _ (start now : ℕ) (ip : String) (from : start ≤ now) (until : now < start + window) where
  module _ (o : Outside) (settings : Credentials) (r : Request) where
    other_client :
        (l : Limiter) (g : Limiter × Option AttemptSlot)
        → str_eq r.client_ip ip ≡ false
        → Spends start ip 0 l g.0
        → Spends start ip 0 l (reserved o settings r g).1
    other_client l (m, none) other s = s
    other_client l (m, some slot) other s =
        Spends-trans start now ip from until 0 0 l m _ s
          (release-other start now ip from until r.client_ip slot _ m other)

    -- The status and the limiter that a stranger's request comes to.
    refused_client :
        (l : Limiter) (g : Limiter × Option AttemptSlot)
        → is_exempt r ≡ false
        → verified_username o.checkpw settings (get_authorization_header r.headers) ≡ none
        → Reserves start now ip from until l g
        → Spends start ip
            (count ((or_server_error (reserved o settings r g).0.response).status == 401))
            l
            (reserved o settings r g).1
    unfolding basic_auth finish_call
    refused_client l (m, none) closed bad (inl (e, s)) = s
    refused_client l (m, some slot) closed bad (inl (e, s)) = cc
    refused_client l (m, none) closed bad (inr (slot, e, s)) = cc
    refused_client l (m, some slot) closed bad (inr (slot', e, s)) = rw (closed, bad) s

    step-Spends :
        (l : Limiter)
        → IsStranger o settings ip (now, r)
        → Spends start ip
            (count
              (is_guess ip r (or_server_error (rate_limited o settings now r l).0.response).status))
            l
            (rate_limited o settings now r l).1
    unfolding rate_limited reserve_attempt_slot
    step-Spends l stranger = elim (Bool-cases (is_exempt r)) [
      | inl free_ ↦ rw free_ (record { same_limit = refl; spent = omega arith })
      | inr closed ↦ elim (Bool-cases (str_eq r.client_ip ip)) [
        | inr other ↦
            rw (closed, other)
              (other_client l _ other (
                Spends-pruned start now ip from until 0 l _ (
                  reserve_in-other start now ip from until r.client_ip
                    (prune_expired_attempts now l) other)))
        | inl same ↦
            rw (closed, same)
              (refused_client l _ closed (stranger same) (
                Reserves-pruned start now ip from until l _ (
                  subst
                    (λ client.
                      Reserves start now ip from until (prune_expired_attempts now l)
                        (reserve_in client now (prune_expired_attempts now l)))
                    (sym ((str_eq_iff r.client_ip ip).0 same))
                    (reserve_in-own start now ip from until (prune_expired_attempts now l)))))
      ]
    ]

secured-status : (r : Request) (response : Response) → (secured r response).status ≡ response.status
secured-status r response = elim (Bool-cases (str_eq r.type_ "http")) [
  | inl http ↦ rw http refl
  | inr other ↦ rw other refl
]

handle-Spends :
    (o : Outside) (settings : Credentials) (start : ℕ) (ip : String) (call : ℕ × Request)
    (l : Limiter)
    → IsWithin start call
    → IsStranger o settings ip call
    → Spends start ip
        (count (is_guess ip call.1 (handle o settings call.0 call.1 l).0.status))
        l
        (handle o settings call.0 call.1 l).2
unfolding handle
handle-Spends o settings start ip (now, r) l (from, until) stranger =
    let (p, same) = forwarded-root r in
    rw (secured-status r (or_server_error (rate_limited o settings now (forwarded r) l).0.response))
      (subst
        (λ x.
          Spends start ip
            (count
              (is_guess ip r (or_server_error (rate_limited o settings now x l).0.response).status))
            l (rate_limited o settings now x l).1)
        (sym same)
        (step-Spends start now ip from until o settings (record r { root_path = p }) l stranger))

-- Whatever the limiter has seen before and whatever requests of other clients come between, a client
-- that never presents valid credentials gets, within any minute, at most as many answers 401 as the
-- limit exceeds its attempts that are already recorded for that minute.
pub guesses-le-limit :
    (o : Outside) (settings : Credentials) (start : ℕ) (ip : String) (calls : List (ℕ × Request))
    (l : Limiter)
    → All (IsWithin start) calls
    → All (IsStranger o settings ip) calls
    → guesses o settings ip calls l ≤ l.limit - fresh start (deque (l.attempts ip))
unfolding guesses
guesses-le-limit o settings start ip [] l within strange = omega arith
guesses-le-limit o settings start ip ((now, r) ∷ calls) l within strange =
    let spends = handle-Spends o settings start ip (now, r) l within.0 strange.0 in
    let l' = (handle o settings now r l).2 in
    omega (
      arith,
      spends.spent,
      guesses-le-limit o settings start ip calls l' within.1 strange.1,
      spends.same_limit,
    )
