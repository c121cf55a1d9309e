-- ===== src/Tests/RateLimit.antt =====
-- Runs of web/rate_limit.py with two attempts per minute and a burst of one.
use megaraid_dashboard.Prelude.{
  ℕ, ◌+◌, ◌≤◌, ◌≡◌, refl, true, false, Option, none, some, List, [], ◌∷◌, arith, length,
}
use megaraid_dashboard.Web.RateLimit.{
  AttemptSlot, Outcome, returned, new, reserve_attempt_slot, reserve_in, prune_expired_attempts,
  finish_call, release_attempt_slot,
}
use megaraid_dashboard.Web.RateLimit.Window.{live}
use megaraid_dashboard.Web.RateLimit.Spec.{
  Op, arrive, finish, step, replies, spec_replies, IsChronological,
}
use megaraid_dashboard.Web.RateLimit.Refinement.{fresh_history, replies-eq-spec_replies}
use megaraid_dashboard.Web.RateLimit.Bound.{ledger, last_time, ledger-le-limit}

abbrev slot : ℕ → ℕ → AttemptSlot
slot id recorded_at = record { id = id; recorded_at = recorded_at }

abbrev accepted : Outcome
accepted = record { auth_result = some true; ending = returned (some 200) }

abbrev refused : Outcome
refused = record { auth_result = some false; ending = returned (some 401) }

-- Three attempts of one client, a fourth that is refused, one given back, one more admitted, and one
-- after a minute, when the first three have expired.
abbrev run : List Op
run =
    arrive "10.0.0.7" 10
    ∷ arrive "10.0.0.7" 20
    ∷ arrive "10.0.0.8" 25
    ∷ finish "10.0.0.7" (slot 0 10) refused
    ∷ arrive "10.0.0.7" 30
    ∷ arrive "10.0.0.7" 40
    ∷ finish "10.0.0.7" (slot 1 20) accepted
    ∷ arrive "10.0.0.7" 50
    ∷ arrive "10.0.0.7" 60
    ∷ arrive "10.0.0.7" 60_000_045
    ∷ []

run-IsChronological : IsChronological 0 run
run-IsChronological = ground arith

-- The ids of the slots granted, one answer for each step.
abbrev answers : List (Option AttemptSlot) → List (Option ℕ)
answers [] = []
answers (none ∷ rs) = none ∷ answers rs
answers (some s ∷ rs) = some s.id ∷ answers rs

run-answers :
    answers (replies (new 2 1 0) run)
    ≡ some 0 ∷ some 1 ∷ some 2 ∷ none ∷ some 3 ∷ none ∷ none ∷ some 4 ∷ none ∷ some 5 ∷ []
unfolding replies step reserve_attempt_slot reserve_in prune_expired_attempts new finish_call
    release_attempt_slot
run-answers = refl

replies-eq-spec_replies_example : replies (new 2 1 0) run ≡ spec_replies (fresh_history 2 1) run
replies-eq-spec_replies_example = replies-eq-spec_replies 2 1 0 run run-IsChronological

ledger-le-limit_example :
    length (live (last_time 0 run) (ledger (new 2 1 0) run (λ _. []) "10.0.0.7")) ≤ 2 + 1
ledger-le-limit_example = ledger-le-limit 2 1 0 run run-IsChronological "10.0.0.7"
