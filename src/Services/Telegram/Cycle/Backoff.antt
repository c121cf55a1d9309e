-- ===== src/Services/Telegram/Cycle/Backoff.antt =====
-- The time of the next attempt after a failure.
use megaraid_dashboard.Prelude.{
  ℕ, zero, suc, ◌+◌, ◌-◌, ◌*◌, ◌^◌, ◌≤◌, ◌≡◌, refl, min, max, String, Option, none, some, arith,
  true, ◌==◌,
}
use megaraid_dashboard.Prelude.Int.{pos, negsuc}
use megaraid_dashboard.Services.Events.{Json}
use megaraid_dashboard.Services.Notifier.{Event}
use megaraid_dashboard.Services.Telegram.Relevance.{second}
use megaraid_dashboard.Services.Telegram.Cycle.{
  Cycle, row_of, or_zero, backoff, retry_after_seconds, record_send_failure, set_status,
}

pow_positive : (k : ℕ) → 1 ≤ 2 ^ k
pow_positive zero = omega arith
pow_positive (suc k) = omega (arith, pow_positive k)

pub backoff-bounds : (n : ℕ) → (60 ≤ backoff n) × (backoff n ≤ 3600)
unfolding backoff
backoff-bounds n =
    (omega (arith, pow_positive (min (n - 1) 6)), omega (arith, pow_positive (min (n - 1) 6)))

clamped : (o : Option Json) → or_zero (retry_after_seconds o) ≤ 3600
unfolding retry_after_seconds
clamped none = omega arith
clamped (some Json.null) = omega arith
clamped (some (Json.bool b)) = omega arith
clamped (some (Json.text t)) = omega arith
clamped (some (Json.num (pos zero))) = omega arith
clamped (some (Json.num (pos (suc n)))) = omega arith
clamped (some (Json.num (negsuc n))) = omega arith

-- After a failed send, whatever the provider asked for and however many attempts there were, the row
-- has a next attempt, at least a minute and at most an hour after the failure.
pub next_attempt-bounds :
    (e : Event) (reason : String) (asked : Option Json) (failed_at : ℕ) (s : Cycle)
    → let s' = record_send_failure e reason (retry_after_seconds asked) failed_at s in
      (t : ℕ) × ((row_of e s').next_attempt_at ≡ some t)
      × (failed_at + 60 * second ≤ t)
      × (t ≤ failed_at + 3600 * second)
unfolding record_send_failure set_status
next_attempt-bounds e reason asked failed_at s =
    let d = row_of e s in
    let delay = max (backoff d.attempts) (or_zero (retry_after_seconds asked)) in
    let same : (e.id == e.id) ≡ true = ground arith in
    rw same (
      failed_at + delay * second,
      refl,
      omega (arith, backoff-bounds d.attempts),
      omega (arith, backoff-bounds d.attempts, clamped asked),
    )
