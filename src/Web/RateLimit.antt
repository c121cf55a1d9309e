-- ===== src/Web/RateLimit.antt =====
-- src/megaraid_dashboard/web/rate_limit.py: the sliding window of authentication attempts.
pub mod Window
pub mod Spec
pub mod Refinement
pub mod Bound
use megaraid_dashboard.Prelude.{
  ℕ, ◌+◌, String, Bool, true, false, not, Option, none, some, List, [], ◌∷◌, ◌++◌, leb, ltb, ◌==◌,
  str_eq, length, if◌then◌else◌,
}

-- Times are microseconds of the monotonic clock.
abbrev pub window : ℕ
window = 60_000_000

abbrev pub global_prune_interval : ℕ
global_prune_interval = 60_000_000

-- Slots are compared by identity (`eq=False`), which is the number of the object.
pub record AttemptSlot : Type 0 where
  pub id : ℕ
  pub recorded_at : ℕ

-- `_attempts`: a deque, oldest first, for each client that has an entry.
abbrev pub Attempts : Type 0
Attempts = String → Option (List AttemptSlot)

pub record Limiter : Type 0 where
  pub limit : ℕ
  pub attempts : Attempts
  pub next_global_prune_at : ℕ
  pub next_id : ℕ

abbrev pub write : Attempts → String → Option (List AttemptSlot) → Attempts
write m k v j = if str_eq k j then v else m j

abbrev pub deque : Option (List AttemptSlot) → List AttemptSlot
deque none = []
deque (some q) = q

-- Popping an entry that is empty.
abbrev pub entry : List AttemptSlot → Option (List AttemptSlot)
entry [] = none
entry (s ∷ q) = some (s ∷ q)

abbrev pub is_expired : ℕ → AttemptSlot → Bool
is_expired now s = leb (s.recorded_at + window) now

unfoldable pub new : ℕ → ℕ → ℕ → Limiter
new per_minute burst now = record {
  limit = per_minute + burst;
  attempts = λ _. none;
  next_global_prune_at = now + global_prune_interval;
  next_id = 0;
}

-- The `while` loop pops from the left until the first slot that is not expired.
unfoldable pub evict_expired : ℕ → List AttemptSlot → List AttemptSlot
evict_expired now [] = []
evict_expired now (s ∷ q) =
    let rest = evict_expired now q in if is_expired now s then rest else s ∷ q

abbrev pub prune_entry : ℕ → Option (List AttemptSlot) → Option (List AttemptSlot)
prune_entry now none = none
prune_entry now (some q) = entry (evict_expired now q)

unfoldable pub prune_expired_attempts : ℕ → Limiter → Limiter
unfolding evict_expired
prune_expired_attempts now l = if ltb now l.next_global_prune_at then l else record l {
  attempts = λ k. prune_entry now (l.attempts k);
  next_global_prune_at = now + global_prune_interval;
}

-- The branch that refuses drops the entry when its deque is empty, which happens at limit 0.
unfoldable pub reserve_in : String → ℕ → Limiter → Limiter × Option AttemptSlot
unfolding evict_expired
reserve_in client_ip now l =
    let q = evict_expired now (deque (l.attempts client_ip)) in
    let slot : AttemptSlot = record { id = l.next_id; recorded_at = now } in
    if leb l.limit (length q)
    then (record l { attempts = write l.attempts client_ip (entry q) }, none)
    else (
      record l {
        attempts = write l.attempts client_ip (some (q ++ slot ∷ []));
        next_id = l.next_id + 1;
      },
      some slot,
    )

unfoldable pub reserve_attempt_slot : String → ℕ → Limiter → Limiter × Option AttemptSlot
reserve_attempt_slot client_ip now l = reserve_in client_ip now (prune_expired_attempts now l)

-- `deque.remove`: the first slot with this identity, if there is one.
unfoldable pub remove_slot : ℕ → List AttemptSlot → List AttemptSlot
remove_slot i [] = []
remove_slot i (s ∷ q) = let rest = s ∷ remove_slot i q in if s.id == i then q else rest

abbrev pub has_slot : ℕ → List AttemptSlot → Bool
has_slot i [] = false
has_slot i (s ∷ q) = if s.id == i then true else has_slot i q

abbrev pub release_entry : ℕ → Option (List AttemptSlot) → Option (List AttemptSlot)
release_entry i none = none
release_entry i (some q) = if has_slot i q then entry (remove_slot i q) else some q

unfoldable pub release_attempt_slot : String → AttemptSlot → Limiter → Limiter
unfolding remove_slot
release_attempt_slot client_ip slot l = record l {
  attempts = write l.attempts client_ip (release_entry slot.id (l.attempts client_ip));
}

abbrev limited_in : ℕ → List AttemptSlot → Bool
limited_in limit [] = false
limited_in limit (s ∷ q) = leb limit (length (s ∷ q))

abbrev after_check : Option (List AttemptSlot) → List AttemptSlot → Option (List AttemptSlot)
after_check none q = none
after_check (some _) q = entry q

unfoldable pub is_limited : String → ℕ → Limiter → Limiter × Bool
unfolding evict_expired
is_limited client_ip now l =
    let l' = prune_expired_attempts now l in
    let found = l'.attempts client_ip in
    let q = evict_expired now (deque found) in
    (
      record l' { attempts = write l'.attempts client_ip (after_check found q) },
      limited_in l'.limit q,
    )

unfoldable pub record_failed_attempt : String → ℕ → Limiter → Limiter
unfolding evict_expired
record_failed_attempt client_ip now l =
    let l' = prune_expired_attempts now l in
    let q = evict_expired now (deque (l'.attempts client_ip)) in
    let slot : AttemptSlot = record { id = l'.next_id; recorded_at = now } in
    record l' {
      attempts = write l'.attempts client_ip (some (q ++ slot ∷ []));
      next_id = l'.next_id + 1;
    }

-- How the wrapped application ended: it raised, or returned after sending this status, if any.
pub data Ending : Type 0 where
  raised : Ending
  returned : Option ℕ → Ending

-- What the authentication layer reported through the callback, and how the call ended.
pub record Outcome : Type 0 where
  pub auth_result : Option Bool
  pub ending : Ending

-- Whether the call gives its slot back: `notify_auth_result`, the two handlers, and the last test.
abbrev pub gives_back_on : Option Bool → Ending → Bool
gives_back_on (some credentials_valid) _ = credentials_valid
gives_back_on none raised = true
gives_back_on none (returned none) = true
gives_back_on none (returned (some status)) = not (status == 401)

unfoldable pub finish_call : String → AttemptSlot → Outcome → Limiter → Limiter
finish_call client_ip slot o l =
    if gives_back_on o.auth_result o.ending then release_attempt_slot client_ip slot l else l
