-- ===== src/Web/RateLimit/Spec.antt =====
-- What the limiter promises: for each client, the attempts of the last minute that were not given
-- back, counted in a history that is never evicted.
use megaraid_dashboard.Prelude.{
  ℕ, ◌+◌, ◌≤◌, ◌<◌, ◌≡◌, refl, ◌∙◌, String, Option, none, some, List, [], ◌∷◌, ◌++◌, arith, leb,
  str_eq, length, All, All-imp, if◌then◌else◌,
}
use megaraid_dashboard.Web.RateLimit.{
  AttemptSlot, Limiter, Outcome, deque, prune_entry, evict_expired, reserve_attempt_slot,
  remove_slot, gives_back_on, finish_call,
}
use megaraid_dashboard.Web.RateLimit.Window.{
  live, IsOrdered, evict_expired-live, live-live, live-IsOrdered, deque-entry,
}

pub record History : Type 0 where
  pub limit : ℕ
  pub admitted : String → List AttemptSlot
  pub next_id : ℕ

abbrev pub amend :
    (String → List AttemptSlot) → String → List AttemptSlot → String → List AttemptSlot
amend m k v j = if str_eq k j then v else m j

unfoldable pub spec_reserve : String → ℕ → History → History × Option AttemptSlot
spec_reserve client_ip now h =
    let slot : AttemptSlot = record { id = h.next_id; recorded_at = now } in
    if leb h.limit (length (live now (h.admitted client_ip))) then (h, none) else (
      record h {
        admitted = amend h.admitted client_ip (h.admitted client_ip ++ slot ∷ []);
        next_id = h.next_id + 1;
      },
      some slot,
    )

unfoldable pub spec_finish : String → AttemptSlot → Outcome → History → History
spec_finish client_ip slot o h =
    if gives_back_on o.auth_result o.ending
    then record h {
      admitted = amend h.admitted client_ip (remove_slot slot.id (h.admitted client_ip));
    }
    else h

-- The calls of the middleware in any interleaving: an arrival takes the lock once, and so does the
-- end of a call.
pub data Op : Type 0 where
  arrive : String → ℕ → Op
  finish : String → AttemptSlot → Outcome → Op

unfoldable pub step : Op → Limiter → Limiter × Option AttemptSlot
step (arrive ip now) l = reserve_attempt_slot ip now l
step (finish ip slot o) l = (finish_call ip slot o l, none)

unfoldable pub spec_step : Op → History → History × Option AttemptSlot
spec_step (arrive ip now) h = spec_reserve ip now h
spec_step (finish ip slot o) h = (spec_finish ip slot o h, none)

-- The replies to the arrivals, `none` for status 429, and `none` for each end of a call.
unfoldable pub replies : Limiter → List Op → List (Option AttemptSlot)
replies l [] = []
replies l (op ∷ ops) = let (l', r) = step op l in r ∷ replies l' ops

unfoldable pub spec_replies : History → List Op → List (Option AttemptSlot)
spec_replies h [] = []
spec_replies h (op ∷ ops) = let (h', r) = spec_step op h in r ∷ spec_replies h' ops

abbrev pub time_of : ℕ → Op → ℕ
time_of t (arrive ip now) = now
time_of t (finish ip slot o) = t

-- The monotonic clock does not go back between arrivals.
abbrev pub IsChronological : ℕ → List Op → Type 0
IsChronological t [] = Unit
IsChronological t (op ∷ ops) = (t ≤ time_of t op) × IsChronological (time_of t op) ops

-- One client's deque against its history.
pub record Agrees (now next : ℕ) (o : Option (List AttemptSlot)) (h : List AttemptSlot)
    : Type 0 where
  pub seen_at : ℕ
  pub seen_before : seen_at ≤ now
  pub same : deque o ≡ live seen_at h
  pub ordered : IsOrdered h
  pub past : All (λ s. (s.id < next) × (s.recorded_at ≤ now)) h

pub record Refines (now : ℕ) (l : Limiter) (h : History) : Type 0 where
  pub same_limit : l.limit ≡ h.limit
  pub same_next : l.next_id ≡ h.next_id
  pub agrees : (ip : String) → Agrees now h.next_id (l.attempts ip) (h.admitted ip)

module _ {now next : ℕ} {o : Option (List AttemptSlot)} {h : List AttemptSlot} where
  pub evict-Agrees : (t : ℕ) → now ≤ t → Agrees now next o h → evict_expired t (deque o) ≡ live t h
  evict-Agrees t le a = rw a.same (
      evict_expired-live t (live a.seen_at h) (live-IsOrdered a.seen_at h a.ordered)
      ∙ live-live a.seen_at t h (omega (arith, a.seen_before)))

  pub later : (t next' : ℕ) → now ≤ t → next ≤ next' → Agrees now next o h → Agrees t next' o h
  later t next' le le' a = record {
    seen_at = a.seen_at;
    seen_before = omega (arith, a.seen_before);
    same = a.same;
    ordered = a.ordered;
    past = All-imp _ _ (λ s b. (omega arith, omega arith)) h a.past;
  }

  pub evicted :
      (t : ℕ) (o' : Option (List AttemptSlot))
      → now ≤ t
      → deque o' ≡ evict_expired t (deque o)
      → Agrees now next o h
      → Agrees t next o' h
  evicted t o' le e a = record {
    seen_at = t;
    seen_before = omega arith;
    same = e ∙ evict-Agrees t le a;
    ordered = a.ordered;
    past = (later t next le (omega arith) a).past;
  }

  pub prune-Agrees : (t : ℕ) → now ≤ t → Agrees now next o h → Agrees t next (prune_entry t o) h
  prune-Agrees t le a = evicted t (prune_entry t o) le (pruned o) a
    where
      pruned : (p : Option (List AttemptSlot)) → deque (prune_entry t p) ≡ evict_expired t (deque p)
      pruned none = unfold evict_expired in refl
      pruned (some q) = deque-entry (evict_expired t q)
