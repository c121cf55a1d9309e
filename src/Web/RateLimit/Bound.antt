-- ===== src/Web/RateLimit/Bound.antt =====
-- How many attempts of one client can stand within a minute.
use megaraid_dashboard.Prelude.{
  ℕ, ◌+◌, ◌≤◌, ◌≡◌, refl, ◌∙◌, String, Option, none, some, List, [], ◌∷◌, ◌++◌, inl, inr, arith,
  leb, length, keep-append, length-append, Bool-cases, if◌then◌else◌,
}
use megaraid_dashboard.Web.RateLimit.{AttemptSlot, Limiter, new, remove_slot, gives_back_on}
use megaraid_dashboard.Web.RateLimit.Window.{is_live, live}
use megaraid_dashboard.Web.RateLimit.Spec.{
  History, amend, spec_reserve, spec_finish, Op, arrive, finish, step, spec_step, time_of,
  IsChronological, Refines,
}
use megaraid_dashboard.Web.RateLimit.Refinement.{step-Simulates, fresh_history, new-Refines}

abbrev Ledger : Type 0
Ledger = String → List AttemptSlot

-- The slots that the code granted and has not taken back, by its replies.
abbrev log_step : Op → Option AttemptSlot → Ledger → Ledger
log_step (arrive ip now) none m = m
log_step (arrive ip now) (some slot) m = amend m ip (m ip ++ slot ∷ [])
log_step (finish ip slot o) _ m =
    if gives_back_on o.auth_result o.ending then amend m ip (remove_slot slot.id (m ip)) else m

unfoldable pub ledger : Limiter → List Op → Ledger → Ledger
ledger l [] m = m
ledger l (op ∷ ops) m = let (l', r) = step op l in ledger l' ops (log_step op r m)

abbrev pub last_time : ℕ → List Op → ℕ
last_time now [] = now
last_time now (op ∷ ops) = last_time (time_of now op) ops

abbrev IsBounded : ℕ → ℕ → Ledger → Type 0
IsBounded limit now m = (ip : String) → length (live now (m ip)) ≤ limit

length-live-anti :
    (t now : ℕ) (q : List AttemptSlot) → t ≤ now → length (live now q) ≤ length (live t q)
length-live-anti t now [] h = omega arith
length-live-anti t now (s ∷ q) h = ground (arith, length-live-anti t now q h)

length-live-remove :
    (now i : ℕ) (q : List AttemptSlot) → length (live now (remove_slot i q)) ≤ length (live now q)
unfolding remove_slot
length-live-remove now i [] = omega arith
length-live-remove now i (s ∷ q) = ground (arith, length-live-remove now i q)

length-live-snoc :
    (now : ℕ) (q : List AttemptSlot) (s : AttemptSlot)
    → length (live now (q ++ s ∷ [])) ≤ length (live now q) + 1
length-live-snoc now q s =
    ground
      (arith, keep-append (is_live now) q (s ∷ []), length-append (live now q) (live now (s ∷ [])))

spec_step-IsBounded :
    (now : ℕ) (op : Op) (h : History)
    → now ≤ time_of now op
    → IsBounded h.limit now h.admitted
    → IsBounded h.limit (time_of now op) (log_step op (spec_step op h).1 h.admitted)
unfolding spec_step spec_reserve
spec_step-IsBounded now (arrive ip t) h le b j =
    elim (Bool-cases (leb h.limit (length (live t (h.admitted ip))))) [
      | inl full ↦ rw full (omega (arith, b j, length-live-anti now t (h.admitted j) le))
      | inr free ↦ rw free (
          ground (
            arith,
            b j,
            length-live-anti now t (h.admitted j) le,
            length-live-snoc t (h.admitted ip) (record { id = h.next_id; recorded_at = t }),
          ))
    ]
spec_step-IsBounded now (finish ip slot o) h le b j =
    ground (arith, b j, b ip, length-live-remove now slot.id (h.admitted ip))

spec_step-log :
    (op : Op) (h : History)
    → ((spec_step op h).0.admitted ≡ log_step op (spec_step op h).1 h.admitted)
      × ((spec_step op h).0.limit ≡ h.limit)
unfolding spec_step spec_reserve spec_finish
spec_step-log (arrive ip t) h = elim (Bool-cases (leb h.limit (length (live t (h.admitted ip))))) [
  | inl full ↦ rw full (refl, refl)
  | inr free ↦ rw free (refl, refl)
]
spec_step-log (finish ip slot o) h = elim (Bool-cases (gives_back_on o.auth_result o.ending)) [
  | inl back ↦ rw back (refl, refl)
  | inr kept ↦ rw kept (refl, refl)
]

ledger-IsBounded :
    (limit now : ℕ) (ops : List Op) (l : Limiter) (h : History) (m : Ledger)
    → IsChronological now ops
    → Refines now l h
    → h.admitted ≡ m
    → h.limit ≡ limit
    → IsBounded limit now m
    → IsBounded limit (last_time now ops) (ledger l ops m)
unfolding ledger
ledger-IsBounded limit now [] l h m c r em el b = b
ledger-IsBounded limit now (op ∷ ops) l h m c r em el b =
    let (r', e) = step-Simulates now op l h c.0 r in
    let (same, lim) = spec_step-log op h in
    ledger-IsBounded limit (time_of now op) ops (step op l).0 (spec_step op h).0
      (log_step op (step op l).1 m) c.1 r' (cc (e, em, same)) (lim ∙ el)
      (rw (e, ← em, ← el) (spec_step-IsBounded now op h c.0 (rw (em, el) b)))

-- From a new limiter, after any interleaving of arrivals and ends of calls whose arrival times do
-- not go back, no client has more slots granted in the last minute and not taken back than the
-- configured attempts per minute plus the burst.
pub ledger-le-limit :
    (per_minute burst now : ℕ) (ops : List Op)
    → IsChronological now ops
    → (ip : String)
    → length (live (last_time now ops) (ledger (new per_minute burst now) ops (λ _. []) ip))
      ≤ per_minute + burst
ledger-le-limit per_minute burst now ops c =
    ledger-IsBounded (per_minute + burst) now ops (new per_minute burst now)
      (fresh_history per_minute burst) (λ _. []) c (new-Refines per_minute burst now) refl refl
      (λ ip. omega arith)
