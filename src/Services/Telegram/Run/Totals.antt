-- ===== src/Services/Telegram/Run/Totals.antt =====
-- The theorems on a whole cycle.
use megaraid_dashboard.Prelude.{
  ℕ, zero, suc, ◌+◌, ◌≤◌, ◌≡◌, refl, inl, inr, true, Option, some, List, [], ◌∷◌, arith, take,
  length, All, All-imp, All-kept, Bool-cases,
}
use megaraid_dashboard.Services.Notifier.{Event}
use megaraid_dashboard.Services.Telegram.Relevance.{Database, Settings}
use megaraid_dashboard.Services.Telegram.Cycle.{Deliveries, Turn, Cycle, is_telegram_alert}
use megaraid_dashboard.Services.Telegram.Run.{
  is_candidate, precedes, insert_candidate, sort_candidates, load_candidates, begin, deliver_all,
  run_telegram_cycle, max_candidates_per_cycle, max_sends_per_cycle,
}
use megaraid_dashboard.Services.Telegram.Run.Progress.{
  is_decided, Progress, Delivered, deliver-Progress,
}

abbrev behind : List Event → List Event → List Event
behind [] done = done
behind (e ∷ es) done = behind es (e ∷ done)

length-behind : (es done : List Event) → length (behind es done) ≡ length es + length done
length-behind [] done = omega arith
length-behind (e ∷ es) done = omega (arith, length-behind es (e ∷ done))

module _ (P : Event → Type 0) where
  All-behind : (es done : List Event) → All P (behind es done) → All P es × All P done
  All-behind [] done h = (tt, h)
  All-behind (e ∷ es) done h = let (a, b) = All-behind es (e ∷ done) h in ((b.0, a), b.1)

  All-take : (n : ℕ) (es : List Event) → All P es → All P (take n es)
  All-take zero es h = tt
  All-take (suc n) [] h = tt
  All-take (suc n) (e ∷ es) h = (h.0, All-take n es h.1)

  All-inserted :
      (m : Deliveries) (e : Event) (es : List Event)
      → P e
      → All P es
      → All P (insert_candidate m e es)
  unfolding insert_candidate
  All-inserted m e [] p h = (p, tt)
  All-inserted m e (f ∷ fs) p h = elim (Bool-cases (precedes m e f)) [
    | inl b ↦ rw b (p, h)
    | inr n ↦ rw n (h.0, All-inserted m e fs p h.1)
  ]

  All-sorted : (m : Deliveries) (es : List Event) → All P es → All P (sort_candidates m es)
  unfolding sort_candidates
  All-sorted m [] h = tt
  All-sorted m (e ∷ es) h = All-inserted m e (sort_candidates m es) h.0 (All-sorted m es h.1)

-- Every candidate passes the filter of the query.
pub candidates-All :
    (now : ℕ) (db : Database) (m : Deliveries)
    → All (λ (e : Event). is_candidate now m e ≡ true) (load_candidates now db m)
unfolding load_candidates
candidates-All now db m =
    All-take _ max_candidates_per_cycle _
      (All-sorted _ m _ (All-kept (is_candidate now m) db.events))

deliver_all-Progress :
    (c : Settings) (db : Database) (turn : Event → Turn) (budget : ℕ) (es done : List Event)
    (s : Cycle)
    → All (λ (e : Event). is_telegram_alert e ≡ true) es
    → Progress budget done s
    → Delivered budget (behind es done) (deliver_all c db turn es s)
unfolding deliver_all
deliver_all-Progress c db turn budget [] done s h p = (s, refl, p)
deliver_all-Progress c db turn budget (e ∷ es) done s h p =
    let (s', eq, p') = deliver-Progress c db budget done e (turn e) s h.0 p in
    rw (eq, deliver_all) (deliver_all-Progress c db turn budget es (e ∷ done) s' h.1 p')

begin-Progress :
    (now : ℕ) (m : Deliveries) (not_before : Option ℕ)
    → Progress max_sends_per_cycle [] (begin now m not_before)
begin-Progress now m not_before = record {
  tally = refl;
  posted = refl;
  within_budget = refl;
  one_failure = omega arith;
  decided = tt;
}

module _ (c : Settings) (db : Database) (turn : Event → Turn) (now : ℕ) (m : Deliveries)
    (not_before : Option ℕ) where
  abbrev candidates : List Event
  candidates = load_candidates now db (begin now m not_before).deliveries

  cycle-Progress :
      Delivered max_sends_per_cycle
        (behind candidates [])
        (run_telegram_cycle c db turn now m not_before)
  unfolding run_telegram_cycle is_candidate
  cycle-Progress =
      deliver_all-Progress c db turn max_sends_per_cycle candidates [] (begin now m not_before)
        (All-imp _ _ (λ e h. ground arith) candidates
          (candidates-All now db (begin now m not_before).deliveries))
        (begin-Progress now m not_before)

-- A cycle returns, whatever the tables hold and the transport answers, and it decides every
-- candidate: each is counted once, as sent, failed, skipped or deferred, and its row is sent,
-- skipped, or a retry with a time; none is left as being sent.
pub every_candidate_decided :
    (c : Settings) (db : Database) (turn : Event → Turn) (now : ℕ) (m : Deliveries)
    (not_before : Option ℕ)
    → let es = load_candidates now db (begin now m not_before).deliveries in
      (s : Cycle) × (run_telegram_cycle c db turn now m not_before ≡ some s)
      × (s.sent + s.failed + s.skipped + s.deferred ≡ length es)
      × All (λ (e : Event). is_decided (s.deliveries e.id) ≡ true) es
every_candidate_decided c db turn now m not_before =
    let (s, eq, p) = cycle-Progress c db turn now m not_before in
    let es = load_candidates now db (begin now m not_before).deliveries in
    (s, eq, omega (arith, p.tally, length-behind es []), (All-behind _ es [] p.decided).0)

-- A cycle returns and hands at most five messages to the transport, which are those that it counts as
-- sent or failed, and at most one of them fails.
pub sends_bounded :
    (c : Settings) (db : Database) (turn : Event → Turn) (now : ℕ) (m : Deliveries)
    (not_before : Option ℕ)
    → (s : Cycle) × (run_telegram_cycle c db turn now m not_before ≡ some s)
      × (length s.outbox ≤ 5)
      × (length s.outbox ≡ s.sent + s.failed)
      × (s.failed ≤ 1)
sends_bounded c db turn now m not_before =
    let (s, eq, p) = cycle-Progress c db turn now m not_before in
    (s, eq, omega (arith, p.within_budget), p.posted, ground (arith, p.one_failure))
