-- ===== src/Services/Telegram/Run.antt =====
-- A whole cycle: `run_telegram_cycle_async` of services/telegram_notifier.py.
pub mod Progress
pub mod Once
pub mod Totals
use megaraid_dashboard.Prelude.{
  ℕ, ◌+◌, ◌*◌, String, Bool, true, false, not, ◌&&◌, ◌||◌, Option, none, some, List, [], ◌∷◌, take,
  leb, ltb, ◌==◌, str_eq, keep, any_of, if◌then◌else◌,
}
use megaraid_dashboard.Services.Notifier.{Event}
use megaraid_dashboard.Services.Telegram.Relevance.{second, Database, Settings}
use megaraid_dashboard.Services.Telegram.Cycle.{
  Status, sending, retry, sent, failed, skipped, EventDelivery, Deliveries, Turn, Cycle,
  is_telegram_alert, deliver, retry_after_max_seconds,
}

abbrev pub max_candidates_per_cycle : ℕ
max_candidates_per_cycle = 100

abbrev pub max_sends_per_cycle : ℕ
max_sends_per_cycle = 5

abbrev retry_after_max : ℕ
retry_after_max = retry_after_max_seconds * second

abbrev is_due : ℕ → Option ℕ → Bool
is_due now none = true
is_due now (some t) = leb t now

abbrev is_maintenance : Option String → Bool
is_maintenance none = false
is_maintenance (some s) = str_eq s "maintenance"

abbrev pub is_open : Status → Option String → Bool
is_open sending detail = true
is_open retry detail = true
is_open failed detail = true
is_open skipped detail = is_maintenance detail
is_open sent detail = false

abbrev pub wants_delivery : ℕ → Option EventDelivery → Bool
wants_delivery now none = true
wants_delivery now (some d) = is_open d.status d.detail && is_due now d.next_attempt_at

-- The `WHERE` clause.
unfoldable pub is_candidate : ℕ → Deliveries → Event → Bool
is_candidate now deliveries e =
    leb e.occurred_at now && is_telegram_alert e && wants_delivery now (deliveries e.id)

-- `ORDER BY next_attempt_at, occurred_at, id`, ascending, with missing times first.
abbrev due_of : Option EventDelivery → Option ℕ
due_of none = none
due_of (some d) = d.next_attempt_at

abbrev by_time : Event → Event → Bool
by_time a b = ltb a.occurred_at b.occurred_at || (a.occurred_at == b.occurred_at && leb a.id b.id)

abbrev due_before : Option ℕ → Option ℕ → Bool → Bool
due_before none none tie = tie
due_before none (some t) tie = true
due_before (some t) none tie = false
due_before (some t) (some u) tie = ltb t u || (t == u && tie)

abbrev pub precedes : Deliveries → Event → Event → Bool
precedes m a b = due_before (due_of (m a.id)) (due_of (m b.id)) (by_time a b)

unfoldable pub insert_candidate : Deliveries → Event → List Event → List Event
insert_candidate m e [] = e ∷ []
insert_candidate m e (f ∷ fs) =
    let rest = f ∷ insert_candidate m e fs in if precedes m e f then e ∷ f ∷ fs else rest

unfoldable pub sort_candidates : Deliveries → List Event → List Event
sort_candidates m [] = []
sort_candidates m (e ∷ es) = insert_candidate m e (sort_candidates m es)

unfoldable pub load_candidates : ℕ → Database → Deliveries → List Event
load_candidates now db m =
    take max_candidates_per_cycle (sort_candidates m (keep (is_candidate now m) db.events))

-- The repair of deadlines behind the latest one that a retry can have.
abbrev repaired_time : ℕ → Option ℕ → Option ℕ
repaired_time latest_retry none = none
repaired_time latest_retry (some t) = if ltb latest_retry t then some latest_retry else some t

abbrev repaired_row : ℕ → EventDelivery → EventDelivery
repaired_row latest_retry d =
    if is_retry d.status && ltb 0 d.attempts
    then record d { next_attempt_at = repaired_time latest_retry d.next_attempt_at }
    else d
  where
    is_retry : Status → Bool
    is_retry retry = true
    is_retry _ = false

abbrev repaired : ℕ → Option EventDelivery → Option EventDelivery
repaired latest_retry none = none
repaired latest_retry (some d) = some (repaired_row latest_retry d)

abbrev cooldown_of : ℕ → Option ℕ → ℕ
cooldown_of now none = now
cooldown_of now (some t) = if ltb (now + retry_after_max) t then now + retry_after_max else t

abbrev pub begin : ℕ → Deliveries → Option ℕ → Cycle
begin now m not_before = record {
  deliveries = λ id. repaired (now + retry_after_max) (m id);
  cooldown = cooldown_of now not_before;
  not_before = repaired_time (now + retry_after_max) not_before;
  channel_blocked = ltb now (cooldown_of now not_before);
  sends_left = max_sends_per_cycle;
  sent = 0;
  failed = 0;
  skipped = 0;
  deferred = 0;
  outbox = [];
}

unfoldable pub deliver_all :
    Settings → Database → (Event → Turn) → List Event → Cycle → Option Cycle
deliver_all c db turn [] s = some s
deliver_all c db turn (e ∷ es) s = elim (deliver c db e (turn e) s) [
  | none ↦ none
  | some s' ↦ deliver_all c db turn es s'
]

-- `turn` says what happens while an event is handled; `none` is the exception of a cycle.
unfoldable pub run_telegram_cycle :
    Settings → Database → (Event → Turn) → ℕ → Deliveries → Option ℕ → Option Cycle
run_telegram_cycle c db turn now m not_before =
    let s = begin now m not_before in deliver_all c db turn (load_candidates now db s.deliveries) s

abbrev is_pending_failure : Option EventDelivery → Bool
is_pending_failure none = false
is_pending_failure (some d) = unsettled d.status && ltb 0 d.attempts
  where
    unsettled : Status → Bool
    unsettled retry = true
    unsettled sending = true
    unsettled failed = true
    unsettled _ = false

-- `_record_telegram_health` at the end of a cycle; `now` is the last reading of the clock.
unfoldable pub telegram_health : Database → ℕ → Cycle → Bool
telegram_health db now s =
    s.failed == 0
    && not (any_of (λ (e : Event). is_pending_failure (s.deliveries e.id)) db.events)
    && leb s.cooldown now
