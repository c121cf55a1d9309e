-- ===== src/Services/Notifier.antt =====
-- src/megaraid_dashboard/services/notifier.py, with the queries of db/dao.py that it makes. Times are
-- microseconds; the table of events is a list of rows.
pub mod Delivery
pub mod Once
pub mod Order
use Prim.Native.String.{String}
use megaraid_dashboard.Prelude.{
  ℕ, ◌+◌, ◌*◌, Bool, true, false, not, ◌&&◌, ◌||◌, Option, none, some, List, [], ◌∷◌, map, ltb, leb,
  ◌==◌, str_eq, keep, any_of, length, max, lookup_text, if◌then◌else◌,
}
use megaraid_dashboard.Services.Events.{Severity, info, warning, critical, Fields}
use megaraid_dashboard.Services.DiskMonitor.{severity_eq}

abbrev pub minute : ℕ
minute = 60_000_000

abbrev pub hour : ℕ
hour = 60 * minute

pub record Event : Type 0 where
  pub id : ℕ
  pub occurred_at : ℕ
  pub severity : Severity
  pub category : String
  pub subject : String
  pub summary : String
  pub before_json : Option Fields
  pub after_json : Option Fields
  pub notified_at : Option ℕ

pub record NotifierSettings : Type 0 where
  pub alert_severity_threshold : Severity
  pub alert_suppress_window_minutes : ℕ
  pub alert_throttle_per_hour : ℕ

abbrev pub severity_rank : Severity → ℕ
severity_rank info = 0
severity_rank warning = 1
severity_rank critical = 2

abbrev per_category_suppress_minutes : List (String × ℕ)
per_category_suppress_minutes =
    ("controller_temperature", 1440) ∷ ("foreign_config_detected", 1440) ∷ []

abbrev or_configured : NotifierSettings → Option ℕ → ℕ
or_configured c none = c.alert_suppress_window_minutes
or_configured c (some n) = n

unfoldable pub suppress_window_minutes : NotifierSettings → Event → ℕ
suppress_window_minutes c e = or_configured c (lookup_text e.category per_category_suppress_minutes)

unfoldable pub max_suppress_window_minutes : NotifierSettings → ℕ
max_suppress_window_minutes c = max c.alert_suppress_window_minutes (max 1440 1440)

-- `iter_pending_events`: unsent rows at or above the threshold, from a time on.
abbrev pub is_none : Option ℕ → Bool
is_none none = true
is_none (some _) = false

unfoldable pub is_pending : NotifierSettings → ℕ → Event → Bool
is_pending c now e =
    leb (severity_rank c.alert_severity_threshold) (severity_rank e.severity)
    && is_none e.notified_at
    && leb now (e.occurred_at + max_suppress_window_minutes c * minute)

-- `ORDER BY occurred_at ASC, id ASC`.
abbrev pub comes_before : Event → Event → Bool
comes_before a b =
    ltb a.occurred_at b.occurred_at || (a.occurred_at == b.occurred_at && leb a.id b.id)

unfoldable pub insert_in_order : Event → List Event → List Event
insert_in_order e [] = e ∷ []
insert_in_order e (f ∷ fs) =
    let rest = f ∷ insert_in_order e fs in if comes_before e f then e ∷ f ∷ fs else rest

unfoldable pub in_order : List Event → List Event
in_order [] = []
in_order (e ∷ es) = insert_in_order e (in_order es)

unfoldable pub iter_pending_events : NotifierSettings → ℕ → List Event → List Event
iter_pending_events c now db = in_order (keep (is_pending c now) db)

-- `notified_at >= since`, with `since` a window before now.
abbrev pub notified_within : ℕ → ℕ → Option ℕ → Bool
notified_within now window none = false
notified_within now window (some t) = leb now (t + window)

abbrev count_of {ℓ} : {A : Type ℓ} → (A → Bool) → List A → ℕ
count_of p xs = length (keep p xs)

unfoldable pub count_events_notified_since : ℕ → ℕ → List Event → ℕ
count_events_notified_since now window db =
    count_of (λ (e : Event). notified_within now window e.notified_at) db

-- The row with this number is there: the numbers come from the same table.
abbrev pub mark_row : ℕ → ℕ → Event → Event
mark_row id now e = if e.id == id then record e { notified_at = some now } else e

unfoldable pub mark_event_notified : ℕ → ℕ → List Event → List Event
mark_event_notified id now db = map (mark_row id now) db

abbrev pub same_incident : Event → Event → Bool
same_incident a b =
    severity_eq a.severity b.severity
    && (str_eq a.category b.category && str_eq a.subject b.subject)

unfoldable pub event_was_notified_recently : ℕ → ℕ → Event → List Event → Bool
event_was_notified_recently now window e db =
    any_of
      (λ (f : Event).
        same_incident f e && (notified_within now window f.notified_at && not (f.id == e.id)))
      db

-- The table, the counters of the cycle, and the events whose
-- messages the transport accepted, latest first.
pub record Cycle : Type 0 where
  pub db : List Event
  pub attempted : ℕ
  pub sent : ℕ
  pub deduplicated : ℕ
  pub failed : ℕ
  pub outbox : List Event

-- One pass of the loop. The transport answers whether it accepted the event's message; an SMTP, TLS
-- or OS error is `false`.
unfoldable pub notify_event : NotifierSettings → (Event → Bool) → ℕ → Event → Cycle → Cycle
unfolding mark_event_notified
notify_event c send now e s =
    let window = suppress_window_minutes c e * minute in
    if ltb (e.occurred_at + window) now
    then s
    else if event_was_notified_recently now window e s.db
    then record s {
      db = mark_event_notified e.id now s.db;
      attempted = s.attempted + 1;
      deduplicated = s.deduplicated + 1;
    }
    else if send e
    then record s {
      db = mark_event_notified e.id now s.db;
      attempted = s.attempted + 1;
      sent = s.sent + 1;
      outbox = e ∷ s.outbox;
    }
    else record s { attempted = s.attempted + 1; failed = s.failed + 1 }

unfoldable pub notify_all : NotifierSettings → (Event → Bool) → ℕ → List Event → Cycle → Cycle
notify_all c send now [] s = s
notify_all c send now (e ∷ es) s = notify_all c send now es (notify_event c send now e s)

abbrev pub start : List Event → Cycle
start db = record { db = db; attempted = 0; sent = 0; deduplicated = 0; failed = 0; outbox = [] }

-- What a cycle leaves: its table and counters, its throttle warning, and `_NOTIFIER_HEALTH`.
pub record Report : Type 0 where
  pub cycle : Cycle
  pub throttle_warning : Bool
  pub healthy : Bool

abbrev close : Bool → Cycle → Report
close throttle_warning s = record {
  cycle = s;
  throttle_warning = throttle_warning;
  healthy = s.failed == 0;
}

-- In a maintenance window the cycle does nothing, and the health stays as it was.
unfoldable pub run_notifier_cycle :
    NotifierSettings → (Event → Bool) → ℕ → Bool → Bool → List Event → Report
run_notifier_cycle c send now maintenance healthy db =
    if maintenance
    then record { cycle = start db; throttle_warning = false; healthy = healthy }
    else close (ltb c.alert_throttle_per_hour (count_events_notified_since now hour db))
        (notify_all c send now (iter_pending_events c now db) (start db))
