-- ===== src/Services/Telegram/Cycle.antt =====
-- The delivery rows and one candidate of a cycle, of services/telegram_notifier.py.
pub mod Backoff
use megaraid_dashboard.Prelude.{
  ℕ, zero, suc, ◌+◌, ◌-◌, ◌*◌, ◌^◌, min, max, String, Bool, true, false, not, ◌&&◌, ◌||◌, Option,
  none, some, List, [], ◌∷◌, leb, ltb, ◌==◌, str_eq, str_mem, any_of, if◌then◌else◌,
}
use megaraid_dashboard.Prelude.Int.{ℤ, pos}
use megaraid_dashboard.Services.Events.{Severity, info, warning, critical, Json}
use megaraid_dashboard.Services.DiskMonitor.{severity_eq}
use megaraid_dashboard.Services.Notifier.{Event, minute, hour}
use megaraid_dashboard.Services.Telegram.Messages.{is_monitoring_outage, incident_key, key_eq}
use megaraid_dashboard.Services.Telegram.Relevance.{
  second, Database, Settings, Relevance, active, obsolete, raised, waiting,
}
use megaraid_dashboard.Services.Telegram.Recovery.{drive_serial_at}
use megaraid_dashboard.Services.Telegram.Superseded.{incident_superseded}
use megaraid_dashboard.Services.Telegram.Decision.{delivery_relevance}

pub data Status : Type 0 where
  sending retry sent failed skipped : Status

-- A row of the channel `telegram`.
pub record EventDelivery : Type 0 where
  pub status : Status
  pub attempts : ℕ
  pub last_attempt_at : Option ℕ
  pub next_attempt_at : Option ℕ
  pub delivered_at : Option ℕ
  pub detail : Option String

-- At most one row for each event, by its number.
abbrev pub Deliveries : Type 0
Deliveries = ℕ → Option EventDelivery

abbrev pub write : Deliveries → ℕ → EventDelivery → Deliveries
write m id d j = if j == id then some d else m j

-- The transport's answer: the message was accepted, or the arguments of a `TelegramSendError`, whose
-- delay is what the provider sent.
pub data Reply : Type 0 where
  accepted : Reply
  refused : String → Option Json → Reply

abbrev pub retry_after_max_seconds : ℕ
retry_after_max_seconds = 3600

-- `TelegramSendError.__init__`: the delay that the error keeps.
unfoldable pub retry_after_seconds : Option Json → Option ℕ
retry_after_seconds none = none
retry_after_seconds (some (Json.num (pos (suc n)))) = some (min (suc n) retry_after_max_seconds)
retry_after_seconds (some _) = some 60

-- What the world adds while one candidate is handled: the clock when it is taken, the transport's
-- answer if its message is sent, and the clock when a failure is recorded.
pub record Turn : Type 0 where
  pub now : ℕ
  pub reply : Reply
  pub failed_at : ℕ

-- The loop's variables, the stored cooldown, and the messages sent, latest first.
pub record Cycle : Type 0 where
  pub deliveries : Deliveries
  pub cooldown : ℕ
  pub not_before : Option ℕ
  pub channel_blocked : Bool
  pub sends_left : ℕ
  pub sent : ℕ
  pub failed : ℕ
  pub skipped : ℕ
  pub deferred : ℕ
  pub outbox : List Event

abbrev pub immediate_critical_categories : List String
immediate_critical_categories =
    "vd_state" ∷ "pd_state" ∷ "media_errors" ∷ "predictive_failures" ∷ "smart_alert" ∷ "cv_state"
    ∷ "temperature" ∷ "controller_temperature" ∷ "system" ∷ []

abbrev pub confirmed_warning_categories : List String
confirmed_warning_categories = "temperature" ∷ "controller_temperature" ∷ []

abbrev pub alert_of : Severity → Event → Bool
alert_of critical e =
    if str_eq e.category "system"
    then is_monitoring_outage e
    else str_mem e.category immediate_critical_categories
alert_of warning e = str_mem e.category confirmed_warning_categories
alert_of info e = false

unfoldable pub is_telegram_alert : Event → Bool
is_telegram_alert e = alert_of e.severity e

abbrev fresh_row : EventDelivery
fresh_row = record {
  status = retry;
  attempts = 0;
  last_attempt_at = none;
  next_attempt_at = none;
  delivered_at = none;
  detail = none;
}

abbrev or_fresh : Option EventDelivery → EventDelivery
or_fresh none = fresh_row
or_fresh (some d) = d

abbrev pub row_of : Event → Cycle → EventDelivery
row_of e s = or_fresh (s.deliveries e.id)

unfoldable pub set_status : Status → Option String → EventDelivery → EventDelivery
set_status status detail d = record d { status = status; detail = detail; next_attempt_at = none }

abbrev pub save : Event → EventDelivery → Cycle → Cycle
save e d s = record s { deliveries = write s.deliveries e.id d }

unfoldable pub defer : Event → ℕ → String → Cycle → Cycle
defer e next_attempt_at detail s =
    let d = set_status retry (some detail) (row_of e s) in
    record (save e (record d { next_attempt_at = some next_attempt_at }) s) {
      deferred = s.deferred + 1;
    }

unfoldable pub skip : Event → String → Cycle → Cycle
skip e detail s = record (save e (set_status skipped (some detail) (row_of e s)) s) {
  skipped = s.skipped + 1;
}

unfoldable pub claim : Event → ℕ → Cycle → Cycle
claim e now s =
    let d = set_status sending none (row_of e s) in
    save e (record d { attempts = d.attempts + 1; last_attempt_at = some now }) s

abbrev pub retry_base_seconds : ℕ
retry_base_seconds = 60

abbrev pub retry_max_seconds : ℕ
retry_max_seconds = 3600

-- `min(60 * 2 ** min(attempts - 1, 6), 3600)`; a claimed row has at least one attempt.
unfoldable pub backoff : ℕ → ℕ
backoff attempts = min (retry_base_seconds * 2 ^ min (attempts - 1) 6) retry_max_seconds

abbrev pub or_zero : Option ℕ → ℕ
or_zero none = 0
or_zero (some n) = n

unfoldable pub record_send_failure : Event → String → Option ℕ → ℕ → Cycle → Cycle
record_send_failure e reason retry_after now s =
    let d = row_of e s in
    let delay = max (backoff d.attempts) (or_zero retry_after) in
    save e
      (record (set_status retry (some reason) d) { next_attempt_at = some (now + delay * second) })
      s

abbrev embargo : Option ℕ → ℕ → Cycle → Cycle
embargo none failed_at s = s
embargo (some seconds) failed_at s = record s {
  cooldown = failed_at + seconds * second;
  not_before = some (failed_at + seconds * second);
}

-- The end of a send: the `except` block, and the block behind it.
abbrev pub after_send : Event → ℕ → ℕ → Reply → Cycle → Cycle
after_send e now failed_at accepted s =
    let d = set_status sent none (row_of e s) in
    record (save e (record d { delivered_at = some now }) s) { sent = s.sent + 1 }
after_send e now failed_at (refused reason retry_after) s =
    let delay = retry_after_seconds retry_after in
    record (embargo delay failed_at (record_send_failure e reason delay failed_at s)) {
      channel_blocked = true;
      failed = s.failed + 1;
    }

unfoldable pub send : Event → Turn → Cycle → Cycle
send e turn s =
    let claimed = claim e turn.now s in
    after_send e turn.now turn.failed_at turn.reply
      (record claimed { sends_left = s.sends_left - 1; outbox = e ∷ s.outbox })

unfoldable pub warning_has_ended : Database → Event → Bool
warning_has_ended db e =
    any_of
      (λ (f : Event).
        str_eq f.category e.category
        && (str_eq f.subject e.subject && (ltb e.id f.id && not (severity_eq f.severity warning))))
      db.events

abbrev serial_eq : Option String → Option String → Bool
serial_eq none none = true
serial_eq (some a) (some b) = str_eq a b
serial_eq _ _ = false

abbrev sent_since : ℕ → Option EventDelivery → Bool
sent_since now none = false
sent_since now (some d) = was_sent d.status && recent d.delivered_at
  where
    was_sent : Status → Bool
    was_sent sent = true
    was_sent _ = false

    recent : Option ℕ → Bool
    recent none = false
    recent (some t) = leb now (t + 24 * hour)

-- `_same_incident_sent_since` with the repeat window of 24 hours.
unfoldable pub same_incident_sent_since : Settings → Database → ℕ → Event → Deliveries → Bool
same_incident_sent_since c db now e deliveries =
    any_of
      (λ (f : Event).
        sent_since now (deliveries f.id)
        && (severity_eq f.severity e.severity
            && (str_eq f.category e.category
                && (str_eq f.subject e.subject
                    && (not (f.id == e.id)
                        && (key_eq (incident_key f) (incident_key e)
                            && (serial_eq (drive_serial_at db f) (drive_serial_at db e)
                                && not (
                                    incident_superseded c.thresholds db e.occurred_at
                                      (some (e.id + 1)) f))))))))
      db.events

abbrev pub confirm_delay : Settings → ℕ
confirm_delay c = c.telegram_warning_confirm_minutes * minute

abbrev pub is_interrupted : Option EventDelivery → Bool
is_interrupted none = false
is_interrupted (some d) = unfinished d.status
  where
    unfinished : Status → Bool
    unfinished sending = true
    unfinished failed = true
    unfinished _ = false

unfoldable pub requeue : Event → Cycle → Cycle
requeue e s =
    if is_interrupted (s.deliveries e.id)
    then save e (set_status retry (some "outcome unknown: interrupted or failed send") (row_of e s))
        s
    else s

-- Behind the checks of a warning, by the relevance; `none` is the exception that ends the cycle.
unfoldable pub by_relevance : Settings → Database → Event → Turn → Relevance → Cycle → Option Cycle
by_relevance c db e turn raised s = none
by_relevance c db e turn obsolete s = some (skip e "obsolete" s)
by_relevance c db e turn (waiting detail) s = some (defer e (turn.now + 60 * second) detail s)
by_relevance c db e turn active s = some (
    if same_incident_sent_since c db turn.now e s.deliveries
    then skip e "duplicate" s
    else if s.channel_blocked || s.sends_left == 0
    then defer e (turn.now + 60 * second) "channel_deferred" s
    else send e turn s)

-- One pass of the loop.
unfoldable pub deliver : Settings → Database → Event → Turn → Cycle → Option Cycle
deliver c db e turn s =
    let s1 = requeue e s in
    let is_warning = severity_eq e.severity warning in
    if is_warning && ltb turn.now (e.occurred_at + confirm_delay c)
    then some (defer e (e.occurred_at + confirm_delay c) "awaiting_confirmation" s1)
    else if is_warning && warning_has_ended db e
    then some (skip e "not_confirmed" s1)
    else by_relevance c db e turn (delivery_relevance c db turn.now e) s1
