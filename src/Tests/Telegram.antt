-- ===== src/Tests/Telegram.antt =====
-- Runs of the Telegram channel.
use megaraid_dashboard.Prelude.{
  ℕ, ◌+◌, ◌*◌, ◌≤◌, ◌≡◌, ◌≢◌, refl, true, false, none, some, [], ◌∷◌, arith, length, All,
  if◌then◌else◌, ◌==◌, inr,
}
use megaraid_dashboard.Prelude.Int.{pos, ◌≤ℤ◌, -ℤ_parts}
use megaraid_dashboard.Storcli.Models.{ControllerSnapshot}
use megaraid_dashboard.Services.Events.{Severity, Json}
use megaraid_dashboard.Services.EventDetector.Thresholds.{Thresholds}
use megaraid_dashboard.Services.EventDetector.Temperature.{TempState}
use megaraid_dashboard.Services.EventDetector.Temperature.Hysteresis.{settled}
use megaraid_dashboard.Services.EventDetector.VirtualDrives.{vd_subject}
use megaraid_dashboard.Services.Notifier.{Event}
use megaraid_dashboard.Services.Telegram.Relevance.{
  second, Database, Settings, active_if, waiting, temperature_relevance,
}
use megaraid_dashboard.Services.Telegram.Relevance.Hysteresis.{
  entry_severity, same_temp_state, temperature_relevance-settled,
}
use megaraid_dashboard.Services.Telegram.Recovery.{
  record_controller_temperature_clears, controller_temperature_recovered, controller_clear_boundary,
}
use megaraid_dashboard.Services.Telegram.Recovery.Cleared.{recorded_clear_recovers}
use megaraid_dashboard.Services.Telegram.Decision.{delivery_relevance}
use megaraid_dashboard.Services.Telegram.Decision.Fresh.{HasFailure, delivery_relevance_blind}
use megaraid_dashboard.Services.ObservationHealth.{observation_warning}
use megaraid_dashboard.Services.ObservationHealth.Agreement.{
  relevance_under, delivery_relevance-observation_warning,
}
use megaraid_dashboard.Services.Telegram.Cycle.{
  Status, EventDelivery, Deliveries, Reply, Turn, Cycle, row_of, record_send_failure,
  retry_after_seconds,
}
use megaraid_dashboard.Services.Telegram.Cycle.Backoff.{next_attempt-bounds}
use megaraid_dashboard.Services.Telegram.Run.{begin, load_candidates, run_telegram_cycle}
use megaraid_dashboard.Services.Telegram.Run.Progress.{is_decided}
use megaraid_dashboard.Services.Telegram.Run.Totals.{every_candidate_decided, sends_bounded}
use megaraid_dashboard.Services.Telegram.Run.Once.{in_outbox, sent_is_final}

abbrev limits : Thresholds
limits = record {
  temp_warning = pos 55;
  temp_critical = pos 60;
  temp_hysteresis = pos 5;
  roc_temp_warning = pos 95;
  roc_temp_critical = pos 105;
  roc_temp_hysteresis = pos 5;
  cv_capacitance_warning_percent = 70;
}

abbrev settings : Settings
settings = record {
  thresholds = limits;
  metrics_interval_seconds = 300;
  telegram_warning_confirm_minutes = 10;
}

abbrev degraded : ℕ → ℕ → Event
degraded id vd_id = record {
  id = id;
  occurred_at = 100 * second;
  severity = Severity.critical;
  category = "vd_state";
  subject = vd_subject vd_id;
  summary = "degraded";
  before_json = none;
  after_json = some (("state", Json.text "Dgrd") ∷ []);
  notified_at = none;
}

abbrev state_now : ControllerSnapshot
state_now = record {
  alarm_state = "On";
  cv_present = true;
  roc_temperature_celsius = some (pos 80);
  virtual_drives = record { vd_id = 0; state = "Dgrd" } ∷ record { vd_id = 1; state = "dgrd" } ∷ [];
  physical_drives = [];
  cachevault = none;
}

abbrev database : Database
database = record {
  events = degraded 1 0 ∷ degraded 2 1 ∷ [];
  snapshots = record { id = 9; captured_at = 100 * second; row = state_now } ∷ [];
  temperature_states = λ _. none;
  warning_cleared_at = none;
  critical_cleared_at = none;
}

abbrev present : ℕ
present = 130 * second

abbrev sent_row : EventDelivery
sent_row = record {
  status = Status.sent;
  attempts = 1;
  last_attempt_at = some (110 * second);
  next_attempt_at = none;
  delivered_at = some (110 * second);
  detail = none;
}

-- The first event's message was sent, the second one's was not.
abbrev deliveries : Deliveries
deliveries id = if id == 1 then some sent_row else none

abbrev turn : Event → Turn
turn e = record {
  now = present;
  reply = Reply.refused "HTTP 429" (some (Json.num (pos 90)));
  failed_at = present + second;
}

every_candidate_decided_example :
    let es = load_candidates present database (begin present deliveries none).deliveries in
    (s : Cycle) × (run_telegram_cycle settings database turn present deliveries none ≡ some s)
    × (s.sent + s.failed + s.skipped + s.deferred ≡ length es)
    × All (λ (e : Event). is_decided (s.deliveries e.id) ≡ true) es
every_candidate_decided_example =
    every_candidate_decided settings database turn present deliveries none

sends_bounded_example :
    (s : Cycle) × (run_telegram_cycle settings database turn present deliveries none ≡ some s)
    × (length s.outbox ≤ 5)
    × (length s.outbox ≡ s.sent + s.failed)
    × (s.failed ≤ 1)
sends_bounded_example = sends_bounded settings database turn present deliveries none

sent_is_final_example :
    (s : Cycle) × (run_telegram_cycle settings database turn present deliveries none ≡ some s)
    × (s.deliveries 1 ≡ some sent_row)
    × (in_outbox 1 s ≡ false)
sent_is_final_example =
    sent_is_final settings database turn present deliveries none 1 sent_row refl refl

next_attempt-bounds_example :
    let s = begin present deliveries none in
    let s' =
      record_send_failure
        (degraded 1 0)
        "HTTP 429"
        (retry_after_seconds (some (Json.num (pos 90_000))))
        present
        s in
    (t : ℕ) × ((row_of (degraded 1 0) s').next_attempt_at ≡ some t)
    × (present + 60 * second ≤ t)
    × (t ≤ present + 3600 * second)
next_attempt-bounds_example =
    next_attempt-bounds (degraded 1 0) "HTTP 429" (some (Json.num (pos 90_000))) present
      (begin present deliveries none)

warning_not_ok : TempState.warning ≢ TempState.ok
warning_not_ok h = cc

temperature_relevance-settled_example :
    temperature_relevance
      (some (pos 52))
      (entry_severity TempState.warning)
      limits.temp_warning
      limits.temp_critical
      limits.temp_hysteresis
      false
    ≡ active_if (same_temp_state (settled limits (pos 52) TempState.warning) TempState.warning)
temperature_relevance-settled_example =
    temperature_relevance-settled limits (pos 52) TempState.warning warning_not_ok

abbrev hot_controller : Event
hot_controller = record (degraded 3 0) {
  severity = Severity.warning;
  category = "controller_temperature";
  subject = "Controller";
}

cool_enough : pos 88 ≤ℤ controller_clear_boundary limits Severity.warning
unfolding controller_clear_boundary
cool_enough = omega (arith, -ℤ_parts (pos 95) (pos 5))

recorded_clear_recovers_example :
    controller_temperature_recovered limits
      (record_controller_temperature_clears limits (some (pos 88)) (120 * second) database)
      present
      hot_controller
    ≡ true
recorded_clear_recovers_example =
    recorded_clear_recovers limits database hot_controller (pos 88) (120 * second) present refl refl
      cool_enough (omega arith) (omega arith) tt

-- A snapshot without the failure, then a collection that failed.
abbrev blind_database : Database
blind_database = record database {
  events =
      degraded 1 0
      ∷ degraded 2 1
      ∷ record (degraded 3 0) {
        occurred_at = 120 * second;
        category = "system";
        subject = "Collector";
        summary = "Collection failed: storcli timed out";
      }
      ∷ [];
  snapshots =
      record { id = 9; captured_at = 100 * second; row = state_now }
      ∷ record { id = 10; captured_at = 140 * second; row = state_now }
      ∷ [];
}

collection_failure : HasFailure (100 * second) present blind_database.events
collection_failure = record {
  before = degraded 1 0 ∷ degraded 2 1 ∷ [];
  failure = record (degraded 3 0) {
    occurred_at = 120 * second;
    category = "system";
    subject = "Collector";
    summary = "Collection failed: storcli timed out";
  };
  after = [];
  recorded = refl;
  system = refl;
  reason = " storcli timed out";
  text = refl;
  late = omega arith;
  past = omega arith;
}

-- The second snapshot is not of the past.
delivery_relevance_blind_example :
    delivery_relevance settings blind_database present (degraded 2 1)
    ≡ waiting "awaiting_fresh_data"
delivery_relevance_blind_example =
    delivery_relevance_blind settings blind_database present (degraded 2 1) refl
      (λ _. inr collection_failure, (λ taken. absurd (ground arith), tt))

delivery_relevance-observation_warning_example :
    delivery_relevance settings database present (degraded 2 1)
    ≡ relevance_under
        (observation_warning settings true database present)
        settings
        database
        present
        (degraded 2 1)
delivery_relevance-observation_warning_example =
    delivery_relevance-observation_warning settings database present (degraded 2 1) refl
