-- ===== src/Services/Telegram/Recovery/Cleared.antt =====
-- A recorded recovery ends the alert on the controller's temperature.
use megaraid_dashboard.Prelude.{
  ℕ, ◌≤◌, ◌<◌, ◌≡◌, refl, true, false, Option, none, some, List, arith, str_eq,
}
use megaraid_dashboard.Prelude.Int.{ℤ, ◌≤ℤ◌}
use megaraid_dashboard.Services.Events.{Severity, info, warning, critical}
use megaraid_dashboard.Services.DiskMonitor.{severity_eq}
use megaraid_dashboard.Services.EventDetector.Thresholds.{Thresholds}
use megaraid_dashboard.Services.Notifier.{Event}
use megaraid_dashboard.Services.Telegram.Relevance.{Captured, Database}
use megaraid_dashboard.Services.Telegram.Recovery.{
  controller_clear_boundary, next_clear, record_controller_temperature_clears, stored_clear_time,
  within, controller_temperature_recovered,
}

-- A recovery time that lies in the future of the delivery cannot come from a clock that goes on.
abbrev pub IsPast : ℕ → Option ℕ → Type 0
IsPast now none = Unit
IsPast now (some t) = t ≤ now

next_clear-within :
    (snapshots : List Captured) (t boundary : ℤ) (after captured until : ℕ) (existing : Option ℕ)
    → t ≤ℤ boundary
    → after < captured
    → captured ≤ until
    → IsPast until existing
    → within after until (next_clear snapshots (some t) captured boundary existing) ≡ true
unfolding next_clear
next_clear-within ss t b after cap until none h1 h2 h3 h4 = ground arith
next_clear-within ss t b after cap until (some e) h1 h2 h3 h4 = ground arith

recorded-within :
    (c : Thresholds) (db : Database) (s : Severity) (t : ℤ) (after captured until : ℕ)
    → severity_eq s info ≡ false
    → t ≤ℤ controller_clear_boundary c s
    → after < captured
    → captured ≤ until
    → IsPast until (stored_clear_time db s)
    → within after until
        (stored_clear_time (record_controller_temperature_clears c (some t) captured db) s)
      ≡ true
unfolding record_controller_temperature_clears
recorded-within c db info t after captured until h b o u p = cc
recorded-within c db warning t after captured until h b o u p =
    next_clear-within db.snapshots t _ after captured until db.warning_cleared_at b o u p
recorded-within c db critical t after captured until h b o u p =
    next_clear-within db.snapshots t _ after captured until db.critical_cleared_at b o u p

-- For a warning or critical event of the controller's temperature: once the collector has recorded a
-- sample taken after the event, at the clear boundary of its severity or below it, the event counts
-- as recovered at every moment from that sample on, whatever the samples before it were, if the
-- recovery time stored before is not later than that moment.
pub recorded_clear_recovers :
    (c : Thresholds) (db : Database) (e : Event) (t : ℤ) (captured_at until : ℕ)
    → str_eq e.category "controller_temperature" ≡ true
    → severity_eq e.severity info ≡ false
    → t ≤ℤ controller_clear_boundary c e.severity
    → e.occurred_at < captured_at
    → captured_at ≤ until
    → IsPast until (stored_clear_time db e.severity)
    → controller_temperature_recovered c
        (record_controller_temperature_clears c (some t) captured_at db)
        until
        e
      ≡ true
unfolding controller_temperature_recovered
recorded_clear_recovers c db e t captured_at until category alert b o u p =
    rw
      (
        category,
        alert,
        recorded-within c db e.severity t e.occurred_at captured_at until alert b o u p,
      )
      refl
