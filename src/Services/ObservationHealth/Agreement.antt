-- ===== src/Services/ObservationHealth/Agreement.antt =====
-- The banner and the Telegram channel judge the data alike.
use megaraid_dashboard.Prelude.{
  ℕ, ◌+◌, ◌≡◌, refl, inl, inr, true, false, Option, none, some, any_of, ltb, str_eq, Bool-cases,
  if◌then◌else◌,
}
use megaraid_dashboard.Services.Notifier.{Event}
use megaraid_dashboard.Services.Telegram.Relevance.{
  Captured, Database, Settings, Relevance, obsolete, waiting,
}
use megaraid_dashboard.Services.Telegram.Recovery.{latest_snapshot}
use megaraid_dashboard.Services.Telegram.Superseded.{incident_superseded}
use megaraid_dashboard.Services.Telegram.Decision.{
  freshness, collection_failed, hardware_relevance, current_relevance, delivery_relevance,
}
use megaraid_dashboard.Services.ObservationHealth.{
  ObservationWarning, warning_on, observation_warning,
}

-- The relevance by a snapshot that is trusted.
abbrev by_snapshot : Settings → Database → ℕ → Event → Option Captured → Relevance
by_snapshot c db now e none = waiting "awaiting_fresh_data"
by_snapshot c db now e (some s) =
    if incident_superseded c.thresholds db now none e
    then obsolete
    else current_relevance c db s.row e

-- The relevance of an alert about the hardware, by what the banner says.
abbrev pub relevance_under : Option ObservationWarning → Settings → Database → ℕ → Event → Relevance
relevance_under (some shown) c db now e = waiting "awaiting_fresh_data"
relevance_under none c db now e = by_snapshot c db now e (latest_snapshot now db.snapshots)

agreed :
    (c : Settings) (db : Database) (now : ℕ) (e : Event) (o : Option Captured)
    → latest_snapshot now db.snapshots ≡ o
    → hardware_relevance c db now e o ≡ relevance_under (warning_on c db now o) c db now e
agreed c db now e none l = refl
agreed c db now e (some s) l = elim (Bool-cases (ltb (s.captured_at + freshness c) now)) [
  | inl old ↦ rw old refl
  | inr young ↦
      rw young (elim (Bool-cases (any_of (collection_failed s.captured_at now) db.events)) [
        | inl failed ↦ rw failed refl
        | inr polled ↦ rw (polled, l) refl
      ])
]

-- While the collector is enabled, an alert about the hardware waits for fresh data while the pages
-- show a warning, and is judged by the latest snapshot and the later events while they show none.
pub delivery_relevance-observation_warning :
    (c : Settings) (db : Database) (now : ℕ) (e : Event)
    → str_eq e.category "system" ≡ false
    → delivery_relevance c db now e ≡ relevance_under (observation_warning c true db now) c db now e
unfolding delivery_relevance observation_warning
delivery_relevance-observation_warning c db now e h =
    rw h (agreed c db now e (latest_snapshot now db.snapshots) refl)
