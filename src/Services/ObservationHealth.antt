-- ===== src/Services/ObservationHealth.antt =====
-- src/megaraid_dashboard/services/observation_health.py: the banner on stale or failed collection. A
-- warning carries the time of the snapshot that its text shows.
pub mod Agreement
use megaraid_dashboard.Prelude.{
  ℕ, ◌+◌, Bool, true, false, Option, none, some, List, ltb, any_of, if◌then◌else◌,
}
use megaraid_dashboard.Services.Telegram.Relevance.{Captured, Database, Settings}
use megaraid_dashboard.Services.Telegram.Recovery.{latest_snapshot}
use megaraid_dashboard.Services.Telegram.Decision.{freshness, collection_failed}

pub data ObservationWarning : Type 0 where
  no_collection : ObservationWarning
  stale failed : ℕ → ObservationWarning

abbrev pub warning_on : Settings → Database → ℕ → Option Captured → Option ObservationWarning
warning_on c db now none = some no_collection
warning_on c db now (some s) =
    if ltb (s.captured_at + freshness c) now
    then some (stale s.captured_at)
    else if any_of (collection_failed s.captured_at now) db.events
    then some (failed s.captured_at)
    else none

unfoldable pub observation_warning : Settings → Bool → Database → ℕ → Option ObservationWarning
observation_warning c collector_enabled db now =
    if collector_enabled then warning_on c db now (latest_snapshot now db.snapshots) else none
