-- ===== src/Tests/Pages.antt =====
-- A run of services/events.py: three pages of two rows.
use megaraid_dashboard.Prelude.{ℕ, suc, ◌≡◌, refl, none, List, [], ◌∷◌, arith, keep, map, length}
use megaraid_dashboard.Services.Events.{Severity}
use megaraid_dashboard.Services.Notifier.{Event}
use megaraid_dashboard.Services.Notifier.Delivery.{AreDistinctRows}
use megaraid_dashboard.Services.EventPages.{
  EventRow, event_row, is_selected, newest_first, insert_newest, load_page, matching,
}
use megaraid_dashboard.Services.EventPages.Complete.{follow, follow-all}

abbrev at : ℕ → ℕ → Event
at id occurred_at = record {
  id = id;
  occurred_at = occurred_at;
  severity = Severity.warning;
  category = "system";
  subject = "Controller";
  summary = "Collection failed: timeout";
  before_json = none;
  after_json = none;
  notified_at = none;
}

abbrev log : List Event
log = at 1 10 ∷ at 2 30 ∷ at 3 20 ∷ at 4 30 ∷ at 5 40 ∷ []

log-AreDistinctRows : AreDistinctRows log
log-AreDistinctRows = ground arith

abbrev numbers : List EventRow → List ℕ
numbers rows = map (λ (r : EventRow). r.id) rows

log-numbers : numbers (follow 6 2 [] [] log none) ≡ 5 ∷ 4 ∷ 2 ∷ 3 ∷ 1 ∷ []
unfolding follow load_page matching newest_first insert_newest
log-numbers = refl

follow-all_example :
    follow (suc (length log)) 2 [] [] log none
    ≡ map event_row (newest_first (keep (is_selected [] [] none) log))
follow-all_example = follow-all 2 [] [] log (omega arith) log-AreDistinctRows
