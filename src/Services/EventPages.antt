-- ===== src/Services/EventPages.antt =====
-- src/megaraid_dashboard/services/events.py: the pages of the list of events, newest first. Times are
-- microseconds.
pub mod Ordered
pub mod Complete
use megaraid_dashboard.Prelude.{
  ℕ, suc, ◌+◌, String, Bool, true, false, not, ◌&&◌, ◌||◌, Option, none, some, List, [], ◌∷◌, ◌++◌,
  ◌⊎◌, inl, inr, map, keep, take, length, leb, ltb, ◌==◌, str_eq, str_mem, if◌then◌else◌,
}
use megaraid_dashboard.Prelude.Text.{strip}
use megaraid_dashboard.Services.Events.{Severity, info, warning, critical}
use megaraid_dashboard.Services.DiskMonitor.{severity_text}
use megaraid_dashboard.Services.Notifier.{Event}

pub record EventsCursor : Type 0 where
  pub before_occurred_at : ℕ
  pub before_id : ℕ

pub record EventRow : Type 0 where
  pub id : ℕ
  pub occurred_at : ℕ
  pub severity : String
  pub severity_status : String
  pub category : String
  pub subject : String
  pub summary : String

pub record EventsFragment : Type 0 where
  pub events : List EventRow
  pub next_cursor : Option EventsCursor
  pub is_first_page : Bool
  pub category_filters : List String
  pub severity_filters : List String

-- The two `ValueError`s.
pub data PageError : Type 0 where
  page_size_below_1 cursor_incomplete : PageError

abbrev event_severity_to_status : Severity → String
event_severity_to_status info = "optimal"
event_severity_to_status warning = "warning"
event_severity_to_status critical = "critical"

abbrev pub event_row : Event → EventRow
event_row e = record {
  id = e.id;
  occurred_at = e.occurred_at;
  severity = severity_text e.severity;
  severity_status = event_severity_to_status e.severity;
  category = e.category;
  subject = e.subject;
  summary = e.summary;
}

-- `_normalize_filters`, with the filters found so far.
unfoldable pub normalize_filters : List String → List String → List String
normalize_filters found [] = found
normalize_filters found (value ∷ values) =
    let stripped = strip value in
    let rest = normalize_filters (found ++ stripped ∷ []) values in
    let same = normalize_filters found values in
    if str_eq stripped "" || str_mem stripped found then same else rest

abbrev filter_inputs : List String → Option String → List String
filter_inputs values none = values
filter_inputs values (some legacy_value) = values ++ legacy_value ∷ []

-- A filter that is empty passes everything.
abbrev pub passes_filter : List String → String → Bool
passes_filter [] s = true
passes_filter (f ∷ fs) s = str_mem s (f ∷ fs)

abbrev pub is_since : Option ℕ → Event → Bool
is_since none e = true
is_since (some id) e = ltb id e.id

abbrev pub is_before : Option EventsCursor → Event → Bool
is_before none e = true
is_before (some c) e =
    ltb e.occurred_at c.before_occurred_at
    || (e.occurred_at == c.before_occurred_at && ltb e.id c.before_id)

abbrev pub is_selected : List String → List String → Option ℕ → Event → Bool
is_selected categories severities since e =
    passes_filter categories e.category
    && (passes_filter severities (severity_text e.severity) && is_since since e)

-- `ORDER BY occurred_at DESC, id DESC`.
abbrev pub is_newer : Event → Event → Bool
is_newer a b = ltb b.occurred_at a.occurred_at || (a.occurred_at == b.occurred_at && leb b.id a.id)

unfoldable pub insert_newest : Event → List Event → List Event
insert_newest e [] = e ∷ []
insert_newest e (f ∷ fs) =
    let rest = f ∷ insert_newest e fs in if is_newer e f then e ∷ f ∷ fs else rest

unfoldable pub newest_first : List Event → List Event
newest_first [] = []
newest_first (e ∷ es) = insert_newest e (newest_first es)

-- The rows of the query, before its limit.
unfoldable pub matching :
    List String → List String → Option ℕ → Option EventsCursor → List Event → List Event
matching categories severities since cursor db =
    newest_first
      (keep (λ (e : Event). is_selected categories severities since e && is_before cursor e) db)

abbrev pub last_or : Event → List Event → Event
last_or e [] = e
last_or e (f ∷ fs) = last_or f fs

abbrev pub cursor_of : Event → EventsCursor
cursor_of e = record { before_occurred_at = e.occurred_at; before_id = e.id }

-- The cursor is that of the last visible event, if the query found more than the page.
abbrev pub cursor_after : Bool → List Event → Option EventsCursor
cursor_after more [] = none
cursor_after more (e ∷ es) = if more then some (cursor_of (last_or e es)) else none

abbrev pub is_none {ℓ} : {A : Type ℓ} → Option A → Bool
is_none none = true
is_none (some _) = false

-- The events found, one more than the page at most, and the page of them.
abbrev pub fragment_of : ℕ → Bool → List String → List String → List Event → EventsFragment
fragment_of page_size is_first_page categories severities found = record {
  events = map event_row (take page_size found);
  next_cursor = cursor_after (ltb page_size (length found)) (take page_size found);
  is_first_page = is_first_page;
  category_filters = categories;
  severity_filters = severities;
}

unfoldable pub load_page :
    ℕ → Option EventsCursor → List String → List String → Option ℕ → List Event → EventsFragment
load_page page_size cursor categories severities since db =
    fragment_of page_size (is_none cursor && is_none since) categories severities
      (take (suc page_size) (matching categories severities since cursor db))

abbrev both : Option ℕ → Option ℕ → PageError ⊎ Option EventsCursor
both none none = inr none
both (some t) (some id) = inr (some (record { before_occurred_at = t; before_id = id }))
both _ _ = inl cursor_incomplete

abbrev page_at :
    ℕ
    → PageError ⊎ Option EventsCursor
    → List String
    → List String
    → Option ℕ
    → List Event
    → PageError ⊎ EventsFragment
page_at page_size (inl error) categories severities since db = inl error
page_at page_size (inr cursor) categories severities since db =
    inr (load_page page_size cursor categories severities since db)

-- The checks, then the query.
unfoldable pub load_events_fragment :
    ℕ
    → Option ℕ
    → Option ℕ
    → List String
    → List String
    → Option String
    → Option ℕ
    → List Event
    → PageError ⊎ EventsFragment
load_events_fragment page_size before_occurred_at before_id categories severities category since
      db =
    if ltb page_size 1
    then inl page_size_below_1
    else page_at page_size (both before_occurred_at before_id)
        (normalize_filters [] (filter_inputs categories category)) (normalize_filters [] severities)
        since db
