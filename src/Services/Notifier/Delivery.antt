-- ===== src/Services/Notifier/Delivery.antt =====
-- What a notifier cycle delivers: each incident once, and each delivery recorded.
use megaraid_dashboard.Prelude.{
  ℕ, ◌+◌, ◌≡◌, refl, ◌∙◌, inl, inr, Bool, true, false, not, ◌&&◌, Option, none, some, List, [], ◌∷◌,
  arith, ◌==◌, str_eq_iff, any_of, any_of-imp, any_of-map, All, Bool-cases, length,
}
use megaraid_dashboard.Services.Events.{Severity, info, warning, critical}
use megaraid_dashboard.Services.DiskMonitor.{severity_eq}
use megaraid_dashboard.Services.Notifier.{
  Event, NotifierSettings, notified_within, mark_row, mark_event_notified, same_incident,
  event_was_notified_recently, Cycle, notify_event, notify_all,
}

abbrev pub Tally : Cycle → Type 0
Tally s = (s.attempted ≡ s.sent + s.deduplicated + s.failed) × (length s.outbox ≡ s.sent)

notify_event-Tally :
    (c : NotifierSettings) (send : Event → Bool) (now : ℕ) (e : Event) (s : Cycle)
    → Tally s
    → Tally (notify_event c send now e s)
unfolding notify_event
notify_event-Tally c send now e s t = ground (arith, send e)

pub notify_all-Tally :
    (c : NotifierSettings) (send : Event → Bool) (now : ℕ) (es : List Event) (s : Cycle)
    → Tally s
    → Tally (notify_all c send now es s)
unfolding notify_all
notify_all-Tally c send now [] s t = t
notify_all-Tally c send now (e ∷ es) s t =
    notify_all-Tally c send now es _ (notify_event-Tally c send now e s t)

-- The row of an event in the table.
abbrev pub is_row : Event → Event → Bool
is_row e f = f.id == e.id && same_incident f e

abbrev pub is_now : ℕ → Option ℕ → Bool
is_now now none = false
is_now now (some t) = t == now

abbrev pub HasRow : List Event → Event → Type 0
HasRow db e = any_of (is_row e) db ≡ true

-- The row says that the event was notified now.
abbrev pub IsNotified : ℕ → List Event → Event → Type 0
IsNotified now db e = any_of (λ (f : Event). is_row e f && is_now now f.notified_at) db ≡ true

mark_row_keeps :
    (i now : ℕ) (e f : Event)
    → (is_row e f && is_now now f.notified_at) ≡ true
    → (is_row e (mark_row i now f) && is_now now (mark_row i now f).notified_at) ≡ true
mark_row_keeps i now e f h = elim (Bool-cases (f.id == i)) [
  | inl hit ↦ rw hit (ground arith)
  | inr miss ↦ rw miss h
]

mark_row_row : (i now : ℕ) (e f : Event) → is_row e f ≡ true → is_row e (mark_row i now f) ≡ true
mark_row_row i now e f h = elim (Bool-cases (f.id == i)) [
  | inl hit ↦ rw hit h
  | inr miss ↦ rw miss h
]

pub mark-IsNotified :
    (i now : ℕ) (e : Event) (db : List Event)
    → IsNotified now db e
    → IsNotified now (mark_event_notified i now db) e
unfolding mark_event_notified
mark-IsNotified i now e db h =
    any_of-map _ (mark_row i now) db ∙ any_of-imp _ _ (mark_row_keeps i now e) db h

pub mark-HasRow :
    (i now : ℕ) (e : Event) (db : List Event)
    → HasRow db e
    → HasRow (mark_event_notified i now db) e
unfolding mark_event_notified
mark-HasRow i now e db h =
    any_of-map _ (mark_row i now) db ∙ any_of-imp _ _ (mark_row_row i now e) db h

pub mark_self :
    (now : ℕ) (e : Event) (db : List Event)
    → HasRow db e
    → IsNotified now (mark_event_notified e.id now db) e
unfolding mark_event_notified
mark_self now e db h = any_of-map _ (mark_row e.id now) db ∙ any_of-imp _ _ hits db h
  where
    hits :
        (f : Event)
        → is_row e f ≡ true
        → (is_row e (mark_row e.id now f) && is_now now (mark_row e.id now f).notified_at) ≡ true
    hits f r = elim (Bool-cases (f.id == e.id)) [
      | inl hit ↦ rw hit (ground arith)
      | inr miss ↦ ground arith
    ]

pub severity_eq_refl : (a : Severity) → severity_eq a a ≡ true
severity_eq_refl info = refl
severity_eq_refl warning = refl
severity_eq_refl critical = refl

severity_eq_trans : (a b x : Severity) → severity_eq a b ≡ true → severity_eq b x ≡ severity_eq a x
severity_eq_trans a b x h = ground arith

and_parts : (a b : Bool) → (a && b) ≡ true → (a ≡ true) × (b ≡ true)
and_parts true b h = (refl, h)
and_parts false b h = cc

same_incident_move :
    (a b x : Event) → same_incident a b ≡ true → same_incident b x ≡ true → same_incident a x ≡ true
same_incident_move a b x h k = ground (
  arith,
  severity_eq_trans a.severity b.severity x.severity,
  str_eq_iff a.category b.category,
  str_eq_iff a.subject b.subject,
)

-- An event whose incident was notified now in another row is notified recently.
pub recent_of_sent :
    (now window : ℕ) (e x : Event) (db : List Event)
    → IsNotified now db e
    → same_incident e x ≡ true
    → (e.id == x.id) ≡ false
    → event_was_notified_recently now window x db ≡ true
unfolding event_was_notified_recently
recent_of_sent now window e x db n same other = any_of-imp _ _ recent db n
  where
    recent :
        (f : Event)
        → (is_row e f && is_now now f.notified_at) ≡ true
        → (same_incident f x && (notified_within now window f.notified_at && not (f.id == x.id)))
          ≡ true
    recent f h = ground (arith, same_incident_move f e x)

-- No two messages are about one incident.
abbrev pub AreDistinctIncidents : List Event → Type 0
AreDistinctIncidents [] = Unit
AreDistinctIncidents (e ∷ es) = All (λ x. same_incident x e ≡ false) es × AreDistinctIncidents es

abbrev pub IsOther : Event → Event → Type 0
IsOther e x = (x.id == e.id) ≡ false

abbrev pub AreDistinctRows : List Event → Type 0
AreDistinctRows [] = Unit
AreDistinctRows (e ∷ es) = All (IsOther e) es × AreDistinctRows es

-- The messages sent so far, against the table and the events still to come.
pub record Sound (now : ℕ) (todo : List Event) (s : Cycle) : Type 0 where
  pub notified : All (IsNotified now s.db) s.outbox
  pub once : AreDistinctIncidents s.outbox
  pub fresh : All (λ e. All (IsOther e) s.outbox) todo
  pub rows : All (HasRow s.db) todo
  pub distinct : AreDistinctRows todo
