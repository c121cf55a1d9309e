-- ===== src/Services/Notifier/Order.antt =====
-- The pending events are rows of the table, each once; the theorems on a whole cycle.
use megaraid_dashboard.Prelude.{
  ℕ, ◌+◌, ◌≡◌, refl, inl, inr, Bool, true, false, List, [], ◌∷◌, arith, str_eq_refl, keep, All,
  All-imp, All-keep, Bool-cases, length,
}
use megaraid_dashboard.Services.Notifier.{
  Event, NotifierSettings, start, comes_before, insert_in_order, in_order, is_pending,
  iter_pending_events, run_notifier_cycle,
}
use megaraid_dashboard.Services.Notifier.Delivery.{
  severity_eq_refl, notify_all-Tally, is_row, HasRow, IsNotified, AreDistinctIncidents, IsOther,
  AreDistinctRows, Sound,
}
use megaraid_dashboard.Services.Notifier.Once.{notify_all-Sound}

module _ {κ} (P : Event → Type κ) where
  All-insert : (e : Event) (es : List Event) → P e → All P es → All P (insert_in_order e es)
  unfolding insert_in_order
  All-insert e [] p h = (p, tt)
  All-insert e (f ∷ fs) p h = elim (Bool-cases (comes_before e f)) [
    | inl b ↦ rw b (p, h)
    | inr n ↦ rw n (h.0, All-insert e fs p h.1)
  ]

  All-in_order : (es : List Event) → All P es → All P (in_order es)
  unfolding in_order
  All-in_order [] h = tt
  All-in_order (e ∷ es) h = All-insert e (in_order es) h.0 (All-in_order es h.1)

IsOther-sym : (e x : Event) → IsOther e x → IsOther x e
IsOther-sym e x h = ground arith

insert-distinct :
    (e : Event) (es : List Event)
    → All (IsOther e) es
    → AreDistinctRows es
    → AreDistinctRows (insert_in_order e es)
unfolding insert_in_order
insert-distinct e [] o h = (tt, tt)
insert-distinct e (f ∷ fs) o h = elim (Bool-cases (comes_before e f)) [
  | inl b ↦ rw b (o, h)
  | inr n ↦
      rw n (All-insert (IsOther f) e fs (IsOther-sym e f o.0) h.0, insert-distinct e fs o.1 h.1)
]

in_order-distinct : (es : List Event) → AreDistinctRows es → AreDistinctRows (in_order es)
unfolding in_order
in_order-distinct [] h = h
in_order-distinct (e ∷ es) h =
    insert-distinct e (in_order es) (All-in_order (IsOther e) es h.0) (in_order-distinct es h.1)

pub keep-distinct :
    (p : Event → Bool) (es : List Event) → AreDistinctRows es → AreDistinctRows (keep p es)
keep-distinct p [] h = h
keep-distinct p (e ∷ es) h = elim (Bool-cases (p e)) [
  | inl t ↦ rw t (All-keep (IsOther e) p es h.0, keep-distinct p es h.1)
  | inr f ↦ rw f (keep-distinct p es h.1)
]

row_self : (e : Event) → is_row e e ≡ true
row_self e =
    ground (arith, severity_eq_refl e.severity, str_eq_refl e.category, str_eq_refl e.subject)

All-rows : (db : List Event) → All (HasRow db) db
All-rows [] = tt
All-rows (e ∷ db) = (
  rw (row_self e) refl,
  All-imp (HasRow db) (HasRow (e ∷ db)) (λ x h. ground arith) db (All-rows db),
)

module _ (c : NotifierSettings) (now : ℕ) (db : List Event) (distinct : AreDistinctRows db) where
  start-Sound : Sound now (iter_pending_events c now db) (start db)
  unfolding iter_pending_events
  start-Sound = record {
    notified = tt;
    once = tt;
    fresh = All-in_order _ (keep (is_pending c now) db) (none_sent (keep (is_pending c now) db));
    rows =
        All-in_order (HasRow db) (keep (is_pending c now) db)
          (All-keep (HasRow db) (is_pending c now) db (All-rows db));
    distinct =
        in_order-distinct (keep (is_pending c now) db)
          (keep-distinct (is_pending c now) db distinct);
  }
    where
      none_sent : (es : List Event) → All (λ e. All (IsOther e) []) es
      none_sent [] = tt
      none_sent (e ∷ es) = (tt, none_sent es)

-- In a table with distinct event numbers, whatever the transport answers and whether or not
-- maintenance is on, the transport accepts at most one message for each severity, category and
-- subject in a cycle.
pub outbox_once :
    (c : NotifierSettings) (send : Event → Bool) (now : ℕ) (maintenance healthy : Bool)
    (db : List Event)
    → AreDistinctRows db
    → AreDistinctIncidents (run_notifier_cycle c send now maintenance healthy db).cycle.outbox
unfolding run_notifier_cycle
outbox_once c send now true healthy db d = tt
outbox_once c send now false healthy db d =
    (notify_all-Sound c send now (iter_pending_events c now db) (start db)
      (start-Sound c now db d)).once

-- In a table with distinct event numbers, every event whose message was accepted in a cycle stands in
-- the cycle's table as notified at the time of the cycle; the messages are as many as the cycle
-- counts as sent, and the attempts are the sent, the deduplicated and the failed ones together.
pub outbox_recorded :
    (c : NotifierSettings) (send : Event → Bool) (now : ℕ) (maintenance healthy : Bool)
    (db : List Event)
    → AreDistinctRows db
    → let s = (run_notifier_cycle c send now maintenance healthy db).cycle in
      All (IsNotified now s.db) s.outbox
      × (length s.outbox ≡ s.sent)
      × (s.attempted ≡ s.sent + s.deduplicated + s.failed)
unfolding run_notifier_cycle
outbox_recorded c send now true healthy db d = (tt, refl, omega arith)
outbox_recorded c send now false healthy db d =
    let sound =
      notify_all-Sound c send now (iter_pending_events c now db) (start db)
        (start-Sound c now db d) in
    let (tally, boxed) =
      notify_all-Tally c send now (iter_pending_events c now db) (start db) (omega arith, refl) in
    (sound.notified, boxed, tally)
