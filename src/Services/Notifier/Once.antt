-- ===== src/Services/Notifier/Once.antt =====
-- One message for each incident, and a record of each delivery.
use megaraid_dashboard.Prelude.{
  ℕ, ◌+◌, ◌*◌, ◌≡◌, inl, inr, Bool, false, List, [], ◌∷◌, arith, ltb, All, All-imp, Bool-cases,
}
use megaraid_dashboard.Services.Notifier.{
  Event, NotifierSettings, minute, mark_event_notified, same_incident, event_was_notified_recently,
  suppress_window_minutes, Cycle, notify_event, notify_all,
}
use megaraid_dashboard.Services.Notifier.Delivery.{
  HasRow, IsNotified, mark-IsNotified, mark-HasRow, mark_self, recent_of_sent, IsOther, Sound,
}

module _ (c : NotifierSettings) (send : Event → Bool) (now : ℕ) where
  new_incident :
      (e : Event) (s : Cycle) (window : ℕ) (box : List Event)
      → event_was_notified_recently now window e s.db ≡ false
      → All (IsNotified now s.db) box
      → All (IsOther e) box
      → All (λ x. same_incident x e ≡ false) box
  new_incident e s window [] r n o = tt
  new_incident e s window (x ∷ box) r n o = (
    elim (Bool-cases (same_incident x e)) [
      | inl same ↦ cc (r, recent_of_sent now window x e s.db n.0 same o.0)
      | inr different ↦ different
    ],
    new_incident e s window box r n.1 o.1,
  )

  remaining :
      (e : Event) (es box : List Event)
      → All (IsOther e) es
      → All (λ x. All (IsOther x) box) es
      → All (λ x. All (IsOther x) (e ∷ box)) es
  remaining e [] box o f = tt
  remaining e (x ∷ es) box o f = ((flip e x o.0, f.0), remaining e es box o.1 f.1)
    where
      flip : (e x : Event) → IsOther e x → IsOther x e
      flip e x h = ground arith

  notify_event-Sound :
      (e : Event) (es : List Event) (s : Cycle)
      → Sound now (e ∷ es) s
      → Sound now es (notify_event c send now e s)
  unfolding notify_event
  notify_event-Sound e es s h =
      let window = suppress_window_minutes c e * minute in
      let rows' =
        All-imp (HasRow s.db) (HasRow (mark_event_notified e.id now s.db))
          (λ x. mark-HasRow e.id now x s.db) es h.rows.1 in
      let notified' =
        All-imp (IsNotified now s.db) (IsNotified now (mark_event_notified e.id now s.db))
          (λ x. mark-IsNotified e.id now x s.db) s.outbox h.notified in
      elim (Bool-cases (ltb (e.occurred_at + window) now)) [
        | inl old ↦ rw old (record {
          notified = h.notified;
          once = h.once;
          fresh = h.fresh.1;
          rows = h.rows.1;
          distinct = h.distinct.1;
        })
        | inr young ↦ rw young (elim (Bool-cases (event_was_notified_recently now window e s.db)) [
          | inl recent ↦ rw recent (record {
            notified = notified';
            once = h.once;
            fresh = h.fresh.1;
            rows = rows';
            distinct = h.distinct.1;
          })
          | inr first ↦ rw first (elim (Bool-cases (send e)) [
            | inl accepted ↦ rw accepted (record {
              notified = (mark_self now e s.db h.rows.0, notified');
              once = (new_incident e s window s.outbox first h.notified h.fresh.0, h.once);
              fresh = remaining e es s.outbox h.distinct.0 h.fresh.1;
              rows = rows';
              distinct = h.distinct.1;
            })
            | inr refused ↦ rw refused (record {
              notified = h.notified;
              once = h.once;
              fresh = h.fresh.1;
              rows = h.rows.1;
              distinct = h.distinct.1;
            })
          ])
        ])
      ]

  pub notify_all-Sound :
      (es : List Event) (s : Cycle) → Sound now es s → Sound now [] (notify_all c send now es s)
  unfolding notify_all
  notify_all-Sound [] s h = h
  notify_all-Sound (e ∷ es) s h =
      notify_all-Sound es (notify_event c send now e s) (notify_event-Sound e es s h)
