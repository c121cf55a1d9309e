-- ===== src/Services/Telegram/Run/Once.antt =====
-- A message that was delivered is not sent again.
use megaraid_dashboard.Prelude.{
  ℕ, ◌+◌, ◌-◌, ◌*◌, ◌≡◌, refl, inl, inr, Bool, true, false, Option, none, some, List, [], ◌∷◌,
  arith, String, ltb, any_of, ◌==◌, All, All-imp, Bool-cases, Option-cases, subst, ◌&&◌, ◌||◌,
}
use megaraid_dashboard.Services.Events.{warning}
use megaraid_dashboard.Services.DiskMonitor.{severity_eq}
use megaraid_dashboard.Services.Notifier.{Event}
use megaraid_dashboard.Services.Telegram.Relevance.{
  second, Database, Settings, Relevance, active, obsolete, raised, waiting,
}
use megaraid_dashboard.Services.Telegram.Decision.{delivery_relevance}
use megaraid_dashboard.Services.Telegram.Cycle.{
  sent, EventDelivery, Deliveries, Reply, accepted, refused, Turn, Cycle, is_interrupted, defer,
  skip, claim, record_send_failure, retry_after_seconds, after_send, send, requeue, by_relevance,
  deliver, same_incident_sent_since, confirm_delay, warning_has_ended,
}
use megaraid_dashboard.Services.Telegram.Run.{
  is_candidate, wants_delivery, load_candidates, begin, deliver_all, run_telegram_cycle,
}
use megaraid_dashboard.Services.Telegram.Run.Totals.{candidates-All, sends_bounded}

abbrev pub in_outbox : ℕ → Cycle → Bool
in_outbox id s = any_of (λ (e : Event). e.id == id) s.outbox

-- The row with this number is as it was, and no message of its event was sent.
pub record Untouched (id : ℕ) (row : Option EventDelivery) (s : Cycle) : Type 0 where
  pub same_row : s.deliveries id ≡ row
  pub unposted : in_outbox id s ≡ false

abbrev pub IfReturned : (Cycle → Type 0) → Option Cycle → Type 0
IfReturned P none = Unit
IfReturned P (some s) = P s

module _ (id : ℕ) (row : Option EventDelivery) (e : Event) (other : (id == e.id) ≡ false) where
  defer-Untouched :
      (t : ℕ) (detail : String) (s : Cycle)
      → Untouched id row s
      → Untouched id row (defer e t detail s)
  unfolding defer
  defer-Untouched t detail s u = record { same_row = rw other u.same_row; unposted = u.unposted }

  skip-Untouched :
      (detail : String) (s : Cycle) → Untouched id row s → Untouched id row (skip e detail s)
  unfolding skip
  skip-Untouched detail s u = record { same_row = rw other u.same_row; unposted = u.unposted }

  requeue-Untouched : (s : Cycle) → Untouched id row s → Untouched id row (requeue e s)
  unfolding requeue
  requeue-Untouched s u = elim (Bool-cases (is_interrupted (s.deliveries e.id))) [
    | inl lost ↦ rw lost (record { same_row = rw other u.same_row; unposted = u.unposted })
    | inr settled ↦ rw settled u
  ]

  send-Untouched : (turn : Turn) (s : Cycle) → Untouched id row s → Untouched id row (send e turn s)
  unfolding send claim record_send_failure
  send-Untouched turn s u = by_reply turn.reply
    where
      posting : Cycle
      posting = record (claim e turn.now s) { sends_left = s.sends_left - 1; outbox = e ∷ s.outbox }

      added : in_outbox id posting ≡ false
      added = ground (arith, u.unposted, other)

      by_reply : (r : Reply) → Untouched id row (after_send e turn.now turn.failed_at r posting)
      by_reply accepted = record { same_row = rw other u.same_row; unposted = added }
      by_reply (refused reason raw) = by_delay (retry_after_seconds raw) refl
        where
          by_delay :
              (o : Option ℕ)
              → retry_after_seconds raw ≡ o
              → Untouched id row (after_send e turn.now turn.failed_at (refused reason raw) posting)
          by_delay none h = rw h (record { same_row = rw other u.same_row; unposted = added })
          by_delay (some n) h = rw h (record { same_row = rw other u.same_row; unposted = added })

  by_relevance-Untouched :
      (c : Settings) (db : Database) (turn : Turn) (r : Relevance) (s : Cycle)
      → Untouched id row s
      → IfReturned (Untouched id row) (by_relevance c db e turn r s)
  unfolding by_relevance
  by_relevance-Untouched c db turn raised s u = tt
  by_relevance-Untouched c db turn obsolete s u = skip-Untouched "obsolete" s u
  by_relevance-Untouched c db turn (waiting detail) s u =
      defer-Untouched (turn.now + 60 * second) detail s u
  by_relevance-Untouched c db turn active s u =
      elim (Bool-cases (same_incident_sent_since c db turn.now e s.deliveries)) [
        | inl again ↦ rw again (skip-Untouched "duplicate" s u)
        | inr first ↦ rw first (elim (Bool-cases (s.channel_blocked || s.sends_left == 0)) [
          | inl full ↦ rw full (defer-Untouched (turn.now + 60 * second) "channel_deferred" s u)
          | inr free ↦ rw free (send-Untouched turn s u)
        ])
      ]

  deliver-Untouched :
      (c : Settings) (db : Database) (turn : Turn) (s : Cycle)
      → Untouched id row s
      → IfReturned (Untouched id row) (deliver c db e turn s)
  unfolding deliver
  deliver-Untouched c db turn s u =
      let u1 = requeue-Untouched s u in
      elim (Bool-cases
        (severity_eq e.severity warning && ltb turn.now (e.occurred_at + confirm_delay c))) [
          | inl young ↦ rw young (defer-Untouched _ _ (requeue e s) u1)
          | inr old ↦
              rw old (elim (Bool-cases (severity_eq e.severity warning && warning_has_ended db e)) [
                | inl ended ↦ rw ended (skip-Untouched _ (requeue e s) u1)
                | inr stands ↦ rw stands (
                    by_relevance-Untouched c db turn (delivery_relevance c db turn.now e)
                      (requeue e s) u1)
              ])
        ]

abbrev IsOther : ℕ → Event → Type 0
IsOther id e = (id == e.id) ≡ false

deliver_all-Untouched :
    (id : ℕ) (row : Option EventDelivery) (c : Settings) (db : Database) (turn : Event → Turn)
    (es : List Event) (s : Cycle)
    → All (IsOther id) es
    → Untouched id row s
    → IfReturned (Untouched id row) (deliver_all c db turn es s)
unfolding deliver_all
deliver_all-Untouched id row c db turn [] s h u = u
deliver_all-Untouched id row c db turn (e ∷ es) s h u =
    let u' = deliver-Untouched id row e h.0 c db (turn e) s u in
    elim (Option-cases (deliver c db e (turn e) s)) [
      | inl failed ↦ rw (failed, deliver_all) tt
      | inr (s', eq) ↦
          rw (eq, deliver_all) (deliver_all-Untouched id row c db turn es s' h.1 (rw eq at u'))
    ]

begin-row :
    (now : ℕ) (m : Deliveries) (not_before : Option ℕ) (id : ℕ) (d : EventDelivery)
    → m id ≡ some d
    → d.status ≡ sent
    → (begin now m not_before).deliveries id ≡ some d
begin-row now m not_before id d h k = rw (h, k) refl

sent-IsOther :
    (now : ℕ) (m : Deliveries) (id : ℕ) (d : EventDelivery) (e : Event)
    → m id ≡ some d
    → d.status ≡ sent
    → is_candidate now m e ≡ true
    → IsOther id e
unfolding is_candidate
sent-IsOther now m id d e h k cand = elim (Bool-cases (id == e.id)) [
  | inl hit ↦
      let same : id ≡ e.id = ground arith in
      let here : m e.id ≡ some d = subst (λ j. m j ≡ some d) same h in
      let refused_row : wants_delivery now (m e.id) ≡ false = rw (here, k) refl in
      ground (arith, refused_row, cand)
  | inr miss ↦ miss
]

-- An event whose delivery row says that its message was sent is left alone by every later cycle: the
-- cycle returns, the row stays as it is, and no message of the event is sent.
pub sent_is_final :
    (c : Settings) (db : Database) (turn : Event → Turn) (now : ℕ) (m : Deliveries)
    (not_before : Option ℕ) (id : ℕ) (d : EventDelivery)
    → m id ≡ some d
    → d.status ≡ sent
    → (s : Cycle) × (run_telegram_cycle c db turn now m not_before ≡ some s)
      × (s.deliveries id ≡ some d)
      × (in_outbox id s ≡ false)
unfolding run_telegram_cycle
sent_is_final c db turn now m not_before id d h k =
    let (s, eq, few, posted, once) = sends_bounded c db turn now m not_before in
    let first = begin-row now m not_before id d h k in
    let u =
      deliver_all-Untouched id (some d) c db turn
        (load_candidates now db (begin now m not_before).deliveries) (begin now m not_before)
        (All-imp _ _ (λ e cand. sent-IsOther now _ id d e first k cand) _
          (candidates-All now db (begin now m not_before).deliveries))
        (record { same_row = first; unposted = refl }) in
    let last : Untouched id (some d) s = rw eq at u in (s, eq, last.same_row, last.unposted)
