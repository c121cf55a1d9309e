-- ===== src/Services/Telegram/Run/Progress.antt =====
-- What one candidate does to the counters and to the rows.
use megaraid_dashboard.Prelude.{
  ℕ, ◌+◌, ◌-◌, ◌*◌, ◌≤◌, ◌≡◌, refl, inl, inr, Bool, true, false, Option, none, some, List, ◌∷◌,
  arith, length, ltb, ◌==◌, All, All-imp, Bool-cases, str_mem, ◌&&◌, ◌||◌, if◌then◌else◌, String,
}
use megaraid_dashboard.Services.Events.{Severity, info, warning, critical}
use megaraid_dashboard.Services.Notifier.{Event}
use megaraid_dashboard.Services.DiskMonitor.{severity_eq}
use megaraid_dashboard.Services.Telegram.Relevance.{
  second, Database, Settings, Relevance, active, obsolete, raised, waiting,
}
use megaraid_dashboard.Services.Telegram.Decision.{delivery_relevance}
use megaraid_dashboard.Services.Telegram.Decision.Known.{
  is_raised, known_categories, delivery_relevance-known,
}
use megaraid_dashboard.Services.Telegram.Cycle.{
  Status, sending, retry, sent, failed, skipped, EventDelivery, Deliveries, write, Reply, accepted,
  refused, Turn, Cycle, set_status, defer, skip, claim, record_send_failure, is_interrupted,
  retry_after_seconds, after_send, send, requeue, by_relevance, deliver, alert_of,
  is_telegram_alert, same_incident_sent_since, confirm_delay, warning_has_ended,
}

abbrev is_some : Option ℕ → Bool
is_some none = false
is_some (some _) = true

abbrev is_final : Status → Option ℕ → Bool
is_final sent next = true
is_final skipped next = true
is_final retry next = is_some next
is_final sending next = false
is_final failed next = false

-- The row says what is next: sent, skipped, or a retry at a time that is set.
abbrev pub is_decided : Option EventDelivery → Bool
is_decided none = false
is_decided (some d) = is_final d.status d.next_attempt_at

abbrev blocked_count : Bool → ℕ
blocked_count b = if b then 1 else 0

-- The loop's variables and rows after the candidates `done`.
pub record Progress (budget : ℕ) (done : List Event) (s : Cycle) : Type 0 where
  pub tally : s.sent + s.failed + s.skipped + s.deferred ≡ length done
  pub posted : length s.outbox ≡ s.sent + s.failed
  pub within_budget : length s.outbox + s.sends_left ≡ budget
  pub one_failure : s.failed ≤ blocked_count s.channel_blocked
  pub decided : All (λ (e : Event). is_decided (s.deliveries e.id) ≡ true) done

write-decided :
    (m : Deliveries) (id : ℕ) (d : EventDelivery) (done : List Event)
    → is_decided (some d) ≡ true
    → All (λ (e : Event). is_decided (m e.id) ≡ true) done
    → All (λ (e : Event). is_decided (write m id d e.id) ≡ true) done
write-decided m id d done h =
    All-imp _ _
      (λ e k. elim (Bool-cases (e.id == id)) [ inl hit ↦ rw hit h | inr miss ↦ rw miss k ]) done

write-here :
    (m : Deliveries) (id : ℕ) (d : EventDelivery)
    → is_decided (some d) ≡ true
    → is_decided (write m id d id) ≡ true
write-here m id d h = let same : (id == id) ≡ true = ground arith in rw same h

module _ (budget : ℕ) (done : List Event) (e : Event) where
  defer-Progress :
      (t : ℕ) (detail : String) (s : Cycle)
      → Progress budget done s
      → Progress budget (e ∷ done) (defer e t detail s)
  unfolding defer set_status
  defer-Progress t detail s p = record {
    tally = omega (arith, p.tally);
    posted = p.posted;
    within_budget = p.within_budget;
    one_failure = p.one_failure;
    decided = (
      write-here s.deliveries e.id _ refl,
      write-decided s.deliveries e.id _ done refl p.decided,
    );
  }

  skip-Progress :
      (detail : String) (s : Cycle)
      → Progress budget done s
      → Progress budget (e ∷ done) (skip e detail s)
  unfolding skip set_status
  skip-Progress detail s p = record {
    tally = omega (arith, p.tally);
    posted = p.posted;
    within_budget = p.within_budget;
    one_failure = p.one_failure;
    decided = (
      write-here s.deliveries e.id _ refl,
      write-decided s.deliveries e.id _ done refl p.decided,
    );
  }

  rewritten-decided :
      (m : Deliveries) (d d' : EventDelivery)
      → is_decided (some d') ≡ true
      → All (λ (f : Event). is_decided (m f.id) ≡ true) done
      → All (λ (f : Event). is_decided (write (write m e.id d) e.id d' f.id) ≡ true) (e ∷ done)
  rewritten-decided m d d' h k = (
    write-here (write m e.id d) e.id d' h,
    All-imp _ _
        (λ f r. elim (Bool-cases (f.id == e.id)) [ inl hit ↦ rw hit h | inr miss ↦ rw miss r ]) done
        k,
  )

  send-Progress :
      (turn : Turn) (s : Cycle)
      → (s.sends_left == 0) ≡ false
      → s.channel_blocked ≡ false
      → Progress budget done s
      → Progress budget (e ∷ done) (send e turn s)
  unfolding send claim set_status record_send_failure
  send-Progress turn s left free p = by_reply turn.reply
    where
      claimed : Cycle
      claimed = claim e turn.now s

      posting : Cycle
      posting = record claimed { sends_left = s.sends_left - 1; outbox = e ∷ s.outbox }

      quiet : s.failed ≡ 0
      quiet = ground (arith, p.one_failure, free)

      by_reply :
          (r : Reply) → Progress budget (e ∷ done) (after_send e turn.now turn.failed_at r posting)
      by_reply accepted = record {
        tally = omega (arith, p.tally);
        posted = omega (arith, p.posted);
        within_budget = ground (arith, p.within_budget);
        one_failure = p.one_failure;
        decided = rewritten-decided s.deliveries _ _ refl p.decided;
      }
      by_reply (refused reason raw) = by_delay (retry_after_seconds raw) refl
        where
          by_delay :
              (o : Option ℕ)
              → retry_after_seconds raw ≡ o
              → Progress budget
                  (e ∷ done)
                  (after_send e turn.now turn.failed_at (refused reason raw) posting)
          by_delay none h = rw h (record {
            tally = omega (arith, p.tally);
            posted = omega (arith, p.posted);
            within_budget = ground (arith, p.within_budget);
            one_failure = omega (arith, quiet);
            decided = rewritten-decided s.deliveries _ _ refl p.decided;
          })
          by_delay (some n) h = rw h (record {
            tally = omega (arith, p.tally);
            posted = omega (arith, p.posted);
            within_budget = ground (arith, p.within_budget);
            one_failure = omega (arith, quiet);
            decided = rewritten-decided s.deliveries _ _ refl p.decided;
          })

  requeue-Progress : (s : Cycle) → Progress budget done s → Progress budget done (requeue e s)
  unfolding requeue set_status
  requeue-Progress s p = elim (Bool-cases (is_interrupted (s.deliveries e.id))) [
    | inl lost ↦ rw lost (record {
      tally = p.tally;
      posted = p.posted;
      within_budget = p.within_budget;
      one_failure = p.one_failure;
      decided =
          All-imp _ _
            (λ f k. elim (Bool-cases (f.id == e.id)) [
              | inl hit ↦
                  let same : f.id ≡ e.id = ground arith in
                  cc (undecided (s.deliveries e.id) lost, rw same at k)
              | inr miss ↦ rw miss k
            ])
            done p.decided;
    })
    | inr settled ↦ rw settled p
  ]
    where
      undecided : (o : Option EventDelivery) → is_interrupted o ≡ true → is_decided o ≡ false
      undecided none h = refl
      undecided (some d) h = by_status d.status h
        where
          by_status :
              (t : Status)
              → is_interrupted (some (record d { status = t })) ≡ true
              → is_decided (some (record d { status = t })) ≡ false
          by_status sending h = refl
          by_status failed h = refl
          by_status retry h = cc
          by_status sent h = cc
          by_status skipped h = cc

-- The result of a candidate, with what it keeps.
abbrev pub Delivered : ℕ → List Event → Option Cycle → Type 0
Delivered budget done o = (s : Cycle) × (o ≡ some s) × Progress budget done s

is_alert-known :
    (e : Event) → is_telegram_alert e ≡ true → str_mem e.category known_categories ≡ true
unfolding is_telegram_alert
is_alert-known e h = by_severity e.severity h
  where
    by_severity : (s : Severity) → alert_of s e ≡ true → str_mem e.category known_categories ≡ true
    by_severity critical h = ground arith
    by_severity warning h = ground arith
    by_severity info h = cc

module _ (c : Settings) (db : Database) (budget : ℕ) (done : List Event) (e : Event)
    (turn : Turn) where
  by_relevance-Progress :
      (r : Relevance) (s : Cycle)
      → is_raised r ≡ false
      → Progress budget done s
      → Delivered budget (e ∷ done) (by_relevance c db e turn r s)
  unfolding by_relevance
  by_relevance-Progress raised s h p = cc
  by_relevance-Progress obsolete s h p = (_, refl, skip-Progress budget done e "obsolete" s p)
  by_relevance-Progress (waiting detail) s h p =
      (_, refl, defer-Progress budget done e (turn.now + 60 * second) detail s p)
  by_relevance-Progress active s h p =
      elim (Bool-cases (same_incident_sent_since c db turn.now e s.deliveries)) [
        | inl again ↦ rw again (_, refl, skip-Progress budget done e "duplicate" s p)
        | inr first ↦ rw first (elim (Bool-cases (s.channel_blocked || s.sends_left == 0)) [
          | inl full ↦ rw full (
            _,
            refl,
            defer-Progress budget done e (turn.now + 60 * second) "channel_deferred" s p,
          )
          | inr open_channel ↦
              rw open_channel
                (_, refl, send-Progress budget done e turn s (ground arith) (ground arith) p)
        ])
      ]

  pub deliver-Progress :
      (s : Cycle)
      → is_telegram_alert e ≡ true
      → Progress budget done s
      → Delivered budget (e ∷ done) (deliver c db e turn s)
  unfolding deliver
  deliver-Progress s alert p =
      let p1 = requeue-Progress budget done e s p in
      elim (Bool-cases
        (severity_eq e.severity warning && ltb turn.now (e.occurred_at + confirm_delay c))) [
          | inl young ↦ rw young (_, refl, defer-Progress budget done e _ _ (requeue e s) p1)
          | inr old ↦
              rw old (elim (Bool-cases (severity_eq e.severity warning && warning_has_ended db e)) [
                | inl ended ↦ rw ended (_, refl, skip-Progress budget done e _ (requeue e s) p1)
                | inr stands ↦ rw stands (
                    by_relevance-Progress (delivery_relevance c db turn.now e) (requeue e s)
                      (delivery_relevance-known c db turn.now e (is_alert-known e alert)) p1)
              ])
        ]
