-- ===== src/Services/Telegram/Decision/Fresh.antt =====
-- While the monitoring is blind, no alert about the hardware is active; of
-- src/megaraid_dashboard/services/telegram_relevance.py.
use mathlib.Core.Option.{some-injective}
use Prim.Native.String.{◌++◌ as cat}
use megaraid_dashboard.Prelude.{
  ℕ, ◌+◌, ◌*◌, ◌≤◌, ◌<◌, max, ◌≡◌, ◌⊎◌, refl, inl, inr, String, Bool, true, false, Option, none,
  some, List, [], ◌∷◌, ◌++◌, All, arith, leb, ltb, str_eq, str_eq_iff, subst, sym, any_of,
  any_of-append_right, Bool-cases, Option-cases, if◌then◌else◌,
}
use megaraid_dashboard.Prelude.Text.{casefold}
use megaraid_dashboard.Prelude.Scan.Decimal.{drop_text-append}
use megaraid_dashboard.Prelude.Words.{begins}
use megaraid_dashboard.Prelude.Words.Laws.{casefold-append}
use megaraid_dashboard.Services.Notifier.{Event}
use megaraid_dashboard.Services.Telegram.Relevance.{Captured, Database, Settings, waiting}
use megaraid_dashboard.Services.Telegram.Recovery.{latest_of, latest_snapshot}
use megaraid_dashboard.Services.Telegram.Decision.{
  freshness, collection_failed, hardware_relevance, delivery_relevance,
}

-- A failed collection that stands in the table, between two times.
pub record HasFailure (since now : ℕ) (events : List Event) : Type 0 where
  pub before : List Event
  pub failure : Event
  pub after : List Event
  pub recorded : events ≡ before ++ failure ∷ after
  pub system : failure.category ≡ "system"
  pub reason : String
  pub text : failure.summary ≡ cat "Collection failed:" reason
  pub late : since ≤ failure.occurred_at
  pub past : failure.occurred_at ≤ now

-- A snapshot of the past is older than two intervals, or than a minute where that is more, or a
-- collection failed since it was taken.
abbrev pub IsBlind : Settings → Database → ℕ → Captured → Type 0
IsBlind c db now s =
    s.captured_at ≤ now
    → (s.captured_at + max 60 (2 * c.metrics_interval_seconds) * 1_000_000 < now)
      ⊎ HasFailure s.captured_at now db.events

one_of-P : (P : Captured → Type 0) (b : Bool) (s t : Captured) → P s → P t → P (if b then s else t)
one_of-P P true s t h k = h
one_of-P P false s t h k = k

latest_of-P :
    (P : Captured → Type 0) (s : Captured) (o : Option Captured)
    → P s
    → ((t : Captured) → o ≡ some t → P t)
    → P (latest_of s o)
latest_of-P P s none h k = h
latest_of-P P s (some t) h k = one_of-P P _ t s (k t refl) h

latest_snapshot-past :
    (P : Captured → Type 0) (now : ℕ) (ss : List Captured)
    → All (λ s. s.captured_at ≤ now → P s) ss
    → (t : Captured) → latest_snapshot now ss ≡ some t
    → P t
unfolding latest_snapshot
latest_snapshot-past P now [] h t e = cc
latest_snapshot-past P now (s ∷ ss) h t e = elim (Bool-cases (leb s.captured_at now)) [
  | inr later ↦ latest_snapshot-past P now ss h.1 t (rw later at e)
  | inl taken ↦
      let same : latest_of s (latest_snapshot now ss) ≡ t = some-injective _ _ (rw taken at e) in
      subst P same (
        latest_of-P P s (latest_snapshot now ss) (h.0 (ground arith))
          (latest_snapshot-past P now ss h.1))
]

prefix_found :
    (reason : String)
    → begins "collection failed:" (casefold (cat "Collection failed:" reason)) ≡ true
unfolding casefold
prefix_found reason =
    rw (casefold-append "Collection failed:" reason)
      (rw (drop_text-append "collection failed:" (casefold reason)) refl)

failure_found :
    (since now : ℕ) (events : List Event)
    → HasFailure since now events
    → any_of (collection_failed since now) events ≡ true
failure_found since now events f =
    let system = (str_eq_iff f.failure.category "system").1 f.system in
    let text =
      subst (λ summary. begins "collection failed:" (casefold summary) ≡ true) (sym f.text)
        (prefix_found f.reason) in
    let late = f.late in
    let past = f.past in
    let is_failure : collection_failed since now f.failure ≡ true =
      rw (system, text) (ground arith) in
    rw f.recorded (
      any_of-append_right (collection_failed since now) f.before (f.failure ∷ f.after)
        (rw is_failure refl))

blind_waits :
    (c : Settings) (db : Database) (now : ℕ) (e : Event) (s : Captured)
    → (s.captured_at + max 60 (2 * c.metrics_interval_seconds) * 1_000_000 < now)
      ⊎ HasFailure s.captured_at now db.events
    → hardware_relevance c db now e (some s) ≡ waiting "awaiting_fresh_data"
blind_waits c db now e s blind = elim (Bool-cases (ltb (s.captured_at + freshness c) now)) [
  | inl old ↦ rw old refl
  | inr young ↦ elim blind [
    | inl old ↦ absurd (ground arith)
    | inr failed ↦ rw (young, failure_found s.captured_at now db.events failed) refl
  ]
]

-- If every snapshot taken by now is older than two collection intervals, or a minute where that is
-- more, or has a recorded collection failure since, then an alert about the hardware is not active and
-- not obsolete: it waits for fresh data.
pub delivery_relevance_blind :
    (c : Settings) (db : Database) (now : ℕ) (e : Event)
    → str_eq e.category "system" ≡ false
    → All (IsBlind c db now) db.snapshots
    → delivery_relevance c db now e ≡ waiting "awaiting_fresh_data"
unfolding delivery_relevance
delivery_relevance_blind c db now e hardware blind =
    elim (Option-cases (latest_snapshot now db.snapshots)) [
      | inl none_ ↦ rw (hardware, none_) refl
      | inr (s, latest) ↦
          rw (hardware, latest)
            (blind_waits c db now e s (
              latest_snapshot-past
                (λ s.
                  (s.captured_at + max 60 (2 * c.metrics_interval_seconds) * 1_000_000 < now)
                  ⊎ HasFailure s.captured_at now db.events)
                now db.snapshots blind s latest))
    ]
