-- ===== src/Services/Telegram/Decision/Known.antt =====
-- The relevance of an alert is always decided.
use megaraid_dashboard.Prelude.{
  ℕ, ◌+◌, ◌≡◌, refl, inl, inr, String, Bool, true, false, Option, none, some, lookup_text, List, [],
  ◌∷◌, not, ◌&&◌, ltb, any_of, arith, str_eq, str_mem, Bool-cases, if◌then◌else◌,
}
use megaraid_dashboard.Prelude.Int.{ℤ}
use megaraid_dashboard.Storcli.Models.{
  ControllerSnapshot, VirtualDrive, SlotKey, PhysicalDrive, drive_key,
}
use megaraid_dashboard.Services.Events.{Severity, Json, Fields}
use megaraid_dashboard.Services.Notifier.{Event}
use megaraid_dashboard.Services.Telegram.Messages.{or_empty}
use megaraid_dashboard.Services.Telegram.Relevance.{
  Captured, Database, Settings, Relevance, obsolete, raised, active_if, temperature_relevance,
}
use megaraid_dashboard.Services.Telegram.Decision.{
  vd_state_relevance, vd_relevance, cv_relevance, counter_of, counter_relevance,
  same_drive_relevance, slot_relevance, drive_relevance, current_relevance, hardware_relevance,
  delivery_relevance, other_grade, is_present, recovered_since, collection_failed, freshness,
  lost_relevance,
}
use megaraid_dashboard.Services.Telegram.Recovery.{latest_snapshot, drive_in, drive_serial_at}
use megaraid_dashboard.Services.Telegram.Superseded.{incident_superseded}

abbrev pub is_raised : Relevance → Bool
is_raised raised = true
is_raised _ = false

-- The categories that delivery knows.
abbrev pub known_categories : List String
known_categories =
    "vd_state" ∷ "pd_state" ∷ "media_errors" ∷ "predictive_failures" ∷ "smart_alert" ∷ "cv_state"
    ∷ "temperature" ∷ "controller_temperature" ∷ "system" ∷ []

active_if-known : (b : Bool) → is_raised (active_if b) ≡ false
active_if-known true = refl
active_if-known false = refl

temperature-known :
    (t : Option ℤ) (s : Severity) (w k h : ℤ) (b : Bool)
    → is_raised (temperature_relevance t s w k h b) ≡ false
unfolding temperature_relevance
temperature-known none s w k h b = refl
temperature-known (some t) s w k h b = active_if-known _

vd-known :
    (after : Fields) (state : Option Json) (d : Option VirtualDrive)
    → is_raised (vd_state_relevance after state d) ≡ false
vd-known after none d = refl
vd-known after (some Json.null) d = refl
vd-known after (some (Json.bool b)) d = refl
vd-known after (some (Json.num n)) d = refl
vd-known after (some (Json.text s)) none = active_if-known _
vd-known after (some (Json.text s)) (some d) = active_if-known _

vd_relevance-known : (s : ControllerSnapshot) (e : Event) → is_raised (vd_relevance s e) ≡ false
unfolding vd_relevance
vd_relevance-known s e =
    vd-known (or_empty e.after_json) (lookup_text "state" (or_empty e.after_json)) _

cv-known : (s : ControllerSnapshot) (e : Event) → is_raised (cv_relevance s e) ≡ false
unfolding cv_relevance
cv-known s e = elim (Bool-cases (not (is_present s.cachevault) && s.cv_present)) [
  | inl unknown ↦ rw unknown refl
  | inr shown ↦ rw shown (active_if-known _)
]

counter-known : (value : Option ℤ) (n : ℕ) → is_raised (counter_relevance value (some n)) ≡ false
counter-known none n = refl
counter-known (some v) n = active_if-known _

counter_of-known :
    (category : String) (d : PhysicalDrive)
    → str_mem category ("media_errors" ∷ "predictive_failures" ∷ []) ≡ true
    → (n : ℕ) × (counter_of category d ≡ some n)
counter_of-known category d h = elim (Bool-cases (str_eq category "media_errors")) [
  | inl media ↦ (d.media_errors, rw media refl)
  | inr other ↦
      let predicted : str_eq category "predictive_failures" ≡ true = ground arith in
      elim (Bool-cases (str_eq category "other_errors")) [
        | inl odd ↦ (d.other_errors, rw (other, odd) refl)
        | inr rest ↦ (d.predictive_failures, rw (other, rest, predicted) refl)
      ]
]

-- The categories of drives.
abbrev drive_categories : List String
drive_categories =
    "pd_state" ∷ "smart_alert" ∷ "temperature" ∷ "media_errors" ∷ "predictive_failures" ∷ []

same_drive-known :
    (c : Settings) (db : Database) (e : Event) (d : PhysicalDrive)
    → str_mem e.category drive_categories ≡ true
    → is_raised (same_drive_relevance c db e d) ≡ false
unfolding same_drive_relevance
same_drive-known c db e d h = elim (Bool-cases (str_eq e.category "temperature")) [
  | inl hot ↦ rw hot (elim (Bool-cases (other_grade (db.temperature_states (drive_key d)) e)) [
    | inl moved ↦ rw moved refl
    | inr same ↦ rw same (temperature-known _ _ _ _ _ _)
  ])
  | inr cool ↦ rw cool (elim (Bool-cases (str_eq e.category "pd_state")) [
    | inl state ↦ rw state (active_if-known _)
    | inr stateless ↦ rw stateless (elim (Bool-cases (str_eq e.category "smart_alert")) [
      | inl smart ↦ rw smart (active_if-known _)
      | inr plain ↦
          let (n, counted) = counter_of-known e.category d (rw (stateless, plain, cool) at h) in
          rw (plain, counted) (counter-known _ n)
    ])
  ])
]

drive-known :
    (c : Settings) (db : Database) (s : ControllerSnapshot) (e : Event) (slot : Option SlotKey)
    → str_mem e.category drive_categories ≡ true
    → is_raised (drive_relevance c db s e slot) ≡ false
drive-known c db s e none h = refl
drive-known c db s e (some slot) h =
    in_slot (drive_in slot s.physical_drives) (drive_serial_at db e)
  where
    lost :
        (test : Bool) (serial : Option String)
        → is_raised (if test then lost_relevance serial else obsolete) ≡ false
    lost true none = refl
    lost true (some x) = refl
    lost false serial = refl

    in_slot :
        (o : Option PhysicalDrive) (serial : Option String)
        → is_raised (slot_relevance c db e o serial) ≡ false
    in_slot none serial = lost _ serial
    in_slot (some d) none = refl
    in_slot (some d) (some x) = elim (Bool-cases (str_eq d.serial_number "")) [
      | inl blank ↦ rw blank refl
      | inr full ↦ rw full (elim (Bool-cases (str_eq d.serial_number x)) [
        | inl same ↦ rw same (same_drive-known c db e d h)
        | inr other ↦ rw other refl
      ])
    ]

current-known :
    (c : Settings) (db : Database) (s : ControllerSnapshot) (e : Event)
    → str_mem e.category known_categories ≡ true
    → str_eq e.category "system" ≡ false
    → is_raised (current_relevance c db s e) ≡ false
unfolding current_relevance
current-known c db s e h hw = elim (Bool-cases (str_eq e.category "controller_temperature")) [
  | inl roc ↦ rw roc (temperature-known _ _ _ _ _ _)
  | inr cool ↦ rw cool (elim (Bool-cases (str_eq e.category "vd_state")) [
    | inl vd ↦ rw vd (vd_relevance-known s e)
    | inr no_vd ↦ rw no_vd (elim (Bool-cases (str_eq e.category "cv_state")) [
      | inl cv ↦ rw cv (cv-known s e)
      | inr no_cv ↦ rw no_cv (drive-known c db s e _ (ground arith))
    ])
  ])
]

hardware-known :
    (c : Settings) (db : Database) (now : ℕ) (e : Event) (o : Option Captured)
    → str_mem e.category known_categories ≡ true
    → str_eq e.category "system" ≡ false
    → is_raised (hardware_relevance c db now e o) ≡ false
hardware-known c db now e none h hw = refl
hardware-known c db now e (some s) h hw =
    elim (Bool-cases (ltb (s.captured_at + freshness c) now)) [
      | inl old ↦ rw old refl
      | inr young ↦
          rw young (elim (Bool-cases (any_of (collection_failed s.captured_at now) db.events)) [
            | inl failed ↦ rw failed refl
            | inr polled ↦
                rw polled (elim (Bool-cases (incident_superseded c.thresholds db now none e)) [
                  | inl over ↦ rw over refl
                  | inr stands ↦ rw stands (current-known c db s.row e h hw)
                ])
          ])
    ]

-- The relevance of an event in a known category is decided: no attribute is missing.
pub delivery_relevance-known :
    (c : Settings) (db : Database) (now : ℕ) (e : Event)
    → str_mem e.category known_categories ≡ true
    → is_raised (delivery_relevance c db now e) ≡ false
unfolding delivery_relevance
delivery_relevance-known c db now e h = elim (Bool-cases (str_eq e.category "system")) [
  | inl outage ↦
      rw outage (elim (Bool-cases (recovered_since e (latest_snapshot now db.snapshots))) [
        | inl back ↦ rw back refl
        | inr gone ↦ rw gone refl
      ])
  | inr hw ↦ rw hw (hardware-known c db now e _ h hw)
]
