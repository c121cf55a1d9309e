-- ===== src/Services/EventDetector/PhysicalDrives/Failures.antt =====
-- A drive that the controller reports as failed is reported when it fails, appears or is replaced.
use mathlib.Core.List.{Memᴰ}
use megaraid_dashboard.Prelude.{
  ◌≡◌, refl, sym, subst, ◌⊎◌, ◌↔◌, inl, inr, Bool, true, false, ◌&&◌, Option, none, some, List, [],
  ◌∷◌, ◌++◌, arith, str_eq, str_eq_refl, any_of, any_of-append_left, any_of-append_right, All,
}
use megaraid_dashboard.Prelude.Dict.{get}
use megaraid_dashboard.Prelude.Dict.Laws.{get-put_all_sound}
use megaraid_dashboard.Storcli.States.{normalized_state}
use megaraid_dashboard.Storcli.Models.{PhysicalDrive, SlotKey, slot_key, slot_eq}
use megaraid_dashboard.Services.Events.{
  Severity, info, warning, critical, DetectedEvent, physical_drive_state_severity,
}
use megaraid_dashboard.Services.EventDetector.Temperature.{physical_drive_subject}
use megaraid_dashboard.Services.EventDetector.PhysicalDrives.{
  physical_drive_state_event, new_physical_drive_events, new_state_event, by_slot, absences,
  replaced_slot, replacements, detect_drive_replacements, drive_changes, detect_physical_drives_in,
  detect_physical_drives,
}

pub slot_eq_iff : (a b : SlotKey) → (slot_eq a b ≡ true) ↔ (a ≡ b)
slot_eq_iff a b = ground arith

abbrev is_critical : Severity → Bool
is_critical critical = true
is_critical warning = false
is_critical info = false

-- A critical state event about this drive's slot.
abbrev pub reports_failure : PhysicalDrive → DetectedEvent → Bool
reports_failure d e =
    is_critical e.severity
    && str_eq e.category "pd_state"
    && str_eq e.subject (physical_drive_subject d)

-- The drive in the slot before had another serial number or another state.
abbrev pub Differs : PhysicalDrive → PhysicalDrive → Type 0
Differs d p =
    (str_eq p.serial_number d.serial_number ≡ false)
    ⊎ (str_eq (normalized_state p.state) (normalized_state d.state) ≡ false)

-- The slot was marked as replaced or the state changed.
abbrev Noticed : Bool → PhysicalDrive → Option PhysicalDrive → Type 0
Noticed replaced d none = Unit
Noticed replaced d (some p) =
    (replaced ≡ true) ⊎ (str_eq (normalized_state p.state) (normalized_state d.state) ≡ false)

new_reports :
    (d : PhysicalDrive)
    → physical_drive_state_severity d.state ≡ critical
    → any_of (reports_failure d) (new_physical_drive_events d) ≡ true
unfolding new_physical_drive_events new_state_event
new_reports d h = rw h (ground (arith, str_eq_refl (physical_drive_subject d)))

changes_report :
    (replaced : Bool) (d : PhysicalDrive) (o : Option PhysicalDrive)
    → physical_drive_state_severity d.state ≡ critical
    → Noticed replaced d o
    → any_of (reports_failure d) (drive_changes replaced d o) ≡ true
unfolding drive_changes physical_drive_state_event
changes_report replaced d none h n = new_reports d h
changes_report true d (some p) h n =
    ground (arith, new_reports d h, str_eq_refl (physical_drive_subject d))
changes_report false d (some p) h n = ground (arith, str_eq_refl (physical_drive_subject d))

replaced_marks :
    (d : PhysicalDrive) (p : PhysicalDrive)
    → str_eq p.serial_number d.serial_number ≡ false
    → any_of (slot_eq (slot_key d)) (replaced_slot d (some p)).1 ≡ true
unfolding replaced_slot
replaced_marks d p h = rw h (ground (arith, slot_eq_iff (slot_key d) (slot_key d)))

replacements-mark :
    (prev : List (SlotKey × PhysicalDrive)) (ds : List PhysicalDrive) (d p : PhysicalDrive)
    → Memᴰ d ds
    → get slot_eq (slot_key d) prev ≡ some p
    → str_eq p.serial_number d.serial_number ≡ false
    → any_of (slot_eq (slot_key d)) (replacements prev ds).1 ≡ true
unfolding replacements
replacements-mark prev [] d p m g h = elim m [ ]
replacements-mark prev (x ∷ ds) d p (Memᴰ.head e) g h =
    any_of-append_left (slot_eq (slot_key d)) (replaced_slot x (get slot_eq (slot_key x) prev)).1 _
      (rw (sym e) (rw g (replaced_marks d p h)))
replacements-mark prev (x ∷ ds) d p (Memᴰ.tail m) g h =
    any_of-append_right (slot_eq (slot_key d)) (replaced_slot x (get slot_eq (slot_key x) prev)).1 _
      (replacements-mark prev ds d p m g h)

abbrev changes_of :
    List (SlotKey × PhysicalDrive) → List SlotKey → PhysicalDrive → List DetectedEvent
changes_of prev slots d =
    drive_changes (any_of (slot_eq (slot_key d)) slots) d (get slot_eq (slot_key d) prev)

changes_in_report :
    (prev : List (SlotKey × PhysicalDrive)) (slots : List SlotKey) (ds : List PhysicalDrive)
    (d : PhysicalDrive)
    → Memᴰ d ds
    → any_of (reports_failure d) (changes_of prev slots d) ≡ true
    → any_of (reports_failure d) (detect_physical_drives_in prev slots ds) ≡ true
unfolding detect_physical_drives_in
changes_in_report prev slots [] d m h = elim m [ ]
changes_in_report prev slots (x ∷ ds) d (Memᴰ.head e) h =
    any_of-append_left (reports_failure d) (changes_of prev slots x)
      (detect_physical_drives_in prev slots ds)
      (subst (λ y. any_of (reports_failure d) (changes_of prev slots y) ≡ true) e h)
changes_in_report prev slots (x ∷ ds) d (Memᴰ.tail m) h =
    any_of-append_right (reports_failure d) (changes_of prev slots x)
      (detect_physical_drives_in prev slots ds) (changes_in_report prev slots ds d m h)

-- A drive of the current snapshot whose state is critical, such as failed, missing, offline or
-- UBad, is the subject of a critical state event of the cycle, provided that every drive of the
-- previous snapshot in its slot had another serial number or another normalised state (so too when
-- the slot was empty).
pub failed_drive_reported :
    (previous current : List PhysicalDrive) (d : PhysicalDrive)
    → Memᴰ d current
    → physical_drive_state_severity d.state ≡ critical
    → All (λ p. slot_eq (slot_key p) (slot_key d) ≡ true → Differs d p) previous
    → any_of
        (reports_failure d)
        (detect_physical_drives previous (detect_drive_replacements previous current).1 current)
      ≡ true
unfolding detect_physical_drives detect_drive_replacements
failed_drive_reported previous current d m h differs =
    changes_in_report (by_slot previous) _ current d m (changes_report _ d _ h (noticed _ refl))
  where
    slots : List SlotKey
    slots =
        (absences (by_slot current) (by_slot previous)).1
        ++ (replacements (by_slot previous) current).1

    marked : Bool
    marked = any_of (slot_eq (slot_key d)) slots

    noticed :
        (o : Option PhysicalDrive)
        → get slot_eq (slot_key d) (by_slot previous) ≡ o
        → Noticed marked d o
    noticed none g = tt
    noticed (some p) g =
        elim (get-put_all_sound slot_eq slot_eq_iff (Differs d) slot_key (slot_key d) previous []
          differs (λ w f. cc) g) [
            | inl serial ↦ inl (
                any_of-append_right (slot_eq (slot_key d)) _ _
                  (replacements-mark (by_slot previous) current d p m g serial))
            | inr state ↦ inr state
          ]
