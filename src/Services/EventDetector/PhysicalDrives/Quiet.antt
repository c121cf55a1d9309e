-- ===== src/Services/EventDetector/PhysicalDrives/Quiet.antt =====
-- Drives that did not change report nothing.
use megaraid_dashboard.Prelude.{◌≡◌, refl, false, some, List, [], ◌∷◌, arith, str_eq_refl, All}
use megaraid_dashboard.Prelude.Dict.{get}
use megaraid_dashboard.Prelude.Dict.Laws.{HasDistinct, get-put_all, get_of_item}
use megaraid_dashboard.Storcli.States.{normalized_state}
use megaraid_dashboard.Storcli.Models.{PhysicalDrive, SlotKey, slot_key, slot_eq}
use megaraid_dashboard.Services.EventDetector.PhysicalDrives.{
  by_slot, absences, absent_slot, replaced_slot, replacements, detect_drive_replacements,
  drive_changes, counter_events, detect_physical_drives_in, detect_physical_drives,
}
use megaraid_dashboard.Services.EventDetector.PhysicalDrives.Failures.{slot_eq_iff}

abbrev pub HasDistinctSlots : List PhysicalDrive → Type 0
HasDistinctSlots = HasDistinct slot_eq slot_eq_iff slot_key

abbrev Found : List (SlotKey × PhysicalDrive) → PhysicalDrive → Type 0
Found dict d = get slot_eq (slot_key d) dict ≡ some d

unchanged_quiet : (d : PhysicalDrive) → drive_changes false d (some d) ≡ []
unfolding drive_changes counter_events
unchanged_quiet d = ground (arith, str_eq_refl (normalized_state d.state))

unreplaced : (d : PhysicalDrive) → replaced_slot d (some d) ≡ ([], [], [])
unfolding replaced_slot
unreplaced d = rw str_eq_refl refl

replacements-quiet :
    (dict : List (SlotKey × PhysicalDrive)) (ds : List PhysicalDrive)
    → All (Found dict) ds
    → replacements dict ds ≡ ([], [], [])
unfolding replacements
replacements-quiet dict [] h = refl
replacements-quiet dict (d ∷ ds) h = rw (h.0, unreplaced d, replacements-quiet dict ds h.1) refl

drives-quiet :
    (dict : List (SlotKey × PhysicalDrive)) (ds : List PhysicalDrive)
    → All (Found dict) ds
    → detect_physical_drives_in dict [] ds ≡ []
unfolding detect_physical_drives_in
drives-quiet dict [] h = refl
drives-quiet dict (d ∷ ds) h = rw (h.0, unchanged_quiet d) (drives-quiet dict ds h.1)

absences-quiet :
    (dict rest : List (SlotKey × PhysicalDrive))
    → All
        (λ (e : SlotKey × PhysicalDrive). (d : PhysicalDrive) × (get slot_eq e.0 dict ≡ some d))
        rest
    → absences dict rest ≡ ([], [], [])
unfolding absences absent_slot
absences-quiet dict [] h = refl
absences-quiet dict ((k, p) ∷ rest) h =
    let (d, found) = h.0 in rw (found, absences-quiet dict rest h.1) refl

module _ (ds : List PhysicalDrive) (distinct : HasDistinctSlots ds) where
  All-Found : All (Found (by_slot ds)) ds
  All-Found = get-put_all slot_eq slot_eq_iff slot_key ds [] distinct

  pub detect_drive_replacements-quiet : detect_drive_replacements ds ds ≡ ([], [], [])
  unfolding detect_drive_replacements
  detect_drive_replacements-quiet =
      rw
        (
          absences-quiet (by_slot ds) (by_slot ds) (get_of_item slot_eq slot_eq_iff (by_slot ds)),
          replacements-quiet (by_slot ds) ds All-Found,
        )
        refl

  pub detect_physical_drives-quiet : detect_physical_drives ds [] ds ≡ []
  unfolding detect_physical_drives
  detect_physical_drives-quiet = drives-quiet (by_slot ds) ds All-Found
