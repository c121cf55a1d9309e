-- ===== src/Services/EventDetector/VirtualDrives/Quiet.antt =====
-- Virtual drives that did not change report nothing.
use megaraid_dashboard.Prelude.{ℕ, ◌≡◌, refl, some, List, [], ◌∷◌, ◌==◌, ==_iff, str_eq_refl, All}
use megaraid_dashboard.Prelude.Dict.{get}
use megaraid_dashboard.Prelude.Dict.Laws.{HasDistinct, get-put_all}
use megaraid_dashboard.Storcli.States.{normalized_state}
use megaraid_dashboard.Storcli.Models.{VirtualDrive}
use megaraid_dashboard.Services.EventDetector.VirtualDrives.{
  by_id, vd_changed, vd_appeared, vd_losses, vd_gains, detect_virtual_drives,
}

abbrev pub vd_key : VirtualDrive → ℕ
vd_key d = d.vd_id

abbrev pub HasDistinctIds : List VirtualDrive → Type 0
HasDistinctIds = HasDistinct ◌==◌ ==_iff vd_key

module _ (dict : List (ℕ × VirtualDrive)) where
  losses-quiet :
      (ds : List VirtualDrive)
      → All (λ (d : VirtualDrive). get ◌==◌ d.vd_id dict ≡ some d) ds
      → vd_losses dict ds ≡ []
  unfolding vd_losses vd_changed
  losses-quiet [] h = refl
  losses-quiet (d ∷ ds) h = rw (h.0, str_eq_refl (normalized_state d.state)) (losses-quiet ds h.1)

  gains-quiet :
      (ds : List VirtualDrive)
      → All (λ (d : VirtualDrive). get ◌==◌ d.vd_id dict ≡ some d) ds
      → vd_gains dict ds ≡ []
  unfolding vd_gains vd_appeared
  gains-quiet [] h = refl
  gains-quiet (d ∷ ds) h = rw h.0 (gains-quiet ds h.1)

pub detect_virtual_drives-quiet :
    (ds : List VirtualDrive) → HasDistinctIds ds → detect_virtual_drives ds ds ≡ []
unfolding detect_virtual_drives
detect_virtual_drives-quiet ds distinct =
    let found = get-put_all ◌==◌ ==_iff vd_key ds [] distinct in
    rw (losses-quiet (by_id ds) ds found, gains-quiet (by_id ds) ds found) refl
