-- ===== src/Web/Replace/Topology.antt =====
-- `_compute_slot_topology` of src/megaraid_dashboard/web/routes.py.
use megaraid_dashboard.Prelude.{
  ℕ, String, Bool, false, not, ◌&&◌, ◌||◌, Option, none, some, List, [], ◌∷◌, keep, any_of,
  find_first, length, ltb, ◌==◌, str_mem, if◌then◌else◌,
}
use megaraid_dashboard.Storcli.Models.{SlotKey, slot_eq}
use megaraid_dashboard.Storcli.Policy.{CommandPolicy, ReplacementTopology}

pub record SlotTopology : Type 0 where
  pub dg : ℕ
  pub array : ℕ
  pub row : ℕ

pub record DriveRow : Type 0 where
  pub key : SlotKey
  pub disk_group_id : Option ℕ
  pub state : String

abbrev pub array_member_states : List String
array_member_states = "Onln" ∷ "Offln" ∷ "Failed" ∷ "Rbld" ∷ "Cpybck" ∷ "Msng" ∷ "Missing" ∷ []

abbrev topology_of : Option ReplacementTopology → Option SlotTopology
topology_of none = none
topology_of (some t) = some (record { dg = t.dg; array = t.array; row = t.row })

-- With the full set of actions the operator's policy decides.
unfoldable pub approved_topology : CommandPolicy → SlotKey → Option SlotTopology
approved_topology p (enclosure, slot) =
    if enclosure == 252
    then topology_of (find_first (λ (t : ReplacementTopology). t.slot == slot) p.replacements)
    else none

abbrev is_group : ℕ → Option ℕ → Bool
is_group dg none = false
is_group dg (some g) = g == dg

-- The groups of the snapshot's drives.
abbrev groups : List DriveRow → List ℕ
groups [] = []
groups (d ∷ ds) = elim d.disk_group_id [ none ↦ groups ds | some g ↦ g ∷ groups ds ]

-- The one group, if there is just one.
abbrev only_group : List ℕ → Option ℕ
only_group [] = none
only_group (g ∷ gs) = if any_of (λ (h : ℕ). not (h == g)) gs then none else some g

abbrev target_group : Option ℕ → List DriveRow → Option ℕ
target_group (some dg) rows = some dg
target_group none rows = only_group (groups rows)

abbrev pub slot_before : SlotKey → SlotKey → Bool
slot_before (e, s) (f, t) = ltb e f || (e == f && ltb s t)

unfoldable pub is_member : ℕ → DriveRow → Bool
is_member dg d = is_group dg d.disk_group_id && str_mem d.state array_member_states

-- `sorted(member_keys).index(target)`: the members of other slots that come first. The slots of one
-- snapshot are distinct.
unfoldable pub member_row : ℕ → SlotKey → List DriveRow → ℕ
member_row dg target rows =
    length (keep (λ (d : DriveRow). is_member dg d && slot_before d.key target) rows)

abbrev placed_at : SlotKey → List DriveRow → Option ℕ → Option SlotTopology
placed_at target rows none = none
placed_at target rows (some dg) =
    some (record { dg = dg; array = 0; row = member_row dg target rows })

-- Without it the rows of the latest snapshot and the slot's last known group do.
unfoldable pub derived_topology : Option ℕ → List DriveRow → SlotKey → Option SlotTopology
derived_topology last_known rows target =
    if any_of (λ (d : DriveRow). slot_eq d.key target) rows
    then placed_at target rows (target_group last_known rows)
    else none
