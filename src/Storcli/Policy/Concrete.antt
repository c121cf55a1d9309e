-- ===== src/Storcli/Policy/Concrete.antt =====
-- What the tests on the words of a command mean, of src/megaraid_dashboard/storcli/policy.py.
use Prim.Native.String.{◌++◌ as cat}
use text.Mathlib.Text.{starts_with}
use megaraid_dashboard.Prelude.{
  ℕ, ◌≤◌, ◌≡◌, ◌⊎◌, refl, inl, inr, String, true, false, ◌&&◌, ◌==◌, leb, Option, none, some, List,
  [], ◌∷◌, take, drop, arith, str_eq, str_eq_iff, str_mem, find_first, and_parts, Bool-cases,
  Option-cases,
}
use megaraid_dashboard.Prelude.Text.{decimal}
use megaraid_dashboard.Prelude.Scan.{read_number, drop_text}
use megaraid_dashboard.Prelude.Scan.Decimal.{drop_text-joined}
use megaraid_dashboard.Storcli.Policy.{
  CommandPolicy, ReplacementTopology, slot_below_8, drive_slot, first_of, list_eq, matches_topology,
  topology_at, names_drive, names_volume, names_group, names_topology,
}

-- The drive in one of the slots 0 to 7 of enclosure 252.
pub record IsSlot (token : String) (slot : ℕ) : Type 0 where
  pub small : slot ≤ 7
  pub path : token ≡ cat "/c0/e252/s" (decimal slot)

slot_below_8-IsSlot :
    (s : String) (r : ℕ × String) (slot : ℕ)
    → slot_below_8 s r ≡ some slot
    → (slot ≤ 7) × (s ≡ decimal slot)
slot_below_8-IsSlot s (n, rest) slot h =
    elim (Bool-cases (str_eq s (decimal n) && leb n 7 && str_eq rest "")) [
      | inr bad ↦ absurd (let k = rw bad at h in cc)
      | inl good ↦
          let k = rw good at h in
          let same : n ≡ slot = cc in
          let (digits_low, end) =
            and_parts (str_eq s (decimal n) && leb n 7) (str_eq rest "") good in
          let (digits, low) = and_parts (str_eq s (decimal n)) (leb n 7) digits_low in
          let small : n ≤ 7 = ground arith in
          (rw (← same) small, rw (← same) ((str_eq_iff s (decimal n)).0 digits))
    ]

pub drive_slot-IsSlot :
    (token : String) (slot : ℕ) → drive_slot token ≡ some slot → IsSlot token slot
unfolding drive_slot
drive_slot-IsSlot token slot h = elim (Option-cases (drop_text "/c0/e252/s" token)) [
  | inl bad ↦ absurd (let k = rw bad at h in cc)
  | inr (s, cut) ↦
      let k = rw cut at h in
      elim (Option-cases (read_number false 0 s)) [
        | inl bad ↦ absurd (let j = rw bad at k in cc)
        | inr (r, number) ↦
            let (small, digits) = slot_below_8-IsSlot s r slot (rw number at k) in
            let whole = drop_text-joined "/c0/e252/s" token s cut in
            record { small = small; path = rw (← digits) whole }
      ]
]

pub names_drive-IsSlot :
    (tokens : List String)
    → names_drive tokens ≡ true
    → starts_with (first_of tokens) "/c0/e" ≡ true
    → (slot : ℕ) × IsSlot (first_of tokens) slot
names_drive-IsSlot tokens h drive = elim (Option-cases (drive_slot (first_of tokens))) [
  | inl bad ↦ absurd (let k = rw (drive, bad) at h in cc)
  | inr (slot, found) ↦ (slot, drive_slot-IsSlot (first_of tokens) slot found)
]

pub names_volume-path :
    (p : CommandPolicy) (tokens : List String)
    → names_volume p tokens ≡ true
    → starts_with (first_of tokens) "/c0/v" ≡ true
    → (first_of tokens ≡ "/c0/vall") ⊎ (first_of tokens ≡ cat "/c0/v" (decimal p.virtual_drive))
names_volume-path p tokens h volume = elim (Bool-cases (str_eq (first_of tokens) "/c0/vall")) [
  | inl all ↦ inl ((str_eq_iff (first_of tokens) "/c0/vall").0 all)
  | inr one ↦
      let k = rw (volume, one) at h in
      elim (Bool-cases (str_eq (first_of tokens) (cat "/c0/v" (decimal p.virtual_drive)))) [
        | inl own ↦
            inr ((str_eq_iff (first_of tokens) (cat "/c0/v" (decimal p.virtual_drive))).0 own)
        | inr other ↦ absurd (let j = rw other at k in cc)
      ]
]

pub names_group-word :
    (p : CommandPolicy) (tokens : List String)
    → names_group p tokens ≡ true
    → str_mem "add" tokens ≡ true
    → str_mem (cat "dgs=" (decimal p.disk_group)) tokens ≡ true
names_group-word p tokens h add =
    elim (Bool-cases (str_mem (cat "dgs=" (decimal p.disk_group)) tokens)) [
      | inl there ↦ there
      | inr missing ↦ absurd (let k = rw (add, missing) at h in cc)
    ]

list_eq-eq : (a b : List String) → list_eq a b ≡ true → a ≡ b
list_eq-eq [] [] h = refl
list_eq-eq [] (y ∷ b) h = cc
list_eq-eq (x ∷ a) [] h = cc
list_eq-eq (x ∷ a) (y ∷ b) h =
    let (heads, tails) = and_parts (str_eq x y) (list_eq a b) h in
    rw ((str_eq_iff x y).0 heads, list_eq-eq a b tails) refl

-- An insertion at a slot, with the topology that the policy lists for it in its own disk group.
pub record IsListed (p : CommandPolicy) (tokens : List String) : Type 0 where
  pub slot : ℕ
  pub drive : IsSlot (first_of tokens) slot
  pub topology : ReplacementTopology
  pub listed :
      find_first (λ (t : ReplacementTopology). t.slot == slot) p.replacements ≡ some topology
  pub place :
      take 3 (drop 2 tokens)
      ≡ cat "dg=" (decimal topology.dg)
        ∷ cat "array=" (decimal topology.array)
        ∷ cat "row=" (decimal topology.row)
        ∷ []
  pub own_group : topology.dg ≡ p.disk_group

listed-IsListed :
    (p : CommandPolicy) (tokens : List String) (slot : Option ℕ)
    → drive_slot (first_of tokens) ≡ slot
    → matches_topology p tokens (topology_at p slot) ≡ true
    → IsListed p tokens
listed-IsListed p tokens none found h = cc
listed-IsListed p tokens (some slot) found h =
    elim (Option-cases (find_first (λ (t : ReplacementTopology). t.slot == slot) p.replacements)) [
      | inl unlisted ↦ absurd (let k = rw unlisted at h in cc)
      | inr (t, listed) ↦
          let (place, group) = and_parts _ (t.dg == p.disk_group) (rw listed at h) in
          record {
            slot = slot;
            drive = drive_slot-IsSlot (first_of tokens) slot found;
            topology = t;
            listed = listed;
            place = list_eq-eq _ _ place;
            own_group = ground arith;
          }
    ]

pub names_topology-IsListed :
    (p : CommandPolicy) (tokens : List String)
    → names_topology p tokens ≡ true
    → str_mem "insert" tokens ≡ true
    → IsListed p tokens
names_topology-IsListed p tokens h insert =
    elim (Bool-cases (matches_topology p tokens (topology_at p (drive_slot (first_of tokens))))) [
      | inl fits ↦ listed-IsListed p tokens (drive_slot (first_of tokens)) refl fits
      | inr bad ↦ absurd (let k = rw (insert, bad) at h in cc)
    ]
