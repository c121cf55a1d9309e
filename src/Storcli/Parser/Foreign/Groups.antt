-- ===== src/Storcli/Parser/Foreign/Groups.antt =====
-- The disk groups of a foreign configuration, of src/megaraid_dashboard/storcli/parser.py.
use megaraid_dashboard.Prelude.{
  ℕ, zero, suc, ◌+◌, String, Bool, false, ◌&&◌, Option, none, some, List, [], ◌∷◌, str_eq,
  if◌then◌else◌,
}
use megaraid_dashboard.Prelude.Int.{ℤ, pos, negsuc, leb_ℤ}
use megaraid_dashboard.Prelude.Text.{strip, casefold}
use megaraid_dashboard.Prelude.Scan.{read_number, drop_text}
use megaraid_dashboard.Prelude.Words.{contains_text}
use megaraid_dashboard.Storcli.Json.{Value, num, text, get_field, as_items}
use megaraid_dashboard.Storcli.Parser.Sizes.{size_string_to_bytes}

abbrev pub items_or_none : Option (List Value) → List Value
items_or_none none = []
items_or_none (some vs) = vs

unfoldable pub before_slash : String → String
before_slash String.[] = String.[]
before_slash (String.◌∷◌ c s) =
    let rest = String.◌∷◌ c (before_slash s) in
    if str_eq (String.◌∷◌ c "") "/" then String.[] else rest

abbrev pub whole_number : Option (ℕ × String) → Option ℕ
whole_number none = none
whole_number (some (n, rest)) = if str_eq rest "" then some n else none

abbrev pub as_pos : Option ℕ → Option ℤ
as_pos none = none
as_pos (some n) = some (pos n)

abbrev pub as_neg : Option ℕ → Option ℤ
as_neg none = none
as_neg (some zero) = some (pos zero)
as_neg (some (suc n)) = some (negsuc n)

abbrev pub or_unsigned : String → Option String → Option ℤ
or_unsigned s (some digits) = as_neg (whole_number (read_number false 0 digits))
or_unsigned s none = as_pos (whole_number (read_number false 0 s))

unfoldable pub coerce_dg_id : Option Value → Option ℤ
coerce_dg_id (some (num z)) = some z
coerce_dg_id (some (text s)) =
    let head = strip (before_slash (strip s)) in or_unsigned head (drop_text "-" head)
coerce_dg_id other = none

pub record DiskGroup : Type 0 where
  pub dg_id : ℤ
  pub drive_count : ℕ
  pub size_bytes : Option ℕ

abbrev pub same_id : ℤ → ℤ → Bool
same_id a b = leb_ℤ a b && leb_ℤ b a

-- `setdefault`, and the change of the entry.
unfoldable pub change_entry : ℤ → (DiskGroup → DiskGroup) → List DiskGroup → List DiskGroup
change_entry i f [] = f (record { dg_id = i; drive_count = 0; size_bytes = none }) ∷ []
change_entry i f (g ∷ gs) =
    let rest = g ∷ change_entry i f gs in if same_id g.dg_id i then f g ∷ gs else rest

abbrev pub size_text : Option Value → Option ℕ
size_text (some (text s)) = size_string_to_bytes s
size_text other = none

abbrev pub first_size : Option ℕ → Option ℕ → Option ℕ
first_size none new = new
first_size (some n) new = some n

abbrev pub dg_value : Value → Option Value
dg_value item = elim (get_field "DG" item) [ none ↦ get_field "DG/VD" item | some v ↦ some v ]

abbrev pub at_id : Option ℤ → (DiskGroup → DiskGroup) → List DiskGroup → List DiskGroup
at_id none f gs = gs
at_id (some i) f gs = change_entry i f gs

abbrev pub add_items : List Value → List DiskGroup → List DiskGroup
add_items [] gs = gs
add_items (item ∷ items) gs = add_items items (
    at_id (coerce_dg_id (dg_value item))
      (λ g. record g { size_bytes = first_size g.size_bytes (size_text (get_field "Size" item)) })
      gs)

unfoldable pub add_groups : List (String × Value) → List DiskGroup → List DiskGroup
add_groups [] gs = gs
add_groups ((key, value) ∷ rest) gs = add_groups rest (
    if contains_text "dg" (casefold key)
    then add_items (items_or_none (as_items (some value))) gs
    else gs)

unfoldable pub count_drives : List Value → List DiskGroup → List DiskGroup
count_drives [] gs = gs
count_drives (drive ∷ drives) gs = count_drives drives (
    at_id (coerce_dg_id (get_field "DG" drive)) (λ g. record g { drive_count = g.drive_count + 1 })
      gs)

abbrev pub insert_group : DiskGroup → List DiskGroup → List DiskGroup
insert_group g [] = g ∷ []
insert_group g (h ∷ hs) =
    let rest = h ∷ insert_group g hs in if leb_ℤ g.dg_id h.dg_id then g ∷ h ∷ hs else rest

abbrev pub sorted : List DiskGroup → List DiskGroup
sorted [] = []
sorted (g ∷ gs) = insert_group g (sorted gs)

unfoldable pub foreign_disk_groups : List (String × Value) → List Value → List DiskGroup
foreign_disk_groups response drives = sorted (count_drives drives (add_groups response []))
