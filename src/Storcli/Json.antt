-- ===== src/Storcli/Json.antt =====
-- The values of `json.loads`. The numbers are integers: no rule of the modelled code reads another.
-- An object has each of its names once.
use megaraid_dashboard.Prelude.{
  ℕ, String, Bool, Option, none, some, List, [], ◌∷◌, str_eq, if◌then◌else◌,
}
use megaraid_dashboard.Prelude.Int.{ℤ, pos}

mutual
  pub data Value : Type 0 where
    null : Value
    bool : Bool → Value
    num : ℤ → Value
    text : String → Value
    arr : Elements → Value
    obj : Members → Value

  pub data Elements : Type 0 where
    no_elements : Elements
    element : Value → Elements → Elements

  pub data Members : Type 0 where
    no_members : Members
    member : String → Value → Members → Members

abbrev pub lookup_field : String → Members → Option Value
lookup_field k no_members = none
lookup_field k (member j v fs) = if str_eq j k then some v else lookup_field k fs

-- `value.get(k)` of an object; none of any other value.
abbrev pub get_field : String → Value → Option Value
get_field k (obj fs) = lookup_field k fs
get_field k other = none

abbrev pub items_of : Elements → List Value
items_of no_elements = []
items_of (element v vs) = v ∷ items_of vs

abbrev pub fields_of : Members → List (String × Value)
fields_of no_members = []
fields_of (member k v fs) = (k, v) ∷ fields_of fs

abbrev pub as_items : Option Value → Option (List Value)
as_items (some (arr vs)) = some (items_of vs)
as_items other = none

abbrev pub as_fields : Option Value → Option Members
as_fields (some (obj fs)) = some fs
as_fields other = none

abbrev pub as_text : Option Value → Option String
as_text (some (text s)) = some s
as_text other = none

-- A number that is no Boolean and is not negative.
abbrev pub as_count : Option Value → Option ℕ
as_count (some (num (pos n))) = some n
as_count other = none

abbrev pub as_int : Option Value → Option ℤ
as_int (some (num z)) = some z
as_int other = none
