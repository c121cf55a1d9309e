-- ===== src/Services/DriveActions/Allowed/Numbers.antt =====
-- Commands that print further numbers, under the patterns of the runner.
use Prim.Native.String.{◌++◌ as cat}
use megaraid_dashboard.Prelude.{
  ℕ, ◌≡◌, refl, subst, true, false, Option, none, some, [], ◌∷◌, arith, and_parts,
}
use megaraid_dashboard.Prelude.Int.{ℤ, pos}
use megaraid_dashboard.Prelude.Text.{decimal, decimal_ℤ}
use megaraid_dashboard.Storcli.Commands.{matches, matches_part, has_space, with_json_flag}
use megaraid_dashboard.Services.DriveActions.{
  Command, in_range, drive_path, validate_enclosure_slot, validate_virtual_drive,
  build_make_hot_spare_command, build_insert_replacement_command,
  build_consistency_check_start_command,
}
use megaraid_dashboard.Services.DriveActions.Allowed.Words.{
  is_numbered-decimal, is_drive-drive_path, is_bad, word_good, path_good, has_space-decimal,
  valid_from, show-ne, json-ne,
}
use megaraid_dashboard.Services.DriveActions.Allowed.Drives.{
  IsJudged, path, checked_parts, in_range_parts, show-ne_path,
}

number_good : (n : ℕ) → is_bad (cat "dgs=" (decimal n)) ≡ false
unfolding has_space
number_good n = word_good "d" "gs=" (decimal n) refl (has_space-decimal n)

dg_good : (n : ℕ) → is_bad (cat "dg=" (decimal n)) ≡ false
unfolding has_space
dg_good n = word_good "d" "g=" (decimal n) refl (has_space-decimal n)

array_good : (n : ℕ) → is_bad (cat "array=" (decimal n)) ≡ false
unfolding has_space
array_good n = word_good "a" "rray=" (decimal n) refl (has_space-decimal n)

row_good : (n : ℕ) → is_bad (cat "row=" (decimal n)) ≡ false
unfolding has_space
row_good n = word_good "r" "ow=" (decimal n) refl (has_space-decimal n)

volume_good : (n : ℕ) → is_bad (cat "/c0/v" (decimal n)) ≡ false
unfolding has_space
volume_good n = word_good "/" "c0/v" (decimal n) refl (has_space-decimal n)

hot_spare-IsJudged :
    (m n d : ℕ)
    → IsJudged true false (path m n ∷ "add" ∷ "hotsparedrive" ∷ cat "dgs=" (decimal d) ∷ [])
unfolding with_json_flag matches matches_part has_space
hot_spare-IsJudged m n d = (
  rw (json-ne "d" "gs=" (decimal d) (omega arith)) (
      valid_from 24 _ (rw (path_good m n, number_good d) refl)
        (rw (is_drive-drive_path m n, is_numbered-decimal "dgs=" d) refl)),
  rw (show-ne_path m n, show-ne "d" "gs=" (decimal d) (omega arith)) refl,
)

insert-IsJudged :
    (m n d a r : ℕ)
    → IsJudged true false (
        path m n
        ∷ "insert"
        ∷ cat "dg=" (decimal d)
        ∷ cat "array=" (decimal a)
        ∷ cat "row=" (decimal r)
        ∷ "J"
        ∷ [])
unfolding with_json_flag matches matches_part has_space
insert-IsJudged m n d a r = (
  valid_from 25 _ (rw (path_good m n, dg_good d, array_good a, row_good r) refl) (
      rw
        (
          is_drive-drive_path m n,
          is_numbered-decimal "dg=" d,
          is_numbered-decimal "array=" a,
          is_numbered-decimal "row=" r,
        )
        refl),
  rw
      (
        show-ne_path m n,
        show-ne "d" "g=" (decimal d) (omega arith),
        show-ne "a" "rray=" (decimal a) (omega arith),
        show-ne "r" "ow=" (decimal r) (omega arith),
      )
      refl,
)

volume-IsJudged :
    (n : ℕ) → IsJudged true false (cat "/c0/v" (decimal n) ∷ "start" ∷ "cc" ∷ "J" ∷ [])
unfolding with_json_flag matches matches_part has_space
volume-IsJudged n = (
  valid_from 11 _ (rw (volume_good n) refl) (rw (is_numbered-decimal "/c0/v" n) (ground arith)),
  rw (show-ne "/" "c0/v" (decimal n) (omega arith)) refl,
)

hot_spare_at :
    (e s dg : ℤ) (m n d : ℕ)
    → e ≡ pos m
    → s ≡ pos n
    → dg ≡ pos d
    → IsJudged true false
        (drive_path e s ∷ "add" ∷ "hotsparedrive" ∷ cat "dgs=" (decimal_ℤ dg) ∷ [])
unfolding decimal_ℤ
hot_spare_at e s dg m n d em en ed = rw (em, en, ed) (hot_spare-IsJudged m n d)

insert_at :
    (e s dg array row : ℤ) (m n d a r : ℕ)
    → e ≡ pos m
    → s ≡ pos n
    → dg ≡ pos d
    → array ≡ pos a
    → row ≡ pos r
    → IsJudged true false (
        drive_path e s
        ∷ "insert"
        ∷ cat "dg=" (decimal_ℤ dg)
        ∷ cat "array=" (decimal_ℤ array)
        ∷ cat "row=" (decimal_ℤ row)
        ∷ "J"
        ∷ [])
unfolding decimal_ℤ
insert_at e s dg array row m n d a r em en ed ea er =
    rw (em, en, ed, ea, er) (insert-IsJudged m n d a r)

pub make_hot_spare-IsJudged :
    (e s dg : ℤ) (args : Command)
    → build_make_hot_spare_command e s dg ≡ some args
    → IsJudged true false args
unfolding build_make_hot_spare_command validate_enclosure_slot decimal_ℤ
make_hot_spare-IsJudged e s dg args h =
    let (ok, eq) = checked_parts _ _ args h in
    let (drive, group) = and_parts _ (in_range 63 dg) ok in
    let (he, hs) = and_parts (in_range 255 e) _ drive in
    let (m, em) = in_range_parts 255 e he in
    let (n, en) = in_range_parts 255 s hs in
    let (d, ed) = in_range_parts 63 dg group in
    subst (IsJudged true false) eq (hot_spare_at e s dg m n d em en ed)

pub insert_replacement-IsJudged :
    (e s dg array row : ℤ) (args : Command)
    → build_insert_replacement_command e s dg array row ≡ some args
    → IsJudged true false args
unfolding build_insert_replacement_command validate_enclosure_slot decimal_ℤ
insert_replacement-IsJudged e s dg array row args h =
    let (ok, eq) = checked_parts _ _ args h in
    let (ok1, hr) = and_parts _ (in_range 255 row) ok in
    let (ok2, ha) = and_parts _ (in_range 63 array) ok1 in
    let (drive, hd) = and_parts _ (in_range 63 dg) ok2 in
    let (he, hs) = and_parts (in_range 255 e) _ drive in
    let (m, em) = in_range_parts 255 e he in
    let (n, en) = in_range_parts 255 s hs in
    let (d, ed) = in_range_parts 63 dg hd in
    let (a, ea) = in_range_parts 63 array ha in
    let (r, er) = in_range_parts 255 row hr in
    subst (IsJudged true false) eq (insert_at e s dg array row m n d a r em en ed ea er)

pub consistency_check_start-IsJudged :
    (vd : Option ℤ) (args : Command)
    → build_consistency_check_start_command vd ≡ some args
    → IsJudged true false args
unfolding build_consistency_check_start_command validate_virtual_drive decimal_ℤ with_json_flag
    matches matches_part has_space
consistency_check_start-IsJudged none args h =
    let eq : "/c0/vall" ∷ "start" ∷ "cc" ∷ "J" ∷ [] ≡ args = cc in
    subst (IsJudged true false) eq (valid_from 11 _ refl refl, refl)
consistency_check_start-IsJudged (some vd) args h =
    let (ok, eq) = checked_parts _ _ args h in
    let (n, en) = in_range_parts 255 vd ok in
    subst (IsJudged true false) eq (rw en (volume-IsJudged n))
