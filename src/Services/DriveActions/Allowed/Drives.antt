-- ===== src/Services/DriveActions/Allowed/Drives.antt =====
-- Commands on drives, under the patterns of the runner.
use megaraid_dashboard.Prelude.{
  ℕ, ◌≡◌, refl, subst, String, Bool, true, false, some, List, [], ◌∷◌, arith, any_of, any_of-imp,
  drop, str_eq, str_mem,
}
use megaraid_dashboard.Prelude.Int.{ℤ, pos, negsuc}
use megaraid_dashboard.Storcli.Commands.{
  Part, matches, matches_part, allowed_command_patterns, validate_command, with_json_flag,
}
use megaraid_dashboard.Services.DriveActions.{
  Command, on_drive, checked, in_range, drive_path, validate_enclosure_slot,
}
use megaraid_dashboard.Services.DriveActions.Allowed.Words.{
  is_drive-drive_path, is_bad, path_good, valid_from, show-ne,
}

-- The runner's verdict on the arguments, and whether they hold the word that makes them a read.
abbrev pub IsJudged : Bool → Bool → Command → Type 0
IsJudged allowed read args =
    (validate_command (with_json_flag args) ≡ allowed) × (str_mem "show" args ≡ read)

abbrev pub path : ℕ → ℕ → String
path e s = drive_path (pos e) (pos s)

pub checked_parts :
    (ok : Bool) (built args : Command) → checked ok built ≡ some args → (ok ≡ true) × (built ≡ args)
checked_parts true built args h = ground arith
checked_parts false built args h = cc

pub in_range_parts : (top : ℕ) (z : ℤ) → in_range top z ≡ true → (n : ℕ) × (z ≡ pos n)
in_range_parts top (pos n) h = (n, refl)
in_range_parts top (negsuc n) h = cc

pub on_drive_parts :
    (e s : ℤ) (words args : Command)
    → on_drive e s words ≡ some args
    → (m : ℕ) × (n : ℕ) × (path m n ∷ words ≡ args)
unfolding on_drive validate_enclosure_slot
on_drive_parts (pos m) (pos n) words args h = (m, n, ground arith)
on_drive_parts (pos m) (negsuc n) words args h = absurd (ground arith)
on_drive_parts (negsuc m) s words args h = cc

pub show-ne_path : (m n : ℕ) → str_eq "show" (path m n) ≡ false
unfolding drive_path
show-ne_path m n = show-ne "/" "c0/e" _ (omega arith)

-- The pattern is one of a drive, and its other words match.
abbrev matches_after_drive : List String → List Part → Bool
matches_after_drive words [] = false
matches_after_drive words (Part.drive ∷ ps) = matches ps words
matches_after_drive words (p ∷ ps) = false

drive_pattern :
    (m n : ℕ) (words : List String) (p : List Part)
    → matches_after_drive words p ≡ true
    → matches p (path m n ∷ words) ≡ true
unfolding matches matches_part
drive_pattern m n words [] h = cc
drive_pattern m n words (Part.drive ∷ ps) h = rw (is_drive-drive_path m n) h
drive_pattern m n words (Part.word w ∷ ps) h = cc
drive_pattern m n words (Part.one_of ws ∷ ps) h = cc
drive_pattern m n words (Part.numbered w ∷ ps) h = cc
drive_pattern m n words (Part.volume ∷ ps) h = cc

module _ (k : ℕ) (words flagged : List String)
    (fits : any_of (matches_after_drive flagged) (drop k allowed_command_patterns) ≡ true) where
  drive_allowed :
      (m n : ℕ)
      → with_json_flag (path m n ∷ words) ≡ path m n ∷ flagged
      → any_of is_bad flagged ≡ false
      → validate_command (with_json_flag (path m n ∷ words)) ≡ true
  drive_allowed m n flags good = rw flags (
      valid_from k (path m n ∷ flagged) (rw (path_good m n, good) refl) (
        any_of-imp (matches_after_drive flagged) (λ (p : List Part). matches p (path m n ∷ flagged))
          (drive_pattern m n flagged) (drop k allowed_command_patterns) fits))

module _ (k : ℕ) (words flagged : List String) (read : Bool)
    (fits : any_of (matches_after_drive flagged) (drop k allowed_command_patterns) ≡ true)
    (good : any_of is_bad flagged ≡ false) (shows : str_mem "show" words ≡ read) where
  pub drive-IsJudged :
      (e s : ℤ) (args : Command)
      → ((m n : ℕ) → with_json_flag (path m n ∷ words) ≡ path m n ∷ flagged)
      → on_drive e s words ≡ some args
      → IsJudged true read args
  drive-IsJudged e s args flags h =
      let (m, n, eq) = on_drive_parts e s words args h in
      subst (IsJudged true read) eq
        (drive_allowed k words flagged fits m n (flags m n) good, rw (show-ne_path m n) shows)
