-- ===== src/Services/DriveActions/Allowed/Words.antt =====
-- The arguments that the builders print, under the patterns of the runner.
use Prim.Native.String.{◌++◌ as cat}
use Prim.Native.Char.{Char, code}
use text.Mathlib.TextLemmas.{nil-append, cons-append, cons≢nil, head-eq_of_cons-eq}
use megaraid_dashboard.Prelude.{
  ℕ, suc, zero, ◌≡◌, ◌≢◌, refl, sym, ap, ◌∙◌, String, Bool, true, false, ◌||◌, some, List, [], ◌∷◌,
  ◌<◌, ◌/◌, ◌%◌, arith, any_of, drop, str_eq, str_eq_iff, inl, inr, Bool-cases,
}
use megaraid_dashboard.Prelude.Int.{pos}
use megaraid_dashboard.Prelude.Text.{decimal, decimal_ℤ, is_space, digits_on}
use megaraid_dashboard.Prelude.Scan.{read_number}
use megaraid_dashboard.Prelude.Scan.Decimal.{
  digit, digit-code, read_number-decimal, read_number-decimal_end, drop_text-append,
}
use megaraid_dashboard.Storcli.Commands.{
  Part, matches, is_drive, is_numbered, allowed_command_patterns, has_space, validate_command,
}
use megaraid_dashboard.Services.DriveActions

pub is_numbered-decimal :
    (prefix : String) (n : ℕ) → is_numbered prefix (cat prefix (decimal n)) ≡ true
is_numbered-decimal prefix n =
    rw (drop_text-append prefix (decimal n), read_number-decimal_end n) refl

slash_stops : (n : ℕ) (s : String) → read_number true n (cat "/s" s) ≡ some (n, cat "/s" s)
unfolding read_number
slash_stops n s = rw (cons-append "/" "s" s) refl

pub is_drive-drive_path : (e s : ℕ) → is_drive (DriveActions.drive_path (pos e) (pos s)) ≡ true
unfolding DriveActions.drive_path decimal_ℤ
is_drive-drive_path e s =
    rw
      (
        drop_text-append "/c0/e" (cat (decimal e) (cat "/s" (decimal s))),
        read_number-decimal e (cat "/s" (decimal s)),
        slash_stops e (decimal s),
        drop_text-append "/s" (decimal s),
        read_number-decimal_end s,
      )
      refl

has_space-append : (s t : String) → has_space (cat s t) ≡ (has_space s || has_space t)
unfolding has_space
has_space-append String.[] t = rw (nil-append t) refl
has_space-append (String.◌∷◌ c s) t =
    rw (cons-append c s t, has_space) (ground (arith, has_space-append s t))

digit_no_space : (d : ℕ) → d < 10 → is_space (digit d) ≡ false
digit_no_space d h = rw (digit-code d h) (ground arith)

has_space-digits_on :
    (fuel m : ℕ) (s : String) → has_space s ≡ false → has_space (digits_on fuel m s) ≡ false
unfolding digits_on has_space
has_space-digits_on zero m s h = h
has_space-digits_on (suc fuel) m s h = ground (
  arith,
  digit_no_space (m % 10),
  has_space-digits_on fuel (m / 10) (String.◌∷◌ (digit (m % 10)) s),
)

pub has_space-decimal : (m : ℕ) → has_space (decimal m) ≡ false
unfolding decimal has_space
has_space-decimal m = has_space-digits_on (suc m) m "" refl

-- An argument that the runner would refuse by itself.
abbrev pub is_bad : String → Bool
is_bad arg = str_eq arg "" || has_space arg

cons-ne-empty : (c : Char) (s : String) → str_eq (String.◌∷◌ c s) "" ≡ false
cons-ne-empty c s = elim (Bool-cases (str_eq (String.◌∷◌ c s) "")) [
  | inl e ↦ absurd (cons≢nil ((str_eq_iff (String.◌∷◌ c s) "").0 e))
  | inr e ↦ e
]

pub word_good :
    (c : Char) (p s : String)
    → has_space (String.◌∷◌ c p) ≡ false
    → has_space s ≡ false
    → is_bad (cat (String.◌∷◌ c p) s) ≡ false
word_good c p s hp hs =
    rw (has_space-append (String.◌∷◌ c p) s, hp, hs, cons-append c p s, cons-ne-empty c (cat p s))
      refl

pub path_good : (e s : ℕ) → is_bad (DriveActions.drive_path (pos e) (pos s)) ≡ false
unfolding DriveActions.drive_path decimal_ℤ has_space
path_good e s = word_good "/" "c0/e" (cat (decimal e) (cat "/s" (decimal s))) refl (
    rw
      (
        has_space-append (decimal e) (cat "/s" (decimal s)),
        has_space-decimal e,
        has_space-append "/s" (decimal s),
        has_space-decimal s,
      )
      refl)

any_of-drop {ℓ} :
    {A : Type ℓ} (n : ℕ) (p : A → Bool) (xs : List A)
    → any_of p (drop n xs) ≡ true
    → any_of p xs ≡ true
any_of-drop zero p xs h = h
any_of-drop (suc n) p [] h = h
any_of-drop (suc n) p (x ∷ xs) h = ground (arith, any_of-drop n p xs)

-- The command matches one of the patterns from the n-th on.
pub valid_from :
    (n : ℕ) (args : List String)
    → any_of is_bad args ≡ false
    → any_of (λ (p : List Part). matches p args) (drop n allowed_command_patterns) ≡ true
    → validate_command args ≡ true
unfolding validate_command
valid_from n args good found =
    rw (good, any_of-drop n (λ (p : List Part). matches p args) allowed_command_patterns found) refl

-- A text that starts otherwise is not `show`.
pub show-ne :
    (c : Char) (p s : String) → code c ≢ 115 → str_eq "show" (cat (String.◌∷◌ c p) s) ≡ false
show-ne c p s h = elim (Bool-cases (str_eq "show" (cat (String.◌∷◌ c p) s))) [
  | inl e ↦ absurd (
      h (
        ap code (
          sym (
            head-eq_of_cons-eq
              ((str_eq_iff "show" (cat (String.◌∷◌ c p) s)).0 e ∙ cons-append c p s)))))
  | inr e ↦ e
]

-- A text that starts otherwise is not the JSON flag.
pub json-ne : (c : Char) (p s : String) → code c ≢ 74 → str_eq (cat (String.◌∷◌ c p) s) "J" ≡ false
json-ne c p s h = elim (Bool-cases (str_eq (cat (String.◌∷◌ c p) s) "J")) [
  | inl e ↦ absurd (
      h (
        ap code (
          head-eq_of_cons-eq
            (sym (cons-append c p s) ∙ (str_eq_iff (cat (String.◌∷◌ c p) s) "J").0 e))))
  | inr e ↦ e
]
