-- ===== src/Prelude/Words/Laws.antt =====
-- Laws of words and of parts of texts.
use Prim.Native.String.{String, ◌++◌}
use Prim.Native.Char.{Char}
use mathlib.Core.Path.{◌≡◌, refl}
use mathlib.Core.Logic.{inl, inr}
use mathlib.Core.Bool.{Bool, true, false}
use native.Mathlib.Omega.{arith}
use text.Mathlib.TextLemmas.{nil-append, cons-append}
use megaraid_dashboard.Prelude.Tests.{if◌then◌else◌, Bool-cases}
use megaraid_dashboard.Prelude.Text.{is_space, casefold, lower_char}
use megaraid_dashboard.Prelude.Scan.Decimal.{drop_text-append}
use megaraid_dashboard.Prelude.Words.{begins, contains_text, span_word}

-- No character is white space.
unfoldable pub is_solid : String → Bool
is_solid String.[] = true
is_solid (String.◌∷◌ c s) = if is_space c then false else is_solid s

pub span_word-append :
    (w rest : String) (c : Char)
    → is_solid w ≡ true
    → is_space c ≡ true
    → span_word (w ++ String.◌∷◌ c rest) ≡ (w, String.◌∷◌ c rest)
unfolding is_solid span_word
span_word-append String.[] rest c h k = rw (nil-append (String.◌∷◌ c rest), span_word) (rw k refl)
span_word-append (String.◌∷◌ d w) rest c h k = elim (Bool-cases (is_space d)) [
  | inl e ↦ absurd (cc)
  | inr e ↦
      rw (cons-append d w (String.◌∷◌ c rest), span_word)
        (rw (e, span_word-append w rest c (rw e at h) k) refl)
]

contains-begins : (p m : String) → begins p m ≡ true → contains_text p m ≡ true
unfolding contains_text
contains-begins p String.[] h = h
contains-begins p (String.◌∷◌ c m) h = rw h refl

pub contains-append : (a p b : String) → contains_text p (a ++ (p ++ b)) ≡ true
unfolding contains_text
contains-append String.[] p b =
    rw (nil-append (p ++ b)) (contains-begins p (p ++ b) (rw (drop_text-append p b) refl))
contains-append (String.◌∷◌ c a) p b =
    rw (cons-append c a (p ++ b), contains_text) (rw (contains-append a p b) (ground arith))

pub casefold-append : (s t : String) → casefold (s ++ t) ≡ casefold s ++ casefold t
unfolding casefold
casefold-append String.[] t = rw (nil-append t, nil-append (casefold t)) refl
casefold-append (String.◌∷◌ c s) t =
    rw (cons-append c s t, cons-append (lower_char c) (casefold s) (casefold t), casefold)
      (rw (casefold-append s t) refl)
