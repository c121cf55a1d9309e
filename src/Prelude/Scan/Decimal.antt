-- ===== src/Prelude/Scan/Decimal.antt =====
-- Reading back what was printed.
use Prim.Native.Nat.{ℕ, zero, suc, ◌+◌, ◌-◌, ◌*◌, ◌/◌, ◌%◌, ◌<◌}
use Prim.Native.Char.{Char, code}
use Prim.Native.String.{String, char_at, ◌++◌}
use mathlib.Core.Path.{◌≡◌, refl, sym, ap, ◌∙◌}
use mathlib.Core.Logic.{inl, inr}
use mathlib.Core.Bool.{Bool, true, false, ◌&&◌}
use mathlib.Core.Option.{some}
use native.Mathlib.Omega.{arith}
use text.Mathlib.TextEquality.{Char-path}
use text.Mathlib.TextLemmas.{nil-append, cons-append, append-nil}
use megaraid_dashboard.Prelude.Tests.{leb, ltb, ◌==◌, Bool-cases, if◌then◌else◌}
use megaraid_dashboard.Prelude.Text.{decimal, digits_on}
use megaraid_dashboard.Prelude.Scan.{read_number, drop_text}

abbrev pub digit : ℕ → Char
digit d = char_at "0123456789" d

pub digit-code : (d : ℕ) → d < 10 → code (digit d) ≡ 48 + d
digit-code zero h = refl
digit-code (suc zero) h = refl
digit-code (suc (suc zero)) h = refl
digit-code (suc (suc (suc zero))) h = refl
digit-code (suc (suc (suc (suc zero)))) h = refl
digit-code (suc (suc (suc (suc (suc zero))))) h = refl
digit-code (suc (suc (suc (suc (suc (suc zero)))))) h = refl
digit-code (suc (suc (suc (suc (suc (suc (suc zero))))))) h = refl
digit-code (suc (suc (suc (suc (suc (suc (suc (suc zero)))))))) h = refl
digit-code (suc (suc (suc (suc (suc (suc (suc (suc (suc zero))))))))) h = refl
digit-code (suc (suc (suc (suc (suc (suc (suc (suc (suc (suc n)))))))))) h = absurd (omega arith)

read_digit :
    (seen : Bool) (n d : ℕ) (s : String)
    → d < 10
    → read_number seen n (String.◌∷◌ (digit d) s) ≡ read_number true (10 * n + d) s
unfolding read_number
read_digit seen n d s h =
    let low : (leb 48 (48 + d) && leb (48 + d) 57) ≡ true = ground arith in
    let value : 48 + d - 48 ≡ d = omega arith in rw (digit-code d h, low, value) refl

-- What the digits of `m` make of the number read before them.
joined : ℕ → ℕ → ℕ → ℕ
joined zero m n = n
joined (suc fuel) m n =
    let rest = 10 * joined fuel (m / 10) n + m % 10 in if ltb m 10 then 10 * n + m else rest

read_digits :
    (fuel m n : ℕ) (seen : Bool) (s : String)
    → m < fuel
    → read_number seen n (digits_on fuel m s) ≡ read_number true (joined fuel m n) s
unfolding digits_on joined
read_digits zero m n seen s h = absurd (omega arith)
read_digits (suc fuel) m n seen s h = elim (Bool-cases (ltb m 10)) [
  | inl small ↦
      rw (small, read_digit seen n (m % 10) s (omega arith))
        (let e : m % 10 ≡ m = ground arith in rw e refl)
  | inr large ↦ rw large (
      read_digits fuel (m / 10) n seen (String.◌∷◌ (digit (m % 10)) s) (ground arith)
      ∙ read_digit true (joined fuel (m / 10) n) (m % 10) s (omega arith))
]

joined_zero : (fuel m : ℕ) → m < fuel → joined fuel m 0 ≡ m
unfolding joined
joined_zero zero m h = absurd (omega arith)
joined_zero (suc fuel) m h = ground (arith, joined_zero fuel (m / 10))

digits_on-append : (fuel m : ℕ) (s t : String) → digits_on fuel m s ++ t ≡ digits_on fuel m (s ++ t)
unfolding digits_on
digits_on-append zero m s t = refl
digits_on-append (suc fuel) m s t = elim (Bool-cases (ltb m 10)) [
  | inl small ↦ rw small (cons-append (digit (m % 10)) s t)
  | inr large ↦ rw large (
      digits_on-append fuel (m / 10) (String.◌∷◌ (digit (m % 10)) s) t
      ∙ (rw (cons-append (digit (m % 10)) s t)))
]

-- The digits are read back, and what follows them is next.
pub read_number-decimal :
    (m : ℕ) (s : String) → read_number false 0 (decimal m ++ s) ≡ read_number true m s
unfolding decimal
read_number-decimal m s =
    rw (digits_on-append (suc m) m "" s, nil-append s)
      (read_digits (suc m) m 0 false s (omega arith) ∙ (rw (joined_zero (suc m) m (omega arith))))

pub read_number-decimal_end : (m : ℕ) → read_number false 0 (decimal m) ≡ some (m, "")
unfolding read_number
read_number-decimal_end m =
    ap (read_number false 0) (sym (append-nil (decimal m))) ∙ read_number-decimal m ""

pub drop_text-append : (p s : String) → drop_text p (p ++ s) ≡ some s
unfolding drop_text
drop_text-append String.[] s = rw (nil-append s) refl
drop_text-append (String.◌∷◌ c p) s = rw (cons-append c p s, drop_text-append p s) (ground arith)

pub drop_text-joined : (p s r : String) → drop_text p s ≡ some r → s ≡ p ++ r
unfolding drop_text
drop_text-joined String.[] s r h = rw (nil-append r) (cc)
drop_text-joined (String.◌∷◌ c p) String.[] r h = cc
drop_text-joined (String.◌∷◌ c p) (String.◌∷◌ d s) r h = elim (Bool-cases (code c == code d)) [
  | inr other ↦ absurd (let k = rw other at h in cc)
  | inl same ↦
      let heads : c ≡ d = Char-path c d (ground arith) in
      let tails = drop_text-joined p s r (rw same at h) in rw (heads, cons-append d p r, tails) refl
]
