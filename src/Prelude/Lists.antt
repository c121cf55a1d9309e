-- ===== src/Prelude/Lists.antt =====
-- Lists measured by native numbers, and filters and predicates that compute.
use Prim.Native.Nat.{ℕ, zero, suc, ◌+◌, ◌≤◌}
use Prim.Native.String.{String}
use mathlib.Core.Path.{◌≡◌, refl, sym, subst}
use mathlib.Core.Logic.{inl, inr}
use text.Mathlib.Text.{◌==◌ as str_eq}
use text.Mathlib.TextEquality.{eq_iff as str_eq_iff}
use mathlib.Core.Bool.{Bool, true, false}
use mathlib.Core.Option.{Option, none, some}
use mathlib.Core.List.{List, [], ◌∷◌, ◌++◌, map}
use native.Mathlib.Omega.{arith}
use megaraid_dashboard.Prelude.Tests.{str_mem, Bool-cases, if◌then◌else◌}

module _ {ℓ} {A : Type ℓ} where
  abbrev pub length : List A → ℕ
  length [] = 0
  length (x ∷ xs) = suc (length xs)

  abbrev pub take : ℕ → List A → List A
  take zero xs = []
  take (suc n) [] = []
  take (suc n) (x ∷ xs) = x ∷ take n xs

  abbrev pub drop : ℕ → List A → List A
  drop zero xs = xs
  drop (suc n) [] = []
  drop (suc n) (x ∷ xs) = drop n xs

  -- The items that pass a Boolean test.
  abbrev pub keep : (A → Bool) → List A → List A
  keep p [] = []
  keep p (x ∷ xs) = let rest = keep p xs in if p x then x ∷ rest else rest

  abbrev pub any_of : (A → Bool) → List A → Bool
  any_of p [] = false
  any_of p (x ∷ xs) = if p x then true else any_of p xs

  abbrev pub find_first : (A → Bool) → List A → Option A
  find_first p [] = none
  find_first p (x ∷ xs) = if p x then some x else find_first p xs

  pub length-append : (xs ys : List A) → length (xs ++ ys) ≡ length xs + length ys
  length-append [] ys = omega arith
  length-append (x ∷ xs) ys = omega (arith, length-append xs ys)

  pub keep-append : (p : A → Bool) (xs ys : List A) → keep p (xs ++ ys) ≡ keep p xs ++ keep p ys
  keep-append p [] ys = refl
  keep-append p (x ∷ xs) ys = ground (arith, keep-append p xs ys)

  pub any_of-append_left :
      (p : A → Bool) (xs ys : List A) → any_of p xs ≡ true → any_of p (xs ++ ys) ≡ true
  any_of-append_left p [] ys h = cc
  any_of-append_left p (x ∷ xs) ys h = ground (arith, any_of-append_left p xs ys)

  pub any_of-append_right :
      (p : A → Bool) (xs ys : List A) → any_of p ys ≡ true → any_of p (xs ++ ys) ≡ true
  any_of-append_right p [] ys h = h
  any_of-append_right p (x ∷ xs) ys h = ground (arith, any_of-append_right p xs ys h)

  pub any_of-imp :
      (p q : A → Bool)
      → ((x : A) → p x ≡ true → q x ≡ true)
      → (xs : List A) → any_of p xs ≡ true
      → any_of q xs ≡ true
  any_of-imp p q f [] h = cc
  any_of-imp p q f (x ∷ xs) h = ground (arith, f x, any_of-imp p q f xs)

  pub any_of-map :
      (p : A → Bool) (f : A → A) (xs : List A) → any_of p (map f xs) ≡ any_of (λ x. p (f x)) xs
  any_of-map p f [] = refl
  any_of-map p f (x ∷ xs) = ground (arith, any_of-map p f xs)

  pub length-keep-le : (p : A → Bool) (xs : List A) → length (keep p xs) ≤ length xs
  length-keep-le p [] = omega arith
  length-keep-le p (x ∷ xs) = ground (arith, length-keep-le p xs)

module _ {ℓ κ} {A : Type ℓ} (P : A → Type κ) where
  abbrev pub All : List A → Type κ
  All [] = Unit
  All (x ∷ xs) = P x × All xs

pub All-kept {ℓ} : {A : Type ℓ} (p : A → Bool) (es : List A) → All (λ e. p e ≡ true) (keep p es)
All-kept p [] = tt
All-kept p (e ∷ es) = elim (Bool-cases (p e)) [
  | inl t ↦ rw t (t, All-kept p es)
  | inr f ↦ rw f (All-kept p es)
]

module _ {ℓ κ} {A : Type ℓ} (P : A → Type κ) where
  pub All-append : (xs ys : List A) → All P xs → All P ys → All P (xs ++ ys)
  All-append [] ys h k = k
  All-append (x ∷ xs) ys h k = (h.0, All-append xs ys h.1 k)

  pub All-keep : (p : A → Bool) (xs : List A) → All P xs → All P (keep p xs)
  All-keep p [] h = h
  All-keep p (x ∷ xs) h = go (p x) (All-keep p xs h.1)
    where
      go : (b : Bool) → All P (keep p xs) → All P (if b then x ∷ keep p xs else keep p xs)
      go true r = (h.0, r)
      go false r = r

  pub All-imp {μ} : (Q : A → Type μ) → ((x : A) → P x → Q x) → (xs : List A) → All P xs → All Q xs
  All-imp Q f [] h = tt
  All-imp Q f (x ∷ xs) h = (f x h.0, All-imp Q f xs h.1)

-- What holds of each text of a literal set holds of every member.
pub str_mem-All :
    (P : String → Type 0) (s : String) (xs : List String) → All P xs → str_mem s xs ≡ true → P s
str_mem-All P s [] h e = cc
str_mem-All P s (x ∷ xs) h e = elim (Bool-cases (str_eq s x)) [
  | inl hit ↦ subst P (sym ((str_eq_iff s x).0 hit)) h.0
  | inr miss ↦ str_mem-All P s xs h.1 (rw miss at e)
]
