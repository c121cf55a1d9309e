-- ===== src/Prelude/Dict/Laws.antt =====
-- Look-ups after writes, for a key test that decides equality.
use mathlib.Core.Path.{◌≡◌, refl, ◌∙◌, subst}
use mathlib.Core.Logic.{◌↔◌, inl, inr}
use mathlib.Core.Bool.{Bool, true, false}
use mathlib.Core.Option.{some}
use mathlib.Core.List.{List, [], ◌∷◌}
use native.Mathlib.Omega.{arith}
use megaraid_dashboard.Prelude.Tests.{if◌then◌else◌, Bool-cases}
use megaraid_dashboard.Prelude.Lists.{All, All-imp}
use megaraid_dashboard.Prelude.Dict.{get, put, put_all}

module _ {K V : Type 0} (eq : K → K → Bool) (eq_iff : (a b : K) → (eq a b ≡ true) ↔ (a ≡ b)) where
  pub get-put :
      (k j : K) (v : V) (d : List (K × V))
      → get eq j (put eq k v d) ≡ (if eq k j then some v else get eq j d)
  get-put k j v [] = refl
  get-put k j v ((i, w) ∷ d) = ground (arith, eq_iff k j, eq_iff i k, eq_iff i j, get-put k j v d)

  -- The key of no item is `j`.
  abbrev pub IsFree : (V → K) → K → List V → Type 0
  IsFree key j xs = All (λ x. eq (key x) j ≡ false) xs

  get-put_all_free :
      (key : V → K) (j : K) (xs : List V) (d : List (K × V))
      → IsFree key j xs
      → get eq j (put_all eq key xs d) ≡ get eq j d
  get-put_all_free key j [] d h = refl
  get-put_all_free key j (x ∷ xs) d h =
      get-put_all_free key j xs (put eq (key x) x d) h.1 ∙ (get-put (key x) j x d ∙ (rw h.0))

  abbrev pub HasDistinct : (V → K) → List V → Type 0
  HasDistinct key [] = Unit
  HasDistinct key (x ∷ xs) = IsFree key (key x) xs × HasDistinct key xs

  -- With distinct keys every item is found under its key.
  pub get-put_all :
      (key : V → K) (xs : List V) (d : List (K × V))
      → HasDistinct key xs
      → All (λ x. get eq (key x) (put_all eq key xs d) ≡ some x) xs
  get-put_all key [] d h = tt
  get-put_all key (x ∷ xs) d h = (
    get-put_all_free key (key x) xs (put eq (key x) x d) h.0
        ∙ (get-put (key x) (key x) x d ∙ (rw ((eq_iff (key x) (key x)).1 refl))),
    get-put_all key xs (put eq (key x) x d) h.1,
  )

  -- What is found under a key has that key, and every property of the items under it.
  pub get-put_all_sound :
      (P : V → Type 0) (key : V → K) (j : K) (xs : List V) (d : List (K × V)) {v : V}
      → All (λ x. eq (key x) j ≡ true → P x) xs
      → ((w : V) → get eq j d ≡ some w → P w)
      → get eq j (put_all eq key xs d) ≡ some v
      → P v
  get-put_all_sound P key j [] d {v} h old e = old v e
  get-put_all_sound P key j (x ∷ xs) d {v} h old e =
      get-put_all_sound P key j xs (put eq (key x) x d) h.1 next e
    where
      next : (w : V) → get eq j (put eq (key x) x d) ≡ some w → P w
      next w f = elim (Bool-cases (eq (key x) j)) [
        | inl hit ↦
            let same : x ≡ w = ground (arith, get-put (key x) j x d, f, hit) in
            subst P same (h.0 hit)
        | inr miss ↦ old w (ground (arith, get-put (key x) j x d, f, miss))
      ]

  -- Every key of a dictionary is found in it.
  pub get_of_item : (d : List (K × V)) → All (λ (e : K × V). (v : V) × (get eq e.0 d ≡ some v)) d
  get_of_item [] = tt
  get_of_item ((j, w) ∷ d) = (
    (w, rw ((eq_iff j j).1 refl)),
    All-imp (λ (e : K × V). (v : V) × (get eq e.0 d ≡ some v))
        (λ (e : K × V). (v : V) × (get eq e.0 ((j, w) ∷ d) ≡ some v)) longer d (get_of_item d),
  )
    where
      longer :
          (e : K × V)
          → ((v : V) × (get eq e.0 d ≡ some v))
          → (v : V) × (get eq e.0 ((j, w) ∷ d) ≡ some v)
      longer e h = elim (Bool-cases (eq j e.0)) [
        | inl hit ↦ (w, rw hit)
        | inr miss ↦ (h.0, rw miss h.1)
      ]
