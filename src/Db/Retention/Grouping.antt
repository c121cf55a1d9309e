-- ===== src/Db/Retention/Grouping.antt =====
-- Rows gathered in a dictionary of accumulators (`setdefault` and `add`), and stored by their keys.
use megaraid_dashboard.Prelude.{
  Bool, true, false, ◌≡◌, ◌↔◌, refl, subst, ap, ◌∙◌, inl, inr, Option, none, some, List, [], ◌∷◌,
  arith, keep, All, Bool-cases,
}
use megaraid_dashboard.Prelude.Dict.{get, put}
use megaraid_dashboard.Prelude.Dict.Laws.{get-put}

abbrev or_new : {K A : Type 0} → (K → A) → K → Option A → A
or_new new k none = new k
or_new new k (some a) = a

unfoldable pub group :
    {K R A : Type 0}
    → (K → K → Bool)
    → (R → K)
    → (K → A)
    → (R → A → A)
    → List R
    → List (K × A)
    → List (K × A)
group eq key new add [] d = d
group eq key new add (r ∷ rs) d =
    group eq key new add rs (put eq (key r) (add r (or_new new (key r) (get eq (key r) d))) d)

unfoldable pub store_all :
    {K A M : Type 0} → (K → K → Bool) → (A → M) → List (K × A) → List (K × M) → List (K × M)
store_all eq f [] table = table
store_all eq f ((k, a) ∷ d) table = store_all eq f d (put eq k (f a) table)

-- The accumulator of one key, from the rows with that key alone.
unfoldable pub gather : {K R A : Type 0} → (K → A) → (R → A → A) → K → List R → Option A → Option A
gather new add k [] o = o
gather new add k (r ∷ rs) o = gather new add k rs (some (add r (or_new new k o)))

abbrev pub map_or : {A M : Type 0} → (A → M) → Option A → Option M → Option M
map_or f none o = o
map_or f (some a) o = some (f a)

module _ {K : Type 0} (eq : K → K → Bool) (eq_iff : (a b : K) → (eq a b ≡ true) ↔ (a ≡ b)) where
  pub get-group :
      {R A : Type 0} (key : R → K) (new : K → A) (add : R → A → A) (j : K) (rs : List R)
      (d : List (K × A))
      → get eq j (group eq key new add rs d)
        ≡ gather new add j (keep (λ r. eq (key r) j) rs) (get eq j d)
  unfolding group gather
  get-group key new add j [] d = refl
  get-group key new add j (r ∷ rs) d =
      let v = add r (or_new new (key r) (get eq (key r) d)) in
      let rest = get-group key new add j rs (put eq (key r) v d) in
      elim (Bool-cases (eq (key r) j)) [
        | inl hit ↦
            let same = (eq_iff (key r) j).0 hit in
            rw hit (
              rest
              ∙ ap (gather new add j (keep (λ r. eq (key r) j) rs))
                  (rw (get-put eq eq_iff (key r) j v d, hit, same) refl))
        | inr miss ↦ rw miss (
            rest
            ∙ ap (gather new add j (keep (λ r. eq (key r) j) rs))
                (rw (get-put eq eq_iff (key r) j v d, miss) refl))
      ]

  -- No item has the key.
  abbrev pub IsFreeOf : {A : Type 0} → K → List (K × A) → Type 0
  IsFreeOf j d = All (λ e. eq e.0 j ≡ false) d

  abbrev pub HasDistinctKeys : {A : Type 0} → List (K × A) → Type 0
  HasDistinctKeys [] = Unit
  HasDistinctKeys ((k, a) ∷ d) = IsFreeOf k d × HasDistinctKeys d

  put-IsFreeOf :
      {A : Type 0} (j k : K) (a : A) (d : List (K × A))
      → eq k j ≡ false
      → IsFreeOf j d
      → IsFreeOf j (put eq k a d)
  put-IsFreeOf j k a [] h f = (h, tt)
  put-IsFreeOf j k a ((i, w) ∷ d) h f = elim (Bool-cases (eq i k)) [
    | inl hit ↦ rw hit (f.0, f.1)
    | inr miss ↦ rw miss (f.0, put-IsFreeOf j k a d h f.1)
  ]

  put-HasDistinctKeys :
      {A : Type 0} (k : K) (a : A) (d : List (K × A))
      → HasDistinctKeys d
      → HasDistinctKeys (put eq k a d)
  put-HasDistinctKeys k a [] h = (tt, tt)
  put-HasDistinctKeys k a ((i, w) ∷ d) h = elim (Bool-cases (eq i k)) [
    | inl hit ↦ rw hit (h.0, h.1)
    | inr miss ↦ rw miss (
      put-IsFreeOf i k a d (ground (arith, eq_iff i k, eq_iff k i, miss)) h.0,
      put-HasDistinctKeys k a d h.1,
    )
  ]

  pub group-HasDistinctKeys :
      {R A : Type 0} (key : R → K) (new : K → A) (add : R → A → A) (rs : List R) (d : List (K × A))
      → HasDistinctKeys d
      → HasDistinctKeys (group eq key new add rs d)
  unfolding group
  group-HasDistinctKeys key new add [] d h = h
  group-HasDistinctKeys key new add (r ∷ rs) d h =
      group-HasDistinctKeys key new add rs _ (put-HasDistinctKeys (key r) _ d h)

  get-free : {A : Type 0} (j : K) (d : List (K × A)) → IsFreeOf j d → get eq j d ≡ none
  get-free j [] h = refl
  get-free j ((k, a) ∷ d) h = rw h.0 (get-free j d h.1)

  pub get-store_all :
      {A M : Type 0} (f : A → M) (j : K) (d : List (K × A)) (table : List (K × M))
      → HasDistinctKeys d
      → get eq j (store_all eq f d table) ≡ map_or f (get eq j d) (get eq j table)
  unfolding store_all
  get-store_all f j [] table h = refl
  get-store_all f j ((k, a) ∷ d) table h = elim (Bool-cases (eq k j)) [
    | inl hit ↦
        let same = (eq_iff k j).0 hit in
        let free : get eq j d ≡ none = subst (λ i. get eq i d ≡ none) same (get-free k d h.0) in
        rw hit (
          get-store_all f j d (put eq k (f a) table) h.1
          ∙ rw (free, get-put eq eq_iff k j (f a) table, hit) refl)
    | inr miss ↦ rw miss (
        get-store_all f j d (put eq k (f a) table) h.1
        ∙ ap (map_or f (get eq j d)) (rw (get-put eq eq_iff k j (f a) table, miss) refl))
  ]
