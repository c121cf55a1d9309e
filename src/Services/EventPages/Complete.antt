-- ===== src/Services/EventPages/Complete.antt =====
-- Following the cursors shows every event once.
use megaraid_dashboard.Prelude.{
  ℕ, zero, suc, ◌≤◌, ◌<◌, ◌≡◌, refl, sym, ap, ◌∙◌, subst, inl, inr, String, Bool, true, ◌&&◌,
  Option, none, some, List, [], ◌∷◌, ◌++◌, map, arith, keep, take, drop, length, ltb, All, All-kept,
  Bool-cases, length-keep-le,
}
use megaraid_dashboard.Services.Notifier.{Event}
use megaraid_dashboard.Services.Notifier.Delivery.{AreDistinctRows}
use megaraid_dashboard.Services.Notifier.Order.{keep-distinct}
use megaraid_dashboard.Services.EventPages.{
  EventsCursor, EventRow, event_row, is_selected, is_before, newest_first, insert_newest, matching,
  last_or, cursor_of, fragment_of, load_page, is_none,
}
use megaraid_dashboard.Services.EventPages.Ordered.{
  older, IsDescending, newest_first-IsDescending, newest_first-keep, behind_page, keep_everything,
}

-- A reader who follows `next_cursor`, on fuel.
unfoldable pub follow :
    ℕ → ℕ → List String → List String → List Event → Option EventsCursor → List EventRow
follow zero page_size categories severities db cursor = []
follow (suc fuel) page_size categories severities db cursor =
    let page = load_page page_size cursor categories severities none db in
    page.events ++ elim page.next_cursor [
      | none ↦ []
      | some next ↦ follow fuel page_size categories severities db (some next)
    ]

module _ {ℓ} {A : Type ℓ} where
  take-take : (n : ℕ) (xs : List A) → take n (take (suc n) xs) ≡ take n xs
  take-take zero xs = refl
  take-take (suc n) [] = refl
  take-take (suc n) (x ∷ xs) = ap (λ ys. x ∷ ys) (take-take n xs)

  ltb-length-take : (n : ℕ) (xs : List A) → ltb n (length (take (suc n) xs)) ≡ ltb n (length xs)
  ltb-length-take zero [] = refl
  ltb-length-take zero (x ∷ xs) = ground arith
  ltb-length-take (suc n) [] = refl
  ltb-length-take (suc n) (x ∷ xs) = ground (arith, ltb-length-take n xs)

  take-all : (n : ℕ) (xs : List A) → length xs ≤ n → take n xs ≡ xs
  take-all zero [] h = refl
  take-all zero (x ∷ xs) h = absurd (omega arith)
  take-all (suc n) [] h = refl
  take-all (suc n) (x ∷ xs) h = ap (λ ys. x ∷ ys) (take-all n xs (omega arith))

  append_nil : (xs : List A) → xs ++ [] ≡ xs
  append_nil [] = refl
  append_nil (x ∷ xs) = ap (λ ys. x ∷ ys) (append_nil xs)

  keep-and : (p q : A → Bool) (xs : List A) → keep (λ x. p x && q x) xs ≡ keep q (keep p xs)
  keep-and p q [] = refl
  keep-and p q (x ∷ xs) = elim (Bool-cases (p x)) [
    | inl t ↦ rw t (elim (Bool-cases (q x)) [
      | inl u ↦ rw u (ap (λ ys. x ∷ ys) (keep-and p q xs))
      | inr v ↦ rw v (keep-and p q xs)
    ])
    | inr f ↦ rw f (keep-and p q xs)
  ]

  keep-keep :
      (p q : A → Bool)
      → ((x : A) → q x ≡ true → p x ≡ true)
      → (xs : List A) → keep q (keep p xs) ≡ keep q xs
  keep-keep p q f [] = refl
  keep-keep p q f (x ∷ xs) = elim (Bool-cases (q x)) [
    | inl t ↦ rw (t, f x t, t) (ap (λ ys. x ∷ ys) (keep-keep p q f xs))
    | inr u ↦ rw u (elim (Bool-cases (p x)) [
      | inl v ↦ rw (v, u) (keep-keep p q f xs)
      | inr w ↦ rw w (keep-keep p q f xs)
    ])
  ]

  length-drop-le : (n : ℕ) (xs : List A) → length (drop n xs) ≤ length xs
  length-drop-le zero xs = omega arith
  length-drop-le (suc n) [] = omega arith
  length-drop-le (suc n) (x ∷ xs) = omega (arith, length-drop-le n xs)

take-drop_rows :
    (n : ℕ) (es : List Event)
    → map event_row (take n es) ++ map event_row (drop n es) ≡ map event_row es
take-drop_rows zero es = refl
take-drop_rows (suc n) [] = refl
take-drop_rows (suc n) (e ∷ es) = ap (λ ys. event_row e ∷ ys) (take-drop_rows n es)

drop-IsDescending : (n : ℕ) (es : List Event) → IsDescending es → IsDescending (drop n es)
drop-IsDescending zero es d = d
drop-IsDescending (suc n) [] d = d
drop-IsDescending (suc n) (e ∷ es) d = drop-IsDescending n es d.1

before_trans :
    (cursor : Option EventsCursor) (l x : Event)
    → is_before cursor l ≡ true
    → older l x ≡ true
    → is_before cursor x ≡ true
before_trans none l x h k = refl
before_trans (some c) l x h k = ground arith

last-before :
    (cursor : Option EventsCursor) (n : ℕ) (e : Event) (fs : List Event)
    → All (λ x. is_before cursor x ≡ true) (e ∷ fs)
    → is_before cursor (last_or e (take n fs)) ≡ true
last-before cursor zero e fs h = h.0
last-before cursor (suc n) e [] h = h.0
last-before cursor (suc n) e (f ∷ fs) h = last-before cursor n f fs h.1

module _ (categories severities : List String) (db : List Event)
    (distinct : AreDistinctRows db) where
  selected : List Event
  selected = newest_first (keep (is_selected categories severities none) db)

  matching-selected :
      (cursor : Option EventsCursor)
      → matching categories severities none cursor db ≡ keep (is_before cursor) selected
  unfolding matching selected
  matching-selected cursor =
      ap newest_first (keep-and (is_selected categories severities none) (is_before cursor) db)
      ∙ newest_first-keep (is_before cursor) (keep (is_selected categories severities none) db)
          (keep-distinct (is_selected categories severities none) db distinct)

  -- The page at a cursor, by the rows that it starts from.
  page-rows :
      (m : ℕ) (cursor : Option EventsCursor) (rows : List Event)
      → keep (is_before cursor) selected ≡ rows
      → load_page (suc m) cursor categories severities none db
        ≡ fragment_of
            (suc m)
            (is_none cursor && true)
            categories
            severities
            (take (suc (suc m)) rows)
  unfolding load_page
  page-rows m cursor rows h = rw (matching-selected cursor, h) refl

  next-rows :
      (m : ℕ) (cursor : Option EventsCursor) (e : Event) (fs : List Event)
      → keep (is_before cursor) selected ≡ e ∷ fs
      → IsDescending (e ∷ fs)
      → keep (older (last_or e (take m fs))) selected ≡ drop m fs
  next-rows m cursor e fs h d =
      let l = last_or e (take m fs) in
      let all_before =
        subst (All (λ x. is_before cursor x ≡ true)) h (All-kept (is_before cursor) selected) in
      let l_before = last-before cursor m e fs all_before in
      sym (keep-keep (is_before cursor) (older l) (λ x. before_trans cursor l x l_before) selected)
      ∙ (ap (keep (older l)) h ∙ behind_page m e fs d)

  follow-rows :
      (fuel m : ℕ) (cursor : Option EventsCursor) (rows : List Event)
      → keep (is_before cursor) selected ≡ rows
      → IsDescending rows
      → length rows < fuel
      → follow fuel (suc m) categories severities db cursor ≡ map event_row rows
  unfolding follow
  follow-rows zero m cursor rows h d lt = absurd (omega arith)
  follow-rows (suc fuel) m cursor [] h d lt = rw (page-rows m cursor [] h) refl
  follow-rows (suc fuel) m cursor (e ∷ fs) h d lt =
      rw (page-rows m cursor (e ∷ fs) h, take-take m fs, ltb-length-take (suc m) (e ∷ fs))
        (elim (Bool-cases (ltb (suc m) (length (e ∷ fs)))) [
          | inl more ↦
              rw
                (
                  more,
                  follow-rows fuel m (some (cursor_of (last_or e (take m fs)))) (drop m fs)
                      (next-rows m cursor e fs h d) (drop-IsDescending m fs d.1)
                      (omega (arith, length-drop-le m fs)),
                )
                (take-drop_rows (suc m) (e ∷ fs))
          | inr fits ↦
              rw fits
                (rw (take-all m fs (ground (arith, fits))) (append_nil (map event_row (e ∷ fs))))
        ])

length-insert_newest : (e : Event) (fs : List Event) → length (insert_newest e fs) ≡ suc (length fs)
unfolding insert_newest
length-insert_newest e [] = refl
length-insert_newest e (f ∷ fs) = ground (arith, length-insert_newest e fs)

length-newest_first : (es : List Event) → length (newest_first es) ≡ length es
unfolding newest_first
length-newest_first [] = refl
length-newest_first (e ∷ es) =
    ground (arith, length-insert_newest e (newest_first es), length-newest_first es)

-- In a table with distinct event numbers, a reader who starts at the first page and follows the
-- cursors, with any page size of at least 1 and any filters, gets the rows of all the selected
-- events, newest first, each once and none left out, in at most as many pages as there are events
-- and one more.
pub follow-all :
    (page_size : ℕ) (categories severities : List String) (db : List Event)
    → 1 ≤ page_size
    → AreDistinctRows db
    → follow (suc (length db)) page_size categories severities db none
      ≡ map event_row (newest_first (keep (is_selected categories severities none) db))
unfolding selected
follow-all zero categories severities db h distinct = absurd (omega arith)
follow-all (suc m) categories severities db h distinct =
    let all = newest_first (keep (is_selected categories severities none) db) in
    follow-rows categories severities db distinct (suc (length db)) m none all
      (keep_everything (λ _. true) all (all_true all))
      (newest_first-IsDescending _
        (keep-distinct (is_selected categories severities none) db distinct))
      (omega (
        arith,
        length-newest_first (keep (is_selected categories severities none) db),
        length-keep-le (is_selected categories severities none) db,
      ))
  where
    all_true : (es : List Event) → All (λ _. true ≡ true) es
    all_true [] = tt
    all_true (e ∷ es) = (refl, all_true es)
