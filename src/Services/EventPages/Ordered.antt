-- ===== src/Services/EventPages/Ordered.antt =====
-- The order of the pages, and what stands behind a page.
use megaraid_dashboard.Prelude.{
  ℕ, zero, suc, ◌≡◌, refl, ap, inl, inr, Bool, true, false, some, List, [], ◌∷◌, arith, keep, take,
  drop, All, All-imp, All-keep, Bool-cases, if◌then◌else◌,
}
use megaraid_dashboard.Services.Notifier.{Event}
use megaraid_dashboard.Services.Notifier.Delivery.{IsOther, AreDistinctRows}
use megaraid_dashboard.Services.EventPages.{
  is_before, is_newer, insert_newest, newest_first, last_or, cursor_of,
}

abbrev pub older : Event → Event → Bool
older e f = is_before (some (cursor_of e)) f

-- Strictly newest first.
abbrev pub IsDescending : List Event → Type 0
IsDescending [] = Unit
IsDescending (e ∷ fs) = All (λ f. older e f ≡ true) fs × IsDescending fs

older_trans : (e f g : Event) → older e f ≡ true → older f g ≡ true → older e g ≡ true
older_trans e f g h k = ground arith

older_newer : (e f : Event) → IsOther e f → is_newer e f ≡ true → older e f ≡ true
older_newer e f o h = ground arith

older_not_newer : (e f : Event) → is_newer e f ≡ false → older f e ≡ true
older_not_newer e f h = ground arith

All-insert_newest :
    (P : Event → Type 0) (e : Event) (fs : List Event) → P e → All P fs → All P (insert_newest e fs)
unfolding insert_newest
All-insert_newest P e [] p h = (p, tt)
All-insert_newest P e (f ∷ fs) p h = elim (Bool-cases (is_newer e f)) [
  | inl b ↦ rw b (p, h)
  | inr n ↦ rw n (h.0, All-insert_newest P e fs p h.1)
]

All-newest_first : (P : Event → Type 0) (es : List Event) → All P es → All P (newest_first es)
unfolding newest_first
All-newest_first P [] h = tt
All-newest_first P (e ∷ es) h =
    All-insert_newest P e (newest_first es) h.0 (All-newest_first P es h.1)

insert_newest-IsDescending :
    (e : Event) (fs : List Event)
    → All (IsOther e) fs
    → IsDescending fs
    → IsDescending (insert_newest e fs)
unfolding insert_newest
insert_newest-IsDescending e [] o d = (tt, tt)
insert_newest-IsDescending e (f ∷ fs) o d = elim (Bool-cases (is_newer e f)) [
  | inl b ↦
      let first = older_newer e f o.0 b in
      rw b ((first, All-imp _ _ (λ g. older_trans e f g first) fs d.0), d)
  | inr n ↦ rw n (
    All-insert_newest (λ g. older f g ≡ true) e fs (older_not_newer e f n) d.0,
    insert_newest-IsDescending e fs o.1 d.1,
  )
]

pub newest_first-IsDescending :
    (es : List Event) → AreDistinctRows es → IsDescending (newest_first es)
unfolding newest_first
newest_first-IsDescending [] h = tt
newest_first-IsDescending (e ∷ es) h =
    insert_newest-IsDescending e (newest_first es) (All-newest_first (IsOther e) es h.0)
      (newest_first-IsDescending es h.1)

-- Every event of a list in front of which `e` belongs.
abbrev IsInFront : Event → List Event → Type 0
IsInFront e fs = All (λ f. is_newer e f ≡ true) fs

insert_newest-front : (e : Event) (fs : List Event) → IsInFront e fs → insert_newest e fs ≡ e ∷ fs
unfolding insert_newest
insert_newest-front e [] h = refl
insert_newest-front e (f ∷ fs) h = rw h.0 refl

newer_older : (e f g : Event) → is_newer e f ≡ true → older f g ≡ true → is_newer e g ≡ true
newer_older e f g h k = ground arith

keep-insert_newest :
    (q : Event → Bool) (e : Event) (fs : List Event)
    → IsDescending fs
    → keep q (insert_newest e fs) ≡ (if q e then insert_newest e (keep q fs) else keep q fs)
unfolding insert_newest
keep-insert_newest q e [] d = refl
keep-insert_newest q e (f ∷ fs) d = elim (Bool-cases (is_newer e f)) [
  | inl b ↦
      let front : IsInFront e (f ∷ fs) = (b, All-imp _ _ (λ g. newer_older e f g b) fs d.0) in
      rw (b, insert_newest-front e (keep q (f ∷ fs)) (All-keep _ q (f ∷ fs) front)) refl
  | inr n ↦ rw n (elim (Bool-cases (q f)) [
    | inl t ↦ rw (t, keep-insert_newest q e fs d.1) (inside n)
    | inr u ↦ rw (u, keep-insert_newest q e fs d.1) refl
  ])
]
  where
    inside :
        is_newer e f ≡ false
        → f ∷ (if q e then insert_newest e (keep q fs) else keep q fs)
          ≡ (if q e then insert_newest e (f ∷ keep q fs) else f ∷ keep q fs)
    inside n = elim (Bool-cases (q e)) [ inl t ↦ rw (t, n) refl | inr u ↦ rw u refl ]

pub newest_first-keep :
    (q : Event → Bool) (es : List Event)
    → AreDistinctRows es
    → newest_first (keep q es) ≡ keep q (newest_first es)
unfolding newest_first
newest_first-keep q [] h = refl
newest_first-keep q (e ∷ es) h = elim (Bool-cases (q e)) [
  | inl t ↦
      rw (t, keep-insert_newest q e (newest_first es) (newest_first-IsDescending es h.1), t)
        (ap (insert_newest e) (newest_first-keep q es h.1))
  | inr u ↦
      rw (u, keep-insert_newest q e (newest_first es) (newest_first-IsDescending es h.1), u)
        (newest_first-keep q es h.1)
]

pub last_older :
    (e f : Event) (n : ℕ) (fs : List Event)
    → older e f ≡ true
    → All (λ g. older e g ≡ true) fs
    → older e (last_or f (take n fs)) ≡ true
last_older e f zero fs h k = h
last_older e f (suc n) [] h k = h
last_older e f (suc n) (g ∷ gs) h k = last_older e g n gs k.0 k.1

older_not : (e f : Event) → older e f ≡ true → older f e ≡ false
older_not e f h = ground arith

older_self : (e : Event) → older e e ≡ false
older_self e = ground arith

pub keep_everything :
    (q : Event → Bool) (es : List Event) → All (λ e. q e ≡ true) es → keep q es ≡ es
keep_everything q [] h = refl
keep_everything q (e ∷ es) h = rw h.0 (ap (λ xs. e ∷ xs) (keep_everything q es h.1))

-- What is older than the last one of a page is what stands behind the page.
pub behind_page :
    (n : ℕ) (e : Event) (fs : List Event)
    → IsDescending (e ∷ fs)
    → keep (older (last_or e (take n fs))) (e ∷ fs) ≡ drop n fs
behind_page zero e fs d = rw (older_self e) (keep_everything (older e) fs d.0)
behind_page (suc n) e [] d = rw (older_self e) refl
behind_page (suc n) e (f ∷ gs) d =
    rw (older_not e (last_or f (take n gs)) (last_older e f n gs d.0.0 d.0.1))
      (behind_page n f gs d.1)
