-- ===== src/Web/RateLimit/Window.antt =====
-- Deques of attempts: eviction is a filter by age, and removal commutes with it.
use megaraid_dashboard.Prelude.{
  ℕ, ◌≤◌, ◌<◌, ◌≡◌, refl, ap, sym, Bool, true, false, not, Option, none, some, List, [], ◌∷◌, ◌++◌,
  inl, inr, arith, ◌==◌, length, keep, All, All-keep, All-imp, Bool-cases,
}
use megaraid_dashboard.Web.RateLimit.{
  AttemptSlot, is_expired, evict_expired, remove_slot, has_slot, deque, entry, release_entry,
}

abbrev pub is_live : ℕ → AttemptSlot → Bool
is_live now s = not (is_expired now s)

-- The attempts that still count at a time.
abbrev pub live : ℕ → List AttemptSlot → List AttemptSlot
live now q = keep (is_live now) q

abbrev pub Before : AttemptSlot → AttemptSlot → Type 0
Before s t = (s.id < t.id) × (s.recorded_at ≤ t.recorded_at)

-- Numbered in the order of arrival.
abbrev pub IsOrdered : List AttemptSlot → Type 0
IsOrdered [] = Unit
IsOrdered (s ∷ q) = All (Before s) q × IsOrdered q

keep-All : (p : AttemptSlot → Bool) (q : List AttemptSlot) → All (λ s. p s ≡ true) q → keep p q ≡ q
keep-All p [] h = refl
keep-All p (s ∷ q) h = ground (arith, keep-All p q h.1, h.0)

-- On an ordered deque, popping from the left is a filter.
pub evict_expired-live :
    (now : ℕ) (q : List AttemptSlot) → IsOrdered q → evict_expired now q ≡ live now q
unfolding evict_expired
evict_expired-live now [] h = refl
evict_expired-live now (s ∷ q) h = elim (Bool-cases (is_expired now s)) [
  | inl old ↦ rw old (evict_expired-live now q h.1)
  | inr young ↦ rw young (
      ap (λ r. s ∷ r)
        (sym (
          keep-All (is_live now) q
            (All-imp (Before s) (λ t. is_live now t ≡ true) (λ t b. ground arith) q h.0))))
]

pub live-live : (t now : ℕ) (q : List AttemptSlot) → t ≤ now → live now (live t q) ≡ live now q
live-live t now [] h = refl
live-live t now (s ∷ q) h = ground (arith, live-live t now q h)

pub live-IsOrdered : (now : ℕ) (q : List AttemptSlot) → IsOrdered q → IsOrdered (live now q)
live-IsOrdered now [] h = h
live-IsOrdered now (s ∷ q) h = elim (Bool-cases (is_live now s)) [
  | inl l ↦ rw l (All-keep (Before s) (is_live now) q h.0, live-IsOrdered now q h.1)
  | inr d ↦ rw d (live-IsOrdered now q h.1)
]

remove_absent : (i : ℕ) (q : List AttemptSlot) → All (λ s. i < s.id) q → remove_slot i q ≡ q
unfolding remove_slot
remove_absent i [] h = refl
remove_absent i (s ∷ q) h = ground (arith, remove_absent i q h.1, h.0)

pub remove_slot-live :
    (i now : ℕ) (q : List AttemptSlot)
    → IsOrdered q
    → remove_slot i (live now q) ≡ live now (remove_slot i q)
unfolding remove_slot
remove_slot-live i now [] h = refl
remove_slot-live i now (s ∷ q) h = ground (arith, remove_slot-live i now q h.1, absent)
  where
    absent : s.id ≡ i → remove_slot i (live now q) ≡ live now q
    absent e = remove_absent i (live now q) (
        All-imp (Before s) (λ t. i < t.id) (λ t b. omega arith) (live now q)
          (All-keep (Before s) (is_live now) q h.0))

remove_not_has : (i : ℕ) (q : List AttemptSlot) → has_slot i q ≡ false → remove_slot i q ≡ q
unfolding remove_slot
remove_not_has i [] h = refl
remove_not_has i (s ∷ q) h = ground (arith, remove_not_has i q)

pub deque-entry : (q : List AttemptSlot) → deque (entry q) ≡ q
deque-entry [] = refl
deque-entry (s ∷ q) = refl

-- Releasing removes the slot from the deque, whether the entry stays or goes.
pub deque-release_entry :
    (i : ℕ) (o : Option (List AttemptSlot)) → deque (release_entry i o) ≡ remove_slot i (deque o)
unfolding remove_slot
deque-release_entry i none = refl
deque-release_entry i (some q) = elim (Bool-cases (has_slot i q)) [
  | inl there ↦ rw there (deque-entry (remove_slot i q))
  | inr absent ↦ rw absent (sym (remove_not_has i q absent))
]

All-remove {κ} :
    (P : AttemptSlot → Type κ) (i : ℕ) (q : List AttemptSlot) → All P q → All P (remove_slot i q)
unfolding remove_slot
All-remove P i [] h = h
All-remove P i (s ∷ q) h = elim (Bool-cases (s.id == i)) [
  | inl e ↦ rw e h.1
  | inr n ↦ rw n (h.0, All-remove P i q h.1)
]

pub remove_slot-IsOrdered :
    (i : ℕ) (q : List AttemptSlot) → IsOrdered q → IsOrdered (remove_slot i q)
unfolding remove_slot
remove_slot-IsOrdered i [] h = h
remove_slot-IsOrdered i (s ∷ q) h = elim (Bool-cases (s.id == i)) [
  | inl e ↦ rw e h.1
  | inr n ↦ rw n (All-remove (Before s) i q h.0, remove_slot-IsOrdered i q h.1)
]

pub All-remove_slot {κ} :
    (P : AttemptSlot → Type κ) (i : ℕ) (q : List AttemptSlot) → All P q → All P (remove_slot i q)
All-remove_slot = All-remove

pub IsOrdered-snoc :
    (q : List AttemptSlot) (t : AttemptSlot)
    → All (λ s. Before s t) q
    → IsOrdered q
    → IsOrdered (q ++ t ∷ [])
IsOrdered-snoc [] t b h = (tt, tt)
IsOrdered-snoc (s ∷ q) t b h = (go q h.0, IsOrdered-snoc q t b.1 h.1)
  where
    go : (r : List AttemptSlot) → All (Before s) r → All (Before s) (r ++ t ∷ [])
    go [] k = (b.0, tt)
    go (u ∷ r) k = (k.0, go r k.1)

pub length-remove_slot : (i : ℕ) (q : List AttemptSlot) → length (remove_slot i q) ≤ length q
unfolding remove_slot
length-remove_slot i [] = omega arith
length-remove_slot i (s ∷ q) = ground (arith, length-remove_slot i q)
