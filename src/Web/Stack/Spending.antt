-- ===== src/Web/Stack/Spending.antt =====
-- What the calls of the limiter leave a client in one minute, src/megaraid_dashboard/web/rate_limit.py.
use megaraid_dashboard.Prelude.{
  ℕ, ◌+◌, ◌-◌, ◌≤◌, ◌<◌, ◌≡◌, refl, ◌∙◌, ◌⊎◌, inl, inr, String, Bool, false, leb, ltb, Option, none,
  some, List, [], ◌∷◌, ◌++◌, arith, str_eq, str_eq_refl, keep, length, keep-append, length-append,
  length-keep-le, Bool-cases,
}
use megaraid_dashboard.Web.RateLimit.{
  AttemptSlot, Limiter, Outcome, window, deque, prune_entry, evict_expired, gives_back_on,
  prune_expired_attempts, reserve_in, release_attempt_slot, finish_call,
}
use megaraid_dashboard.Web.RateLimit.Window.{deque-entry}

abbrev is_fresh : ℕ → AttemptSlot → Bool
is_fresh start s = leb start s.recorded_at

-- The attempts of a client since a time.
abbrev pub fresh : ℕ → List AttemptSlot → ℕ
fresh start q = length (keep (is_fresh start) q)

fresh-evict :
    (start now : ℕ) (q : List AttemptSlot)
    → now < start + window
    → fresh start (evict_expired now q) ≡ fresh start q
unfolding evict_expired
fresh-evict start now [] h = refl
fresh-evict start now (s ∷ q) h = ground (arith, fresh-evict start now q h)

fresh-snoc :
    (start : ℕ) (q : List AttemptSlot) (s : AttemptSlot)
    → start ≤ s.recorded_at
    → fresh start (q ++ s ∷ []) ≡ fresh start q + 1
fresh-snoc start q s h = ground (
  arith,
  keep-append (is_fresh start) q (s ∷ []),
  length-append (keep (is_fresh start) q) (keep (is_fresh start) (s ∷ [])),
)

fresh-prune :
    (start now : ℕ) (o : Option (List AttemptSlot))
    → now < start + window
    → fresh start (deque (prune_entry now o)) ≡ fresh start (deque o)
fresh-prune start now none h = refl
fresh-prune start now (some q) h =
    rw (deque-entry (evict_expired now q)) (fresh-evict start now q h)

fresh-prune_all :
    (start now : ℕ) (ip : String) (l : Limiter)
    → now < start + window
    → (fresh start (deque ((prune_expired_attempts now l).attempts ip))
        ≡ fresh start (deque (l.attempts ip)))
      × ((prune_expired_attempts now l).limit ≡ l.limit)
unfolding prune_expired_attempts
fresh-prune_all start now ip l h = elim (Bool-cases (ltb now l.next_global_prune_at)) [
  | inl early ↦ rw early (refl, refl)
  | inr due ↦ rw due (fresh-prune start now (l.attempts ip) h, refl)
]

-- What one step of the limiter does for a client: what it may still try, after what it tried.
pub record Spends (start : ℕ) (ip : String) (tried : ℕ) (l l' : Limiter) : Type 0 where
  pub same_limit : l'.limit ≡ l.limit
  pub spent :
      tried + (l'.limit - fresh start (deque (l'.attempts ip)))
      ≤ l.limit - fresh start (deque (l.attempts ip))

module _ (start now : ℕ) (ip : String) (from : start ≤ now) (until : now < start + window) where
  pub reserve_in-other :
      (client : String) (l : Limiter)
      → str_eq client ip ≡ false
      → Spends start ip 0 l (reserve_in client now l).0
  unfolding reserve_in
  reserve_in-other client l other =
      elim (Bool-cases (leb l.limit (length (evict_expired now (deque (l.attempts client)))))) [
        | inl full ↦ rw full (record { same_limit = refl; spent = rw other (omega arith) })
        | inr free ↦ rw free (record { same_limit = refl; spent = rw other (omega arith) })
      ]

  -- A slot is granted, or the limiter refuses.
  abbrev pub Reserves : Limiter → Limiter × Option AttemptSlot → Type 0
  Reserves l g =
      ((g.1 ≡ none) × Spends start ip 0 l g.0)
      ⊎ ((slot : AttemptSlot) × (g.1 ≡ some slot) × Spends start ip 1 l g.0)

  pub reserve_in-own : (l : Limiter) → Reserves l (reserve_in ip now l)
  unfolding reserve_in
  reserve_in-own l =
      elim (Bool-cases (leb l.limit (length (evict_expired now (deque (l.attempts ip)))))) [
        | inl full ↦ rw full (
            inl (
              refl,
              record {
                same_limit = refl;
                spent =
                    let q = evict_expired now (deque (l.attempts ip)) in
                    rw (str_eq_refl ip, deque-entry q)
                      (omega (arith, fresh-evict start now (deque (l.attempts ip)) until));
              },
            ))
        | inr free ↦ rw free (
            inr (
              _,
              refl,
              record {
                same_limit = refl;
                spent =
                    let q = evict_expired now (deque (l.attempts ip)) in
                    rw (str_eq_refl ip) (
                      ground (
                        arith,
                        fresh-evict start now (deque (l.attempts ip)) until,
                        length-keep-le (is_fresh start) q,
                        fresh-snoc start q (record { id = l.next_id; recorded_at = now }) from,
                      ));
              },
            ))
      ]

  pub Spends-pruned :
      (tried : ℕ) (l l' : Limiter)
      → Spends start ip tried (prune_expired_attempts now l) l'
      → Spends start ip tried l l'
  Spends-pruned tried l l' s =
      let (same, limit) = fresh-prune_all start now ip l until in
      record { same_limit = s.same_limit ∙ limit; spent = rw (same, limit) at s.spent }

  pub Reserves-pruned :
      (l : Limiter) (g : Limiter × Option AttemptSlot)
      → Reserves (prune_expired_attempts now l) g
      → Reserves l g
  Reserves-pruned l g (inl (e, s)) = inl (e, Spends-pruned 0 l g.0 s)
  Reserves-pruned l g (inr (slot, e, s)) = inr (slot, e, Spends-pruned 1 l g.0 s)

  pub release-other :
      (client : String) (slot : AttemptSlot) (outcome : Outcome) (l : Limiter)
      → str_eq client ip ≡ false
      → Spends start ip 0 l (finish_call client slot outcome l)
  unfolding finish_call release_attempt_slot
  release-other client slot outcome l other =
      elim (Bool-cases (gives_back_on outcome.auth_result outcome.ending)) [
        | inl back ↦ rw back (record { same_limit = refl; spent = rw other (omega arith) })
        | inr kept ↦ rw kept (record { same_limit = refl; spent = omega arith })
      ]

  pub Spends-trans :
      (a b : ℕ) (l m n : Limiter)
      → Spends start ip a l m
      → Spends start ip b m n
      → Spends start ip (a + b) l n
  Spends-trans a b l m n s t = record {
    same_limit = t.same_limit ∙ s.same_limit;
    spent = omega (arith, s.spent, t.spent);
  }
