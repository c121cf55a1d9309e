-- ===== src/Web/RateLimit/Refinement.antt =====
-- The limiter gives the replies of its specification, whatever the interleaving of calls.
use megaraid_dashboard.Prelude.{
  ℕ, ◌+◌, ◌≤◌, ◌≡◌, refl, ap, sym, ◌∙◌, subst, String, Option, some, List, [], ◌∷◌, ◌++◌, inl, inr,
  arith, leb, ltb, str_eq, str_eq_iff, length, keep-append, All-append, Bool-cases,
}
use megaraid_dashboard.Web.RateLimit.{
  AttemptSlot, Limiter, Outcome, Attempts, deque, write, release_entry, new, evict_expired,
  prune_expired_attempts, reserve_in, reserve_attempt_slot, release_attempt_slot, remove_slot,
  gives_back_on, finish_call,
}
use megaraid_dashboard.Web.RateLimit.Window.{
  is_live, live, remove_slot-live, deque-entry, deque-release_entry, remove_slot-IsOrdered,
  All-remove_slot, IsOrdered-snoc,
}
use megaraid_dashboard.Web.RateLimit.Spec.{
  History, amend, spec_reserve, spec_finish, Op, arrive, finish, step, spec_step, replies,
  spec_replies, time_of, IsChronological, Agrees, Refines, evict-Agrees, later, evicted,
  prune-Agrees,
}

-- A write to one client's entry keeps the agreement of all clients.
write-Agrees :
    (now next : ℕ) (m : Attempts) (a : String → List AttemptSlot) (ip : String)
    (o : Option (List AttemptSlot)) (h : List AttemptSlot)
    → ((j : String) → Agrees now next (m j) (a j))
    → Agrees now next o h
    → (j : String) → Agrees now next (write m ip o j) (amend a ip h j)
write-Agrees now next m a ip o h all one j = elim (Bool-cases (str_eq ip j)) [
  | inl e ↦ rw e one
  | inr n ↦ rw n (all j)
]

write_only-Agrees :
    (now next : ℕ) (m : Attempts) (a : String → List AttemptSlot) (ip : String)
    (o : Option (List AttemptSlot))
    → ((j : String) → Agrees now next (m j) (a j))
    → Agrees now next o (a ip)
    → (j : String) → Agrees now next (write m ip o j) (a j)
write_only-Agrees now next m a ip o all one j = elim (Bool-cases (str_eq ip j)) [
  | inl e ↦ rw e (subst (λ k. Agrees now next o (a k)) ((str_eq_iff ip j).0 e) one)
  | inr n ↦ rw n (all j)
]

snoc-Agrees :
    (t next : ℕ) (o : Option (List AttemptSlot)) (h : List AttemptSlot)
    → Agrees t next o h
    → Agrees t
        (next + 1)
        (some (evict_expired t (deque o) ++ record { id = next; recorded_at = t } ∷ []))
        (h ++ record { id = next; recorded_at = t } ∷ [])
snoc-Agrees t next o h a = record {
  seen_at = t;
  seen_before = omega arith;
  same =
      rw (evict-Agrees t (omega arith) a)
        (sym (keep-append (is_live t) h _ ∙ ap (λ r. live t h ++ r) fresh));
  ordered = IsOrdered-snoc h _ a.past a.ordered;
  past =
      All-append _ h _ ((later t (next + 1) (omega arith) (omega arith) a).past)
        ((omega arith, omega arith), tt);
}
  where
    fresh :
        live t (record { id = next; recorded_at = t } ∷ [])
        ≡ record { id = next; recorded_at = t } ∷ []
    fresh = ground arith

pub prune-Refines :
    (now t : ℕ) (l : Limiter) (h : History)
    → now ≤ t
    → Refines now l h
    → Refines t (prune_expired_attempts t l) h
unfolding prune_expired_attempts
prune-Refines now t l h le r = elim (Bool-cases (ltb t l.next_global_prune_at)) [
  | inl wait ↦ rw wait (record {
    same_limit = r.same_limit;
    same_next = r.same_next;
    agrees = λ ip. later t h.next_id le (omega arith) (r.agrees ip);
  })
  | inr due ↦ rw due (record {
    same_limit = r.same_limit;
    same_next = r.same_next;
    agrees = λ ip. prune-Agrees t le (r.agrees ip);
  })
]

abbrev Simulates : ℕ → Limiter × Option AttemptSlot → History × Option AttemptSlot → Type 0
Simulates t c s = Refines t c.0 s.0 × (c.1 ≡ s.1)

reserve_in-Simulates :
    (t : ℕ) (ip : String) (l : Limiter) (h : History)
    → Refines t l h
    → Simulates t (reserve_in ip t l) (spec_reserve ip t h)
unfolding reserve_in spec_reserve
reserve_in-Simulates t ip l h r =
    rw (same_q, r.same_limit, r.same_next)
      (elim (Bool-cases (leb h.limit (length (live t (h.admitted ip))))) [
        | inl full ↦ rw full (
          record {
            same_limit = refl;
            same_next = refl;
            agrees =
                write_only-Agrees t h.next_id l.attempts h.admitted ip _ r.agrees
                  (evicted t _ (omega arith) (deque-entry _ ∙ sym same_q) (r.agrees ip));
          },
          refl,
        )
        | inr free ↦ rw free (
          record {
            same_limit = refl;
            same_next = refl;
            agrees =
                write-Agrees t (h.next_id + 1) l.attempts h.admitted ip _ _
                  (λ j. later t (h.next_id + 1) (omega arith) (omega arith) (r.agrees j))
                  (subst
                    (λ q.
                      Agrees t (h.next_id + 1)
                        (some (q ++ record { id = h.next_id; recorded_at = t } ∷ []))
                        (h.admitted ip ++ record { id = h.next_id; recorded_at = t } ∷ []))
                    same_q (snoc-Agrees t h.next_id (l.attempts ip) (h.admitted ip) (r.agrees ip)));
          },
          refl,
        )
      ])
  where
    same_q : evict_expired t (deque (l.attempts ip)) ≡ live t (h.admitted ip)
    same_q = evict-Agrees t (omega arith) (r.agrees ip)

release-Agrees :
    (now next i : ℕ) (o : Option (List AttemptSlot)) (h : List AttemptSlot)
    → Agrees now next o h
    → Agrees now next (release_entry i o) (remove_slot i h)
release-Agrees now next i o h a = record {
  seen_at = a.seen_at;
  seen_before = a.seen_before;
  same =
      deque-release_entry i o
      ∙ ap (remove_slot i) a.same
      ∙ remove_slot-live i a.seen_at h a.ordered;
  ordered = remove_slot-IsOrdered i h a.ordered;
  past = All-remove_slot _ i h a.past;
}

finish-Refines :
    (now : ℕ) (ip : String) (slot : AttemptSlot) (o : Outcome) (l : Limiter) (h : History)
    → Refines now l h
    → Refines now (finish_call ip slot o l) (spec_finish ip slot o h)
unfolding finish_call spec_finish release_attempt_slot
finish-Refines now ip slot o l h r = elim (Bool-cases (gives_back_on o.auth_result o.ending)) [
  | inl back ↦ rw back (record {
    same_limit = r.same_limit;
    same_next = r.same_next;
    agrees =
        write-Agrees now h.next_id l.attempts h.admitted ip _ _ r.agrees
          (release-Agrees now h.next_id slot.id (l.attempts ip) (h.admitted ip) (r.agrees ip));
  })
  | inr kept ↦ rw kept r
]

pub step-Simulates :
    (now : ℕ) (op : Op) (l : Limiter) (h : History)
    → now ≤ time_of now op
    → Refines now l h
    → Simulates (time_of now op) (step op l) (spec_step op h)
unfolding step spec_step reserve_attempt_slot
step-Simulates now (arrive ip t) l h le r =
    reserve_in-Simulates t ip (prune_expired_attempts t l) h (prune-Refines now t l h le r)
step-Simulates now (finish ip slot o) l h le r = (finish-Refines now ip slot o l h r, refl)

replies-refine :
    (now : ℕ) (ops : List Op) (l : Limiter) (h : History)
    → IsChronological now ops
    → Refines now l h
    → replies l ops ≡ spec_replies h ops
unfolding replies spec_replies
replies-refine now [] l h c r = refl
replies-refine now (op ∷ ops) l h c r =
    let (r', e) = step-Simulates now op l h c.0 r in
    cc (e, replies-refine (time_of now op) ops (step op l).0 (spec_step op h).0 c.1 r')

abbrev pub fresh_history : ℕ → ℕ → History
fresh_history per_minute burst = record {
  limit = per_minute + burst;
  admitted = λ _. [];
  next_id = 0;
}

pub new-Refines :
    (per_minute burst now : ℕ)
    → Refines now (new per_minute burst now) (fresh_history per_minute burst)
unfolding new
new-Refines per_minute burst now = record {
  same_limit = refl;
  same_next = refl;
  agrees = λ ip. record {
    seen_at = now;
    seen_before = omega arith;
    same = refl;
    ordered = tt;
    past = tt;
  };
}

-- From a new limiter, any interleaving of arrivals and ends of calls whose arrival times do not go
-- back gets exactly the replies of the specification: an arrival gets a slot unless the attempts of
-- its client in the last minute that were not given back number the limit or more.
pub replies-eq-spec_replies :
    (per_minute burst now : ℕ) (ops : List Op)
    → IsChronological now ops
    → replies (new per_minute burst now) ops ≡ spec_replies (fresh_history per_minute burst) ops
replies-eq-spec_replies per_minute burst now ops c =
    replies-refine now ops _ _ c (new-Refines per_minute burst now)
