-- ===== src/Storcli/Runner/Approved.antt =====
-- What holds whenever an authorized write is dispatched.
use megaraid_dashboard.Prelude.{
  ◌≡◌, ◌⊎◌, refl, subst, inl, inr, String, Bool, true, false, not, Option, some, List, [], ◌∷◌,
  arith, any_of, Bool-cases, Option-cases, and_parts, str_eq_iff,
}
use megaraid_dashboard.Storcli.Commands.{validate_command, with_json_flag}
use megaraid_dashboard.Storcli.Json.{Value}
use megaraid_dashboard.Storcli.Parser.{Error, Attempt, ok, raised}
use megaraid_dashboard.Storcli.Parser.Controller.{ControllerIdentity, parse_controller_show_all}
use megaraid_dashboard.Storcli.Policy.{CommandPolicy, permits}
use megaraid_dashboard.Storcli.Policy.Actions.{replacement_command_refusal}
use megaraid_dashboard.Storcli.Prewrite.{response_at}
use megaraid_dashboard.Storcli.Runner.{
  alarm_allows, activity_allows, topology_allows, live_evidence, policy_allows,
  check_storcli_prewrite, authorize, preflight, dispatched, run_storcli,
}
use megaraid_dashboard.Storcli.Runner.Dispatch.{
  Machine, Trace, ◌>>=◌, ◌>>◌, dispatch, read, is_show, show_all,
}
use megaraid_dashboard.Storcli.Runner.Foreign.{is_controller}
use megaraid_dashboard.Storcli.Runner.Reads.{AllShow, preflight-Reads}

-- The evidence that a policy and a response of the controller give for a command.
pub record Evidence (m : Machine) (args : List String) : Type 0 where
  pub policy : CommandPolicy
  pub loaded : m.policies 1 ≡ some policy
  pub complete : replacement_command_refusal policy args ≡ false
  pub permitted : permits policy args ≡ true
  pub identity : Value
  pub shown : (read m show_all []).0 ≡ ok identity
  pub controller : ControllerIdentity
  pub parsed : parse_controller_show_all identity ≡ ok controller
  pub serial : controller.serial_number ≡ policy.controller_serial
  pub model : controller.model_name ≡ "LSI MegaRAID SAS 9270CV-8i"
  pub alarm : alarm_allows args (some controller.alarm_state) ≡ true
  pub activity : activity_allows args identity ≡ true
  pub topology : topology_allows args (response_at identity) policy ≡ true

Attempt-cases :
    {A : Type 0} (r : Attempt A) → ((e : Error) × (r ≡ raised e)) ⊎ ((a : A) × (r ≡ ok a))
Attempt-cases (ok a) = inr (a, refl)
Attempt-cases (raised e) = inl (e, refl)

module _ (m : Machine) (args : List String) (e : Option String) (p : CommandPolicy) where
  evident-parsed :
      (v : Value) (t : Trace)
      → (live_evidence m args p e v t).0 ≡ ok tt
      → (c : ControllerIdentity) × (parse_controller_show_all v ≡ ok c)
        × (is_controller p c ≡ true)
        × (alarm_allows args (some c.alarm_state) ≡ true)
        × (activity_allows args v ≡ true)
        × (topology_allows args (response_at v) p ≡ true)
  unfolding live_evidence
  evident-parsed v t h = elim (Attempt-cases (parse_controller_show_all v)) [
    | inl (x, bad) ↦ absurd (let k = rw bad at h in cc)
    | inr (c, good) ↦
        let k = rw good at h in (c, good, ground arith, ground arith, ground arith, ground arith)
  ]

  evident-policy :
      (t : Trace)
      → (policy_allows m args p t).0 ≡ ok tt
      → (replacement_command_refusal p args ≡ false)
        × (permits p args ≡ true)
        × (policy_allows m args p t ≡ (ok tt, t))
  unfolding policy_allows
  evident-policy t h = (ground arith, ground arith, ground arith)

Run-cases :
    {A : Type 0} (x : Attempt A × Trace)
    → ((e : Error) × (t : Trace) × (x ≡ (raised e, t))) ⊎ ((a : A) × (t : Trace) × (x ≡ (ok a, t)))
Run-cases (ok a, t) = inr (a, t, refl)
Run-cases (raised e, t) = inl (e, t, refl)

module _ (m : Machine) (args : List String) (e : Option String) where
  -- From the policy on.
  policy-Evidence :
      (p : CommandPolicy)
      → m.policies 1 ≡ some p
      → ((policy_allows m args p >> (read m show_all >>= live_evidence m args p e)) []).0 ≡ ok tt
      → Evidence m args
  policy-Evidence p loaded h = elim (Run-cases (policy_allows m args p [])) [
    | inl (x, t, bad) ↦ absurd (let k = rw bad at h in cc)
    | inr (u, t, good) ↦
        let allowed : (policy_allows m args p []).0 ≡ ok tt = rw good refl in
        let (complete, permitted, same) = evident-policy m args e p [] allowed in
        elim (Run-cases (read m show_all [])) [
          | inl (x, s, bad) ↦ absurd (let k = rw (same, bad) at h in cc)
          | inr (v, s, shown) ↦
              let k = rw (same, shown) at h in
              let (c, parsed, known, alarm, activity, topology) = evident-parsed m args e p v s k in
              record {
                policy = p;
                loaded = loaded;
                complete = complete;
                permitted = permitted;
                identity = v;
                shown = rw shown refl;
                controller = c;
                parsed = parsed;
                serial = (str_eq_iff c.serial_number p.controller_serial).0 (and_parts _ _ known).0;
                model =
                    (str_eq_iff c.model_name "LSI MegaRAID SAS 9270CV-8i").0
                      (and_parts _ _ known).1;
                alarm = alarm;
                activity = activity;
                topology = topology;
              }
        ]
  ]

  prewrite-Evidence : (check_storcli_prewrite m args e []).0 ≡ ok tt → Evidence m args
  unfolding check_storcli_prewrite
  prewrite-Evidence h =
      let valid : validate_command args ≡ true = ground arith in
      let pinned : m.pinned 0 ≡ true = ground arith in
      let k = rw (valid, pinned) at h in
      elim (Option-cases (m.policies 1)) [
        | inl none_ ↦ absurd (let b = rw none_ at k in cc)
        | inr (p, loaded) ↦ policy-Evidence p loaded (rw loaded at k)
      ]

  authorize-prewrite :
      (authorize m args e []).0 ≡ ok tt
      → ((check_storcli_prewrite m args e []).0 ≡ ok tt) × (m.pinned 1 ≡ true)
  unfolding authorize
  authorize-prewrite h = elim (Option-cases (m.policies 0)) [
    | inl none_ ↦ absurd (let b = rw none_ at h in cc)
    | inr (p, loaded) ↦
        let k = rw loaded at h in
        elim (Run-cases (check_storcli_prewrite m args e [])) [
          | inl (x, t, bad) ↦ absurd (let b = rw bad at k in cc)
          | inr (u, t, good) ↦ let g = rw good at k in (rw good refl, ground arith)
        ]
  ]

  preflight-authorize :
      is_show args ≡ false
      → (preflight m true args e []).0 ≡ ok tt
      → ((authorize m args e []).0 ≡ ok tt) × (m.before_write ≡ true)
  unfolding preflight
  preflight-authorize write h =
      let k = rw write at h in
      elim (Run-cases (authorize m args e [])) [
        | inl (x, t, bad) ↦ absurd (let b = rw bad at k in cc)
        | inr (u, t, good) ↦ let g = rw good at k in (rw good refl, ground arith)
      ]

-- All that was checked.
pub record IsApproved (m : Machine) (args : List String) : Type 0 where
  pub allowed : validate_command args ≡ true
  pub evidence : Evidence m args
  pub binary : m.pinned 1 ≡ true
  pub last_check : m.before_write ≡ true

abbrev pub has_write : Trace → Bool
has_write t = any_of (λ (c : List String). not (is_show c)) t

AllShow-has_write : (t : Trace) → AllShow t → has_write t ≡ false
AllShow-has_write [] h = refl
AllShow-has_write (c ∷ t) h = rw (h.0, AllShow-has_write t h.1) refl

-- The trace ends with this command, the only write in it, and the command was approved.
pub record IsOnlyWrite (m : Machine) (args : List String) (trace : Trace) : Type 0 where
  pub before : Trace
  pub reads : AllShow before
  pub last : trace ≡ args ∷ before
  pub write : is_show args ≡ false
  pub approved : IsApproved m args

dispatched-IsOnlyWrite :
    (m : Machine) (args : List String) (e : Option String) (r : Attempt (Unit {0}) × Trace)
    → preflight m true args e [] ≡ r
    → validate_command args ≡ true
    → has_write (dispatched m true args r).trace ≡ true
    → IsOnlyWrite m args (dispatched m true args r).trace
unfolding dispatched dispatch
dispatched-IsOnlyWrite m args e (raised x, t) same valid sent =
    let reads : AllShow t =
      subst (λ r. AllShow r.1) same ((preflight-Reads m true args e).kept [] tt) in
    absurd (let none_ = AllShow-has_write t reads in cc)
dispatched-IsOnlyWrite m args e (ok u, t) same valid sent =
    let reads : AllShow t =
      subst (λ r. AllShow r.1) same ((preflight-Reads m true args e).kept [] tt) in
    elim (Bool-cases (is_show args)) [
      | inl show ↦ absurd (let none_ = AllShow-has_write (args ∷ t) (show, reads) in cc)
      | inr write ↦
          let fine : (preflight m true args e []).0 ≡ ok tt = rw same refl in
          let (authorized, last) = preflight-authorize m args e write fine in
          let (prewrite, binary) = authorize-prewrite m args e authorized in
          record {
            before = t;
            reads = reads;
            last = refl;
            write = write;
            approved = record {
              allowed = valid;
              evidence = prewrite-Evidence m args e prewrite;
              binary = binary;
              last_check = last;
            };
          }
    ]

-- Whenever a run under an authorization dispatches a write, the write is the given command with its
-- JSON flag, it is dispatched once, as the last command, and only reads come before it. The command is
-- on the allow-list, the policy permits it, and for a step of a replacement all three steps; the
-- controller was read first and has the policy's serial number and the one supported model, its buzzer, its locate setting and its topology admit
-- the command, and the binary was verified again and the caller's last check passed.
pub run_storcli-IsApproved :
    (m : Machine) (args : List String) (e : Option String)
    → has_write (run_storcli m true args e).trace ≡ true
    → IsOnlyWrite m (with_json_flag args) (run_storcli m true args e).trace
unfolding run_storcli
run_storcli-IsApproved m args e sent = elim (Bool-cases (validate_command (with_json_flag args))) [
  | inl valid ↦
      rw valid (dispatched-IsOnlyWrite m (with_json_flag args) e _ refl valid (rw valid at sent))
  | inr bad ↦ absurd (let none_ = rw bad at sent in cc)
]

dispatched-unsent :
    (m : Machine) (a : Bool) (args : List String) (r : Attempt (Unit {0}) × Trace)
    → AllShow r.1
    → (dispatched m a args r).write_sent ≡ some false
    → AllShow (dispatched m a args r).trace
unfolding dispatched
dispatched-unsent m a args (raised x, t) h unsent = h
dispatched-unsent m a args (ok u, t) h unsent = cc

-- Where a failure says that no write was sent, only reads were dispatched, whatever the authorization
-- and whatever the processes answered.
pub run_storcli-unsent :
    (m : Machine) (authorized : Bool) (args : List String) (e : Option String)
    → (run_storcli m authorized args e).write_sent ≡ some false
    → AllShow (run_storcli m authorized args e).trace
unfolding run_storcli
run_storcli-unsent m authorized args e unsent =
    elim (Bool-cases (validate_command (with_json_flag args))) [
      | inl valid ↦ rw valid (
          dispatched-unsent m authorized (with_json_flag args) _
            ((preflight-Reads m authorized (with_json_flag args) e).kept [] tt)
            (rw valid at unsent))
      | inr bad ↦ absurd (let no_sent = rw bad at unsent in cc)
    ]
