-- ===== src/Web/Replace/Gate/Missing.antt =====
-- The step `missing` and the gate of the step `insert` for the same slot.
use Prim.Native.String.{String, ◌++◌ as cat}
use text.Mathlib.TextLemmas.{cons-append, append_assoc}
use megaraid_dashboard.Prelude.{
  ℕ, ◌≡◌, ◌≢◌, ◌⊎◌, refl, sym, ap, ◌∙◌, inl, inr, Bool, true, false, not, ◌||◌, ◌==◌, none, List,
  arith, str_eq, Bool-cases, and_parts,
}
use megaraid_dashboard.Prelude.Int.{ℤ, pos}
use megaraid_dashboard.Prelude.Text.{casefold}
use megaraid_dashboard.Prelude.Scan.{drop_text}
use megaraid_dashboard.Prelude.Words.{begins, contains_text}
use megaraid_dashboard.Prelude.Words.Laws.{contains-append, casefold-append}
use megaraid_dashboard.Services.DriveActions.{missing, Command, validate_enclosure_slot}
use megaraid_dashboard.Services.DriveActions.Guards.{can_transition_step3, can_transition}
use megaraid_dashboard.Web.Replace.{
  AuditEvent, DriveShow, Reply, ok, err, WriteSettings, SlotRequest, Response, go, answer, recorded,
  record_operator_action, slot_token, replace_message, failed_outcome, precheck_outcome,
  is_action_for_slot, load_last_operator_action_for_slot,
}
use megaraid_dashboard.Web.Replace.Steps.{
  StepWorld, StepPlan, step_plan, run_plan, run_replace_step, live_step, after_write, write_step,
  step_runs,
}
use megaraid_dashboard.Web.Replace.Insert.{last_summary}
use megaraid_dashboard.Web.Replace.Checks.{step_plan-IsPlanned}
use megaraid_dashboard.Services.DriveActions.Allowed.Drives.{in_range_parts}
use megaraid_dashboard.Web.Replace.Gate.{
  IsWord, gate-outcome, failed_outcome-ne, precheck_outcome-ne,
}

-- The message is one of its slot.
contains_token :
    (head token rest : String)
    → contains_text (cat (casefold token) " ") (casefold (cat head (cat token (cat " " rest))))
      ≡ true
unfolding casefold
contains_token head token rest =
    rw
      (
        casefold-append head (cat token (cat " " rest)),
        casefold-append token (cat " " rest),
        casefold-append " " rest,
        sym (append_assoc (casefold token) " " (casefold rest)),
      )
      (contains-append (casefold head) (cat (casefold token) " ") (casefold rest))

abbrev message_event : ℤ → ℤ → String → String → AuditEvent
message_event enclosure slot serial outcome = record {
  category = "operator_action";
  summary = replace_message missing enclosure slot serial outcome;
  read_only_precheck = none;
}

not_locate :
    (enclosure slot : ℤ) (serial outcome : String)
    → begins "locate " (casefold (replace_message missing enclosure slot serial outcome)) ≡ false
unfolding replace_message casefold drop_text
not_locate enclosure slot serial outcome =
    rw (cons-append "r" "eplace step " _, casefold, drop_text) refl

message_parts :
    (enclosure slot : ℤ) (serial outcome : String)
    → replace_message missing enclosure slot serial outcome
      ≡ cat "replace step missing "
          (cat (slot_token enclosure slot) (cat " " (cat "serial " (cat serial (cat " " outcome)))))
unfolding replace_message
message_parts enclosure slot serial outcome =
    let rest = cat serial (cat " " outcome) in
    ap
      (λ (y : String).
        cat "replace step " (cat "missing" (cat " " (cat (slot_token enclosure slot) y))))
      (append_assoc " " "serial " rest)
    ∙ sym (
        append_assoc "replace step " "missing " _
        ∙ ap (cat "replace step ") (append_assoc "missing" " " _))

message_found :
    (full : Bool) (enclosure slot : ℤ) (serial outcome : String)
    → is_action_for_slot full enclosure slot (message_event enclosure slot serial outcome) ≡ true
unfolding is_action_for_slot
message_found full enclosure slot serial outcome =
    let rest = cat serial (cat " " outcome) in
    let here : contains_text (cat (casefold (slot_token enclosure slot)) " ")
          (casefold (replace_message missing enclosure slot serial outcome))
        ≡ true =
      rw (message_parts enclosure slot serial outcome)
        (contains_token "replace step missing " (slot_token enclosure slot) (cat "serial " rest)) in
    ground (arith, here, not_locate enclosure slot serial outcome)

-- What the gate of the insertion sees in a log.
abbrev pub gate : Bool → ℤ → ℤ → List AuditEvent → Bool
gate full enclosure slot log =
    can_transition_step3 (last_summary (load_last_operator_action_for_slot full enclosure slot log))

gate-recorded :
    (full : Bool) (e s : ℕ) (serial outcome : String) (log : List AuditEvent)
    → IsWord serial
    → gate full
        (pos e)
        (pos s)
        (record_operator_action (replace_message missing (pos e) (pos s) serial outcome) none log)
      ≡ str_eq outcome "succeeded"
unfolding load_last_operator_action_for_slot record_operator_action
gate-recorded full e s serial outcome log h =
    rw (message_found full (pos e) (pos s) serial outcome) (gate-outcome e s serial outcome h)

-- An answer 200 or 502, and what it says of the gate.
abbrev Decides : Bool → ℕ → ℕ → Response → Type 0
Decides full e s r =
    (r.status ≡ 200) ⊎ (r.status ≡ 502) → gate full (pos e) (pos s) r.log ≡ (r.status == 200)

module _ (full : Bool) (e s : ℕ) (serial : String) (h : IsWord serial) (log : List AuditEvent)
    (runs : List Command) where
  recorded-Decides :
      (stored : Bool) (outcome error : String) (status : ℕ)
      → str_eq outcome "succeeded" ≡ (status == 200)
      → Decides full e s (
          recorded stored
            (replace_message missing (pos e) (pos s) serial outcome)
            none
            status
            error
            runs
            log)
  recorded-Decides true outcome error status k a = gate-recorded full e s serial outcome log h ∙ k
  recorded-Decides false outcome error status k a = absurd (ground arith)

  answer-Decides :
      (status : ℕ) (error : String)
      → status ≢ 200
      → status ≢ 502
      → Decides full e s (answer status error runs log)
  answer-Decides status error k l a = ground arith

  -- A plan of the step for this slot.
  module _ (w : StepWorld) (p : StepPlan) (he : p.enclosure ≡ pos e) (hs : p.slot ≡ pos s)
      (hn : p.serial_number ≡ serial) where
    after_write-Decides : (r : Reply Bool) → Decides full e s (after_write w missing p runs log r)
    unfolding after_write
    after_write-Decides (ok verified) =
        rw (he, hs, hn) (recorded-Decides w.audit_stored "succeeded" "" 200 refl)
    after_write-Decides (err class text) =
        rw (he, hs, hn)
          (recorded-Decides w.audit_stored (failed_outcome class text) "storcli command failed" 502
            (failed_outcome-ne class text))

module _ (t : WriteSettings) (w : StepWorld) (p : StepPlan) (e s : ℕ) (he : p.enclosure ≡ pos e)
    (hs : p.slot ≡ pos s) (h : IsWord p.serial_number) (log : List AuditEvent) where
  live_step-Decides :
      (live : Reply DriveShow)
      → Decides t.full_supported_actions e s (live_step t w missing p log live)
  unfolding live_step
  live_step-Decides (err class text) =
      rw (he, hs)
        (recorded-Decides t.full_supported_actions e s p.serial_number h log _ w.audit_stored
          (precheck_outcome text) "storcli precheck failed" 502 (precheck_outcome-ne text))
  live_step-Decides (ok live) = elim (Bool-cases (str_eq live.serial_number p.serial_number)) [
    | inr other ↦ rw other (λ a. absurd (ground arith))
    | inl same ↦ elim (Bool-cases (can_transition live.state missing)) [
      | inr no_step ↦ rw (same, no_step) (λ a. absurd (ground arith))
      | inl step ↦
          rw (same, step)
            (after_write-Decides t.full_supported_actions e s p.serial_number h log
              (step_runs t p w.written) w p he hs refl (write_step t w missing p w.written))
    ]
  ]

  run_plan-Decides :
      p.dry_run ≡ false → Decides t.full_supported_actions e s (run_plan t w missing log (go p))
  unfolding run_plan live_step write_step after_write
  run_plan-Decides real = elim (Bool-cases (not t.maintenance_mode || not t.destructive_mode)) [
    | inl off ↦ rw (real, off) (λ a. absurd (ground arith))
    | inr on ↦ rw (real, on) (live_step-Decides w.live)
  ]

-- With a serial number that is one word, a request of the step `missing` that is no dry run and is
-- answered 200 or 502 (a failure before, in or after the command) decides the gate of the insertion
-- at its slot, whatever the log held and whatever the text of the error: the gate is then open if the
-- answer is 200, and closed if it is 502.
pub run_replace_step-gate :
    (t : WriteSettings) (w : StepWorld) (r : SlotRequest) (p : StepPlan) (log : List AuditEvent)
    → step_plan w missing r ≡ go p
    → p.dry_run ≡ false
    → IsWord p.serial_number
    → let after = run_replace_step t w missing r log in
      (after.status ≡ 200) ⊎ (after.status ≡ 502)
      → gate t.full_supported_actions p.enclosure p.slot after.log ≡ (after.status == 200)
unfolding run_replace_step validate_enclosure_slot
run_replace_step-gate t w r p log planned real h a =
    let (he, hs) = and_parts _ _ (step_plan-IsPlanned w missing r p planned).valid in
    let (e, at_e) = in_range_parts 255 p.enclosure he in
    let (s, at_s) = in_range_parts 255 p.slot hs in
    rw (at_e, at_s, planned) (run_plan-Decides t w p e s at_e at_s h log real (rw planned at a))
