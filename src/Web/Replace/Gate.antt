-- ===== src/Web/Replace/Gate.antt =====
-- What the messages of the step `missing` do to the gate of the step `insert`.
pub mod Missing
use Prim.Native.String.{String, ◌++◌ as cat}
use Prim.Native.Char.{code}
use text.Mathlib.TextLemmas.{
  nil-append, cons-append, append_assoc, append_cancel_left, head-eq_of_cons-eq,
}
use megaraid_dashboard.Prelude.{
  Bool-cases, inl, inr, str_eq_iff, ℕ, ◌≡◌, refl, sym, ap, ◌∙◌, Bool, true, false, not, ◌&&◌,
  Option, none, some, List, [], ◌∷◌, arith, str_eq, str_eq_refl, if◌then◌else◌, leb,
}
use megaraid_dashboard.Prelude.Int.{ℤ, pos, negsuc}
use megaraid_dashboard.Prelude.Text.{decimal, decimal_ℤ, is_space}
use megaraid_dashboard.Prelude.Scan.{read_number, drop_text}
use megaraid_dashboard.Prelude.Scan.Decimal.{read_number-decimal, drop_text-append}
use megaraid_dashboard.Prelude.Words.{span_word, read_word}
use megaraid_dashboard.Prelude.Words.Laws.{is_solid, span_word-append}
use megaraid_dashboard.Services.DriveActions.{missing}
use megaraid_dashboard.Services.DriveActions.Guards.{
  replace_step_missing_success, can_transition_step3,
}
use megaraid_dashboard.Web.Replace.{replace_message, slot_token, failed_outcome, precheck_outcome}

-- A serial number that is one word.
pub record IsWord (serial : String) : Type 0 where
  pub solid : is_solid serial ≡ true
  pub some_character : str_eq serial "" ≡ false

colon_stops : (n : ℕ) (s : String) → read_number true n (cat ":" s) ≡ some (n, cat ":" s)
unfolding read_number
colon_stops n s = rw (cons-append ":" "" s) refl

serial_stops :
    (n : ℕ) (s : String) → read_number true n (cat " serial " s) ≡ some (n, cat " serial " s)
unfolding read_number
serial_stops n s = rw (cons-append " " "serial " s) refl

read_serial :
    (serial rest : String)
    → IsWord serial
    → read_word (cat serial (cat " " rest)) ≡ some (serial, cat " " rest)
unfolding read_word
read_serial serial rest h =
    rw
      (
        cons-append " " "" rest,
        nil-append rest,
        span_word-append serial rest " " h.solid refl,
        h.some_character,
      )
      refl

abbrev after_slot_text : String → String → String
after_slot_text serial outcome = cat " serial " (cat serial (cat " " outcome))

head_text :
    (y : String)
    → cat "replace step missing drive " y
      ≡ cat "replace step " (cat "missing" (cat " " (cat "drive " y)))
head_text y =
    append_assoc "replace step " "missing drive " y
    ∙ ap (cat "replace step ")
        (append_assoc "missing" " drive " y ∙ ap (cat "missing") (append_assoc " " "drive " y))

pub slot_text :
    (e s : ℕ) (y : String)
    → cat (slot_token (pos e) (pos s)) y
      ≡ cat "drive " (cat (decimal e) (cat ":" (cat (decimal s) y)))
unfolding slot_token decimal_ℤ
slot_text e s y =
    append_assoc "drive " (cat (decimal e) (cat ":" (decimal s))) y
    ∙ ap (cat "drive ") (
        append_assoc (decimal e) (cat ":" (decimal s)) y
        ∙ ap (cat (decimal e)) (append_assoc ":" (decimal s) y))

message_text :
    (e s : ℕ) (serial outcome : String)
    → replace_message missing (pos e) (pos s) serial outcome
      ≡ cat "replace step missing drive "
          (cat (decimal e) (cat ":" (cat (decimal s) (after_slot_text serial outcome))))
unfolding replace_message
message_text e s serial outcome =
    ap (λ (y : String). cat "replace step " (cat "missing" (cat " " y)))
      (slot_text e s (after_slot_text serial outcome))
    ∙ sym (head_text _)

spaced : (s t : String) → str_eq (cat " " s) (cat " " t) ≡ str_eq s t
spaced s t =
    ground (arith, str_eq_iff s t, str_eq_iff (cat " " s) (cat " " t), append_cancel_left " " s t)

-- The gate reads the message back up to its outcome.
pub gate_at :
    (e s : ℕ) (serial outcome : String)
    → IsWord serial
    → replace_step_missing_success (replace_message missing (pos e) (pos s) serial outcome)
      ≡ str_eq (cat " " outcome) " succeeded"
unfolding replace_step_missing_success
gate_at e s serial outcome h =
    rw
      (
        message_text e s serial outcome,
        drop_text-append "replace step missing drive "
            (cat (decimal e) (cat ":" (cat (decimal s) (after_slot_text serial outcome)))),
        read_number-decimal e (cat ":" (cat (decimal s) (after_slot_text serial outcome))),
        colon_stops e (cat (decimal s) (after_slot_text serial outcome)),
        drop_text-append ":" (cat (decimal s) (after_slot_text serial outcome)),
        read_number-decimal s (after_slot_text serial outcome),
        serial_stops s (cat serial (cat " " outcome)),
        drop_text-append " serial " (cat serial (cat " " outcome)),
        read_serial serial outcome h,
      )
      refl

-- The gate opens on one outcome only.
pub gate-outcome :
    (e s : ℕ) (serial outcome : String)
    → IsWord serial
    → can_transition_step3 (some (replace_message missing (pos e) (pos s) serial outcome))
      ≡ str_eq outcome "succeeded"
unfolding can_transition_step3
gate-outcome e s serial outcome h = gate_at e s serial outcome h ∙ spaced outcome "succeeded"

failed-ne : (t : String) → str_eq (cat "failed: " t) "succeeded" ≡ false
failed-ne t = elim (Bool-cases (str_eq (cat "failed: " t) "succeeded")) [
  | inl h ↦
      let e : cat "failed: " t ≡ "succeeded" = (str_eq_iff (cat "failed: " t) "succeeded").0 h in
      let first : code "f" ≡ code "s" =
        ap code (head-eq_of_cons-eq (sym (cons-append "f" "ailed: " t) ∙ e)) in
      absurd (omega (arith, first))
  | inr h ↦ h
]

pub failed_outcome-ne :
    (class text : String) → str_eq (failed_outcome class text) "succeeded" ≡ false
unfolding failed_outcome
failed_outcome-ne class text = failed-ne _

pub precheck_outcome-ne : (text : String) → str_eq (precheck_outcome text) "succeeded" ≡ false
unfolding precheck_outcome
precheck_outcome-ne text =
    ap (λ (t : String). str_eq t "succeeded")
      (append_assoc "failed: " "storcli precheck failed: " _)
    ∙ failed-ne _
