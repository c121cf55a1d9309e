-- ===== src/Storcli/Policy/Workflow.antt =====
-- A replacement is refused as a whole.
use Prim.Native.String.{◌++◌ as cat}
use megaraid_dashboard.Prelude.{
  ℕ, zero, suc, ◌<◌, ◌≡◌, ◌⊎◌, refl, inl, inr, Option-cases, String, Bool, true, false, ◌==◌, some,
  List, [], ◌∷◌, arith, find_first, any_of,
}
use megaraid_dashboard.Prelude.Text.{decimal}
use megaraid_dashboard.Prelude.Scan.{drop_text}
use megaraid_dashboard.Prelude.Words.{ends, words}
use megaraid_dashboard.Storcli.Parser.{slot_of_path}
use megaraid_dashboard.Storcli.Policy.{CommandPolicy, ReplacementTopology, permits}
use megaraid_dashboard.Storcli.Policy.Actions.{
  suffixes, tails, drive_action, drive_command, drive_commands, insert_tail, action_commands,
  action_refusal, refused_step, replacement_refusal, replacement_command_refusal, replacement_base,
  is_replacement,
}

abbrev pub drive_path : ℕ → String
drive_path n = cat "/c0/e252/s" (decimal n)

abbrev base : ℕ → String
base n = replacement_base (drive_path n ∷ [])

-- The path of a step stands for the commands of the slot and the step.
StandsFor : CommandPolicy → ℕ → String → Type 0
StandsFor p n step =
    action_commands p (cat (base n) (cat "/" step))
    ≡ drive_commands p (some (n, cat "replace/" step))

abbrev AtSteps : CommandPolicy → ℕ → Type 0
AtSteps p n = StandsFor p n "offline" × StandsFor p n "missing" × StandsFor p n "insert"

at_steps : (p : CommandPolicy) (n : ℕ) → n < 8 → AtSteps p n
unfolding StandsFor action_commands suffixes ends drive_action drop_text slot_of_path decimal
at_steps p zero h = (refl, refl, refl)
at_steps p (suc zero) h = (refl, refl, refl)
at_steps p (suc (suc zero)) h = (refl, refl, refl)
at_steps p (suc (suc (suc zero))) h = (refl, refl, refl)
at_steps p (suc (suc (suc (suc zero)))) h = (refl, refl, refl)
at_steps p (suc (suc (suc (suc (suc zero))))) h = (refl, refl, refl)
at_steps p (suc (suc (suc (suc (suc (suc zero)))))) h = (refl, refl, refl)
at_steps p (suc (suc (suc (suc (suc (suc (suc zero))))))) h = (refl, refl, refl)
at_steps p (suc (suc (suc (suc (suc (suc (suc (suc n)))))))) h = absurd (omega arith)

-- The policy permits all three commands of a replacement at the slot.
pub record IsWhole (p : CommandPolicy) (n : ℕ) : Type 0 where
  pub offline : permits p (words (drive_command n "set offline J")) ≡ true
  pub missing : permits p (words (drive_command n "set missing J")) ≡ true
  pub topology : ReplacementTopology
  pub listed : find_first (λ (t : ReplacementTopology). t.slot == n) p.replacements ≡ some topology
  pub insertion : permits p (words (drive_command n (insert_tail topology))) ≡ true

abbrev permitted_one : CommandPolicy → List String → Bool
permitted_one p commands = any_of (λ (c : String). permits p (words c)) commands

step_permitted :
    (p : CommandPolicy) (n : ℕ) (step : String)
    → StandsFor p n step
    → refused_step p (base n) step ≡ false
    → permitted_one p (drive_commands p (some (n, cat "replace/" step))) ≡ true
unfolding refused_step action_refusal StandsFor
step_permitted p n step same h = let k = rw same at h in ground arith

not_refused :
    (p : CommandPolicy) (b : String)
    → replacement_refusal p b ≡ false
    → (refused_step p b "offline" ≡ false)
      × (refused_step p b "missing" ≡ false)
      × (refused_step p b "insert" ≡ false)
unfolding replacement_refusal
not_refused p b h = (ground arith, ground arith, ground arith)

whole : (p : CommandPolicy) (n : ℕ) → n < 8 → replacement_refusal p (base n) ≡ false → IsWhole p n
unfolding drive_commands tails
whole p n small h =
    let (at_offline, at_missing, at_insert) = at_steps p n small in
    let (offline, missing, insert) = not_refused p (base n) h in
    let one = step_permitted p n "offline" at_offline offline in
    let two = step_permitted p n "missing" at_missing missing in
    let three = step_permitted p n "insert" at_insert insert in
    elim (Option-cases (find_first (λ (t : ReplacementTopology). t.slot == n) p.replacements)) [
      | inl unlisted ↦ absurd (let k = rw unlisted at three in cc)
      | inr (t, listed) ↦
          let k = rw listed at three in
          record {
            offline = ground arith;
            missing = ground arith;
            topology = t;
            listed = listed;
            insertion = ground arith;
          }
    ]

-- The words after the drive that begin a step of a replacement.
abbrev pub IsStep : List String → Type 0
IsStep ws =
    (rest : List String) × ((ws ≡ "set" ∷ "offline" ∷ rest)
      ⊎ (ws ≡ "set" ∷ "missing" ∷ rest)
      ⊎ (ws ≡ "insert" ∷ rest))

insert_replacement :
    (target : String) (rest : List String) → is_replacement (target ∷ "insert" ∷ rest) ≡ true
insert_replacement target [] = refl
insert_replacement target (w ∷ rest) = refl

step_replacement :
    (target : String) (ws : List String) → IsStep ws → is_replacement (target ∷ ws) ≡ true
step_replacement target ws (rest, step) = elim step [
  | inl set_offline ↦ rw set_offline refl
  | inr (inl set_missing) ↦ rw set_missing refl
  | inr (inr insert) ↦ rw insert (insert_replacement target rest)
]

-- If a command on one of the slots 0 to 7 of enclosure 252 that sets its drive offline or missing, or
-- inserts it, is not refused, then the policy permits all three commands of a replacement at this slot,
-- the insertion with the topology that it lists for the slot.
pub replacement_command_refusal-IsWhole :
    (p : CommandPolicy) (n : ℕ) (words_after : List String)
    → n < 8
    → IsStep words_after
    → replacement_command_refusal p (drive_path n ∷ words_after) ≡ false
    → IsWhole p n
unfolding replacement_command_refusal
replacement_command_refusal-IsWhole p n words_after small step h =
    whole p n small (let k = rw (step_replacement (drive_path n) words_after step) at h in k)
