-- ===== src/Storcli/Policy/Permitted.antt =====
-- Every command that a valid policy permits has passed its checks.
use megaraid_dashboard.Prelude.{
  ℕ, ◌≡◌, ◌⊎◌, ap, arith, Option, none, some, false, str_eq_iff, inl, inr, subst, String, true, not,
  List, [], ◌∷◌, str_eq, str_mem, and_parts, any_of, Bool-cases,
}
use Prim.Native.String.{◌++◌ as cat}
use text.Mathlib.Text.{starts_with}
use megaraid_dashboard.Prelude.Text.{decimal}
use megaraid_dashboard.Storcli.Policy.Concrete.{
  IsSlot, IsListed, names_drive-IsSlot, names_volume-path, names_group-word,
  names_topology-IsListed,
}
use megaraid_dashboard.Prelude.Scan.{split_spaces}
use megaraid_dashboard.Storcli.Commands.{
  last_of, is_json, validate_command, with_json_flag, join_spaces,
}
use megaraid_dashboard.Storcli.Policy.{
  ApprovedCommand, CommandPolicy, first_of, is_write, names_drive, names_volume, names_group,
  names_topology, command_is_valid, commands_are_valid, validate_commands, permits,
}

-- What the words of a command satisfy under a policy.
pub record IsReviewed (p : CommandPolicy) (tokens : List String) : Type 0 where
  pub allowed : validate_command tokens ≡ true
  pub json : last_of tokens ≡ some "J"
  pub no_show : str_mem "show" tokens ≡ false
  pub drive :
      starts_with (first_of tokens) "/c0/e" ≡ true → (slot : ℕ) × IsSlot (first_of tokens) slot
  pub volume :
      starts_with (first_of tokens) "/c0/v" ≡ true
      → (first_of tokens ≡ "/c0/vall") ⊎ (first_of tokens ≡ cat "/c0/v" (decimal p.virtual_drive))
  pub group :
      str_mem "add" tokens ≡ true → str_mem (cat "dgs=" (decimal p.disk_group)) tokens ≡ true
  pub insertion : str_mem "insert" tokens ≡ true → IsListed p tokens

json_word : (o : Option String) → is_json o ≡ true → o ≡ some "J"
json_word none h = cc
json_word (some s) h = ap some ((str_eq_iff s "J").0 h)

written :
    (tokens : List String)
    → is_write tokens ≡ true
    → (last_of tokens ≡ some "J") × (str_mem "show" tokens ≡ false)
written tokens h =
    let (json, no_show) = and_parts (is_json (last_of tokens)) (not (str_mem "show" tokens)) h in
    (json_word (last_of tokens) json, ground arith)

reviewed :
    (p : CommandPolicy) (seen : List String) (command : String)
    → command_is_valid p seen command ≡ true
    → IsReviewed p (split_spaces command)
unfolding command_is_valid
reviewed p seen command h =
    let (h1, topology) = and_parts _ (names_topology p (split_spaces command)) h in
    let (h2, group) = and_parts _ (names_group p (split_spaces command)) h1 in
    let (h3, volume) = and_parts _ (names_volume p (split_spaces command)) h2 in
    let (h4, drive) = and_parts _ (names_drive (split_spaces command)) h3 in
    let (h5, write) = and_parts _ (is_write (split_spaces command)) h4 in
    let (allowed, fresh) = and_parts _ (not (str_mem command seen)) h5 in
    let (json, no_show) = written (split_spaces command) write in
    record {
      allowed = allowed;
      json = json;
      no_show = no_show;
      drive = names_drive-IsSlot (split_spaces command) drive;
      volume = names_volume-path p (split_spaces command) volume;
      group = names_group-word p (split_spaces command) group;
      insertion = names_topology-IsListed p (split_spaces command) topology;
    }

permitted-IsReviewed :
    (p : CommandPolicy) (seen : List String) (cs : List ApprovedCommand) (command : String)
    → commands_are_valid p seen cs ≡ true
    → any_of (λ (c : ApprovedCommand). str_eq c.command command) cs ≡ true
    → IsReviewed p (split_spaces command)
unfolding commands_are_valid
permitted-IsReviewed p seen [] command h m = cc
permitted-IsReviewed p seen (c ∷ cs) command h m =
    let (first, rest) = and_parts (command_is_valid p seen c.command) _ h in
    elim (Bool-cases (str_eq c.command command)) [
      | inl hit ↦
          subst (λ s. IsReviewed p (split_spaces s)) ((str_eq_iff c.command command).0 hit)
            (reviewed p seen c.command first)
      | inr miss ↦ permitted-IsReviewed p (c.command ∷ seen) cs command rest (rw miss at m)
    ]

-- Whatever arguments a policy that passed its checks permits, the words of the command that is run,
-- with its JSON flag, are on the allow-list, end with `J` and have no `show`. A first word that begins
-- with `/c0/e` is `/c0/e252/s` and a number up to 7; one that begins with `/c0/v` is `/c0/vall` or
-- `/c0/v` and the number of the policy's volume. With the word `add` goes `dgs=` and the number of the
-- policy's disk group. With the word `insert` the first word is such a drive, and the three words from
-- the third on are `dg=`, `array=` and `row=` with the numbers that the policy lists for the drive's
-- slot, in its own disk group.
pub permits-IsReviewed :
    (p : CommandPolicy) (args : List String)
    → validate_commands p ≡ true
    → permits p args ≡ true
    → IsReviewed p (split_spaces (join_spaces (with_json_flag args)))
unfolding validate_commands permits
permits-IsReviewed p args h m =
    permitted-IsReviewed p [] p.commands (join_spaces (with_json_flag args)) (and_parts _ _ h).1 m
