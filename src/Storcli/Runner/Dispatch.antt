-- ===== src/Storcli/Runner/Dispatch.antt =====
-- What `run_storcli` of src/megaraid_dashboard/storcli/runner.py meets, and the run of one command. A
-- run passes on the commands that were dispatched, the newest first.
use megaraid_dashboard.Prelude.{
  ℕ, String, Bool, false, not, ◌&&◌, Option, none, some, List, [], ◌∷◌, str_eq, str_mem, any_of,
  if◌then◌else◌,
}
use megaraid_dashboard.Prelude.Text.{casefold}
use megaraid_dashboard.Prelude.Words.{contains_text}
use megaraid_dashboard.Storcli.Commands.{validate_command}
use megaraid_dashboard.Storcli.Json.{Value, Members, obj}
use megaraid_dashboard.Storcli.Parser.{
  Error, parse_error, not_available, command_failed, response_failed, Attempt, ok, raised,
}
use megaraid_dashboard.Storcli.Responses.{is_write_response, failed_response}
use megaraid_dashboard.Storcli.Policy.{CommandPolicy}

-- What a started process comes to: its code is 0 or not, its output as JSON, and its error output,
-- stripped.
pub data Process : Type 0 where
  missing timed_out : Process
  exited : Bool → Option Value → String → Process

-- What the runner meets: the verdicts of the checks of the binary and the policies that are loaded, by
-- their number; the processes, by the commands dispatched before and the command; the verdict of the
-- caller's last check; and the SHA-256 of a response as JSON.
pub record Machine : Type 0 where
  pub use_sudo : Bool
  pub pinned : ℕ → Bool
  pub policies : ℕ → Option CommandPolicy
  pub process : List (List String) → List String → Process
  pub before_write : Bool
  pub fingerprint : Members → String

abbrev pub Trace : Type 0
Trace = List (List String)

abbrev pub Run : Type 0 → Type 0
Run A = Trace → Attempt A × Trace

abbrev pub continue_run : {A B : Type 0} → (A → Run B) → Attempt A × Trace → Attempt B × Trace
continue_run f (ok a, t) = f a t
continue_run f (raised e, t) = (raised e, t)

infixl 5 ◌>>=◌ ◌>>◌
abbrev pub ◌>>=◌ : {A B : Type 0} → Run A → (A → Run B) → Run B
◌>>=◌ m f t = continue_run f (m t)

abbrev pub ◌>>◌ : {B : Type 0} → Run (Unit {0}) → Run B → Run B
m >> k = m >>= λ _. k

abbrev pub lift : {A : Type 0} → Attempt A → Run A
lift r t = (r, t)

abbrev pub guard : Bool → Error → Run (Unit {0})
guard b e t = (if b then ok tt else raised e, t)

abbrev pub or_fail : {A : Type 0} → Option A → Error → Run A
or_fail none e t = (raised e, t)
or_fail (some a) e t = (ok a, t)

abbrev pub holds_phrase : List String → String → Bool
holds_phrase phrases s = any_of (λ (phrase : String). contains_text phrase s) phrases

unfoldable pub sudo_blocked : String → Bool
sudo_blocked stderr_text =
    holds_phrase ("a password is required" ∷ "a terminal is required" ∷ "not in the sudoers" ∷ [])
      (casefold stderr_text)

abbrev pub failure : Option Value → Attempt Value
failure none = raised (command_failed "storcli exited with a code")
failure (some payload) = raised (response_failed payload)

abbrev pub parsed : Bool → Option Value → Attempt Value
parsed checks none = raised parse_error
parsed checks (some (obj fs)) =
    if checks && not (is_write_response (obj fs)) then raised parse_error else ok (obj fs)
parsed checks (some other) = raised parse_error

-- From the process to the result; the flag asks for the schema of a write's response.
unfoldable pub result_of : Bool → Bool → Process → Attempt Value
result_of use_sudo checks missing = raised not_available
result_of use_sudo checks timed_out = raised (command_failed "storcli timed out")
result_of use_sudo checks (exited success stdout stderr_text) =
    if use_sudo && sudo_blocked stderr_text
    then raised not_available
    else if not success
    then if str_eq stderr_text ""
      then failure (failed_response stdout)
      else raised (command_failed stderr_text)
    else parsed checks stdout

unfoldable pub dispatch : Machine → Bool → List String → Run Value
dispatch m checks args trace = (result_of m.use_sudo checks (m.process trace args), args ∷ trace)

abbrev pub is_show : List String → Bool
is_show args = str_mem "show" args

-- `run_storcli` of a read with no authorization.
unfoldable pub read : Machine → List String → Run Value
read m args trace =
    if validate_command args
    then dispatch m false args trace
    else (raised (command_failed "storcli command is not allowed"), trace)

abbrev pub show_all : List String
show_all = "/c0" ∷ "show" ∷ "all" ∷ "J" ∷ []
