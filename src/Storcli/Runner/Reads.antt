-- ===== src/Storcli/Runner/Reads.antt =====
-- The commands before a write are reads.
use megaraid_dashboard.Prelude.{
  ◌≡◌, refl, inl, inr, String, Bool, true, false, Option, none, some, List, [], ◌∷◌, arith, All,
  Bool-cases, if◌then◌else◌, str_eq,
}
use megaraid_dashboard.Storcli.Commands.{validate_command}
use megaraid_dashboard.Storcli.Json.{Value}
use megaraid_dashboard.Storcli.Parser.{Error, Attempt, ok, raised}
use megaraid_dashboard.Storcli.Policy.{CommandPolicy}
use megaraid_dashboard.Storcli.Prewrite.{Drive}
use megaraid_dashboard.Storcli.Runner.{
  foreign_allows, live_evidence, policy_allows, check_storcli_prewrite, authorize, preflight,
}
use megaraid_dashboard.Storcli.Runner.Dispatch.{
  Machine, Trace, Run, ◌>>=◌, ◌>>◌, continue_run, lift, guard, or_fail, dispatch, read, is_show,
  show_all,
}
use megaraid_dashboard.Storcli.Runner.Foreign.{
  refusing, show_foreign, show_rebuild, foreign_evidence, rebuilds_idle, foreign_checks,
  check_foreign_safety,
}

abbrev pub AllShow : Trace → Type 0
AllShow t = All (λ (c : List String). is_show c ≡ true) t

-- A run that dispatches reads only.
pub record Reads {A : Type 0} (m : Run A) : Type 0 where
  pub kept : (t : Trace) → AllShow t → AllShow (m t).1

continue-AllShow :
    {A B : Type 0} (f : A → Run B)
    → ((a : A) → Reads (f a))
    → (r : Attempt A × Trace) → AllShow r.1
    → AllShow (continue_run f r).1
continue-AllShow f h (ok a, t) k = (h a).kept t k
continue-AllShow f h (raised e, t) k = k

bind-Reads :
    {A B : Type 0} (m : Run A) (f : A → Run B) → Reads m → ((a : A) → Reads (f a)) → Reads (m >>= f)
bind-Reads m f h k = record { kept = λ t s. continue-AllShow f k (m t) (h.kept t s) }

then-Reads : {B : Type 0} (m : Run (Unit {0})) (k : Run B) → Reads m → Reads k → Reads (m >> k)
then-Reads m k h r = bind-Reads m (λ _. k) h (λ _. r)

lift-Reads : {A : Type 0} (r : Attempt A) → Reads (lift r)
lift-Reads r = record { kept = λ t s. s }

guard-Reads : (b : Bool) (e : Error) → Reads (guard b e)
guard-Reads b e = record { kept = λ t s. s }

or_fail-Reads : {A : Type 0} (o : Option A) (e : Error) → Reads (or_fail o e)
or_fail-Reads none e = record { kept = λ t s. s }
or_fail-Reads (some a) e = record { kept = λ t s. s }

read-Reads : (m : Machine) (args : List String) → is_show args ≡ true → Reads (read m args)
unfolding read dispatch
read-Reads m args h = record {
  kept = λ t s. elim (Bool-cases (validate_command args)) [ inl e ↦ rw e (h, s) | inr e ↦ rw e s ];
}

ruleset reads = (bind-Reads, then-Reads, lift-Reads, guard-Reads, or_fail-Reads)

foreign_evidence-Reads : (m : Machine) (e : String) (v : Value) → Reads (foreign_evidence m e v)
unfolding foreign_evidence
foreign_evidence-Reads m e v = search reads

show_rebuild-is_show : (d : Drive) → is_show (show_rebuild d) ≡ true
show_rebuild-is_show d = ground arith

rebuilds_idle-Reads : (m : Machine) (ds : List Drive) → Reads (rebuilds_idle m ds)
unfolding rebuilds_idle
rebuilds_idle-Reads m [] = lift-Reads (ok tt)
rebuilds_idle-Reads m (d ∷ ds) =
    let rest : Reads (rebuilds_idle m ds) = rebuilds_idle-Reads m ds in
    let look : Reads (read m (show_rebuild d)) =
      read-Reads m (show_rebuild d) (show_rebuild-is_show d) in
    search reads depth 20

foreign_checks-Reads :
    (m : Machine) (v : Value) (p : CommandPolicy) (e : String) → Reads (foreign_checks m v p e)
unfolding foreign_checks
foreign_checks-Reads m v p e =
    let foreign : Reads (read m show_foreign) = read-Reads m show_foreign refl in
    let current : Reads (read m show_all) = read-Reads m show_all refl in
    search (reads, rebuilds_idle-Reads, foreign_evidence-Reads) depth 40

refusing-AllShow : (r : Attempt (Unit {0}) × Trace) → AllShow r.1 → AllShow (refusing r).1
refusing-AllShow (ok u, t) h = h
refusing-AllShow (raised e, t) h = h

check_foreign_safety-Reads :
    (m : Machine) (v : Value) (p : CommandPolicy) (e : Option String)
    → Reads (check_foreign_safety m v p e)
unfolding check_foreign_safety
check_foreign_safety-Reads m v p none = record { kept = λ t s. s }
check_foreign_safety-Reads m v p (some e) = record {
  kept = λ t s. elim (Bool-cases (str_eq e "")) [
    | inl blank ↦ rw blank s
    | inr given ↦
        rw given
          (refusing-AllShow (foreign_checks m v p e t) ((foreign_checks-Reads m v p e).kept t s))
  ];
}

if-Reads : {A : Type 0} (b : Bool) (m n : Run A) → Reads m → Reads n → Reads (if b then m else n)
if-Reads true m n h k = h
if-Reads false m n h k = k

foreign_allows-Reads :
    (m : Machine) (args : List String) (v : Value) (p : CommandPolicy) (e : Option String)
    → Reads (foreign_allows m args v p e)
unfolding foreign_allows
foreign_allows-Reads m args v p e =
    if-Reads _ _ _ (check_foreign_safety-Reads m v p e) (lift-Reads (ok tt))

live_evidence-Reads :
    (m : Machine) (args : List String) (p : CommandPolicy) (e : Option String) (v : Value)
    → Reads (live_evidence m args p e v)
unfolding live_evidence
live_evidence-Reads m args p e v = search (reads, foreign_allows-Reads) depth 40

policy_allows-Reads :
    (m : Machine) (args : List String) (p : CommandPolicy) → Reads (policy_allows m args p)
unfolding policy_allows
policy_allows-Reads m args p = search reads

check_storcli_prewrite-Reads :
    (m : Machine) (args : List String) (e : Option String) → Reads (check_storcli_prewrite m args e)
unfolding check_storcli_prewrite
check_storcli_prewrite-Reads m args e =
    let identity : Reads (read m show_all) = read-Reads m show_all refl in
    search (reads, live_evidence-Reads, policy_allows-Reads) depth 40

authorize-Reads :
    (m : Machine) (args : List String) (e : Option String) → Reads (authorize m args e)
unfolding authorize
authorize-Reads m args e = search (reads, check_storcli_prewrite-Reads) depth 20

pub preflight-Reads :
    (m : Machine) (authorized : Bool) (args : List String) (e : Option String)
    → Reads (preflight m authorized args e)
unfolding preflight
preflight-Reads m authorized args e = search (reads, authorize-Reads, if-Reads) depth 20
