-- ===== src/Services/Health/Agreement.antt =====
-- When a drive or a controller is shown as healthy, and how that agrees with the events.
use megaraid_dashboard.Prelude.{
  ◌≡◌, refl, ap, ◌↔◌, ◌⊎◌, inl, inr, String, Bool, true, false, Option, none, some, List, [], ◌∷◌,
  ◌++◌, arith, str_mem, str_mem-All, if◌then◌else◌,
}
use megaraid_dashboard.Storcli.States.{normalized_state}
use megaraid_dashboard.Storcli.Models.{PhysicalDrive}
use megaraid_dashboard.Services.Events.{Severity, critical, physical_drive_state_severity}
use megaraid_dashboard.Services.Health.{
  HealthSeverity, Grade, fault_reasons, reasons_of_state, reason_if, state_reasons, is_hot,
  is_elevated, critical_reasons, warning_reasons, assess_reasons, assess_drive_health, severity_of,
}

-- The states in which a drive without other faults is healthy.
abbrev pub healthy_states : List String
healthy_states = "onln" ∷ "online" ∷ "ugood" ∷ "dhs" ∷ "ghs" ∷ []

pub record HasNoFault (d : PhysicalDrive) (g : Grade) : Type 0 where
  pub healthy_state : str_mem (normalized_state d.state) healthy_states ≡ true
  pub no_alert : d.smart_alert ≡ false
  pub no_prediction : d.predictive_failures ≡ 0
  pub no_media_errors : d.media_errors ≡ 0
  pub no_other_errors : d.other_errors ≡ 0
  pub cool : (g ≡ Grade.ok) ⊎ (g ≡ Grade.unknown)

assess_severity :
    (state : String) (cs ws : List String)
    → (assess_reasons state cs ws).severity ≡ severity_of cs ws
assess_severity state [] [] = refl
assess_severity state [] (w ∷ ws) = refl
assess_severity state (c ∷ cs) ws = refl

optimal_iff_none :
    (cs ws : List String) → (severity_of cs ws ≡ HealthSeverity.optimal) ↔ ((cs ≡ []) × (ws ≡ []))
optimal_iff_none [] [] = (λ _. (refl, refl), λ _. refl)
optimal_iff_none [] (w ∷ ws) = (λ h. cc, λ h. cc (h.1))
optimal_iff_none (c ∷ cs) ws = (λ h. cc, λ h. cc (h.0))

no_fault :
    (raw : String) (fault : Option String) (rebuilding jbod known_good : Bool)
    → fault_reasons raw fault rebuilding jbod known_good ≡ ([], [])
    → known_good ≡ true
no_fault raw fault rebuilding jbod true h = refl
no_fault raw (some f) rebuilding jbod false h = cc
no_fault raw none true jbod false h = cc
no_fault raw none false true false h = cc
no_fault raw none false false false h = cc

no_state_reason :
    (d : PhysicalDrive)
    → (state_reasons d ≡ ([], [])) ↔ (str_mem (normalized_state d.state) healthy_states ≡ true)
unfolding state_reasons
no_state_reason d = (
  no_fault d.state _ _ _ _,
  str_mem-All (λ s. reasons_of_state d.state s ≡ ([], [])) (normalized_state d.state) healthy_states
      (refl, (refl, (refl, (refl, (refl, tt))))),
)

optimal_iff_no_reason :
    (d : PhysicalDrive) (g : Grade)
    → ((assess_drive_health d g).severity ≡ HealthSeverity.optimal)
      ↔ ((critical_reasons d g ≡ []) × (warning_reasons d g ≡ []))
unfolding assess_drive_health
optimal_iff_no_reason d g =
    rw (assess_severity (normalized_state d.state) (critical_reasons d g) (warning_reasons d g))
      (optimal_iff_none (critical_reasons d g) (warning_reasons d g))

append_nil_iff {ℓ} : {A : Type ℓ} (xs ys : List A) → (xs ++ ys ≡ []) ↔ ((xs ≡ []) × (ys ≡ []))
append_nil_iff [] ys = (λ h. (refl, h), λ h. h.1)
append_nil_iff (x ∷ xs) ys = (λ h. cc, λ h. cc (h.0))

reason_if_nil : (b : Bool) (r : String) → (reason_if b r ≡ []) ↔ (b ≡ false)
reason_if_nil true r = (λ h. cc, λ h. cc)
reason_if_nil false r = (λ h. refl, λ h. refl)

-- Three optional reasons behind those of the state.
parts_nil :
    (s : List String) (a b c : Bool) (p q r : String)
    → (s ++ (reason_if a p ++ (reason_if b q ++ reason_if c r)) ≡ [])
      ↔ ((s ≡ []) × (a ≡ false) × (b ≡ false) × (c ≡ false))
parts_nil [] true b c p q r = (λ h. cc, λ h. cc (h.1))
parts_nil [] false true c p q r = (λ h. cc, λ h. cc (h.2))
parts_nil [] false false c p q r =
    (λ h. (refl, refl, refl, (reason_if_nil c r).0 h), λ h. (reason_if_nil c r).1 h.3)
parts_nil (x ∷ s) a b c p q r = (λ h. cc, λ h. cc (h.0))

abbrev IsQuietGrade : Grade → Type 0
IsQuietGrade g = (is_hot g ≡ false) × (is_elevated g ≡ false)

quiet_grade : (g : Grade) → IsQuietGrade g ↔ ((g ≡ Grade.ok) ⊎ (g ≡ Grade.unknown))
quiet_grade Grade.unknown = (λ h. inr refl, λ h. (refl, refl))
quiet_grade Grade.ok = (λ h. inl refl, λ h. (refl, refl))
quiet_grade Grade.warning = (λ h. cc (h.1), λ h. ground arith)
quiet_grade Grade.critical = (λ h. cc (h.0), λ h. ground arith)

no_reason→HasNoFault :
    (d : PhysicalDrive) (g : Grade)
    → critical_reasons d g ≡ []
    → warning_reasons d g ≡ []
    → HasNoFault d g
unfolding critical_reasons warning_reasons
no_reason→HasNoFault d g hc hw =
    let (s, a, b, c) = (parts_nil (state_reasons d).0 _ _ _ _ _ _).0 hc in
    let (s', a', b', c') = (parts_nil (state_reasons d).1 _ _ _ _ _ _).0 hw in
    record {
      healthy_state = (no_state_reason d).0 (λ i. (s i, s' i));
      no_alert = a;
      no_prediction = ground (arith, b);
      no_media_errors = ground (arith, b');
      no_other_errors = ground (arith, c');
      cool = (quiet_grade g).0 (c, a');
    }

HasNoFault→no_reason :
    (d : PhysicalDrive) (g : Grade)
    → HasNoFault d g
    → (critical_reasons d g ≡ []) × (warning_reasons d g ≡ [])
unfolding critical_reasons warning_reasons
HasNoFault→no_reason d g h =
    let same = (no_state_reason d).1 h.healthy_state in
    let (hot, elevated) = (quiet_grade g).1 h.cool in
    (
      (parts_nil _ _ _ _ _ _ _).1 (
        ap (λ (r : List String × List String). r.0) same,
        h.no_alert,
        ground (arith, h.no_prediction),
        hot,
      ),
      (parts_nil _ _ _ _ _ _ _).1 (
        ap (λ (r : List String × List String). r.1) same,
        elevated,
        ground (arith, h.no_media_errors),
        ground (arith, h.no_other_errors),
      ),
    )

-- A drive is shown as optimal exactly when its normalised state is one of the known good ones, its
-- SMART alert is off, all three error counters are 0 and its temperature grade is neither warning
-- nor critical.
pub assess-optimal_iff :
    (d : PhysicalDrive) (g : Grade)
    → ((assess_drive_health d g).severity ≡ HealthSeverity.optimal) ↔ HasNoFault d g
assess-optimal_iff d g = (
  λ h. let (hc, hw) = (optimal_iff_no_reason d g).0 h in no_reason→HasNoFault d g hc hw,
  λ h. (optimal_iff_no_reason d g).1 (HasNoFault→no_reason d g h),
)

severity_is_critical :
    (a b : Bool)
    → (if a then critical else (if b then Severity.warning else Severity.info)) ≡ critical
    → a ≡ true
severity_is_critical true b h = refl
severity_is_critical false true h = cc
severity_is_critical false false h = cc

faulty_state :
    (d : PhysicalDrive)
    → physical_drive_state_severity d.state ≡ critical
    → (f : String) × (state_reasons d ≡ (f ∷ [], []))
unfolding physical_drive_state_severity state_reasons
faulty_state d h =
    str_mem-All (λ s. (f : String) × (reasons_of_state d.state s ≡ (f ∷ [], [])))
      (normalized_state d.state) ("failed" ∷ "missing" ∷ "offline" ∷ "ubad" ∷ [])
      ((_, refl), ((_, refl), ((_, refl), ((_, refl), tt)))) (severity_is_critical _ _ h)

-- A drive whose state the event detector grades as critical is shown as critical on every page,
-- whatever its counters and its temperature grade.
pub assess-critical_of_event :
    (d : PhysicalDrive) (g : Grade)
    → physical_drive_state_severity d.state ≡ critical
    → (assess_drive_health d g).severity ≡ HealthSeverity.critical
unfolding assess_drive_health critical_reasons
assess-critical_of_event d g h = let (f, e) = faulty_state d h in rw e refl
