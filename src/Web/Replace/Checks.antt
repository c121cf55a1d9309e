-- ===== src/Web/Replace/Checks.antt =====
-- What a plan says of the request that it was made for.
use megaraid_dashboard.Prelude.{◌≡◌, Bool, true, false, Option, none, some, arith, str_eq, String}
use megaraid_dashboard.Services.DriveActions.{ReplaceStep, validate_enclosure_slot}
use megaraid_dashboard.Web.Replace.{DriveShow, SlotRequest, ReplaceRequest, go}
use megaraid_dashboard.Web.Replace.Steps.{StepWorld, StepPlan, step_plan, build_step}

abbrev pub typed_serial : Option ReplaceRequest → Option String
typed_serial none = none
typed_serial (some b) = some b.serial_number

abbrev pub row_has : String → Option DriveShow → Bool
row_has serial none = false
row_has serial (some d) = str_eq d.serial_number serial

pub record IsPlanned (w : StepWorld) (step : ReplaceStep) (r : SlotRequest) (p : StepPlan)
    : Type 0 where
  pub valid : validate_enclosure_slot p.enclosure p.slot ≡ true
  pub typed : typed_serial r.body ≡ some p.serial_number
  pub row : row_has p.serial_number (w.snapshot p.enclosure p.slot) ≡ true
  pub built : build_step step p.enclosure p.slot ≡ some p.argv

pub step_plan-IsPlanned :
    (w : StepWorld) (step : ReplaceStep) (r : SlotRequest) (p : StepPlan)
    → step_plan w step r ≡ go p
    → IsPlanned w step r p
unfolding step_plan
step_plan-IsPlanned w step r p h = record {
  valid = ground arith;
  typed = ground arith;
  row = ground arith;
  built = ground arith;
}
