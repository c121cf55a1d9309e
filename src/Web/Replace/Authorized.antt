-- ===== src/Web/Replace/Authorized.antt =====
-- What holds whenever a request of the replacement runs its command.
use megaraid_dashboard.Prelude.{
  ◌≡◌, ◌⊎◌, inl, inr, refl, Bool, true, false, not, ◌&&◌, ◌||◌, some, List, [], ◌∷◌, arith, str_eq,
  str_mem, if◌then◌else◌, String, ◌<◌, ◌≤◌,
}
use megaraid_dashboard.Prelude.Int.{ℤ, pos}
use megaraid_dashboard.Prelude.Text.{decimal_ℤ}
use Prim.Native.String.{◌++◌ as cat}
use megaraid_dashboard.Services.DriveActions.{Command, validate_enclosure_slot, drive_path}
use megaraid_dashboard.Services.DriveActions.Guards.{can_transition_step3}
use megaraid_dashboard.Web.Replace.{
  AuditEvent, DriveShow, Reply, ok, err, WriteSettings, SlotRequest, Response, Check, go, refuse,
  load_last_operator_action_for_slot,
}
use megaraid_dashboard.Web.Replace.Insert.{
  InsertWorld, InsertPlan, insert_plan, slot_topology, last_summary, run_insert, live_insert,
  after_insert, drive_replace_insert,
}
use megaraid_dashboard.Web.Replace.Checks.{typed_serial}

-- A command that is more than a look.
abbrev pub is_change : Command → Bool
is_change c = not (str_mem "show" c)

-- The words of the look at a slot.
abbrev pub look : ℤ → ℤ → Command
look enclosure slot = drive_path enclosure slot ∷ "show" ∷ "all" ∷ "J" ∷ []

-- The words of the insertion at a place of the topology.
abbrev pub insertion : InsertPlan → Command
insertion p =
    drive_path p.enclosure p.slot
    ∷ "insert"
    ∷ cat "dg=" (decimal_ℤ (pos p.topology.dg))
    ∷ cat "array=" (decimal_ℤ (pos p.topology.array))
    ∷ cat "row=" (decimal_ℤ (pos p.topology.row))
    ∷ "J"
    ∷ []

abbrev shows : String → Reply DriveShow → Bool
shows serial (err class text) = false
shows serial (ok d) = str_eq d.serial_number serial && str_eq d.state "UGood"

-- The conditions of an insertion at a slot.
pub record IsAuthorized (t : WriteSettings) (w : InsertWorld) (r : SlotRequest)
    (log : List AuditEvent) (p : InsertPlan) : Type 0 where
  pub at_enclosure : r.enclosure ≡ some p.enclosure
  pub at_slot : r.slot ≡ some p.slot
  pub valid : validate_enclosure_slot p.enclosure p.slot ≡ true
  pub typed : typed_serial r.body ≡ some p.serial_number
  pub gate :
      can_transition_step3 (
        last_summary
          (load_last_operator_action_for_slot t.full_supported_actions p.enclosure p.slot log))
      ≡ true
  pub placed_at : slot_topology t w p.enclosure p.slot ≡ some p.topology
  pub real : p.dry_run ≡ false
  pub modes : (t.maintenance_mode && t.destructive_mode) ≡ true
  pub live : shows p.serial_number w.live ≡ true

-- Nothing, or one look at the drive of the plan.
abbrev pub IsLook : Check InsertPlan → List Command → Type 0
IsLook plan runs =
    (runs ≡ []) ⊎ ((p : InsertPlan) × (plan ≡ go p) × (runs ≡ look p.enclosure p.slot ∷ []))

live-refused :
    (w : InsertWorld) (p : InsertPlan) (log : List AuditEvent) (live : Reply DriveShow)
    → (live_insert w p log live).status < 500
    → 400 ≤ (live_insert w p log live).status
    → ((live_insert w p log live).runs ≡ look p.enclosure p.slot ∷ [])
      × ((live_insert w p log live).log ≡ log)
unfolding live_insert after_insert
live-refused w p log live hi lo = (ground arith, ground arith)

-- A response with a status 4xx stands for no more than a look.
abbrev IsTimid : Check InsertPlan → List AuditEvent → Response → Type 0
IsTimid plan log response =
    response.status < 500 → 400 ≤ response.status → IsLook plan response.runs × (response.log ≡ log)

either-IsTimid :
    (plan : Check InsertPlan) (log : List AuditEvent) (b : Bool) (x y : Response)
    → IsTimid plan log x
    → IsTimid plan log y
    → IsTimid plan log (if b then x else y)
either-IsTimid plan log true x y h k = h
either-IsTimid plan log false x y h k = k

run_insert-IsTimid :
    (t : WriteSettings) (w : InsertWorld) (log : List AuditEvent) (plan : Check InsertPlan)
    → IsTimid plan log (run_insert t w log plan)
unfolding run_insert
run_insert-IsTimid t w log (refuse status error) = λ hi lo. (inl refl, refl)
run_insert-IsTimid t w log (go p) =
    either-IsTimid (go p) log p.dry_run _ _ (λ hi lo. (inl refl, refl))
      (either-IsTimid (go p) log (not t.maintenance_mode || not t.destructive_mode) _ _
        (λ hi lo. (inl refl, refl))
        (λ hi lo.
          let (runs, kept) = live-refused w p log w.live hi lo in (inr (p, refl, runs), kept)))

-- A request of the insertion that is answered 4xx has run no command, or only one look at the drive of
-- its plan, and leaves the audit log as it was.
pub drive_replace_insert-refused :
    (t : WriteSettings) (w : InsertWorld) (r : SlotRequest) (log : List AuditEvent)
    → 400 ≤ (drive_replace_insert t w r log).status
    → (drive_replace_insert t w r log).status < 500
    → IsLook (insert_plan t w r log) (drive_replace_insert t w r log).runs
      × ((drive_replace_insert t w r log).log ≡ log)
unfolding drive_replace_insert
drive_replace_insert-refused t w r log lo hi =
    run_insert-IsTimid t w log (insert_plan t w r log) hi lo
