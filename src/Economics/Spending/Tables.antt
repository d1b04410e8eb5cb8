-- ===== src/Economics/Spending/Tables.antt =====
-- What the operations of internal/economics/store.go share: their tables, errors and checks.
use delmos.Base.{
  ℕ, ◌+◌, String, Bool, true, false, not, ◌&&◌, Option, none, some, List, [], ◌∷◌, Result, ◌>>=◌,
  fail_if, need, str_eq, leb, if◌then◌else◌, first, codes,
}
use delmos.Automation.Value.{text}
use delmos.Automation.Outbox.{Queue, emit_event}
use delmos.Plan.Projection.{PhaseStatus, active, PhaseRow, is_phase}
use delmos.Review.Tables.{Call}
use delmos.Economics.Costs.{CostTables}

-- The errors of the file. `check_violated` is a CHECK, a UNIQUE or a foreign key of the tables.
pub data SpendingError : Type 0 where
  no_such_phase rate_period_overlap already_approved self_approval no_such_baseline check_violated :
      SpendingError
  phase_not_open : PhaseStatus → SpendingError
  currency_mismatch : String → String → SpendingError

pub record SpendingTables : Type 0 where
  pub costs : CostTables
  pub phases : List PhaseRow
  pub queue : Queue

-- '^[A-Z]{3}$'
abbrev pub is_capital : ℕ → Bool
is_capital c = leb 65 c && leb c 90

abbrev pub three_capitals : List ℕ → Bool
three_capitals (a ∷ b ∷ c ∷ []) = is_capital a && is_capital b && is_capital c
three_capitals cs = false

abbrev pub is_currency : String → Bool
is_currency s = three_capitals (codes s)

abbrev pub work_categories : List String
work_categories = "design" ∷ "development" ∷ "review" ∷ "testing" ∷ "management" ∷ []

abbrev pub cost_categories : List String
cost_categories =
    "labor" ∷ "hardware_prototypes" ∷ "tooling_nre" ∷ "software_licenses" ∷ "testing_services"
    ∷ "contingency" ∷ []

-- `nullIfEmpty`
abbrev pub null_if_empty : String → Option String
null_if_empty s = if str_eq s "" then none else some s

-- `emitInputsChanged`: the id of the event, the project and the actor, if there is one.
abbrev pub emit_inputs_changed : ℕ → ℕ → ℕ → ℕ → Option ℕ → String → Queue → Queue
emit_inputs_changed event_id correlation_id now project_id actor reason q =
    emit_event event_id now "economics.inputs_changed" (some project_id) actor correlation_id
      (("reason", text reason) ∷ []) q

-- A row takes a fresh id, and then the event is emitted.
abbrev pub announce : Call → ℕ → String → Queue → Queue
announce c project_id reason q =
    emit_inputs_changed c.event_id c.correlation_id c.now project_id (some c.actor_id) reason
      (record q { next_id = q.next_id + 1 })

abbrev pub is_active : PhaseStatus → Bool
is_active s = elim s [ active ↦ true | _ ↦ false ]

-- The phase is there and open.
abbrev pub open_phase : ℕ → String → List PhaseRow → Result SpendingError (Unit {0})
open_phase project_id phase_key phases =
    need no_such_phase (first (is_phase project_id phase_key) phases)
    >>= (λ ph. fail_if (not (is_active ph.phase_status)) (phase_not_open ph.phase_status))
