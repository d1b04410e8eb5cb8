-- ===== src/Automation/Rules.antt =====
-- The rules of a trigger and their enforcement (internal/automation/rules.go).
pub mod Loading
pub mod Decoding
pub mod Verdicts
mod Tests
use delmos.Base.{
  ℤ, String, Bool, true, false, ◌&&◌, Option, none, some, List, [], ◌∷◌, ◌++◌, Result, ok, err,
  keep, leb_int, str_eq, if◌then◌else◌,
}
use delmos.Automation.Condition.{ConditionNode, EvalContext, EvalError, Verdict, evaluate}

pub data RuleOutcome : Type 0 where
  violated evaluation_error : RuleOutcome

-- `reason`: the error's message, or none for "assert не виконано".
pub record RuleViolation : Type 0 where
  pub rule_key : String
  pub outcome : RuleOutcome
  pub reason : Option EvalError

-- MANDATORY_VETO, or any other level, which counts as ADVISORY_WARNING.
pub data Enforcement : Type 0 where
  veto advisory : Enforcement

-- A row of core.rule_definitions with its conditions decoded; Decoding has the rows as stored, and the
-- errors of `loadRules`.
pub record RuleDefinition : Type 0 where
  pub rule_key : String
  pub trigger_key : String
  pub priority : ℤ
  pub enforcement : Enforcement
  pub when_condition : ConditionNode
  pub assert_condition : ConditionNode
  pub active : Bool

-- ORDER BY priority ASC, rows of one priority in the table's order.
abbrev pub place : RuleDefinition → List RuleDefinition → List RuleDefinition
place r [] = r ∷ []
place r (s ∷ rs) =
    let rest = place r rs in if leb_int r.priority s.priority then r ∷ s ∷ rs else s ∷ rest

unfoldable pub by_priority : List RuleDefinition → List RuleDefinition
by_priority [] = []
by_priority (r ∷ rs) = place r (by_priority rs)

-- The query of `loadRules`.
unfoldable pub load_rules : String → List RuleDefinition → List RuleDefinition
load_rules trigger rules = by_priority (keep (λ r. str_eq r.trigger_key trigger && r.active) rules)

-- `outcome` and `reason` after the assert: none if it passed.
abbrev pub failure : Verdict → Option (RuleOutcome × Option EvalError)
failure (ok true) = none
failure (ok false) = some (violated, none)
failure (err e) = some (evaluation_error, some e)

-- What one turn of the loop does: go on, leave an advisory note, or return the violation.
pub data Turn : Type 0 where
  go_on : Turn
  note : RuleViolation → Turn
  refuse : RuleViolation → Turn

abbrev pub fails : RuleDefinition → RuleOutcome × Option EvalError → Turn
fails r (outcome, reason) =
    let v : RuleViolation = record { rule_key = r.rule_key; outcome = outcome; reason = reason } in
    elim r.enforcement [ veto ↦ refuse v | advisory ↦ note v ]

-- A `when` that fails blocks under a veto and is passed over otherwise.
abbrev pub when_fails : RuleDefinition → EvalError → Turn
when_fails r e =
    let v : RuleViolation = record {
      rule_key = r.rule_key;
      outcome = evaluation_error;
      reason = some e;
    } in
    elim r.enforcement [ veto ↦ refuse v | advisory ↦ go_on ]

abbrev pub assert_turn : RuleDefinition → Verdict → Turn
assert_turn r v = elim (failure v) [ none ↦ go_on | some f ↦ fails r f ]

-- `asserted` is the verdict of the assert, which only an applicable rule looks at.
abbrev pub turn_of : RuleDefinition → Verdict → Verdict → Turn
turn_of r (err e) asserted = when_fails r e
turn_of r (ok false) asserted = go_on
turn_of r (ok true) asserted = assert_turn r asserted

unfoldable pub turn : EvalContext → RuleDefinition → Turn
turn ctx r = turn_of r (evaluate ctx r.when_condition) (evaluate ctx r.assert_condition)

-- The loop of `EnforceRules`. The audit rows of action rule.violated are `notes`; an error makes
-- the caller roll back, so it carries no notes.
unfoldable pub enforce_loaded :
    EvalContext
    → List RuleDefinition
    → List RuleViolation
    → Result RuleViolation (List RuleViolation)
enforce_loaded ctx [] notes = ok notes
enforce_loaded ctx (r ∷ rs) notes = elim (turn ctx r) [
  | go_on ↦ enforce_loaded ctx rs notes
  | note v ↦ enforce_loaded ctx rs (notes ++ v ∷ [])
  | refuse v ↦ err v
]

-- `EnforceRules` on the table of rules.
unfoldable pub enforce_rules :
    String → EvalContext → List RuleDefinition → Result RuleViolation (List RuleViolation)
unfolding load_rules enforce_loaded
enforce_rules trigger ctx rules = enforce_loaded ctx (load_rules trigger rules) []
