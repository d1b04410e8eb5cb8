-- ===== src/Automation/Workflow.antt =====
-- Declarative state machines: their edges, guards and effects (internal/automation/workflow.go).
pub mod Edges
mod Tests
use delmos.Base.{
  String, Bool, true, false, not, ◌&&◌, ◌||◌, Option, none, some, List, [], ◌∷◌, ◌++◌, Result, ok,
  err, str_eq, if◌then◌else◌,
}
use delmos.Automation.Condition.{ConditionNode, node, EvalContext, EvalError, Verdict, evaluate}

pub record WorkflowState : Type 0 where
  pub id : String
  pub label : String
  pub category : String

-- `event` is "" where the JSON has none.
pub record WorkflowEffect : Type 0 where
  pub kind : String
  pub event : String

pub record WorkflowTransition : Type 0 where
  pub id : String
  pub from : String
  pub to : String
  pub action_name : String
  pub guards : List ConditionNode
  pub effects : List WorkflowEffect

pub record WorkflowDefinition : Type 0 where
  pub initial_state : String
  pub states : List WorkflowState
  pub transitions : List WorkflowTransition

pub data TransitionError : Type 0 where
  transition_not_defined : TransitionError
  guard_error : String → String → EvalError → TransitionError
  guard_failed : String → String → TransitionError

-- The payload of an effect's event.
pub record Emitted : Type 0 where
  pub event : String
  pub transition_id : String
  pub from : String
  pub to : String

-- The loop of `FindTransition`.
pub find_transition : List WorkflowTransition → String → String → Option WorkflowTransition
find_transition [] from to = none
find_transition (t ∷ ts) from to =
    let rest = find_transition ts from to in
    if str_eq t.from from && str_eq t.to to then some t else rest

-- The loop over the guards; an error or a refusal names the transition and the guard.
pub check_guards : EvalContext → String → List ConditionNode → Result TransitionError (Unit {0})
check_guards ctx id [] = ok tt
check_guards ctx id (node key params subs ∷ gs) =
    let rest = check_guards ctx id gs in
    elim (evaluate ctx (node key params subs)) [
      | err e ↦ err (guard_error id key e)
      | ok b ↦ if b then rest else err (guard_failed id key)
    ]

abbrev pub emits : WorkflowEffect → Bool
emits e = str_eq e.kind "emit_event" && not (str_eq e.event "")

-- The loop over the effects: the events that it writes to the outbox, in order.
pub emit_effects : String → String → String → List WorkflowEffect → List Emitted
emit_effects id from to [] = []
emit_effects id from to (e ∷ es) =
    let rest = emit_effects id from to es in
    if emits e
    then record { event = e.event; transition_id = id; from = from; to = to } ∷ rest
    else rest

abbrev and_emit :
    Result TransitionError (Unit {0}) → List Emitted → Result TransitionError (List Emitted)
and_emit (err e) events = err e
and_emit (ok u) events = ok events

-- `ApplyTransition`, with the events that it emits.
pub apply_transition :
    WorkflowDefinition → String → String → EvalContext → Result TransitionError (List Emitted)
unfolding find_transition check_guards emit_effects
apply_transition wf from to ctx = elim (find_transition wf.transitions from to) [
  | none ↦ err transition_not_defined
  | some t ↦ and_emit (check_guards ctx t.id t.guards) (emit_effects t.id from to t.effects)
]
