-- ===== src/Automation/Workflow/Tests.antt =====
-- A state machine with one guarded edge.
use delmos.Base.{◌≡◌, ◌↔◌, refl, true, List, [], ◌∷◌, ok, err, All}
use delmos.Automation.Condition.{node, none_left, EvalContext, evaluate, leaf}
use delmos.Automation.Workflow.{
  WorkflowTransition, WorkflowDefinition, transition_not_defined, Emitted, find_transition,
  check_guards, emit_effects, apply_transition,
}
use delmos.Automation.Workflow.Edges.{FirstEdge, Sends, apply_transition-ok}

abbrev start_edge : WorkflowTransition
start_edge = record {
  id = "t1";
  from = "open";
  to = "done";
  action_name = "finish";
  guards = node "always_true" [] none_left ∷ [];
  effects =
      record { kind = "emit_event"; event = "task.done" }
      ∷ record { kind = "emit_event"; event = "" }
      ∷ [];
}

abbrev machine : WorkflowDefinition
machine = record { initial_state = "open"; states = []; transitions = start_edge ∷ [] }

abbrev no_facts : EvalContext
no_facts = record { fields = []; permissions = [] }

abbrev sent : List Emitted
sent = record { event = "task.done"; transition_id = "t1"; from = "open"; to = "done" } ∷ []

along : apply_transition machine "open" "done" no_facts ≡ ok sent
unfolding apply_transition find_transition check_guards emit_effects evaluate leaf
along = refl

astray : apply_transition machine "done" "open" no_facts ≡ err transition_not_defined
unfolding apply_transition find_transition
astray = refl

apply_transition-ok_example : (apply_transition machine "open" "done" no_facts ≡ ok sent) ↔ (
    (t : WorkflowTransition) × FirstEdge "open" "done" t (start_edge ∷ [])
    × All (λ g. evaluate no_facts g ≡ ok true) t.guards
    × Sends t.id "open" "done" t.effects sent)
apply_transition-ok_example = apply_transition-ok machine "open" "done" no_facts sent
