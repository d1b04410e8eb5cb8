-- ===== src/Automation/Workflow/Edges.antt =====
-- The edges and guards of a state machine (`ApplyTransition` in internal/automation/workflow.go).
use text.Mathlib.TextEquality.{eq_iff}
use delmos.Base.{
  ◌≡◌, ◌≢◌, ◌↔◌, inl, inr, refl, sym, ap, ◌∙◌, subst, arith, String, true, false, ◌&&◌, some, List,
  [], ◌∷◌, ◌++◌, ok, err, Result, All, str_eq, Bool-cases, Option-cases, Result-cases,
}
use delmos.Automation.Condition.{ConditionNode, node, EvalContext, evaluate}
use delmos.Automation.Workflow.{
  WorkflowEffect, WorkflowTransition, WorkflowDefinition, TransitionError, Emitted, find_transition,
  check_guards, emit_effects, apply_transition, and_emit, emits,
}

abbrev pub Joins : String → String → WorkflowTransition → Type 0
Joins from to t = (t.from ≡ from) × (t.to ≡ to)

str_eq-Joins :
    (from to : String) (s : WorkflowTransition)
    → (str_eq s.from from && str_eq s.to to) ≡ true
    → Joins from to s
str_eq-Joins from to s here =
    (ground (arith, eq_iff s.from from, here), ground (arith, eq_iff s.to to, here))

apart :
    (from to : String) (s : WorkflowTransition)
    → (str_eq s.from from && str_eq s.to to) ≡ false
    → ¬ Joins from to s
apart from to s past j = ground (arith, eq_iff s.from from, eq_iff s.to to, past, j.0, j.1)

pub check_guards-ok :
    (ctx : EvalContext) (id : String) (gs : List ConditionNode)
    → (check_guards ctx id gs ≡ ok tt) ↔ All (λ g. evaluate ctx g ≡ ok true) gs
unfolding check_guards
check_guards-ok ctx id [] = (λ h. tt, λ h. refl)
check_guards-ok ctx id (node key params subs ∷ gs) =
    let g = node key params subs in
    let ih = check_guards-ok ctx id gs in
    elim (Result-cases (evaluate ctx g)) [
      | inr (e, failed) ↦ rw (failed, check_guards) (λ h. absurd (cc), λ h. absurd (cc h.0))
      | inl (true, held) ↦ rw (held, check_guards) (λ h. (refl, ih.0 h), λ h. ih.1 h.1)
      | inl (false, refused) ↦ rw (refused, check_guards) (λ h. absurd (cc), λ h. absurd (cc h.0))
    ]

and_emit-ok :
    (r : Result TransitionError (Unit {0})) (sent events : List Emitted)
    → (and_emit r sent ≡ ok events) ↔ ((r ≡ ok tt) × (events ≡ sent))
and_emit-ok (err e) sent events = (λ h. absurd (cc), λ h. absurd (cc h.0))
and_emit-ok (ok tt) sent events = (λ h. (refl, cc), λ h. cc h.1)

-- The edge is the first of the list between the two states.
abbrev pub FirstEdge : String → String → WorkflowTransition → List WorkflowTransition → Type 0
FirstEdge from to t ts =
    (before : List WorkflowTransition) × (after : List WorkflowTransition) × (ts
      ≡ before ++ t ∷ after)
    × All (λ s. ¬ Joins from to s) before
    × Joins from to t

-- An effect that asks for an event, and names it.
abbrev pub Asks : WorkflowEffect → Type 0
Asks e = (e.kind ≡ "emit_event") × (e.event ≢ "")

-- What a list of effects sends: an event for each effect that asks for one, in their order.
pub data Sends (id from to : String) : List WorkflowEffect → List Emitted → Type 0 where
  no_effect : Sends id from to [] []
  sent :
      (e : WorkflowEffect) (es : List WorkflowEffect) (events : List Emitted)
      → Asks e
      → Sends id from to es events
      → Sends id from to
          (e ∷ es)
          (record { event = e.event; transition_id = id; from = from; to = to } ∷ events)
  silent :
      (e : WorkflowEffect) (es : List WorkflowEffect) (events : List Emitted)
      → ¬ Asks e
      → Sends id from to es events
      → Sends id from to (e ∷ es) events

emits-Asks : (e : WorkflowEffect) → emits e ≡ true → Asks e
emits-Asks e h = (
  ground (arith, eq_iff e.kind "emit_event", h),
  λ empty. ground (arith, eq_iff e.event "", h, empty),
)

Asks-emits : (e : WorkflowEffect) → emits e ≡ false → ¬ Asks e
Asks-emits e h asks =
    ground (arith, eq_iff e.kind "emit_event", eq_iff e.event "", h, asks.0, asks.1)

emit_effects-Sends :
    (id from to : String) (es : List WorkflowEffect)
    → Sends id from to es (emit_effects id from to es)
unfolding emit_effects
emit_effects-Sends id from to [] = no_effect
emit_effects-Sends id from to (e ∷ es) =
    let ih = emit_effects-Sends id from to es in
    elim (Bool-cases (emits e)) [
      | inl asks ↦ rw (asks, emit_effects) (sent e es _ (emits-Asks e asks) ih)
      | inr quiet ↦ rw (quiet, emit_effects) (silent e es _ (Asks-emits e quiet) ih)
    ]

-- A list of effects sends one list of events only.
Sends-emit_effects :
    {id from to : String} {es : List WorkflowEffect} {events : List Emitted}
    → Sends id from to es events
    → events ≡ emit_effects id from to es
unfolding emit_effects
Sends-emit_effects no_effect = refl
Sends-emit_effects {id} {from} {to} (sent e es events asks rest) =
    let ih = Sends-emit_effects rest in
    elim (Bool-cases (emits e)) [
      | inl it ↦ rw (it, emit_effects) (rw (← ih) refl)
      | inr quiet ↦ absurd (Asks-emits e quiet asks)
    ]
Sends-emit_effects (silent e es events quiet rest) =
    let ih = Sends-emit_effects rest in
    elim (Bool-cases (emits e)) [
      | inl it ↦ absurd (quiet (emits-Asks e it))
      | inr not_it ↦ rw (not_it, emit_effects) ih
    ]

find_transition-FirstEdge :
    (ts : List WorkflowTransition) (from to : String) (t : WorkflowTransition)
    → find_transition ts from to ≡ some t
    → FirstEdge from to t ts
unfolding find_transition
find_transition-FirstEdge [] from to t h = absurd (cc)
find_transition-FirstEdge (s ∷ ts) from to t h =
    elim (Bool-cases (str_eq s.from from && str_eq s.to to)) [
      | inl here ↦
          let same : s ≡ t = cc (rw (here, find_transition) at h) in
          ([], ts, ap (λ x. x ∷ ts) same, tt, rw (← same) (str_eq-Joins from to s here))
      | inr past ↦
          let (before, after, split, none_before, joins) =
            find_transition-FirstEdge ts from to t (rw (past, find_transition) at h) in
          (
            s ∷ before,
            after,
            ap (λ l. s ∷ l) split,
            (λ j. apart from to s past j, none_before),
            joins,
          )
    ]

FirstEdge-find_transition :
    (from to : String) (t : WorkflowTransition) (before after : List WorkflowTransition)
    → All (λ s. ¬ Joins from to s) before
    → Joins from to t
    → find_transition (before ++ t ∷ after) from to ≡ some t
unfolding find_transition
FirstEdge-find_transition from to t [] after none_before joins =
    elim (Bool-cases (str_eq t.from from && str_eq t.to to)) [
      | inl here ↦ rw (here, find_transition) refl
      | inr past ↦ absurd (apart from to t past joins)
    ]
FirstEdge-find_transition from to t (s ∷ before) after none_before joins =
    elim (Bool-cases (str_eq s.from from && str_eq s.to to)) [
      | inl here ↦ absurd (none_before.0 (str_eq-Joins from to s here))
      | inr past ↦
          rw (past, find_transition)
            (FirstEdge-find_transition from to t before after none_before.1 joins)
    ]

-- `ApplyTransition` succeeds exactly when the first transition from one state to the other that
-- the definition lists has guards that all hold. Its events are one for each effect of that
-- transition whose kind is emit_event and that names an event, in their order.
pub apply_transition-ok :
    (wf : WorkflowDefinition) (from to : String) (ctx : EvalContext) (events : List Emitted)
    → (apply_transition wf from to ctx ≡ ok events) ↔ (
        (t : WorkflowTransition) × FirstEdge from to t wf.transitions
        × All (λ g. evaluate ctx g ≡ ok true) t.guards
        × Sends t.id from to t.effects events)
unfolding apply_transition
apply_transition-ok wf from to ctx events =
    elim (Option-cases (find_transition wf.transitions from to)) [
      | inl missing ↦
          rw (missing, apply_transition)
            (
              λ h. absurd (cc),
              λ (t, (before, after, split, none_before, joins), held, sends). absurd (
                  cc (
                    sym missing
                    ∙ ap (λ ts. find_transition ts from to) split
                    ∙ FirstEdge-find_transition from to t before after none_before joins)),
            )
      | inr (t, found) ↦
          let guards = check_guards-ok ctx t.id t.guards in
          let emitted =
            and_emit-ok (check_guards ctx t.id t.guards) (emit_effects t.id from to t.effects)
              events in
          rw (found, apply_transition)
            (
              λ h.
                  let (passed, same) = emitted.0 h in
                  (
                    t,
                    find_transition-FirstEdge wf.transitions from to t found,
                    guards.0 passed,
                    subst (Sends t.id from to t.effects) (sym same)
                        (emit_effects-Sends t.id from to t.effects),
                  ),
              λ (u, (before, after, split, none_before, joins), held, sends).
                  let it : u ≡ t = cc (
                    sym found
                    ∙ ap (λ ts. find_transition ts from to) split
                    ∙ FirstEdge-find_transition from to u before after none_before joins) in
                  emitted.1 (
                    guards.1 (rw it at held),
                    Sends-emit_effects (subst (λ x. Sends x.id from to x.effects events) it sends),
                  ),
            )
    ]
