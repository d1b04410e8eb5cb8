-- ===== src/Gate/Moves.antt =====
-- What a transition that went well has read, passed and written (`TransitionPhase` in
-- internal/project/phase.go).
use delmos.Base.{
  ℕ, ◌≡◌, ◌⊎◌, refl, sym, ap, ◌∙◌, arith, String, true, not, some, List, Result, ok, err, ◌>>=◌,
  need-ok, bind-ok, fail_if-ok, ok-same, inl, inr, str_eq→≡, first, Dict,
}
use delmos.Plan.Projection.{PhaseStatus, not_started, active, completed, PhaseRow, is_phase}
use delmos.Economics.Money.{Scale}
use delmos.Automation.Value.{Value}
use delmos.Economics.Costs.{CostError}
use delmos.Economics.Facts.{phase_gate_facts}
use delmos.Review.Tables.{AuditEvent, Call}
use delmos.Review.Works.{Codec}
use delmos.Gate.Phases

-- The two moves that there are.
abbrev pub Forward : PhaseStatus → PhaseStatus → Type 0
Forward s s' = ((s ≡ not_started) × (s' ≡ active)) ⊎ ((s ≡ active) × (s' ≡ completed))

allowed-Forward :
    (s s' : PhaseStatus) (target : String)
    → Phases.phase_transition_allowed s target ≡ true
    → Phases.column_status target ≡ some s'
    → Forward s s'
allowed-Forward not_started s' target h e =
    let its = str_eq→≡ target "active" (ground (arith, h)) in
    let to : some active ≡ some s' = sym (ap Phases.column_status its) ∙ e in inl (refl, cc)
allowed-Forward active s' target h e =
    let its = str_eq→≡ target "completed" (ground (arith, h)) in
    let to : some completed ≡ some s' = sym (ap Phases.column_status its) ∙ e in inr (refl, cc)
allowed-Forward completed s' target h e = absurd (cc)

module _ (scale : Scale) where
  abbrev pub Moved :
      Codec → Call → String → String → ℕ → Phases.GateTables → Phases.GateTables → Type 0
  Moved k c key target as_of t t' =
      (ph : PhaseRow) × (s : PhaseStatus) × (facts : Dict Value) × (notes : List AuditEvent)
      × (first (is_phase c.project_id key) t.plan.phases ≡ some ph)
      × Forward ph.phase_status s
      × (Phases.column_status target ≡ some s)
      × (Phases.milestones_accepted c.project_id ph.phase_key target t.plan ≡ ok tt)
      × (Phases.dependencies_met target (Phases.unmet_dependencies c.project_id ph t.plan.phases)
          ≡ ok tt)
      × (phase_gate_facts scale (record t.costs { products = t.plan.core.works }) c.project_id
            ph.phase_key (Phases.day_of as_of)
          ≡ ok facts)
      × (Phases.rules_pass scale k c target as_of t ph facts ≡ ok notes)
      × (t' ≡ Phases.transitioned c ph target s notes t)

  known-facts :
      (r : Result CostError (Dict Value)) (facts : Dict Value)
      → Phases.costs_known r ≡ ok facts
      → r ≡ ok facts
  known-facts (ok f) facts h = cc
  known-facts (err e) facts h = absurd (cc)

  pass_gate-passes :
      (k : Codec) (c : Call) (target : String) (as_of : ℕ) (t : Phases.GateTables) (ph : PhaseRow)
      (r : Phases.GateTables × Phases.PhaseTransitionResult)
      → Phases.pass_gate scale k c target as_of t ph ≡ ok r
      → (s : PhaseStatus) × (facts : Dict Value) × (notes : List AuditEvent) × (Phases.column_status
            target
          ≡ some s)
        × (phase_gate_facts scale
              (record t.costs { products = t.plan.core.works })
              c.project_id
              ph.phase_key
              (Phases.day_of as_of)
            ≡ ok facts)
        × (Phases.rules_pass scale k c target as_of t ph facts ≡ ok notes)
        × (r.0 ≡ Phases.transitioned c ph target s notes t)
  unfolding Phases.pass_gate
  pass_gate-passes k c target as_of t ph r h =
      let (facts, known, on_rules) =
        bind-ok
          (Phases.costs_known (
            phase_gate_facts scale (record t.costs { products = t.plan.core.works }) c.project_id
              ph.phase_key (Phases.day_of as_of)))
          (λ facts.
            Phases.rules_pass scale k c target as_of t ph facts
            >>= Phases.write_status c ph target t)
          r h in
      let (notes, passes, on_write) =
        bind-ok (Phases.rules_pass scale k c target as_of t ph facts)
          (Phases.write_status c ph target t) r on_rules in
      let (s, column, result) =
        need-ok Phases.status_check (Phases.column_status target) _ r on_write in
      (
        s,
        facts,
        notes,
        column,
        known-facts _ facts known,
        passes,
        ap (λ x. x.0) (ok-same _ r result),
      )

  pub transition_phase-Moved :
      (k : Codec) (c : Call) (key target : String) (as_of : ℕ) (t t' : Phases.GateTables)
      (r : Phases.PhaseTransitionResult)
      → Phases.transition_phase scale k c key target as_of t ≡ ok (t', r)
      → Moved k c key target as_of t t'
  unfolding Phases.transition_phase Phases.transition_found
  transition_phase-Moved k c key target as_of t t' r h =
      let (ph, found, rest) =
        need-ok Phases.phase_not_found (first (is_phase c.project_id key) t.plan.phases)
          (Phases.transition_found scale k c target as_of t) (t', r) h in
      let (permitted, on_milestones) =
        fail_if-ok (not (Phases.phase_transition_allowed ph.phase_status target)) _ _ (t', r)
          rest in
      let (u, milestones, on_dependencies) =
        bind-ok (Phases.milestones_accepted c.project_id ph.phase_key target t.plan) _ (t', r)
          on_milestones in
      let (v, dependencies, on_gate) =
        bind-ok
          (Phases.dependencies_met target (Phases.unmet_dependencies c.project_id ph t.plan.phases))
          _ (t', r) on_dependencies in
      let (s, facts, notes, column, known, passes, result) =
        pass_gate-passes k c target as_of t ph (t', r) on_gate in
      (
        ph,
        s,
        facts,
        notes,
        found,
        allowed-Forward ph.phase_status s target (ground (arith, permitted)) column,
        column,
        milestones,
        dependencies,
        known,
        passes,
        result,
      )
