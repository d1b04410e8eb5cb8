-- ===== src/Plan/Validation/Correct.antt =====
-- The checks of the validation put together (internal/project/plan.go).
use delmos.Base.{
  ◌≡◌, ◌≢◌, ◌↔◌, refl, Dict, String, Bool, Option, none, some, List, [], ok, ◌>>◌, fail_if, keys,
}
use delmos.Plan.Graph.{PhaseGraph}
use delmos.Plan.Graph.Cycles.{Cyclic}
use delmos.Plan.Graph.Orders.{Within}
use delmos.Plan.Graph.Decides.{search_cycle-Decided, Decided, cyclic, ordered}
use delmos.Plan.Manifest.{
  GenericPlanManifest, PlanPhase, fill_graph, objective_keys, scope_keys, assumption_keys,
  constraint_keys, responsibility_keys, deliverable_keys, phase_keys, milestone_keys,
  acceptance_rule_keys,
}
use delmos.Plan.Validation.{
  ManifestError, Check, is_none, cycle_check, has_phase_cycle, validate_sections, validate_manifest,
}
use delmos.Plan.Validation.Spec.{GoodKeys, Valid}
use delmos.Plan.Validation.Loops.{>>-ok, validate_keys-ok}
use delmos.Plan.Validation.Elements.{
  check_phases-ok, check_milestones-ok, check_scope-ok, check_deliverables-ok,
}

cycle_check-Decided :
    {g : PhaseGraph} {o : Option Bool} → Decided g o → (cycle_check o ≡ ok tt) ↔ (¬ Cyclic g)
unfolding cycle_check
cycle_check-Decided (cyclic c) = (λ h. absurd (cc), λ free. absurd (free c))
cycle_check-Decided (ordered ks o w free) = (λ h. free, λ h. refl)

-- Two checks in a row pass where both do.
both :
    {P Q : Type 0} (a b : Check) → (a ≡ ok tt) ↔ P → (b ≡ ok tt) ↔ Q → ((a >> b) ≡ ok tt) ↔ (P × Q)
both a b p q =
    (λ h. let (l, r) = (>>-ok a b).0 h in (p.0 l, q.0 r), λ h. (>>-ok a b).1 (p.1 h.0, q.1 h.1))

extensions-ok :
    (o : Option (Dict String)) (e : ManifestError) → (fail_if (is_none o) e ≡ ok tt) ↔ (o ≢ none)
extensions-ok none e = (λ h. absurd (cc), λ h. absurd (h refl))
extensions-ok (some d) e = (λ h. λ q. cc, λ h. refl)

-- `Valid`, as the checks build it up.
abbrev Keys : GenericPlanManifest → Type 0
Keys m =
    ((((((((GoodKeys (objective_keys m.objectives) × GoodKeys (scope_keys m.scope_items))
                  × GoodKeys (assumption_keys m.assumptions))
                × GoodKeys (constraint_keys m.constraints))
              × GoodKeys (responsibility_keys m.responsibility_assignments))
            × GoodKeys (deliverable_keys m.deliverables))
          × GoodKeys (phase_keys m.phases))
        × GoodKeys (milestone_keys m.milestones))
      × GoodKeys (acceptance_rule_keys m.acceptance_rules))

module _ (uuid_parses : String → Bool) (range : PhaseGraph → List String) where
  validate_sections-ok :
      (m : GenericPlanManifest) → (validate_sections uuid_parses range m ≡ ok tt) ↔ Keys m
  unfolding validate_sections
  validate_sections-ok m =
      both _ _
        (both _ _
          (both _ _
            (both _ _
              (both _ _
                (both _ _
                  (both _ _ (both _ _ (validate_keys-ok _ _) (validate_keys-ok _ _))
                    (validate_keys-ok _ _))
                  (validate_keys-ok _ _))
                (validate_keys-ok _ _))
              (validate_keys-ok _ _))
            (validate_keys-ok _ _))
          (validate_keys-ok _ _))
        (validate_keys-ok _ _)

  cycle_check-ok :
      ((g : PhaseGraph) → Within (keys g) (range g))
      → (ps : List PlanPhase)
      → (cycle_check (has_phase_cycle uuid_parses range ps) ≡ ok tt) ↔ (¬ Cyclic (fill_graph [] ps))
  unfolding has_phase_cycle
  cycle_check-ok ranges ps =
      let g = fill_graph [] ps in cycle_check-Decided (search_cycle-Decided g (range g) (ranges g))

  -- `ValidateGenericPlanManifest` returns nil for the valid manifests and an error for all others,
  -- for every order in which Go may range over the graph's keys.
  pub validate_manifest-Valid :
      ((g : PhaseGraph) → Within (keys g) (range g))
      → (m : GenericPlanManifest)
      → (validate_manifest uuid_parses range m ≡ ok tt) ↔ Valid uuid_parses m
  unfolding validate_manifest
  validate_manifest-Valid ranges m =
      let steps =
        both _ _
          (both _ _
            (both _ _
              (both _ _
                (both _ _ (both _ _ (extensions-ok m.extensions _) (validate_sections-ok m))
                  (check_deliverables-ok uuid_parses range m.deliverables))
                (check_phases-ok (phase_keys m.phases) m.phases))
              (cycle_check-ok ranges m.phases))
            (check_milestones-ok (phase_keys m.phases) (deliverable_keys m.deliverables)
              (acceptance_rule_keys m.acceptance_rules) m.milestones))
          (check_scope-ok m.scope_items) in
      (
        λ h.
            let ((((((ext, ks), ds), ps), free), ms), sc) = steps.0 h in
            record {
              extended = ext;
              objectives = ks.0.0.0.0.0.0.0.0;
              scope_items = ks.0.0.0.0.0.0.0.1;
              assumptions = ks.0.0.0.0.0.0.1;
              constraints = ks.0.0.0.0.0.1;
              responsibilities = ks.0.0.0.0.1;
              deliverables = ks.0.0.0.1;
              phases = ks.0.0.1;
              milestones = ks.0.1;
              acceptance_rules = ks.1;
              good_deliverables = ds;
              good_phases = ps;
              acyclic = free;
              good_milestones = ms;
              good_scope = sc;
            },
        λ v. steps.1 (
          (
            (
              (
                (
                  (
                    v.extended,
                    (
                      (
                        (
                          (
                            (
                              (((v.objectives, v.scope_items), v.assumptions), v.constraints),
                              v.responsibilities,
                            ),
                            v.deliverables,
                          ),
                          v.phases,
                        ),
                        v.milestones,
                      ),
                      v.acceptance_rules,
                    ),
                  ),
                  v.good_deliverables,
                ),
                v.good_phases,
              ),
              v.acyclic,
            ),
            v.good_milestones,
          ),
          v.good_scope,
        ),
      )
