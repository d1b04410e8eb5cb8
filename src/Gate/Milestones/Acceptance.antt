-- ===== src/Gate/Milestones/Acceptance.antt =====
-- The steps of `AcceptMilestone` (internal/project/milestone.go).
use delmos.Base.{
  ℕ, String, Bool, true, false, not, ◌&&◌, Option, none, some, List, [], ◌∷◌, ◌++◌, Result, ok, err,
  ◌>>=◌, ◌>>◌, fail_if, Dict, str_eq, length, ltb, ◌==◌, if◌then◌else◌, update_where, need, first,
}
use delmos.Automation.Value.{Value, text, number}
use delmos.Plan.Manifest.{PlanMilestone}
use delmos.Plan.Projection.{
  MilestoneStatus, pending, passed, failed, waived, MilestoneRow, gate_passed, GateDecision,
  EvidenceRow, is_milestone,
}
use delmos.Plan.Apply.{PlanTables}
use delmos.Review.Tables.{AuditEvent, Call, enforce, audit_row, emit}
use delmos.Review.Works.{Codec}
use delmos.Gate.Milestones.Standing.{
  GateError, milestone_not_found, plan_not_approved, self_gate_decision, milestone_not_ready,
  unsupported_acceptance_rule, allowed, same_keys, EffectivePlan, effective_plan, last_decision,
  passes_in, still_stands,
}
use delmos.Gate.Milestones.Gathering.{gather_evidence}

-- The milestone of the manifest is the one that was projected.
abbrev pub agrees : MilestoneRow → Option PlanMilestone → Bool
agrees m none = false
agrees m (some p) =
    str_eq p.phase_key m.phase_key
    && same_keys p.deliverable_keys m.deliverable_keys
    && same_keys p.acceptance_rule_keys m.acceptance_rule_keys

abbrev pub milestone_text : MilestoneStatus → String
milestone_text s = elim s [
  | pending ↦ "pending"
  | passed ↦ "passed"
  | failed ↦ "failed"
  | waived ↦ "waived"
]

abbrev pub is_pending : MilestoneStatus → Bool
is_pending s = elim s [ pending ↦ true | _ ↦ false ]

abbrev pub is_passed : MilestoneStatus → Bool
is_passed s = elim s [ passed ↦ true | _ ↦ false ]

abbrev pub accept_fields : Codec → MilestoneRow → Dict Value
accept_fields k m =
    ("action", text "milestone.accept")
    ∷ ("milestone_key", text m.milestone_key)
    ∷ ("phase_key", text m.phase_key)
    ∷ ("status", text (milestone_text m.milestone_status))
    ∷ ("target_status", text "passed")
    ∷ ("config_generation", number (k.digits m.config_generation))
    ∷ []

-- The rows of a decision that passes a milestone.
abbrev pub new_gate_decision : Call → MilestoneRow → EffectivePlan → PlanTables → GateDecision
new_gate_decision c m plan t = record {
  id = t.core.queue.next_id;
  project_id = c.project_id;
  milestone_key = m.milestone_key;
  plan_revision_id = plan.revision_id;
  config_generation = m.config_generation;
  outcome = gate_passed;
  decided_by = c.actor_id;
  decided_at = c.now;
}

abbrev pub pass : MilestoneRow → MilestoneRow
pass m = record m { milestone_status = passed }

abbrev pub accepted :
    Codec
    → Call
    → MilestoneRow
    → GateDecision
    → List EvidenceRow
    → List AuditEvent
    → PlanTables
    → PlanTables
accepted k c m d rows notes t = record t {
  gate_decisions = t.gate_decisions ++ d ∷ [];
  evidence = t.evidence ++ rows;
  milestones = update_where (is_milestone c.project_id m.milestone_key) pass t.milestones;
  core = record t.core {
    audit =
        t.core.audit
        ++ notes
        ++ audit_row c "milestone.accepted"
            (("decision_id", text (k.uuid d.id)) ∷ ("milestone_key", text m.milestone_key) ∷ [])
          ∷ [];
    queue =
        emit c 1 "milestone.accepted"
          (("milestone_key", text m.milestone_key) ∷ ("decision_id", text (k.uuid d.id)) ∷ [])
          t.core;
  };
}

module _ (parse_uuid : String → Option ℕ) where
  abbrev pub record_acceptance :
      Codec
      → Call
      → MilestoneRow
      → EffectivePlan
      → PlanTables
      → List AuditEvent
      → Result GateError (PlanTables × GateDecision)
  record_acceptance k c m plan t notes =
      let d = new_gate_decision c m plan t in
      gather_evidence parse_uuid c d.id t.core plan.manifest [] m.deliverable_keys
      >>= (λ rows. ok (accepted k c m d rows notes t, d))

  -- What comes once no earlier decision is returned.
  unfoldable pub accept_anew :
      Codec
      → Call
      → MilestoneRow
      → EffectivePlan
      → PlanTables
      → Result GateError (PlanTables × GateDecision)
  unfolding gather_evidence
  accept_anew k c m plan t =
      fail_if (not (is_pending m.milestone_status) && not (is_passed m.milestone_status))
        milestone_not_ready
      >> (fail_if (ltb 0 (length m.acceptance_rule_keys)) unsupported_acceptance_rule
          >> (fail_if
                (not
                  (agrees m (first (λ p. str_eq p.key m.milestone_key) plan.manifest.milestones)))
                milestone_not_ready
              >> (allowed (
                    enforce k.explain c "trigger.core.before_milestone_accept" (accept_fields k m)
                      t.core)
                  >>= record_acceptance k c m plan t)))

  -- A milestone that is passed: the decision on it is returned while its evidence is current.
  abbrev pub repeat_acceptance :
      Codec
      → Call
      → MilestoneRow
      → EffectivePlan
      → PlanTables
      → Option GateDecision
      → Result GateError (PlanTables × GateDecision)
  repeat_acceptance k c m plan t none = err milestone_not_ready
  repeat_acceptance k c m plan t (some d) =
      let anew = accept_anew k c m plan t in if still_stands t m d then ok (t, d) else anew

  unfoldable pub accept_found :
      Codec
      → Call
      → MilestoneRow
      → PlanTables
      → EffectivePlan
      → Result GateError (PlanTables × GateDecision)
  unfolding accept_anew still_stands
  accept_found k c m t plan =
      fail_if (not (m.config_generation == plan.current_generation)) plan_not_approved
      >> (fail_if (c.actor_id == plan.plan_author) self_gate_decision
          >> (let anew = accept_anew k c m plan t in
              if is_passed m.milestone_status
              then repeat_acceptance k c m plan t (
                  last_decision (passes_in c.project_id m.milestone_key m.config_generation)
                    t.gate_decisions)
              else anew))

  -- `AcceptMilestone`
  unfoldable pub accept_milestone :
      Codec → Call → String → PlanTables → Result GateError (PlanTables × GateDecision)
  unfolding accept_found effective_plan
  accept_milestone k c key t =
      need milestone_not_found (first (is_milestone c.project_id key) t.milestones)
      >>= (λ m. need plan_not_approved (effective_plan c.project_id t) >>= accept_found k c m t)
