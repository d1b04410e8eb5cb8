-- ===== src/Gate/Completion.antt =====
-- A decision on a milestone, and the completion of its phase that reads it
-- (internal/project/milestone.go and phase.go).
use delmos.Base.{
  ℕ, ◌≡◌, ◌≢◌, ◌<◌, refl, sym, ap, ◌∙◌, subst, arith, String, true, not, ◌&&◌, Option, none, some,
  List, [], ◌++◌, ok, ◌>>=◌, need, need-ok, bind-ok, fail_if-ok, ok-same, Bool-cases, inl, inr,
  ◌==◌, str_eq, str_eq_refl, ltb, All, length, first, first-passes, first-update_where,
}
use delmos.Plan.Projection.{pending, MilestoneRow, GateDecision, EvidenceRow, is_milestone}
use delmos.Plan.Apply.{PlanTables}
use delmos.Review.Tables.{AuditEvent, Call, enforce}
use delmos.Review.Works.{Codec}
use delmos.Gate.Milestones
use delmos.Gate.Evidence.{Each, Sound, gather_evidence-Sound}
use delmos.Gate.Phases
use delmos.Gate.Counted.{
  equal_numbers, else_holds, is_milestone-key, new-decision_stands, new-is_accepted,
}

module _ (parse_uuid : String → Option ℕ) where
  -- What an acceptance that writes a decision has read and gathered.
  abbrev Accepted :
      Codec
      → Call
      → MilestoneRow
      → Milestones.EffectivePlan
      → PlanTables
      → PlanTables × GateDecision
      → Type 0
  Accepted k c m plan t r =
      let d = Milestones.new_gate_decision c m plan t in
      (rows : List EvidenceRow) × (notes : List AuditEvent) × Each
        (Sound parse_uuid c d.id t.core plan.manifest) m.deliverable_keys rows
      × (r ≡ (Milestones.accepted k c m d rows notes t, d))

  accept_anew-Accepted :
      (k : Codec) (c : Call) (m : MilestoneRow) (plan : Milestones.EffectivePlan) (t : PlanTables)
      (r : PlanTables × GateDecision)
      → Milestones.accept_anew parse_uuid k c m plan t ≡ ok r
      → Accepted k c m plan t r
  unfolding Milestones.accept_anew
  accept_anew-Accepted k c m plan t r h =
      let d = Milestones.new_gate_decision c m plan t in
      let (open_yet, on_rules) =
        fail_if-ok
          (not (Milestones.is_pending m.milestone_status)
            && not (Milestones.is_passed m.milestone_status))
          _ _ r h in
      let (none_unsupported, on_manifest) =
        fail_if-ok (ltb 0 (length m.acceptance_rule_keys)) _ _ r on_rules in
      let (agreed, on_enforce) =
        fail_if-ok
          (not (
            Milestones.agrees m
              (first (λ p. str_eq p.key m.milestone_key) plan.manifest.milestones)))
          _ _ r on_manifest in
      let (notes, let_through, on_record) =
        bind-ok
          (Milestones.allowed (
            enforce k.explain c "trigger.core.before_milestone_accept"
              (Milestones.accept_fields k m) t.core))
          (Milestones.record_acceptance parse_uuid k c m plan t) r on_enforce in
      let (rows, gathered, result) =
        bind-ok
          (Milestones.gather_evidence parse_uuid c d.id t.core plan.manifest [] m.deliverable_keys)
          (λ rows. ok (Milestones.accepted k c m d rows notes t, d)) r on_record in
      let (added, same, sound) =
        gather_evidence-Sound parse_uuid c d.id t.core plan.manifest [] rows m.deliverable_keys
          gathered in
      (
        rows,
        notes,
        subst (Each (Sound parse_uuid c d.id t.core plan.manifest) m.deliverable_keys) (sym same)
            sound,
        ok-same _ r result,
      )

  -- The rows that every acceptance reads.
  accept_milestone-reads :
      (k : Codec) (c : Call) (key : String) (t : PlanTables) (r : PlanTables × GateDecision)
      → Milestones.accept_milestone parse_uuid k c key t ≡ ok r
      → (m : MilestoneRow) × (plan : Milestones.EffectivePlan) × (first
            (is_milestone c.project_id key)
            t.milestones
          ≡ some m)
        × (Milestones.effective_plan c.project_id t ≡ some plan)
        × (Milestones.accept_found parse_uuid k c m t plan ≡ ok r)
  unfolding Milestones.accept_milestone
  accept_milestone-reads k c key t r h =
      let (m, milestone, on_plan) =
        need-ok Milestones.milestone_not_found (first (is_milestone c.project_id key) t.milestones)
          (λ m.
            need Milestones.plan_not_approved (Milestones.effective_plan c.project_id t)
            >>= Milestones.accept_found parse_uuid k c m t)
          r h in
      let (plan, effective, rest) =
        need-ok Milestones.plan_not_approved (Milestones.effective_plan c.project_id t)
          (Milestones.accept_found parse_uuid k c m t) r on_plan in
      (m, plan, milestone, effective, rest)

  accept_found-anew :
      (k : Codec) (c : Call) (m : MilestoneRow) (t : PlanTables) (plan : Milestones.EffectivePlan)
      (r : PlanTables × GateDecision)
      → m.milestone_status ≡ pending
      → Milestones.accept_found parse_uuid k c m t plan ≡ ok r
      → (m.config_generation ≡ plan.current_generation)
        × (c.actor_id ≢ plan.plan_author)
        × Accepted k c m plan t r
  unfolding Milestones.accept_found
  accept_found-anew k c m t plan r waiting h =
      let (generation, on_author) =
        fail_if-ok (not (m.config_generation == plan.current_generation)) _ _ r h in
      let (other, rest) = fail_if-ok (c.actor_id == plan.plan_author) _ _ r on_author in
      (
        equal_numbers _ _ generation,
        (λ e. ground (arith, other, e)),
        accept_anew-Accepted k c m plan t r
            (else_holds _ _ _ (ap Milestones.is_passed waiting) (λ x. x ≡ ok r) rest),
      )

  some_same : {A : Type 0} (a b : A) → Path (Option A) (some a) (some b) → a ≡ b
  some_same a b e = cc

  -- What an acceptance of a pending milestone has done.
  accept_milestone-Accepted :
      (k : Codec) (c : Call) (key : String) (m : MilestoneRow) (t : PlanTables)
      (r : PlanTables × GateDecision)
      → first (is_milestone c.project_id key) t.milestones ≡ some m
      → m.milestone_status ≡ pending
      → Milestones.accept_milestone parse_uuid k c key t ≡ ok r
      → (plan : Milestones.EffectivePlan) × (Milestones.effective_plan c.project_id t ≡ some plan)
        × (m.config_generation ≡ plan.current_generation)
        × (c.actor_id ≢ plan.plan_author)
        × Accepted k c m plan t r
  accept_milestone-Accepted k c key m t r milestone waiting h =
      let (m', plan, found, effective, rest) = accept_milestone-reads k c key t r h in
      let its = some_same m' m (sym found ∙ milestone) in
      let on_row = subst (λ x. Milestones.accept_found parse_uuid k c x t plan ≡ ok r) its rest in
      let (generation, other, accepted) = accept_found-anew k c m t plan r waiting on_row in
      (plan, effective, generation, other, accepted)

  -- Who accepts a pending milestone is not the author of the plan in effect. The evidence written
  -- for the new decision is one row for each deliverable of the milestone, in their order. The row of
  -- a deliverable names the work product that the manifest gives it, which is in the project,
  -- approved and in the status that the manifest requires, and its latest revision with the hash of
  -- that, written by somebody else.
  pub accept_milestone-Sound :
      (k : Codec) (c : Call) (key : String) (m : MilestoneRow) (t t' : PlanTables)
      (d : GateDecision)
      → first (is_milestone c.project_id key) t.milestones ≡ some m
      → m.milestone_status ≡ pending
      → Milestones.accept_milestone parse_uuid k c key t ≡ ok (t', d)
      → (plan : Milestones.EffectivePlan) × (rows : List EvidenceRow) × (Milestones.effective_plan
            c.project_id t
          ≡ some plan)
        × (c.actor_id ≢ plan.plan_author)
        × (t'.evidence ≡ t.evidence ++ rows)
        × Each (Sound parse_uuid c d.id t.core plan.manifest) m.deliverable_keys rows
  accept_milestone-Sound k c key m t t' d milestone waiting h =
      let (plan, effective, generation, other, (rows, notes, sound, result)) =
        accept_milestone-Accepted k c key m t (t', d) milestone waiting h in
      let its = ap (λ x. x.1) result in
      (
        plan,
        rows,
        effective,
        other,
        ap (λ x. x.0.evidence) result,
        subst (λ x. Each (Sound parse_uuid c x.id t.core plan.manifest) m.deliverable_keys rows)
            (sym its) sound,
      )

  -- Accepting a pending milestone, in a project whose decisions lie in the past and whose
  -- identifiers are new, passes it: in the tables right after, the row is passed and the completion
  -- of its phase counts it as accepted.
  pub accept_milestone-is_accepted :
      (k : Codec) (c : Call) (key : String) (m : MilestoneRow) (t t' : PlanTables)
      (d : GateDecision)
      → first (is_milestone c.project_id key) t.milestones ≡ some m
      → m.milestone_status ≡ pending
      → All (λ e. e.decided_at < c.now) t.gate_decisions
      → All (λ e. e.gate_decision_id < t.core.queue.next_id) t.evidence
      → Milestones.accept_milestone parse_uuid k c key t ≡ ok (t', d)
      → (first (is_milestone c.project_id key) t'.milestones ≡ some (Milestones.pass m))
        × (Phases.is_accepted t' (Milestones.pass m) ≡ true)
  accept_milestone-is_accepted k c key m t t' d milestone waiting past fresh h =
      let (plan, effective, generation, other, (rows, notes, sound, result)) =
        accept_milestone-Accepted k c key m t (t', d) milestone waiting h in
      let (project, its_key) =
        is_milestone-key c.project_id key m
          (first-passes (is_milestone c.project_id key) t.milestones m milestone).1 in
      let stands = new-decision_stands parse_uuid k c m plan t rows notes fresh sound in
      let counted =
        new-is_accepted parse_uuid k c m plan t rows notes project effective generation past
          stands in
      let hit : is_milestone c.project_id m.milestone_key m ≡ true =
        ground (arith, str_eq_refl m.milestone_key, project) in
      let row =
        first-update_where (is_milestone c.project_id key)
          (is_milestone c.project_id m.milestone_key) Milestones.pass t.milestones (λ x. refl)
        ∙ rw milestone (rw hit refl) in
      subst
        (λ x.
          (first (is_milestone c.project_id key) x.milestones ≡ some (Milestones.pass m))
          × (Phases.is_accepted x (Milestones.pass m) ≡ true))
        (sym (ap (λ x. x.0) result)) (row, counted)

  repeat_acceptance-phases :
      (k : Codec) (c : Call) (m : MilestoneRow) (plan : Milestones.EffectivePlan) (t : PlanTables)
      (o : Option GateDecision) (r : PlanTables × GateDecision)
      → Milestones.repeat_acceptance parse_uuid k c m plan t o ≡ ok r
      → r.0.phases ≡ t.phases
  repeat_acceptance-phases k c m plan t none r h = absurd (cc)
  repeat_acceptance-phases k c m plan t (some d) r h =
      elim (Bool-cases (Milestones.still_stands t m d)) [
        | inl stands ↦
            let same : (t, d) ≡ r = cc (rw stands at h) in ap (λ x. x.0.phases) (sym same)
        | inr stale ↦
            let (rows, notes, sound, result) =
              accept_anew-Accepted k c m plan t r (else_holds _ _ _ stale (λ x. x ≡ ok r) h) in
            ap (λ x. x.0.phases) result
      ]

  -- Accepting a milestone leaves the phases alone.
  pub accept_milestone-phases :
      (k : Codec) (c : Call) (key : String) (t : PlanTables) (r : PlanTables × GateDecision)
      → Milestones.accept_milestone parse_uuid k c key t ≡ ok r
      → r.0.phases ≡ t.phases
  unfolding Milestones.accept_found
  accept_milestone-phases k c key t r h =
      let (m, plan, found, effective, rest) = accept_milestone-reads k c key t r h in
      let (generation, on_author) =
        fail_if-ok (not (m.config_generation == plan.current_generation)) _ _ r rest in
      let (other, accepts) = fail_if-ok (c.actor_id == plan.plan_author) _ _ r on_author in
      elim (Bool-cases (Milestones.is_passed m.milestone_status)) [
        | inl passed_before ↦
            repeat_acceptance-phases k c m plan t _ r (rw passed_before at accepts)
        | inr not_yet ↦
            let (rows, notes, sound, result) =
              accept_anew-Accepted k c m plan t r
                (else_holds _ _ _ not_yet (λ x. x ≡ ok r) accepts) in
            ap (λ x. x.0.phases) result
      ]
