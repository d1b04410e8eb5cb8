-- ===== src/Gate/Accepted.antt =====
-- What the completion of a phase knows of each of its milestones (the query on core.project_milestones
-- in internal/project/phase.go).
use delmos.Base.{
  ℕ, ◌≡◌, inl, inr, refl, ap, ◌∙◌, arith, true, false, not, ◌&&◌, Option, none, some, List, [], ◌∷◌,
  ◌==◌, str_eq, str_eq→≡, str_eq_refl, All, All-map, Among, length, find, any, keep, Bool-cases,
}
use delmos.Plan.Projection.{
  MilestoneStatus, pending, passed, failed, waived, GateOutcome, gate_passed, gate_failed,
  MilestoneRow, GateDecision, EvidenceRow,
}
use delmos.Plan.Apply.{PlanTables, PlanBinding}
use delmos.Review.Tables.{
  WorkStatus, draft, in_review, approved, obsolete, WorkProduct, WorkProductRevision, Tables,
  latest_revision,
}
use delmos.Gate.Milestones
use delmos.Gate.Phases
use delmos.Gate.Latest.{NotAfter, last_decision-Latest}

-- The decision is on the milestone, in its generation.
abbrev pub On : MilestoneRow → GateDecision → Type 0
On m d =
    (d.project_id ≡ m.project_id)
    × (d.milestone_key ≡ m.milestone_key)
    × (d.config_generation ≡ m.config_generation)

-- The work product of the evidence, if it is there, is approved and its latest revision is the one
-- named.
abbrev pub Current : Tables → EvidenceRow → Type 0
Current t e =
    (w : WorkProduct)
    → find (λ x. x.id) e.work_product_id t.works ≡ some w
    → (w.status ≡ approved)
      × (v : WorkProductRevision) × (latest_revision w.id t.revisions ≡ some v)
      × (e.revision_id ≡ v.id)

-- The milestone is passed. The last decision on it in its generation passed it, under the plan in
-- effect; that decision has a row of evidence for each deliverable, and each is current.
abbrev pub Passed : PlanTables → MilestoneRow → Type 0
Passed t m =
    (m.milestone_status ≡ passed)
    × (d : GateDecision) × (b : PlanBinding) × (Among d t.gate_decisions × On m d)
    × All (λ e. On m e → NotAfter e d) t.gate_decisions
    × (d.outcome ≡ gate_passed)
    × (find (λ x. x.project_id) m.project_id t.plan_bindings ≡ some b)
    × (b.effective_plan_revision_id ≡ some d.plan_revision_id)
    × (b.config_generation ≡ d.config_generation)
    × (length (keep (λ e. e.gate_decision_id == d.id) t.evidence) ≡ length m.deliverable_keys)
    × All (λ e. e.gate_decision_id ≡ d.id → Current t.core e) t.evidence

decides_on-On :
    (m : MilestoneRow) (d : GateDecision)
    → Milestones.decides_on m.project_id m.milestone_key m.config_generation d ≡ true
    → On m d
decides_on-On m d h = (
  ground (arith, h),
  str_eq→≡ d.milestone_key m.milestone_key (ground (arith, h)),
  ground (arith, h),
)

On-decides_on :
    (m : MilestoneRow) (d : GateDecision)
    → On m d
    → Milestones.decides_on m.project_id m.milestone_key m.config_generation d ≡ true
On-decides_on m d (project, key, generation) = ground (
  arith,
  project,
  generation,
  ap (λ k. str_eq k m.milestone_key) key ∙ str_eq_refl m.milestone_key,
)

is_approved : (s : WorkStatus) → Milestones.is_approved_work s ≡ true → s ≡ approved
is_approved draft h = absurd (cc)
is_approved in_review h = absurd (cc)
is_approved approved h = refl
is_approved obsolete h = absurd (cc)

is_latest-some :
    (id : ℕ) (o : Option WorkProductRevision)
    → Phases.is_latest id o ≡ true
    → (v : WorkProductRevision) × (o ≡ some v) × (id ≡ v.id)
is_latest-some id none h = absurd (cc)
is_latest-some id (some v) h = (v, refl, ground (arith, h))

evidence_stands-Current :
    (t : Tables) (e : EvidenceRow) → Phases.evidence_stands t e ≡ true → Current t e
evidence_stands-Current t e h w found =
    let both : (Milestones.is_approved_work w.status
          && Phases.is_latest e.revision_id (latest_revision w.id t.revisions))
        ≡ true =
      rw found at h in
    let (v, last, same) =
      is_latest-some e.revision_id (latest_revision w.id t.revisions) (ground (arith, both)) in
    (is_approved w.status (ground (arith, both)), v, last, same)

none_overtaken :
    (t : Tables) (id : ℕ) (rows : List EvidenceRow)
    → any (λ e. not (Phases.evidence_stands t e)) (keep (λ e. e.gate_decision_id == id) rows)
      ≡ false
    → All (λ e. e.gate_decision_id ≡ id → Current t e) rows
none_overtaken t id [] h = tt
none_overtaken t id (e ∷ rows) h = elim (Bool-cases (e.gate_decision_id == id)) [
  | inr other ↦ (λ it. absurd (ground (arith, other, it)), none_overtaken t id rows (rw other at h))
  | inl its ↦ elim (Bool-cases (Phases.evidence_stands t e)) [
    | inr overtaken ↦ absurd (cc (rw overtaken at (rw its at h)))
    | inl stands ↦ (
      λ it. evidence_stands-Current t e stands,
      none_overtaken t id rows (rw stands at (rw its at h)),
    )
  ]
]

effective_is-some : (id : ℕ) (o : Option ℕ) → Phases.effective_is id o ≡ true → o ≡ some id
effective_is-some id none h = absurd (cc)
effective_is-some id (some e) h = ap some (ground (arith, h))

binding_is-some :
    (d : GateDecision) (o : Option PlanBinding)
    → Phases.binding_is d o ≡ true
    → (b : PlanBinding) × (o ≡ some b)
      × (b.effective_plan_revision_id ≡ some d.plan_revision_id)
      × (b.config_generation ≡ d.config_generation)
binding_is-some d none h = absurd (cc)
binding_is-some d (some b) h = (
  b,
  refl,
  effective_is-some d.plan_revision_id b.effective_plan_revision_id (ground (arith, h)),
  ground (arith, h),
)

is_passed-passed : (s : MilestoneStatus) → Milestones.is_passed s ≡ true → s ≡ passed
is_passed-passed pending h = absurd (cc)
is_passed-passed passed h = refl
is_passed-passed failed h = absurd (cc)
is_passed-passed waived h = absurd (cc)

is_passed_outcome-passed :
    (o : GateOutcome) → Milestones.is_passed_outcome o ≡ true → o ≡ gate_passed
is_passed_outcome-passed gate_passed h = refl
is_passed_outcome-passed gate_failed h = absurd (cc)

decision_holds-some :
    (t : PlanTables) (m : MilestoneRow) (o : Option GateDecision)
    → Phases.decision_holds t m o ≡ true
    → (d : GateDecision) × (o ≡ some d)
      × (d.outcome ≡ gate_passed)
      × (Phases.binding_is d (find (λ b. b.project_id) m.project_id t.plan_bindings) ≡ true)
      × (Phases.decision_stands t m d ≡ true)
decision_holds-some t m none h = absurd (cc)
decision_holds-some t m (some d) h = (
  d,
  refl,
  is_passed_outcome-passed d.outcome (ground (arith, h)),
  ground (arith, h),
  ground (arith, h),
)

decision_stands-all :
    (t : PlanTables) (m : MilestoneRow) (d : GateDecision)
    → Phases.decision_stands t m d ≡ true
    → (length (keep (λ e. e.gate_decision_id == d.id) t.evidence) ≡ length m.deliverable_keys)
      × All (λ e. e.gate_decision_id ≡ d.id → Current t.core e) t.evidence
unfolding Phases.decision_stands
decision_stands-all t m d h =
    (ground (arith, h), none_overtaken t.core d.id t.evidence (ground (arith, h)))

pub is_accepted-Passed :
    (t : PlanTables) (m : MilestoneRow) → Phases.is_accepted t m ≡ true → Passed t m
unfolding Phases.is_accepted
is_accepted-Passed t m h =
    let on = Milestones.decides_on m.project_id m.milestone_key m.config_generation in
    let last = Milestones.last_decision on t.gate_decisions in
    let both : (Milestones.is_passed m.milestone_status && Phases.decision_holds t m last) ≡ true =
      h in
    let (d, is_last, outcome, bound, stands) =
      decision_holds-some t m last (ground (arith, both)) in
    let (among, passes, latest) = last_decision-Latest on t.gate_decisions d is_last in
    let (b, binding, revision, generation) = binding_is-some d _ bound in
    let (count, current) = decision_stands-all t m d stands in
    (
      is_passed-passed m.milestone_status (ground (arith, both)),
      d,
      b,
      (among, decides_on-On m d passes),
      All-map _ t.gate_decisions (λ e after it. after (On-decides_on m e it)) latest,
      outcome,
      binding,
      revision,
      generation,
      count,
      current,
    )
