-- ===== src/Gate/Counted.antt =====
-- How the completion of a phase counts a new decision on a milestone (internal/project/phase.go).
use delmos.Base.{
  ℕ, ◌≡◌, ◌<◌, refl, sym, ap, ◌∙◌, arith, String, Bool, true, false, not, Option, some, List, [],
  ◌∷◌, ◌++◌, Bool-cases, Option-cases, inl, inr, ◌==◌, str_eq_refl, str_eq→≡, All, All-map, find,
  find-Among, any, keep, keep-append, keep_nothing, keep_everything, if◌then◌else◌,
}
use delmos.Plan.Projection.{MilestoneRow, GateDecision, EvidenceRow, is_milestone}
use delmos.Plan.Apply.{PlanTables, PlanBinding}
use delmos.Review.Tables.{Tables, AuditEvent, Call, latest_revision}
use delmos.Plan.Manifest.{GenericPlanManifest}
use delmos.Review.Works.{Codec}
use delmos.Gate.Milestones
use delmos.Gate.Evidence.{Each, Each-length, Each-All, Sound}
use delmos.Gate.Phases

-- The latest of the decisions that pass a test is one that is later than all others.
last_decision-push :
    (p : GateDecision → Bool) (ds : List GateDecision) (d : GateDecision)
    → p d ≡ true
    → All (λ e. e.decided_at < d.decided_at) ds
    → Milestones.last_decision p (ds ++ d ∷ []) ≡ some d
last_decision-push p [] d hit before = rw hit refl
last_decision-push p (e ∷ ds) d hit before =
    let ih = last_decision-push p ds d hit before.1 in
    let older : Milestones.decided_later e d ≡ false = ground (arith, before.0) in
    elim (Bool-cases (p e)) [
      | inl passes ↦ rw (passes, ih) (rw older refl)
      | inr fails ↦ rw (fails, ih) refl
    ]

no_stale :
    (t : PlanTables) (rows : List EvidenceRow)
    → All (λ e. Phases.evidence_stands t.core e ≡ true) rows
    → any (λ e. not (Phases.evidence_stands t.core e)) rows ≡ false
no_stale t [] all = refl
no_stale t (e ∷ rows) all = rw (all.0) (no_stale t rows all.1)

-- The plan in effect comes from the project's binding.
effective_plan-binding :
    (p : ℕ) (t : PlanTables) (plan : Milestones.EffectivePlan)
    → Milestones.effective_plan p t ≡ some plan
    → (b : PlanBinding) × (find (λ x. x.project_id) p t.plan_bindings ≡ some b)
      × (b.effective_plan_revision_id ≡ some plan.revision_id)
      × (b.config_generation ≡ plan.current_generation)
unfolding Milestones.effective_plan
effective_plan-binding p t plan h =
    elim (Option-cases (find (λ x. x.project_id) p t.plan_bindings)) [
      | inl missing ↦ absurd (cc (rw missing at h))
      | inr (b, binding) ↦ elim (Option-cases b.effective_plan_revision_id) [
        | inl not_yet ↦ absurd (cc (rw (binding, not_yet) at h))
        | inr (id, effective) ↦ elim (Option-cases (find (λ v. v.id) id t.core.revisions)) [
          | inl missing ↦ absurd (cc (rw (binding, effective, missing) at h))
          | inr (v, revision) ↦ elim (Option-cases (find (λ m. m.revision_id) v.id t.manifests)) [
            | inl missing ↦ absurd (cc (rw (binding, effective, revision, missing) at h))
            | inr (m, manifest) ↦
                let it : Milestones.plan_of b v m ≡ plan =
                  cc (rw (binding, effective, revision, manifest) at h) in
                let its = (find-Among (λ x. x.id) id t.core.revisions v revision).1 in
                (
                  b,
                  binding,
                  effective ∙ ap some (sym its ∙ ap (λ x. x.revision_id) it),
                  ap (λ x. x.current_generation) it,
                )
          ]
        ]
      ]
    ]

pub equal_numbers : (a b : ℕ) → not (a == b) ≡ false → a ≡ b
equal_numbers a b h = ground (arith, h)

same_number : (a b : ℕ) → a ≡ b → (a == b) ≡ true
same_number a b e = ground (arith, e)

pub else_holds :
    {A : Type 0} (b : Bool) (x y : A) → b ≡ false → (P : A → Type 0) → P (if b then x else y) → P y
else_holds true x y e P h = absurd (cc)
else_holds false x y e P h = h

-- What the test on a milestone's key says.
pub is_milestone-key :
    (p : ℕ) (key : String) (m : MilestoneRow)
    → is_milestone p key m ≡ true
    → (m.project_id ≡ p) × (m.milestone_key ≡ key)
is_milestone-key p key m h = (ground (arith, h), str_eq→≡ m.milestone_key key (ground (arith, h)))

-- The evidence of a new decision is what was gathered for it.
evidence_of-new :
    (id : ℕ) (old rows : List EvidenceRow)
    → All (λ e. e.gate_decision_id < id) old
    → All (λ e. e.gate_decision_id ≡ id) rows
    → Milestones.evidence_of id (old ++ rows) ≡ rows
evidence_of-new id old rows fresh own =
    keep-append (λ e. e.gate_decision_id == id) old rows
    ∙ ap (λ l. l ++ keep (λ e. e.gate_decision_id == id) rows)
        (keep_nothing (λ e. e.gate_decision_id == id) old
          (All-map _ old (λ e lt. ground (arith, lt)) fresh))
    ∙ keep_everything (λ e. e.gate_decision_id == id) rows
        (All-map _ rows (λ e same. ground (arith, same)) own)

Sound-stands :
    (parse_uuid : String → Option ℕ) (c : Call) (id : ℕ) (t : Tables) (m : GenericPlanManifest)
    (key : String) (e : EvidenceRow)
    → Sound parse_uuid c id t m key e
    → Phases.evidence_stands t e ≡ true
Sound-stands parse_uuid c id t m key e
      (
        d,
        w,
        v,
        named,
        parsed,
        (found, ours),
        (approved_now, required),
        last,
        (revision, hash),
        other,
        own,
      ) =
    let product = (find-Among (λ x. x.id) e.work_product_id t.works w found).1 in
    let its = ap (λ i. latest_revision i t.revisions) product ∙ last in
    rw (found, approved_now, its) (same_number _ _ (sym revision))

Sound-own :
    (parse_uuid : String → Option ℕ) (c : Call) (id : ℕ) (t : Tables) (m : GenericPlanManifest)
    (key : String) (e : EvidenceRow)
    → Sound parse_uuid c id t m key e
    → e.gate_decision_id ≡ id
Sound-own parse_uuid c id t m key e
      (d, w, v, named, parsed, found, approved_now, last, revision, other, own) =
    own

module _ (parse_uuid : String → Option ℕ) (k : Codec) (c : Call) (m : MilestoneRow)
    (plan : Milestones.EffectivePlan) (t : PlanTables) (rows : List EvidenceRow)
    (notes : List AuditEvent) where
  abbrev pub made : GateDecision
  made = Milestones.new_gate_decision c m plan t

  abbrev pub after : PlanTables
  after = Milestones.accepted k c m made rows notes t

  pub new-decision_stands :
      All (λ e. e.gate_decision_id < t.core.queue.next_id) t.evidence
      → Each (Sound parse_uuid c made.id t.core plan.manifest) m.deliverable_keys rows
      → Phases.decision_stands after (Milestones.pass m) made ≡ true
  unfolding Phases.decision_stands
  new-decision_stands fresh sound =
      let its = Sound parse_uuid c made.id t.core plan.manifest in
      let own = Each-All its _ _ rows (Sound-own parse_uuid c made.id t.core plan.manifest) sound in
      let current =
        Each-All its _ _ rows (Sound-stands parse_uuid c made.id t.core plan.manifest) sound in
      let theirs = evidence_of-new made.id t.evidence rows fresh own in
      rw (theirs, no_stale after rows current, same_number _ _ (Each-length its _ rows sound)) refl

  new-binding_is :
      (b : PlanBinding)
      → b.effective_plan_revision_id ≡ some plan.revision_id
      → b.config_generation ≡ m.config_generation
      → Phases.binding_is made (some b) ≡ true
  new-binding_is b effective generation =
      rw (effective, same_number plan.revision_id plan.revision_id refl, same_number _ _ generation)
        refl

  pub new-is_accepted :
      m.project_id ≡ c.project_id
      → Milestones.effective_plan c.project_id t ≡ some plan
      → m.config_generation ≡ plan.current_generation
      → All (λ e. e.decided_at < c.now) t.gate_decisions
      → Phases.decision_stands after (Milestones.pass m) made ≡ true
      → Phases.is_accepted after (Milestones.pass m) ≡ true
  unfolding Phases.is_accepted
  new-is_accepted project effective generation past stands =
      let (b, binding, revision, current) = effective_plan-binding c.project_id t plan effective in
      let ours = ap (λ p. find (λ x. x.project_id) p t.plan_bindings) project ∙ binding in
      let last =
        last_decision-push (Milestones.decides_on m.project_id m.milestone_key m.config_generation)
          t.gate_decisions made (ground (arith, str_eq_refl m.milestone_key, project)) past in
      let bound = new-binding_is b revision (current ∙ sym generation) in
      rw (last, ours, bound, stands) refl
