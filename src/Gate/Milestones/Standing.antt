-- ===== src/Gate/Milestones/Standing.antt =====
-- The plan in effect, and whether a decision on a milestone still stands when it is accepted again
-- (internal/project/milestone.go).
use delmos.Base.{
  ℕ, String, Bool, true, false, not, ◌&&◌, ◌||◌, Option, none, some, List, [], ◌∷◌, Result, ok, err,
  str_eq, length, keep, ltb, leb, ◌==◌, if◌then◌else◌, find, any,
}
use delmos.Plan.Manifest.{GenericPlanManifest}
use delmos.Plan.Projection.{
  MilestoneRow, GateOutcome, gate_passed, GateDecision, EvidenceRow, same_row,
}
use delmos.Plan.Apply.{PlanTables, PlanBinding, ManifestRow}
use delmos.Review.Tables.{
  WorkStatus, approved, WorkProduct, WorkProductRevision, Tables, AuditEvent, WorkError,
  latest_revision,
}

-- The errors of the file. `refused` is a violation that EnforceRules returns, and `evidence_twice`
-- the primary key of core.gate_decision_evidence.
pub data GateError : Type 0 where
  milestone_not_found plan_not_approved self_gate_decision milestone_not_ready
        unsupported_acceptance_rule evidence_twice :
      GateError
  refused : WorkError → GateError

abbrev pub allowed : Result WorkError (List AuditEvent) → Result GateError (List AuditEvent)
allowed (ok notes) = ok notes
allowed (err e) = err (refused e)

-- `sameKeys`
abbrev pub same_keys : List String → List String → Bool
same_keys [] [] = true
same_keys [] (y ∷ ys) = false
same_keys (x ∷ xs) [] = false
same_keys (x ∷ xs) (y ∷ ys) = str_eq x y && same_keys xs ys

-- The plan in effect: the binding, the author of its revision and the manifest.
pub record EffectivePlan : Type 0 where
  pub revision_id : ℕ
  pub current_generation : ℕ
  pub plan_author : ℕ
  pub manifest : GenericPlanManifest

abbrev pub plan_of : PlanBinding → WorkProductRevision → ManifestRow → EffectivePlan
plan_of b v row = record {
  revision_id = v.id;
  current_generation = b.config_generation;
  plan_author = v.created_by;
  manifest = row.manifest;
}

abbrev pub with_manifest :
    PlanBinding → WorkProductRevision → Option ManifestRow → Option EffectivePlan
with_manifest b v none = none
with_manifest b v (some row) = some (plan_of b v row)

abbrev pub with_revision :
    PlanTables → PlanBinding → Option WorkProductRevision → Option EffectivePlan
with_revision t b none = none
with_revision t b (some v) = with_manifest b v (find (λ m. m.revision_id) v.id t.manifests)

abbrev pub with_effective : PlanTables → PlanBinding → Option ℕ → Option EffectivePlan
with_effective t b none = none
with_effective t b (some id) = with_revision t b (find (λ v. v.id) id t.core.revisions)

abbrev pub with_binding : PlanTables → Option PlanBinding → Option EffectivePlan
with_binding t none = none
with_binding t (some b) = with_effective t b b.effective_plan_revision_id

unfoldable pub effective_plan : ℕ → PlanTables → Option EffectivePlan
effective_plan project_id t = with_binding t (find (λ b. b.project_id) project_id t.plan_bindings)

-- ORDER BY decided_at DESC, id DESC LIMIT 1, among the decisions that pass a test.
abbrev pub decided_later : GateDecision → GateDecision → Bool
decided_later a b = ltb b.decided_at a.decided_at || a.decided_at == b.decided_at && leb b.id a.id

abbrev pub later_decision : GateDecision → Option GateDecision → Option GateDecision
later_decision d none = some d
later_decision d (some e) = if decided_later d e then some d else some e

abbrev pub last_decision : (GateDecision → Bool) → List GateDecision → Option GateDecision
last_decision p [] = none
last_decision p (d ∷ ds) =
    let rest = last_decision p ds in if p d then later_decision d rest else rest

abbrev pub is_passed_outcome : GateOutcome → Bool
is_passed_outcome o = elim o [ gate_passed ↦ true | _ ↦ false ]

-- The decisions on a milestone in a generation.
abbrev pub decides_on : ℕ → String → ℕ → GateDecision → Bool
decides_on project_id key generation d =
    same_row project_id key d.project_id d.milestone_key && d.config_generation == generation

abbrev pub passes_in : ℕ → String → ℕ → GateDecision → Bool
passes_in project_id key generation d =
    decides_on project_id key generation d && is_passed_outcome d.outcome

abbrev pub evidence_of : ℕ → List EvidenceRow → List EvidenceRow
evidence_of decision_id rows = keep (λ e. e.gate_decision_id == decision_id) rows

abbrev pub is_approved_work : WorkStatus → Bool
is_approved_work s = elim s [ approved ↦ true | _ ↦ false ]

-- The negation of e.revision_id <> (SELECT ...). A work product without revisions compares with NULL
-- there, which the query does not count.
abbrev pub not_another_revision : ℕ → Option WorkProductRevision → Bool
not_another_revision id none = true
not_another_revision id (some v) = v.id == id

-- The work product that a piece of evidence names is approved, in the revision named: the negation
-- of the test in the query. A work product that is not there drops out of the join.
abbrev pub up_to_date : Tables → ℕ → Option WorkProduct → Bool
up_to_date t revision_id none = true
up_to_date t revision_id (some w) =
    is_approved_work w.status && not_another_revision revision_id (latest_revision w.id t.revisions)

abbrev pub is_current_evidence : Tables → EvidenceRow → Bool
is_current_evidence t e = up_to_date t e.revision_id (find (λ w. w.id) e.work_product_id t.works)

-- invalid == 0 && evidenceCount == len(deliverableKeys)
unfoldable pub still_stands : PlanTables → MilestoneRow → GateDecision → Bool
still_stands t m d =
    let rows = evidence_of d.id t.evidence in
    not (any (λ e. not (is_current_evidence t.core e)) rows)
    && length rows == length m.deliverable_keys
