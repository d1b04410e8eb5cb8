-- ===== src/Gate/Milestones/Gathering.antt =====
-- The evidence of a decision: the loop over the deliverables in `AcceptMilestone`
-- (internal/project/milestone.go).
use delmos.Base.{
  ℕ, String, not, ◌||◌, Option, List, [], ◌∷◌, ◌++◌, Result, ok, ◌>>=◌, ◌>>◌, fail_if, str_eq, ◌==◌,
  any, need, first,
}
use delmos.Plan.Manifest.{GenericPlanManifest, Deliverable}
use delmos.Plan.Projection.{EvidenceRow}
use delmos.Review.Tables.{
  status_text, WorkProduct, WorkProductRevision, Tables, Call, find_work, latest_revision,
}
use delmos.Gate.Milestones.Standing.{
  GateError, self_gate_decision, milestone_not_ready, evidence_twice, is_approved_work,
}

-- The row of evidence for one deliverable, by the tests of the loop's body.
abbrev pub evidence_row : ℕ → WorkProduct → WorkProductRevision → EvidenceRow
evidence_row decision_id w v = record {
  gate_decision_id = decision_id;
  work_product_id = w.id;
  revision_id = v.id;
  payload_hash = v.payload_hash;
}

abbrev pub checked_evidence :
    Call → ℕ → Deliverable → WorkProduct → WorkProductRevision → Result GateError EvidenceRow
checked_evidence c decision_id d w v =
    fail_if (c.actor_id == v.created_by) self_gate_decision
    >> (fail_if
          (not (str_eq (status_text w.status) d.required_status) || not (is_approved_work w.status))
          milestone_not_ready
        >> ok (evidence_row decision_id w v))

abbrev pub evidence_from :
    Call → ℕ → Tables → Deliverable → WorkProduct → Result GateError EvidenceRow
evidence_from c decision_id t d w =
    need milestone_not_ready (latest_revision w.id t.revisions)
    >>= checked_evidence c decision_id d w

module _ (parse_uuid : String → Option ℕ) where
  abbrev pub deliverable_work : Call → Tables → Deliverable → Result GateError WorkProduct
  deliverable_work c t d =
      fail_if (str_eq d.work_product_id "") milestone_not_ready
      >> (need milestone_not_ready (parse_uuid d.work_product_id)
          >>= (λ id. need milestone_not_ready (find_work id c.project_id t.works)))

  unfoldable pub evidence_for :
      Call → ℕ → Tables → GenericPlanManifest → String → Result GateError EvidenceRow
  evidence_for c decision_id t m key =
      need milestone_not_ready (first (λ d. str_eq d.key key) m.deliverables)
      >>= (λ d. deliverable_work c t d >>= evidence_from c decision_id t d)

  -- The loop over the milestone's deliverables; `rows` is the evidence written so far.
  unfoldable pub gather_evidence :
      Call
      → ℕ
      → Tables
      → GenericPlanManifest
      → List EvidenceRow
      → List String
      → Result GateError (List EvidenceRow)
  unfolding evidence_for
  gather_evidence c decision_id t m rows [] = ok rows
  gather_evidence c decision_id t m rows (key ∷ keys) = evidence_for c decision_id t m key >>= (λ e.
      fail_if (any (λ x. x.work_product_id == e.work_product_id) rows) evidence_twice
      >> gather_evidence c decision_id t m (rows ++ e ∷ []) keys)
