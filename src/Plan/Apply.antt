-- ===== src/Plan/Apply.antt =====
-- Putting an approved revision of the plan into effect: `ApplyPlan` (internal/project/plan.go) and
-- `planRevisionApproved` (internal/project/decision.go).
pub mod Repeats
pub mod Effect
mod Tests
use delmos.Plan.Projection.{
  PhaseStatus, MilestoneStatus, PhaseRow, MilestoneRow, PhaseActivity, GateDecision, EvidenceRow,
  some_text, same_row, new_phase, refreshed_phase, is_phase, project_phase, project_phases,
  outdated, outdated_phase, has_activity, new_milestone, outdated_milestone, is_milestone,
  project_milestones, not_started, active, completed, pending, passed, failed, waived,
}
use delmos.Base.{
  need, ℕ, ◌+◌, String, Bool, true, false, not, ◌&&◌, ◌||◌, Option, none, some, List, [], ◌∷◌, ◌++◌,
  Result, ok, err, ◌>>=◌, ◌>>◌, fail_if, str_eq, contains, keep, ◌==◌, if◌then◌else◌, find,
  update_where, any,
}
use delmos.Automation.Value.{text, number}
use delmos.Plan.Graph.{PhaseGraph}
use delmos.Plan.Manifest.{PlanPhase, PlanMilestone, GenericPlanManifest, phase_keys, milestone_keys}
use delmos.Plan.Validation.{ManifestError, validate_manifest}
use delmos.Review.Tables.{
  WorkProduct, WorkProductRevision, DecisionRow, ReviewRequest, Tables, Call, latest_revision,
  record_project_audit, emit,
}
use delmos.Review.Works.{Codec}
use delmos.Review.Decide.{same_kind, is_positive}
use delmos.Review.Tables.{approval}

-- `PlanBinding`, a row of core.project_plan_manifests, and one of core.project_plan_applications.
pub record PlanBinding : Type 0 where
  pub project_id : ℕ
  pub plan_work_product_id : ℕ
  pub effective_plan_revision_id : Option ℕ
  pub config_generation : ℕ

pub record ManifestRow : Type 0 where
  pub revision_id : ℕ
  pub manifest : GenericPlanManifest

pub record PlanApplication : Type 0 where
  pub project_id : ℕ
  pub plan_revision_id : ℕ
  pub config_generation : ℕ
  pub applied_by : ℕ

-- The tables of internal/economics whose rows go with a phase (ON DELETE CASCADE) are left out.
pub record PlanTables : Type 0 where
  pub core : Tables
  pub plan_bindings : List PlanBinding
  pub manifests : List ManifestRow
  pub applications : List PlanApplication
  pub phases : List PhaseRow
  pub milestones : List MilestoneRow
  pub activity : List PhaseActivity
  pub gate_decisions : List GateDecision
  pub evidence : List EvidenceRow

-- `PlanApplied`
pub record PlanApplied : Type 0 where
  pub effective_plan_revision_id : ℕ
  pub config_generation : ℕ
  pub row_version : ℕ

pub data ApplyError : Type 0 where
  plan_not_found version_conflict revision_not_found plan_not_approved plan_phase_has_activity
        milestone_not_removed :
      ApplyError
  invalid_plan_manifest : ManifestError → ApplyError

-- `planRevisionApproved`
abbrev pub approves : ℕ → List ReviewRequest → DecisionRow → Bool
approves revision_id requests d =
    any (λ r. r.id == d.review_request_id && r.revision_id == revision_id) requests
    && same_kind d.kind approval
    && is_positive d.outcome

unfoldable pub plan_revision_approved : ℕ → Tables → Bool
plan_revision_approved revision_id t = any (approves revision_id t.requests) t.decisions

-- The two queries for the revision to apply, each joined with the manifests. `none` stands for a
-- nil pointer and for uuid.Nil.
abbrev has_manifest : List ManifestRow → WorkProductRevision → Bool
has_manifest ms v = any (λ m. m.revision_id == v.id) ms

abbrev pub own_revision : ℕ → Option WorkProductRevision → Option WorkProductRevision
own_revision work_product_id none = none
own_revision work_product_id (some v) =
    if v.work_product_id == work_product_id then some v else none

abbrev pub target_revision : Option ℕ → ℕ → PlanTables → Option WorkProductRevision
target_revision none work_product_id t =
    latest_revision work_product_id (keep (has_manifest t.manifests) t.core.revisions)
target_revision (some id) work_product_id t =
    own_revision work_product_id (find (λ v. v.id) id t.core.revisions)

abbrev pub checked_manifest : Result ManifestError (Unit {0}) → Result ApplyError (Unit {0})
checked_manifest (ok u) = ok u
checked_manifest (err e) = err (invalid_plan_manifest e)

abbrev pub is_effective : ℕ → PlanBinding → Bool
is_effective id b = elim b.effective_plan_revision_id [ none ↦ false | some e ↦ e == id ]

-- All rows that a new generation writes.
abbrev pub installed :
    Codec
    → Call
    → PlanBinding
    → WorkProduct
    → WorkProductRevision
    → GenericPlanManifest
    → PlanTables
    → PlanTables
installed k c b w v m t =
    let generation = b.config_generation + 1 in
    let stays : PhaseRow → Bool =
      λ row. not (outdated_phase c.project_id (phase_keys m.phases) row) in
    let remains : MilestoneRow → Bool =
      λ row. not (outdated_milestone c.project_id (milestone_keys m.milestones) row) in
    record t {
      plan_bindings =
          update_where (λ x. x.project_id == c.project_id)
            (λ x. record x {
              effective_plan_revision_id = some v.id;
              config_generation = generation;
            })
            t.plan_bindings;
      applications =
          t.applications
          ++ record {
            project_id = c.project_id;
            plan_revision_id = v.id;
            config_generation = generation;
            applied_by = c.actor_id;
          }
            ∷ [];
      phases = keep stays (project_phases c.project_id generation m.phases t.phases);
      milestones =
          keep remains (project_milestones c.project_id generation m.milestones t.milestones);
      core = record t.core {
        works =
            update_where (λ x. x.id == w.id) (λ x. record x { row_version = x.row_version + 1 })
              t.core.works;
        audit =
            t.core.audit
            ++ record_project_audit c "plan.apply" (
                ("revision_id", text (k.uuid v.id))
                ∷ ("revision_number", number (k.digits v.revision_number))
                ∷ ("config_generation", number (k.digits generation))
                ∷ [])
              ∷ [];
        queue =
            emit c 0 "plan.applied"
              (("revision_id", text (k.uuid v.id))
                ∷ ("revision_number", number (k.digits v.revision_number))
                ∷ ("config_generation", number (k.digits generation))
                ∷ [])
              t.core;
      };
    }

-- A phase that the manifest drops and that has activity stops the whole.
abbrev pub loses_activity : ℕ → ℕ → GenericPlanManifest → PlanTables → Bool
loses_activity project_id generation m t =
    any (λ row. outdated_phase project_id (phase_keys m.phases) row && has_activity t.activity row)
      (project_phases project_id generation m.phases t.phases)

-- The same for a milestone that has a gate decision.
abbrev pub has_decision : List GateDecision → MilestoneRow → Bool
has_decision ds row =
    any (λ d. same_row row.project_id row.milestone_key d.project_id d.milestone_key) ds

abbrev pub loses_decision : ℕ → ℕ → GenericPlanManifest → PlanTables → Bool
loses_decision project_id generation m t =
    any
      (λ row.
        outdated_milestone project_id (milestone_keys m.milestones) row
        && has_decision t.gate_decisions row)
      (project_milestones project_id generation m.milestones t.milestones)

unfoldable pub install :
    Codec
    → Call
    → PlanBinding
    → WorkProduct
    → WorkProductRevision
    → GenericPlanManifest
    → PlanTables
    → Result ApplyError (PlanTables × PlanApplied)
unfolding project_phases project_milestones
install k c b w v m t =
    fail_if (loses_activity c.project_id (b.config_generation + 1) m t) plan_phase_has_activity
    >> (fail_if (loses_decision c.project_id (b.config_generation + 1) m t) milestone_not_removed
        >> ok (
          installed k c b w v m t,
          record {
            effective_plan_revision_id = v.id;
            config_generation = b.config_generation + 1;
            row_version = w.row_version + 1;
          },
        ))

abbrev pub unchanged :
    PlanBinding → WorkProduct → WorkProductRevision → PlanTables → PlanTables × PlanApplied
unchanged b w v t = (
  t,
  record {
    effective_plan_revision_id = v.id;
    config_generation = b.config_generation;
    row_version = w.row_version;
  },
)

module _ (uuid_parses : String → Bool) (range : PhaseGraph → List String) where
  -- From the manifest of the revision on.
  unfoldable pub apply_revision :
      Codec
      → Call
      → PlanBinding
      → WorkProduct
      → WorkProductRevision
      → PlanTables
      → ManifestRow
      → Result ApplyError (PlanTables × PlanApplied)
  unfolding install plan_revision_approved
  apply_revision k c b w v t row =
      checked_manifest (validate_manifest uuid_parses range row.manifest)
      >> (fail_if (not (plan_revision_approved v.id t.core)) plan_not_approved
          >> (if is_effective v.id b
              then ok (unchanged b w v t)
              else install k c b w v row.manifest t))

  abbrev pub apply_target :
      Codec
      → Call
      → PlanBinding
      → WorkProduct
      → PlanTables
      → WorkProductRevision
      → Result ApplyError (PlanTables × PlanApplied)
  apply_target k c b w t v =
      need revision_not_found (find (λ m. m.revision_id) v.id t.manifests)
      >>= apply_revision k c b w v t

  abbrev pub apply_work :
      Codec
      → Call
      → Option ℕ
      → ℕ
      → PlanBinding
      → PlanTables
      → WorkProduct
      → Result ApplyError (PlanTables × PlanApplied)
  apply_work k c revision_id expected_row_version b t w =
      fail_if (not (w.row_version == expected_row_version)) version_conflict
      >> (need revision_not_found (target_revision revision_id w.id t) >>= apply_target k c b w t)

  abbrev pub apply_binding :
      Codec
      → Call
      → Option ℕ
      → ℕ
      → PlanTables
      → PlanBinding
      → Result ApplyError (PlanTables × PlanApplied)
  apply_binding k c revision_id expected_row_version t b =
      need plan_not_found (find (λ w. w.id) b.plan_work_product_id t.core.works)
      >>= apply_work k c revision_id expected_row_version b t

  -- `ApplyPlan`
  unfoldable pub apply_plan :
      Codec → Call → Option ℕ → ℕ → PlanTables → Result ApplyError (PlanTables × PlanApplied)
  unfolding apply_revision
  apply_plan k c revision_id expected_row_version t =
      need plan_not_found (find (λ b. b.project_id) c.project_id t.plan_bindings)
      >>= apply_binding k c revision_id expected_row_version t
