-- ===== src/Plan/Revise.antt =====
-- A new revision of the plan: `RevisePlan` (internal/project/plan.go).
pub mod Unapproved
mod Tests
use delmos.Base.{
  ℕ, ◌+◌, String, concat, Bool, true, false, not, Option, none, some, List, [], ◌∷◌, ◌++◌, Result,
  ok, err, ◌>>=◌, ◌>>◌, ◌&&◌, fail_if, need, Dict, str_eq, ◌==◌, if◌then◌else◌, find, update_where,
}
use delmos.Automation.Value.{Value, text, number}
use delmos.Plan.Graph.{PhaseGraph}
use delmos.Plan.Manifest.{GenericPlanManifest, Deliverable}
use delmos.Plan.Validation.{ManifestError, validate_manifest}
use delmos.Plan.Apply.{PlanTables, PlanBinding}
use delmos.Review.Tables.{
  draft, status_text, WorkProduct, WorkProductRevision, AuditEvent, Tables, Call, WorkError,
  no_revision, find_work, latest_revision, restatus, supersede_open_review_request, enforce,
  record_project_audit, emit,
}
use delmos.Review.Works.{Codec, as_obsolete, revision_event}

-- `work_refused` is an error that the work product or a rule gives, `foreign_deliverable` that of a
-- deliverable whose work product is not one of the project.
pub data ReviseError : Type 0 where
  invalid_manifest : ManifestError → ReviseError
  plan_missing row_version_conflict : ReviseError
  work_refused : WorkError → ReviseError
  foreign_deliverable : String → ReviseError

abbrev pub valid_or {ℓ} : {A : Type ℓ} → Result ManifestError A → Result ReviseError A
valid_or (ok a) = ok a
valid_or (err e) = err (invalid_manifest e)

abbrev pub work_or {ℓ} : {A : Type ℓ} → Result WorkError A → Result ReviseError A
work_or (ok a) = ok a
work_or (err e) = err (work_refused e)

-- The fields of the canonical form of a plan, each with a zero byte after it.
abbrev pub closed_fields : List String → String
closed_fields [] = ""
closed_fields (s ∷ r) = concat s (concat "\0" (closed_fields r))

abbrev pub plan_metadata : Dict Value
plan_metadata =
    ("plan_schema_version", text "1.0.0")
    ∷ ("template_key", text "generic-project-plan")
    ∷ ("template_version", number "1")
    ∷ []

abbrev pub is_some_work : Option WorkProduct → Bool
is_some_work none = false
is_some_work (some w) = true

-- `parse_uuid` reads an identifier; `json_manifest` is `json.Marshal` of a manifest.
abbrev pub is_uuid : (String → Option ℕ) → String → Bool
is_uuid parse_uuid s = elim (parse_uuid s) [ none ↦ false | some n ↦ true ]

-- `canonicalPlanHashes`
abbrev pub canonical_plan_hashes :
    (GenericPlanManifest → String)
    → Codec
    → WorkProduct
    → String
    → GenericPlanManifest
    → String × String
canonical_plan_hashes json_manifest k w body m = (
  k.sha256 (
      closed_fields (
        w.code
        ∷ w.wp_type
        ∷ w.profile
        ∷ w.title
        ∷ body
        ∷ k.json plan_metadata
        ∷ json_manifest m
        ∷ [])),
  k.sha256 body,
)

abbrev pub work_there : ℕ → List WorkProduct → Option ℕ → Bool
work_there project_id works none = false
work_there project_id works (some id) = is_some_work (find_work id project_id works)

-- The loop over the deliverables. A text that is no identifier is an error of the query.
unfoldable pub check_deliverable_works :
    (String → Option ℕ) → ℕ → List WorkProduct → List Deliverable → Result ReviseError (Unit {0})
check_deliverable_works parse_uuid project_id works [] = ok tt
check_deliverable_works parse_uuid project_id works (d ∷ ds) =
    fail_if
      (not (str_eq d.work_product_id "")
        && not (work_there project_id works (parse_uuid d.work_product_id)))
      (foreign_deliverable d.key)
    >> check_deliverable_works parse_uuid project_id works ds

abbrev pub plan_revision :
    (GenericPlanManifest → String)
    → Codec
    → Call
    → WorkProduct
    → ℕ
    → String
    → GenericPlanManifest
    → PlanTables
    → WorkProductRevision
plan_revision json_manifest k c w revision_number body m t = record {
  id = t.core.queue.next_id;
  work_product_id = w.id;
  revision_number = revision_number;
  body = body;
  metadata = plan_metadata;
  payload_hash = (canonical_plan_hashes json_manifest k w body m).0;
  content_hash = (canonical_plan_hashes json_manifest k w body m).1;
  created_by = c.actor_id;
}

abbrev pub plan_revised :
    Codec
    → Call
    → WorkProduct
    → WorkProductRevision
    → GenericPlanManifest
    → List AuditEvent
    → PlanTables
    → PlanTables
plan_revised k c w v m notes t = record t {
  manifests = t.manifests ++ record { revision_id = v.id; manifest = m } ∷ [];
  core = record t.core {
    works = update_where (λ x. x.id == w.id) (restatus draft) t.core.works;
    revisions = t.core.revisions ++ v ∷ [];
    requests = supersede_open_review_request c.now w.id t.core.requests;
    audit =
        t.core.audit
        ++ notes
        ++ record_project_audit c "plan.revise"
            (("revision_number", number (k.digits v.revision_number)) ∷ [])
          ∷ [];
    queue = emit c 1 "wp.revision_committed" (revision_event k w.id v.id w.code w.wp_type) t.core;
  };
}

abbrev pub revise_fields : Codec → WorkProduct → Dict Value
revise_fields k w =
    ("status", text (status_text w.status))
    ∷ ("action", text "plan.revise")
    ∷ ("target_status", text "draft")
    ∷ ("work_product_id", text (k.uuid w.id))
    ∷ []

module _ (parse_uuid : String → Option ℕ) (range : PhaseGraph → List String)
    (json_manifest : GenericPlanManifest → String) where
  -- From the rules on. The row is locked, so the UPDATE with its test of row_version hits it.
  abbrev pub revise_checked :
      Codec
      → Call
      → String
      → GenericPlanManifest
      → PlanTables
      → WorkProduct
      → List AuditEvent
      → Result ReviseError (PlanTables × WorkProductRevision)
  revise_checked k c body m t w notes =
      check_deliverable_works parse_uuid c.project_id t.core.works m.deliverables
      >> (need (work_refused no_revision) (latest_revision w.id t.core.revisions) >>= (λ last.
          let v = plan_revision json_manifest k c w (last.revision_number + 1) body m t in
          ok (plan_revised k c w v m notes t, v)))

  abbrev pub revise_work :
      Codec
      → Call
      → ℕ
      → String
      → GenericPlanManifest
      → PlanTables
      → WorkProduct
      → Result ReviseError (PlanTables × WorkProductRevision)
  revise_work k c expected_row_version body m t w =
      fail_if (not (w.row_version == expected_row_version)) row_version_conflict
      >> (work_or (
            as_obsolete
              (enforce k.explain c "trigger.core.before_wp_transition" (revise_fields k w) t.core))
          >>= revise_checked k c body m t w)

  -- `RevisePlan`
  unfoldable pub revise_plan :
      Codec
      → Call
      → ℕ
      → String
      → GenericPlanManifest
      → PlanTables
      → Result ReviseError (PlanTables × WorkProductRevision)
  unfolding check_deliverable_works
  revise_plan k c expected_row_version body m t =
      valid_or (validate_manifest (is_uuid parse_uuid) range m)
      >> (need plan_missing (find (λ b. b.project_id) c.project_id t.plan_bindings) >>= (λ b.
          need plan_missing (find (λ w. w.id) b.plan_work_product_id t.core.works)
          >>= revise_work k c expected_row_version body m t))
