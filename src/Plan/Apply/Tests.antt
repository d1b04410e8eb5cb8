-- ===== src/Plan/Apply/Tests.antt =====
-- A plan of two phases that user 3 approved, applied twice.
use delmos.Base.{ℕ, ◌≡◌, refl, String, Bool, false, none, some, [], ◌∷◌, ok, err, keys}
use delmos.Plan.Manifest.{GenericPlanManifest, PlanPhase, default_manifest}
use delmos.Plan.Graph.{search_cycle, visit, visit_all, leave}
use delmos.Plan.Dates.{parse_date}
use delmos.Plan.Validation.{
  has_phase_cycle, validate_manifest, validate_sections, validate_keys, validate_keys_from,
  matches_key, check_phases, check_deliverables, cycle_check, check_milestones, check_scope,
}
use delmos.Review.Tables.{
  WorkProduct, WorkProductRevision, approved, is_approved, approval, positive, Tables, Call,
}
use delmos.Review.Works.{Codec}
use delmos.Plan.Apply.{
  PlanApplied, PlanBinding, PlanTables, apply_plan, apply_revision, install, installed,
  plan_revision_approved, version_conflict,
}
use delmos.Plan.Projection.{PhaseRow, new_phase, project_milestones, project_phase, project_phases}
use delmos.Plan.Apply.Effect.{ValidInEffect, apply_plan-ValidInEffect}
use delmos.Plan.Apply.Repeats.{apply_plan-again, apply_plan-conflicts}

abbrev design : PlanPhase
design = record {
  key = "design";
  name = "Design";
  planned_start = "2024-02-01";
  planned_finish = "2024-02-29";
  depends_on = [];
}

abbrev build : PlanPhase
build = record {
  key = "build";
  name = "Build";
  planned_start = "2024-03-01";
  planned_finish = "2024-06-30";
  depends_on = "design" ∷ [];
}

abbrev two_phases : GenericPlanManifest
two_phases = record default_manifest { phases = design ∷ build ∷ [] }

abbrev codec : Codec
codec = record {
  sha256 = λ s. s;
  json = λ d. "{}";
  uuid = λ n. "id";
  digits = λ n. "n";
  explain = λ e. "error";
}

abbrev by : ℕ → Call
by actor = record {
  actor_id = actor;
  project_id = 7;
  correlation_id = 90;
  event_id = 91;
  audit_id = 92;
  now = 1000;
}

abbrev no_uuid : String → Bool
no_uuid s = false

abbrev the_plan : WorkProduct
the_plan = record {
  id = 1;
  project_id = 7;
  code = "PLAN-1";
  wp_type = "plan";
  profile = "generic";
  title = "Plan";
  status = approved;
  classification = "internal";
  row_version = 4;
}

abbrev text_of_plan : WorkProductRevision
text_of_plan = record {
  id = 2;
  work_product_id = 1;
  revision_number = 1;
  body = "";
  metadata = [];
  payload_hash = "p";
  content_hash = "c";
  created_by = 1;
}

abbrev tables : Tables
tables = record {
  works = the_plan ∷ [];
  revisions = text_of_plan ∷ [];
  requests =
      record {
        id = 3;
        project_id = 7;
        work_product_id = 1;
        revision_id = 2;
        payload_hash = "p";
        request_status = is_approved;
        requested_by = 1;
        closed_at = some 900;
      }
      ∷ [];
  assignments = [];
  decisions =
      record {
        id = 4;
        review_request_id = 3;
        revision_id = 2;
        payload_hash = "p";
        kind = approval;
        outcome = positive;
        decided_by = 3;
        reason = none;
        operation_key = none;
        decided_at = 900;
      }
      ∷ [];
  bindings = [];
  users = [];
  permissions = [];
  rules = [];
  audit = [];
  queue = record { outbox = []; subscriptions = []; deliveries = []; next_id = 5 };
}

abbrev binding : PlanBinding
binding = record {
  project_id = 7;
  plan_work_product_id = 1;
  effective_plan_revision_id = none;
  config_generation = 0;
}

-- The project has a phase that the plan drops.
abbrev dropped : PhaseRow
dropped = new_phase 7 0 (record design { key = "survey" })

abbrev before : PlanTables
before = record {
  core = tables;
  plan_bindings = binding ∷ [];
  manifests = record { revision_id = 2; manifest = two_phases } ∷ [];
  applications = [];
  phases = dropped ∷ [];
  milestones = [];
  activity = [];
  gate_decisions = [];
  evidence = [];
}

abbrev after : PlanTables
after = installed codec (by 3) binding the_plan text_of_plan two_phases before

abbrev applied : PlanApplied
applied = record { effective_plan_revision_id = 2; config_generation = 1; row_version = 5 }

application : apply_plan no_uuid keys codec (by 3) (some 2) 4 before ≡ ok (after, applied)
unfolding apply_plan apply_revision install project_phases project_phase project_milestones
    plan_revision_approved validate_manifest validate_sections validate_keys validate_keys_from
    matches_key check_phases check_deliverables cycle_check has_phase_cycle search_cycle visit
    visit_all leave check_milestones check_scope parse_date
application = refl

apply_plan-again_example :
    apply_plan no_uuid keys codec (by 5) (some 2) 5 after ≡ ok (after, applied)
apply_plan-again_example =
    apply_plan-again no_uuid keys codec (by 3) (by 5) (some 2) 4 before after applied refl
      application

apply_plan-conflicts_example :
    apply_plan no_uuid keys codec (by 3) (some 2) 4 after ≡ err version_conflict
apply_plan-conflicts_example =
    apply_plan-conflicts no_uuid keys codec (by 3) (by 3) (some 2) 4 before after applied refl refl
      application

apply_plan-ValidInEffect_example : ValidInEffect no_uuid keys (by 3) after applied
apply_plan-ValidInEffect_example =
    apply_plan-ValidInEffect no_uuid keys (λ g k on. on) codec (by 3) (some 2) 4 before after
      applied application
