-- ===== src/Plan/Revise/Tests.antt =====
-- A plan in effect that gets a second revision.
use delmos.Base.{ℕ, ◌≡◌, refl, arith, String, Option, none, some, [], ◌∷◌, ok, err, keys, find}
use delmos.Plan.Manifest.{GenericPlanManifest, PlanPhase, default_manifest}
use delmos.Plan.Graph.{search_cycle, visit, visit_all, leave}
use delmos.Plan.Dates.{parse_date}
use delmos.Plan.Validation.{
  has_phase_cycle, validate_manifest, validate_sections, validate_keys, validate_keys_from,
  matches_key, check_phases, check_deliverables, cycle_check, check_milestones, check_scope,
}
use delmos.Review.Tables.{WorkProduct, WorkProductRevision, approved, Call, enforce}
use delmos.Review.Works.{Codec}
use delmos.Automation.Rules.{enforce_rules, enforce_loaded, load_rules, by_priority}
use delmos.Plan.Apply.{PlanTables, apply_plan, plan_not_approved}
use delmos.Plan.Revise
use delmos.Plan.Revise.Unapproved.{revise_plan-unapproved}

abbrev codec : Codec
codec = record {
  sha256 = λ s. s;
  json = λ d. "{}";
  uuid = λ n. "id";
  digits = λ n. "n";
  explain = λ e. "error";
}

abbrev by : ℕ → Call
by actor = record {
  actor_id = actor;
  project_id = 7;
  correlation_id = 90;
  event_id = 91;
  audit_id = 92;
  now = 1000;
}

abbrev design : PlanPhase
design = record {
  key = "design";
  name = "Design";
  planned_start = "2024-02-01";
  planned_finish = "2024-02-29";
  depends_on = [];
}

abbrev second : GenericPlanManifest
second = record default_manifest { phases = design ∷ [] }

abbrev the_plan : WorkProduct
the_plan = record {
  id = 1;
  project_id = 7;
  code = "PLAN-1";
  wp_type = "plan";
  profile = "generic";
  title = "Plan";
  status = approved;
  classification = "internal";
  row_version = 4;
}

abbrev first_text : WorkProductRevision
first_text = record {
  id = 2;
  work_product_id = 1;
  revision_number = 1;
  body = "";
  metadata = [];
  payload_hash = "p";
  content_hash = "c";
  created_by = 1;
}

abbrev plan : PlanTables
plan = record {
  core = record {
    works = the_plan ∷ [];
    revisions = first_text ∷ [];
    requests = [];
    assignments = [];
    decisions = [];
    bindings = [];
    users = [];
    permissions = [];
    rules = [];
    audit = [];
    queue = record { outbox = []; subscriptions = []; deliveries = []; next_id = 20 };
  };
  plan_bindings =
      record {
        project_id = 7;
        plan_work_product_id = 1;
        effective_plan_revision_id = some 2;
        config_generation = 3;
      }
      ∷ [];
  manifests = record { revision_id = 2; manifest = default_manifest } ∷ [];
  applications = [];
  phases = [];
  milestones = [];
  activity = [];
  gate_decisions = [];
  evidence = [];
}

abbrev no_uuid : String → Option ℕ
no_uuid s = none

abbrev json : GenericPlanManifest → String
json m = "{}"

abbrev new : WorkProductRevision
new = Revise.plan_revision json codec (by 1) the_plan 2 "Two" second plan

abbrev out : PlanTables
out = Revise.plan_revised codec (by 1) the_plan new second [] plan

revised : Revise.revise_plan no_uuid keys json codec (by 1) 4 "Two" second plan ≡ ok (out, new)
unfolding Revise.revise_plan Revise.check_deliverable_works enforce enforce_rules enforce_loaded
    load_rules validate_manifest validate_sections validate_keys validate_keys_from matches_key
    check_phases check_deliverables cycle_check check_milestones check_scope has_phase_cycle
    search_cycle visit visit_all leave parse_date by_priority
revised = refl

revise_plan-unapproved_example :
    (validate_manifest (Revise.is_uuid no_uuid) keys second ≡ ok tt)
    × (find (λ x. x.revision_id) 20 out.manifests
        ≡ some (record { revision_id = 20; manifest = second }))
    × (out.plan_bindings ≡ plan.plan_bindings)
    × (out.phases ≡ plan.phases)
    × (out.milestones ≡ plan.milestones)
    × (apply_plan (Revise.is_uuid no_uuid) keys codec (by 3) (some 20) 5 out
        ≡ err plan_not_approved)
revise_plan-unapproved_example =
    revise_plan-unapproved no_uuid keys json codec (by 1) (by 3) 4 "Two" second plan out new
      ((omega arith, tt), tt, (omega arith, tt)) refl revised
