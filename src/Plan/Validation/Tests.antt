-- ===== src/Plan/Validation/Tests.antt =====
-- The search and the validation on concrete graphs and manifests.
use delmos.Base.{◌≡◌, refl, arith, String, Bool, false, none, List, [], ◌∷◌, ok, err, keys}
use delmos.Plan.Graph.{PhaseGraph, search_cycle, visit, visit_all, leave}
use delmos.Plan.Graph.Decides.{Decided, search_cycle-Decided}
use delmos.Plan.Manifest.{GenericPlanManifest, PlanPhase, default_manifest}
use delmos.Plan.Dates.{parse_date}
use delmos.Plan.Validation.{
  phase_cycle, bad_dates, has_phase_cycle, validate_manifest, validate_sections, validate_keys,
  validate_keys_from, matches_key, check_phases, check_deliverables, cycle_check, check_milestones,
  check_scope,
}
use delmos.Plan.Validation.Spec.{Valid}
use delmos.Plan.Validation.Correct.{validate_manifest-Valid}

abbrev design : PlanPhase
design = record {
  key = "design";
  name = "Design";
  planned_start = "2024-02-01";
  planned_finish = "2024-02-29";
  depends_on = [];
}

abbrev build : PlanPhase
build = record {
  key = "build";
  name = "Build";
  planned_start = "2024-03-01";
  planned_finish = "2024-06-30";
  depends_on = "design" ∷ [];
}

abbrev plan : List PlanPhase → GenericPlanManifest
plan ps = record default_manifest { phases = ps }

abbrev no_uuid : String → Bool
no_uuid s = false

leap_day : parse_date "2023-02-29" ≡ none
unfolding parse_date
leap_day = refl

two_phases : validate_manifest no_uuid keys (plan (build ∷ design ∷ [])) ≡ ok tt
unfolding validate_manifest validate_sections validate_keys validate_keys_from matches_key
    check_phases check_deliverables cycle_check has_phase_cycle search_cycle visit visit_all leave
    check_milestones check_scope parse_date
two_phases = refl

looped :
    validate_manifest no_uuid keys (plan (build ∷ record design { depends_on = "build" ∷ [] } ∷ []))
    ≡ err phase_cycle
unfolding validate_manifest validate_sections validate_keys validate_keys_from matches_key
    check_phases check_deliverables cycle_check has_phase_cycle search_cycle visit visit_all leave
    check_milestones check_scope parse_date
looped = refl

backwards :
    validate_manifest no_uuid keys (plan (record design { planned_finish = "2024-01-31" } ∷ []))
    ≡ err (bad_dates "design")
unfolding validate_manifest validate_sections validate_keys validate_keys_from matches_key
    check_phases check_deliverables cycle_check has_phase_cycle search_cycle visit visit_all leave
    check_milestones check_scope parse_date
backwards = refl

validate_manifest-Valid_example : Valid no_uuid (plan (build ∷ design ∷ []))
validate_manifest-Valid_example =
    (validate_manifest-Valid no_uuid keys (λ g k on. on) (plan (build ∷ design ∷ []))).0 two_phases

abbrev loop : PhaseGraph
loop = ("a", "b" ∷ []) ∷ ("b", "a" ∷ []) ∷ []

search_cycle-Decided_example : Decided loop (search_cycle loop ("b" ∷ "a" ∷ []))
search_cycle-Decided_example = search_cycle-Decided loop ("b" ∷ "a" ∷ []) (λ k on. ground arith)
