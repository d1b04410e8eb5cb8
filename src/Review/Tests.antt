-- ===== src/Review/Tests.antt =====
-- A requirement from its creation to its approval, by three people.
use delmos.Base.{ℕ, ◌≡◌, ◌≢◌, refl, true, none, some, List, [], ◌∷◌, ok, err, Among, find}
use delmos.Automation.Rules.{enforce_rules, enforce_loaded, load_rules, by_priority}
use delmos.Review.Tables.{
  in_review, approved, WorkProduct, WorkProductRevision, ReviewRequest, DecisionRow, review,
  approval, request_changes, positive, Tables, Call, not_assigned, reason_required, latest_revision,
  enforce,
}
use delmos.Review.Works.{
  Codec, canonical_hashes, new_work_product, new_revision, created, check_new_work_product,
  create_work_product,
}
use delmos.Review.Submit.{
  ReviewAssignment, has_permission, check_assignments, new_request, submitted, submit_checked,
  submit_revision, submit_work_product,
}
use delmos.Review.Decide.{
  new_decision, decided, decide, conclude, conclude_request, insert_decision, ensure_assigned,
  load_decision_by_operation_key, record_decision,
}
use delmos.Review.Sound.{Sound}
use delmos.Review.Sound.Rows.{opens}
use delmos.Review.Sound.Replay.{record_decision-again}
use delmos.Review.Sound.Reachable.{
  begin, creates, submits, decides, Reaches-Sound, decide-independent, decide-quorum,
}

abbrev codec : Codec
codec = record {
  sha256 = λ s. s;
  json = λ d. "{}";
  uuid = λ n. "id";
  digits = λ n. "n";
  explain = λ e. "error";
}

abbrev by : ℕ → Call
by actor = record {
  actor_id = actor;
  project_id = 7;
  correlation_id = 90;
  event_id = 91;
  audit_id = 92;
  now = 1000;
}

-- Nobody has made a work product yet; user 2 may review and user 3 approve.
abbrev start : Tables
start = record {
  works = [];
  revisions = [];
  requests = [];
  assignments = [];
  decisions = [];
  bindings =
      record { user_id = 2; role_key = "r"; project_id = 7; revoked_at = none; expires_at = none }
      ∷ record {
        user_id = 3;
        role_key = "a";
        project_id = 7;
        revoked_at = none;
        expires_at = some 2000;
      }
      ∷ [];
  users = record { id = 2; is_active = true } ∷ record { id = 3; is_active = true } ∷ [];
  permissions = ("r", "wp.review" ∷ []) ∷ ("a", "wp.approve" ∷ []) ∷ [];
  rules = [];
  audit = [];
  queue = record { outbox = []; subscriptions = []; deliveries = []; next_id = 1 };
}

start-Sound : Sound start
start-Sound = ((tt, tt), (tt, tt), (tt, tt), λ k. refl)

abbrev made : WorkProduct
made = new_work_product (by 1) "SRS-1" "requirement" "Needs" start

abbrev first_text : WorkProductRevision
first_text = new_revision codec (by 1) 2 made 1 "text" []

abbrev t1 : Tables
t1 = created codec (by 1) made first_text start

abbrev assignees : List ReviewAssignment
assignees =
    record { user_id = 2; role = "reviewer" } ∷ record { user_id = 3; role = "approver" } ∷ []

abbrev asked : ReviewRequest
asked = new_request (by 1) 1 first_text t1

abbrev t2 : Tables
t2 = submitted codec (by 1) 1 asked assignees [] t1

abbrev reviewed : DecisionRow
reviewed = new_decision (by 2) review "" "key-1" asked first_text t2

abbrev t3 : Tables
t3 = decided codec (by 2) review 1 asked reviewed [] t2

abbrev agreed : DecisionRow
agreed = new_decision (by 3) approval "" "key-2" asked first_text t3

abbrev t4 : Tables
t4 = decided codec (by 3) approval 1 asked agreed [] t3

creation :
    create_work_product codec (by 1) "SRS-1" "requirement" "Needs" "text" [] start
    ≡ ok (t1, made, first_text)
unfolding create_work_product check_new_work_product
creation = refl

submission : submit_work_product codec (by 1) 1 assignees t1 ≡ ok (t2, asked)
unfolding submit_work_product submit_revision submit_checked check_assignments has_permission
    enforce enforce_rules enforce_loaded load_rules by_priority canonical_hashes
submission = refl

a_review :
    record_decision codec (by 2) 1 review "" "key-1" t2
    ≡ ok (t3, record { row = reviewed; work_product_state = in_review })
unfolding record_decision decide conclude_request conclude insert_decision ensure_assigned
    load_decision_by_operation_key canonical_hashes
a_review = refl

an_approval :
    decide codec (by 3) 1 approval "" "key-2" t3
    ≡ ok (t4, record { row = agreed; work_product_state = approved })
unfolding decide conclude_request conclude insert_decision ensure_assigned enforce enforce_rules
    enforce_loaded load_rules by_priority canonical_hashes
an_approval = refl

-- The same key gives the decision again and changes nothing.
once_more :
    record_decision codec (by 3) 1 approval "" "key-2" t4
    ≡ ok (t4, record { row = agreed; work_product_state = approved })
unfolding record_decision load_decision_by_operation_key canonical_hashes
once_more = refl

no_reason : record_decision codec (by 2) 1 request_changes "" "" t2 ≡ err reason_required
unfolding record_decision
no_reason = refl

author_refused : decide codec (by 1) 1 approval "" "" t3 ≡ err not_assigned
unfolding decide conclude_request ensure_assigned
author_refused = refl

t2-Sound : Sound t2
t2-Sound = Reaches-Sound start t2 start-Sound (
    submits codec (by 1) 1 assignees asked
      (creates codec (by 1) "SRS-1" "requirement" "Needs" "text" [] made first_text begin creation)
      submission)

Reaches-Sound_example : Sound t3
Reaches-Sound_example = Reaches-Sound start t3 start-Sound (
    decides codec (by 2) 1 review "" "key-1" _
      (submits codec (by 1) 1 assignees asked
        (creates codec (by 1) "SRS-1" "requirement" "Needs" "text" [] made first_text begin
          creation)
        submission)
      a_review)

decide-independent_example :
    (v : WorkProductRevision) × (latest_revision 1 t3.revisions ≡ some v)
    × (agreed.revision_id ≡ v.id)
    × (agreed.payload_hash ≡ v.payload_hash)
    × (3 ≢ v.created_by)
decide-independent_example =
    decide-independent codec (by 3) 1 approval "" "key-2" t3 t4
      (record { row = agreed; work_product_state = approved }) Reaches-Sound_example an_approval

decide-quorum_example :
    ((e : DecisionRow) × Among e t3.decisions
      × (e.review_request_id ≡ 4)
      × (e.kind ≡ review)
      × (e.outcome ≡ positive))
    × ((w : WorkProduct) × (find (λ x. x.id) 1 t4.works ≡ some w) × (w.status ≡ approved))
    × (opens 1 t4.requests ≡ [])
decide-quorum_example =
    decide-quorum codec (by 3) 1 "" "key-2" t3 t4
      (record { row = agreed; work_product_state = approved }) Reaches-Sound_example an_approval

record_decision-again_example :
    record_decision codec (record (by 2) { event_id = 191; now = 1500 }) 1 review "" "key-1" t3
    ≡ ok (t3, record { row = reviewed; work_product_state = in_review })
record_decision-again_example =
    record_decision-again codec (by 2) (record (by 2) { event_id = 191; now = 1500 }) 1 review ""
      "key-1" t2 t3 (record { row = reviewed; work_product_state = in_review }) t2-Sound refl refl
      refl a_review
