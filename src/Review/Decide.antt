-- ===== src/Review/Decide.antt =====
-- The decision of a reviewer or an approver on a submitted revision (internal/project/decision.go).
pub mod Facts
use delmos.Base.{
  ℕ, ◌+◌, String, Bool, true, false, not, ◌&&◌, ◌||◌, Option, none, some, List, [], ◌∷◌, ◌++◌, map,
  Result, ok, err, ◌>>=◌, ◌>>◌, fail_if, Dict, str_eq, contains, concat, ◌==◌, if◌then◌else◌, find,
  update_where, any, keep,
}
use delmos.Automation.Value.{Value, text}
use delmos.Review.Tables.{
  WorkStatus, draft, in_review, approved, status_text, WorkProduct, WorkProductRevision,
  ReviewRequest, is_approved, changes_requested, AssignmentRow, DecisionKind, review, approval,
  request_changes, DecisionOutcome, positive, asks_changes, DecisionRow, Tables, Call, AuditEvent,
  WorkError, work_product_not_found, reason_required, operation_conflict, not_in_review,
  review_request_missing, not_assigned, self_decision, stale_revision, no_positive_review,
  already_decided, no_revision, find_work, latest_revision, open_for, close_as, restatus, enforce,
  audit_row, emit,
}
use delmos.Review.Works.{Codec, found_or}

abbrev pub kind_text : DecisionKind → String
kind_text review = "review"
kind_text approval = "approval"
kind_text request_changes = "request_changes"

abbrev pub same_kind : DecisionKind → DecisionKind → Bool
same_kind review review = true
same_kind approval approval = true
same_kind request_changes request_changes = true
same_kind _ _ = false

abbrev pub is_positive : DecisionOutcome → Bool
is_positive o = elim o [ positive ↦ true | asks_changes ↦ false ]

-- `requiredAssignment`
abbrev pub required_assignment : DecisionKind → List String
required_assignment review = "reviewer" ∷ []
required_assignment approval = "approver" ∷ []
required_assignment request_changes = "reviewer" ∷ "approver" ∷ []

-- `ReviewDecision`: the row and the state of the work product after it.
pub record ReviewDecision : Type 0 where
  pub row : DecisionRow
  pub work_product_state : WorkStatus

-- `nullIfBlank`
abbrev pub null_if_blank : String → Option String
null_if_blank s = if str_eq s "" then none else some s

abbrev pub holds_text : String → Option String → Bool
holds_text s none = false
holds_text s (some u) = str_eq u s

abbrev pub with_key : String → DecisionRow → Bool
with_key operation_key d = holds_text operation_key d.operation_key

-- The reason stored and the reason given agree; a missing one agrees with the empty text.
abbrev pub same_reason : Option String → String → Bool
same_reason none reason = str_eq reason ""
same_reason (some s) reason = str_eq s reason

abbrev pub first : {A : Type 0} → List A → Option A
first [] = none
first (x ∷ xs) = some x

-- The row of the query, if its joins find one, against what the call asks for.
abbrev pub replayed :
    Call
    → ℕ
    → DecisionKind
    → String
    → DecisionRow
    → ReviewRequest
    → WorkProduct
    → Option WorkProductRevision
    → Result WorkError (Option ReviewDecision)
replayed c id kind reason d r w latest = do
  v ← found_or no_revision latest
  fail_if
      (not (
        d.decided_by == c.actor_id
        && r.project_id == c.project_id
        && r.work_product_id == id
        && same_kind d.kind kind
        && d.revision_id == v.id
        && same_reason d.reason reason))
      operation_conflict
  ok (some (record { row = d; work_product_state = w.status }))

-- `loadDecisionByOperationKey`
unfoldable pub load_decision_by_operation_key :
    Call → ℕ → DecisionKind → String → String → Tables → Result WorkError (Option ReviewDecision)
load_decision_by_operation_key c id kind reason operation_key t =
    elim (first (keep (with_key operation_key) t.decisions)) [
      | none ↦ ok none
      | some d ↦ elim (find (λ r. r.id) d.review_request_id t.requests) [
        | none ↦ ok none
        | some r ↦ elim (find (λ w. w.id) r.work_product_id t.works) [
          | none ↦ ok none
          | some w ↦ replayed c id kind reason d r w (latest_revision r.work_product_id t.revisions)
        ]
      ]
    ]

-- `ensureAssigned`
unfoldable pub ensure_assigned : ℕ → ℕ → List String → List AssignmentRow → Bool
ensure_assigned request_id actor_id roles rows =
    any
      (λ a.
        a.review_request_id == request_id
        && a.user_id == actor_id
        && contains a.assignment_role roles)
      rows

-- Positive reviews of a request: what the quorum of an approval counts.
abbrev pub positive_review : ℕ → DecisionRow → Bool
positive_review request_id d =
    d.review_request_id == request_id && same_kind d.kind review && is_positive d.outcome

-- The unique indexes of core.review_decisions.
abbrev pub takes_place : DecisionRow → DecisionRow → Bool
takes_place d e =
    e.review_request_id == d.review_request_id
      && e.decided_by == d.decided_by
      && same_kind e.kind d.kind
    || elim d.operation_key [ none ↦ false | some s ↦ with_key s e ]

abbrev pub outcome_of : DecisionKind → DecisionOutcome
outcome_of kind = elim kind [ request_changes ↦ asks_changes | _ ↦ positive ]

-- `insertDecision`
abbrev pub new_decision :
    Call
    → DecisionKind
    → String
    → String
    → ReviewRequest
    → WorkProductRevision
    → Tables
    → DecisionRow
new_decision c kind reason operation_key r v t = record {
  id = t.queue.next_id;
  review_request_id = r.id;
  revision_id = r.revision_id;
  payload_hash = v.payload_hash;
  kind = kind;
  outcome = outcome_of kind;
  decided_by = c.actor_id;
  reason = null_if_blank reason;
  operation_key = null_if_blank operation_key;
  decided_at = c.now;
}

-- `applyDecisionEffect`, on the tables and on the state of the work product.
abbrev pub resulting_status : DecisionKind → WorkStatus → WorkStatus
resulting_status review current = current
resulting_status approval current = approved
resulting_status request_changes current = draft

abbrev pub apply_decision_effect : Call → DecisionKind → ℕ → ℕ → Tables → Tables
apply_decision_effect c review request_id id t = t
apply_decision_effect c approval request_id id t = record t {
  requests = update_where (λ x. x.id == request_id) (close_as is_approved c.now) t.requests;
  works = update_where (λ x. x.id == id) (restatus approved) t.works;
}
apply_decision_effect c request_changes request_id id t = record t {
  requests = update_where (λ x. x.id == request_id) (close_as changes_requested c.now) t.requests;
  works = update_where (λ x. x.id == id) (restatus draft) t.works;
}

-- `decisionEventKey` and the event, if the kind has one.
abbrev pub emit_decision : Codec → Call → DecisionKind → ℕ → ReviewRequest → Tables → Tables
emit_decision k c kind id r t =
    let payload : Dict Value =
      ("work_product_id", text (k.uuid id)) ∷ ("revision_id", text (k.uuid r.revision_id)) ∷ [] in
    elim kind [
      | review ↦ record t { queue = record t.queue { next_id = t.queue.next_id + 1 } }
      | approval ↦ record t { queue = emit c 1 "wp.approved" payload t }
      | request_changes ↦ record t { queue = emit c 1 "wp.changes_requested" payload t }
    ]

abbrev pub decided :
    Codec
    → Call
    → DecisionKind
    → ℕ
    → ReviewRequest
    → DecisionRow
    → List AuditEvent
    → Tables
    → Tables
decided k c kind id r d notes t =
    let after = apply_decision_effect c kind r.id id (emit_decision k c kind id r t) in
    record after {
      decisions = t.decisions ++ d ∷ [];
      audit =
          t.audit
          ++ notes
          ++ audit_row c (concat "wp." (kind_text kind)) (
              ("work_product_id", text (k.uuid id))
              ∷ ("review_request_id", text (k.uuid r.id))
              ∷ ("revision_id", text (k.uuid r.revision_id))
              ∷ ("decision_id", text (k.uuid d.id))
              ∷ [])
            ∷ [];
    }

-- The rules run for every kind but a review.
abbrev pub enforce_decision :
    Codec
    → Call
    → DecisionKind
    → ℕ
    → WorkProduct
    → ReviewRequest
    → Tables
    → Result WorkError (List AuditEvent)
enforce_decision k c kind id w r t =
    let facts : String → Dict Value = λ target.
      ("status", text (status_text w.status))
      ∷ ("action", text (kind_text kind))
      ∷ ("target_status", text target)
      ∷ ("work_product_id", text (k.uuid id))
      ∷ ("revision_id", text (k.uuid r.revision_id))
      ∷ [] in
    elim kind [
      | review ↦ ok []
      | approval ↦ enforce k.explain c "trigger.core.before_wp_transition" (facts "approved") t
      | request_changes ↦ enforce k.explain c "trigger.core.before_wp_transition" (facts "draft") t
    ]

abbrev pub reason_missing : DecisionKind → String → Bool
reason_missing kind reason = elim kind [ request_changes ↦ str_eq reason "" | _ ↦ false ]

abbrev pub quorum_missing : DecisionKind → ℕ → List DecisionRow → Bool
quorum_missing kind request_id ds = elim kind [
  | approval ↦ not (any (positive_review request_id) ds)
  | _ ↦ false
]

abbrev pub is_in_review : WorkStatus → Bool
is_in_review s = elim s [ in_review ↦ true | _ ↦ false ]

-- The insert and what follows it.
unfoldable pub insert_decision :
    Codec
    → Call
    → ℕ
    → DecisionKind
    → String
    → String
    → WorkProduct
    → ReviewRequest
    → WorkProductRevision
    → Tables
    → List AuditEvent
    → Result WorkError (Tables × ReviewDecision)
insert_decision k c id kind reason operation_key w r v t notes = do
  let d = new_decision c kind reason operation_key r v t
  fail_if (any (takes_place d) t.decisions) already_decided
  ok (
    decided k c kind id r d notes t,
    record { row = d; work_product_state = resulting_status kind w.status },
  )

-- `RecordDecision` once the work product, its open request and the revision of the request are
-- read.
unfoldable pub conclude :
    Codec
    → Call
    → ℕ
    → DecisionKind
    → String
    → String
    → WorkProduct
    → ReviewRequest
    → WorkProductRevision
    → Tables
    → Result WorkError (Tables × ReviewDecision)
unfolding insert_decision
conclude k c id kind reason operation_key w r v t = do
  fail_if (c.actor_id == v.created_by) self_decision
  fail_if (not (str_eq r.payload_hash v.payload_hash)) stale_revision
  fail_if (quorum_missing kind r.id t.decisions) no_positive_review
  notes ← enforce_decision k c kind id w r t
  insert_decision k c id kind reason operation_key w r v t notes

-- The revision of a request is a foreign key, so it is found.
unfoldable pub conclude_request :
    Codec
    → Call
    → ℕ
    → DecisionKind
    → String
    → String
    → WorkProduct
    → ReviewRequest
    → Tables
    → Result WorkError (Tables × ReviewDecision)
unfolding conclude ensure_assigned
conclude_request k c id kind reason operation_key w r t = do
  fail_if (not (ensure_assigned r.id c.actor_id (required_assignment kind) t.assignments))
      not_assigned
  v ← found_or no_revision (find (λ v. v.id) r.revision_id t.revisions)
  conclude k c id kind reason operation_key w r v t

-- `RecordDecision` after the look-up of the operation key.
unfoldable pub decide :
    Codec
    → Call
    → ℕ
    → DecisionKind
    → String
    → String
    → Tables
    → Result WorkError (Tables × ReviewDecision)
unfolding conclude_request
decide k c id kind reason operation_key t = do
  w ← found_or work_product_not_found (find_work id c.project_id t.works)
  fail_if (not (is_in_review w.status)) (not_in_review w.status)
  r ← found_or review_request_missing (first (keep (open_for id) t.requests))
  conclude_request k c id kind reason operation_key w r t

abbrev pub replay :
    Tables
    → Result WorkError (Tables × ReviewDecision)
    → Result WorkError (Option ReviewDecision)
    → Result WorkError (Tables × ReviewDecision)
replay t fresh (err e) = err e
replay t fresh (ok none) = fresh
replay t fresh (ok (some d)) = ok (t, d)

-- `RecordDecision`; the three kinds are all there are. A blank operation key is not looked up.
unfoldable pub record_decision :
    Codec
    → Call
    → ℕ
    → DecisionKind
    → String
    → String
    → Tables
    → Result WorkError (Tables × ReviewDecision)
unfolding decide load_decision_by_operation_key
record_decision k c id kind reason operation_key t =
    let fresh = decide k c id kind reason operation_key t in
    fail_if (reason_missing kind reason) reason_required
    >> (if str_eq operation_key ""
        then fresh
        else replay t fresh (load_decision_by_operation_key c id kind reason operation_key t))
