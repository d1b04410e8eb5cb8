-- ===== src/Review/Tables.antt =====
-- The rows that the work products live in (internal/project/store.go, review.go, decision.go and
-- internal/migrate/sql/0015_review_and_approval.sql), and what the operations share.
use delmos.Base.{
  ℕ, ◌+◌, String, Bool, true, false, ◌&&◌, Option, none, some, List, [], ◌∷◌, map, Result, ok, err,
  Dict, leb, ◌==◌, if◌then◌else◌, find, update_where,
}
use delmos.Automation.Value.{Value, text}
use delmos.Automation.Condition.{EvalError}
use delmos.Automation.Rules.{
  RuleDefinition, RuleViolation, RuleOutcome, violated, evaluation_error, enforce_rules,
}
use delmos.Automation.Outbox.{Queue, emit_event}

-- The CHECK on core.work_products.status.
pub data WorkStatus : Type 0 where
  draft in_review approved obsolete : WorkStatus

abbrev pub status_text : WorkStatus → String
status_text draft = "draft"
status_text in_review = "in_review"
status_text approved = "approved"
status_text obsolete = "obsolete"

-- `WorkProduct`
pub record WorkProduct : Type 0 where
  pub id : ℕ
  pub project_id : ℕ
  pub code : String
  pub wp_type : String
  pub profile : String
  pub title : String
  pub status : WorkStatus
  pub classification : String
  pub row_version : ℕ

-- `WorkProductRevision`; a hash is a text of bytes.
pub record WorkProductRevision : Type 0 where
  pub id : ℕ
  pub work_product_id : ℕ
  pub revision_number : ℕ
  pub body : String
  pub metadata : Dict Value
  pub payload_hash : String
  pub content_hash : String
  pub created_by : ℕ

-- The CHECK on core.review_requests.status.
pub data RequestStatus : Type 0 where
  is_open is_approved changes_requested superseded : RequestStatus

-- `ReviewRequest`, with the columns payload_hash and closed_at.
pub record ReviewRequest : Type 0 where
  pub id : ℕ
  pub project_id : ℕ
  pub work_product_id : ℕ
  pub revision_id : ℕ
  pub payload_hash : String
  pub request_status : RequestStatus
  pub requested_by : ℕ
  pub closed_at : Option ℕ

-- A row of core.review_assignments.
pub record AssignmentRow : Type 0 where
  pub review_request_id : ℕ
  pub user_id : ℕ
  pub assignment_role : String
  pub assigned_by : ℕ

-- The constants DecisionReview, DecisionApproval and DecisionRequestChanges.
pub data DecisionKind : Type 0 where
  review approval request_changes : DecisionKind

pub data DecisionOutcome : Type 0 where
  positive asks_changes : DecisionOutcome

-- A row of core.review_decisions.
pub record DecisionRow : Type 0 where
  pub id : ℕ
  pub review_request_id : ℕ
  pub revision_id : ℕ
  pub payload_hash : String
  pub kind : DecisionKind
  pub outcome : DecisionOutcome
  pub decided_by : ℕ
  pub reason : Option String
  pub operation_key : Option String
  pub decided_at : ℕ

-- A row of core.audit_events; scope_type is 'project' and outcome is 'success' throughout.
pub record AuditEvent : Type 0 where
  pub actor_user_id : ℕ
  pub action : String
  pub scope_id : ℕ
  pub detail : Dict Value
  pub audit_correlation : ℕ

-- A row of core.role_bindings whose scope is a project, and one of core.users.
pub record RoleBinding : Type 0 where
  pub user_id : ℕ
  pub role_key : String
  pub project_id : ℕ
  pub revoked_at : Option ℕ
  pub expires_at : Option ℕ

pub record User : Type 0 where
  pub id : ℕ
  pub is_active : Bool

-- The tables that the operations read and write. The supply behind gen_random_uuid() is
-- `queue.next_id`. `permissions` is core.role_definitions: the permission_keys of each role.
pub record Tables : Type 0 where
  pub works : List WorkProduct
  pub revisions : List WorkProductRevision
  pub requests : List ReviewRequest
  pub assignments : List AssignmentRow
  pub decisions : List DecisionRow
  pub bindings : List RoleBinding
  pub users : List User
  pub permissions : Dict (List String)
  pub rules : List RuleDefinition
  pub audit : List AuditEvent
  pub queue : Queue

-- Who calls, for which project, and the fresh identifiers and the time of the call.
pub record Call : Type 0 where
  pub actor_id : ℕ
  pub project_id : ℕ
  pub correlation_id : ℕ
  pub event_id : ℕ
  pub audit_id : ℕ
  pub now : ℕ

-- The errors of the four files, one for each sentinel or message.
pub data WorkError : Type 0 where
  project_plan_reserved invalid_work_product_type invalid_code work_product_code_taken : WorkError
  work_product_not_found version_conflict work_product_obsolete no_revision : WorkError
  rule_refused : RuleViolation → WorkError
  review_request_open assignee_is_author review_assignments_invalid : WorkError
  not_draft not_in_review : WorkStatus → WorkError
  reason_required operation_conflict review_request_missing not_assigned : WorkError
  self_decision stale_revision no_positive_review already_decided : WorkError

-- SELECT … WHERE id = $1 AND project_id = $2; id is the primary key.
abbrev pub in_project : ℕ → Option WorkProduct → Option WorkProduct
in_project project_id none = none
in_project project_id (some w) = if w.project_id == project_id then some w else none

abbrev pub find_work : ℕ → ℕ → List WorkProduct → Option WorkProduct
find_work id project_id works = in_project project_id (find (λ w. w.id) id works)

-- ORDER BY revision_number DESC LIMIT 1, for one work product.
abbrev pub newer : WorkProductRevision → Option WorkProductRevision → Option WorkProductRevision
newer r none = some r
newer r (some s) = if leb s.revision_number r.revision_number then some r else some s

abbrev pub latest_revision : ℕ → List WorkProductRevision → Option WorkProductRevision
latest_revision id [] = none
latest_revision id (r ∷ rs) =
    let rest = latest_revision id rs in if r.work_product_id == id then newer r rest else rest

abbrev pub is_open_request : ReviewRequest → Bool
is_open_request r = elim r.request_status [ is_open ↦ true | _ ↦ false ]

-- WHERE work_product_id = $1 AND status = 'open'
abbrev pub open_for : ℕ → ReviewRequest → Bool
open_for work_product_id r = r.work_product_id == work_product_id && is_open_request r

abbrev pub close_as : RequestStatus → ℕ → ReviewRequest → ReviewRequest
close_as status now r = record r { request_status = status; closed_at = some now }

-- UPDATE core.work_products SET status = …, row_version = row_version + 1
abbrev pub restatus : WorkStatus → WorkProduct → WorkProduct
restatus status w = record w { status = status; row_version = w.row_version + 1 }

-- `supersedeOpenReviewRequest`
unfoldable pub supersede_open_review_request : ℕ → ℕ → List ReviewRequest → List ReviewRequest
supersede_open_review_request now work_product_id rs =
    update_where (open_for work_product_id) (close_as superseded now) rs

abbrev outcome_text : RuleOutcome → String
outcome_text violated = "violated"
outcome_text evaluation_error = "evaluation_error"

-- The audit row of an advisory rule; `explain` gives the text of an evaluation's error.
abbrev pub advisory_audit : (EvalError → String) → Call → RuleViolation → AuditEvent
advisory_audit explain c v = record {
  actor_user_id = c.actor_id;
  action = "rule.violated";
  scope_id = c.project_id;
  detail =
      ("rule_key", text v.rule_key)
      ∷ ("outcome", text (outcome_text v.outcome))
      ∷ ("reason", text (elim v.reason [ none ↦ "assert не виконано" | some e ↦ explain e ]))
      ∷ [];
  audit_correlation = c.correlation_id;
}

abbrev audited :
    (EvalError → String)
    → Call
    → Result RuleViolation (List RuleViolation)
    → Result WorkError (List AuditEvent)
audited explain c (ok notes) = ok (map (advisory_audit explain c) notes)
audited explain c (err v) = err (rule_refused v)

-- A call of `EnforceRules`: the audit rows it writes, or the violation that stops the caller.
unfoldable pub enforce :
    (EvalError → String) → Call → String → Dict Value → Tables → Result WorkError (List AuditEvent)
enforce explain c trigger fields t =
    audited explain c (enforce_rules trigger (record { fields = fields; permissions = [] }) t.rules)

abbrev pub audit_row : Call → String → Dict Value → AuditEvent
audit_row c action detail = record {
  actor_user_id = c.actor_id;
  action = action;
  scope_id = c.project_id;
  detail = detail;
  audit_correlation = c.correlation_id;
}

-- The supply after `n` rows took a fresh id, and then the call of `EmitEvent`.
abbrev pub emit : Call → ℕ → String → Dict Value → Tables → Queue
emit c n event_key payload t =
    emit_event c.event_id c.now event_key (some c.project_id) (some c.actor_id) c.correlation_id
      payload (record t.queue { next_id = t.queue.next_id + n })

-- `recordProjectAuditTx`, whose row has a correlation id of its own.
abbrev pub record_project_audit : Call → String → Dict Value → AuditEvent
record_project_audit c action detail = record (audit_row c action detail) {
  audit_correlation = c.audit_id;
}
