-- ===== src/Review/Submit.antt =====
-- Submitting the last revision of a work product to review (internal/project/review.go).
use delmos.Base.{
  ℕ, String, Bool, true, false, not, ◌&&◌, ◌||◌, Option, none, some, List, [], ◌∷◌, ◌++◌, map,
  Result, ok, ◌>>=◌, ◌>>◌, fail_if, Dict, str_eq, contains, lookup, ltb, ◌==◌, if◌then◌else◌,
  update_where, any,
}
use delmos.Automation.Value.{Value, text}
use delmos.Review.Tables.{
  WorkStatus, draft, in_review, status_text, WorkProduct, WorkProductRevision, ReviewRequest,
  AssignmentRow, is_open, Tables, Call, AuditEvent, WorkError, work_product_not_found, not_draft,
  no_revision, assignee_is_author, review_assignments_invalid, review_request_open, find_work,
  latest_revision, open_for, restatus, enforce, audit_row, emit,
}
use delmos.Review.Works.{Codec, found_or}

-- `ReviewAssignment`
pub record ReviewAssignment : Type 0 where
  pub user_id : ℕ
  pub role : String

abbrev pub same_assignment : ReviewAssignment → ReviewAssignment → Bool
same_assignment a b = a.user_id == b.user_id && str_eq a.role b.role

abbrev still_valid : ℕ → Option ℕ → Bool
still_valid now none = true
still_valid now (some t) = ltb now t

abbrev not_revoked : Option ℕ → Bool
not_revoked o = elim o [ none ↦ true | some t ↦ false ]

abbrev granted : String → Option (List String) → Bool
granted permission none = false
granted permission (some keys) = contains permission keys

-- The query on role_bindings, users and role_definitions: may the user act for the permission in
-- the project?
unfoldable pub has_permission : ℕ → ℕ → ℕ → String → Tables → Bool
has_permission now user_id project_id permission t =
    any
      (λ b.
        b.user_id == user_id
        && b.project_id == project_id
        && not_revoked b.revoked_at
        && still_valid now b.expires_at
        && any (λ u. u.id == b.user_id && u.is_active) t.users
        && granted permission (lookup b.role_key t.permissions))
      t.bindings

abbrev pub permission_for : String → String
permission_for role = if str_eq role "approver" then "wp.approve" else "wp.review"

abbrev known_role : String → Bool
known_role role = str_eq role "reviewer" || str_eq role "approver"

-- The loop over the assignments: `assigned` are those seen before.
unfoldable pub check_assignments :
    Call → ℕ → Tables → List ReviewAssignment → List ReviewAssignment → Result WorkError (Unit {0})
unfolding has_permission
check_assignments c author t assigned [] = ok tt
check_assignments c author t assigned (a ∷ more) =
    fail_if (a.user_id == author) assignee_is_author
    >> fail_if (not (known_role a.role) || any (same_assignment a) assigned)
        review_assignments_invalid
    >> fail_if (not (has_permission c.now a.user_id c.project_id (permission_for a.role) t))
        review_assignments_invalid
    >> check_assignments c author t (a ∷ assigned) more

abbrev pub has_role : String → List ReviewAssignment → Bool
has_role role given = any (λ a. str_eq a.role role) given

abbrev pub no_assignments : List ReviewAssignment → Bool
no_assignments given = elim given [ [] ↦ true | _ ∷ _ ↦ false ]

abbrev pub is_draft : WorkStatus → Bool
is_draft s = elim s [ draft ↦ true | _ ↦ false ]

abbrev pub assignment_row : Call → ℕ → ReviewAssignment → AssignmentRow
assignment_row c request_id a = record {
  review_request_id = request_id;
  user_id = a.user_id;
  assignment_role = a.role;
  assigned_by = c.actor_id;
}

-- The row that the INSERT returns.
abbrev pub new_request : Call → ℕ → WorkProductRevision → Tables → ReviewRequest
new_request c work_product_id v t = record {
  id = t.queue.next_id;
  project_id = c.project_id;
  work_product_id = work_product_id;
  revision_id = v.id;
  payload_hash = v.payload_hash;
  request_status = is_open;
  requested_by = c.actor_id;
  closed_at = none;
}

abbrev pub submitted :
    Codec → Call → ℕ → ReviewRequest → List ReviewAssignment → List AuditEvent → Tables → Tables
submitted k c id r assignees notes t =
    let detail : Dict Value =
      ("work_product_id", text (k.uuid id))
      ∷ ("revision_id", text (k.uuid r.revision_id))
      ∷ ("review_request_id", text (k.uuid r.id))
      ∷ [] in
    record t {
      works = update_where (λ x. x.id == id) (restatus in_review) t.works;
      requests = t.requests ++ r ∷ [];
      assignments = t.assignments ++ map (assignment_row c r.id) assignees;
      audit = t.audit ++ notes ++ audit_row c "wp.submit" detail ∷ [];
      queue = emit c 1 "wp.submitted_for_review" detail t;
    }

abbrev pub submit_facts : Codec → WorkProduct → ℕ → WorkProductRevision → Dict Value
submit_facts k w id v =
    ("status", text (status_text w.status))
    ∷ ("action", text "submit")
    ∷ ("target_status", text "in_review")
    ∷ ("work_product_id", text (k.uuid id))
    ∷ ("revision_id", text (k.uuid v.id))
    ∷ []

-- `SubmitWorkProduct` after the loop over the assignments.
unfoldable pub submit_checked :
    Codec
    → Call
    → ℕ
    → List ReviewAssignment
    → Tables
    → WorkProduct
    → WorkProductRevision
    → Result WorkError (Tables × ReviewRequest)
submit_checked k c id assignees t w v = do
  fail_if (not (has_role "reviewer" assignees && has_role "approver" assignees))
      review_assignments_invalid
  notes ← enforce k.explain c "trigger.core.before_wp_transition" (submit_facts k w id v) t
  fail_if (any (open_for id) t.requests) review_request_open
  let r = new_request c id v t
  ok (submitted k c id r assignees notes t, r)

-- `SubmitWorkProduct` once the work product and its last revision are read; the partial unique
-- index on open requests gives the last error.
unfoldable pub submit_revision :
    Codec
    → Call
    → ℕ
    → List ReviewAssignment
    → Tables
    → WorkProduct
    → WorkProductRevision
    → Result WorkError (Tables × ReviewRequest)
unfolding check_assignments submit_checked
submit_revision k c id assignees t w v =
    check_assignments c v.created_by t [] assignees >> submit_checked k c id assignees t w v

abbrev pub submit_draft :
    Codec
    → Call
    → ℕ
    → List ReviewAssignment
    → Tables
    → WorkProduct
    → Result WorkError (Tables × ReviewRequest)
submit_draft k c id assignees t w =
    found_or no_revision (latest_revision id t.revisions) >>= submit_revision k c id assignees t w

abbrev pub submit_found :
    Codec
    → Call
    → ℕ
    → List ReviewAssignment
    → Tables
    → WorkProduct
    → Result WorkError (Tables × ReviewRequest)
submit_found k c id assignees t w =
    fail_if (not (is_draft w.status)) (not_draft w.status) >> submit_draft k c id assignees t w

-- `SubmitWorkProduct`
unfoldable pub submit_work_product :
    Codec → Call → ℕ → List ReviewAssignment → Tables → Result WorkError (Tables × ReviewRequest)
unfolding submit_revision
submit_work_product k c id assignees t =
    fail_if (no_assignments assignees) review_assignments_invalid
    >> (found_or work_product_not_found (find_work id c.project_id t.works)
        >>= submit_found k c id assignees t)
