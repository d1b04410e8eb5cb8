-- ===== src/Review/Works.antt =====
-- Creating, revising and retiring a work product (internal/project/workproduct.go), and the hashes
-- of a revision (internal/project/store.go).
use delmos.Base.{
  ℕ, ◌+◌, String, Bool, true, false, not, ◌&&◌, ◌||◌, Option, none, some, List, [], ◌∷◌, ◌++◌,
  Result, ok, err, ◌>>=◌, ◌>>◌, fail_if, Dict, str_eq, concat, contains, ◌==◌, if◌then◌else◌,
  update_where, any,
}
use delmos.Automation.Value.{Value, text, number}
use delmos.Automation.Condition.{EvalError}
use delmos.Review.Tables.{
  WorkStatus, draft, obsolete, status_text, WorkProduct, WorkProductRevision, Tables, Call,
  WorkError, project_plan_reserved, invalid_work_product_type, invalid_code,
  work_product_code_taken, work_product_not_found, version_conflict, work_product_obsolete,
  no_revision, rule_refused, find_work, latest_revision, restatus, supersede_open_review_request,
  enforce, audit_row, record_project_audit, emit, AuditEvent,
}

-- `sha256.Sum256`, `json.Marshal` of a map, `UUID.String` and the text of a number and of an
-- evaluation's error.
pub record Codec : Type 0 where
  pub sha256 : String → String
  pub json : Dict Value → String
  pub uuid : ℕ → String
  pub digits : ℕ → String
  pub explain : EvalError → String

-- The fields of the canonical form, each but the last with a zero byte after it.
abbrev pub canonical : List String → String
canonical [] = ""
canonical (s ∷ []) = s
canonical (s ∷ t ∷ r) = concat s (concat "\0" (canonical (t ∷ r)))

-- `canonicalHashes`: the payload's and the content's hash.
unfoldable pub canonical_hashes :
    Codec → String → String → String → String → String → Dict Value → String × String
canonical_hashes k code wp_type profile title body metadata = (
  k.sha256 (canonical (code ∷ wp_type ∷ profile ∷ title ∷ body ∷ k.json metadata ∷ [])),
  k.sha256 body,
)

abbrev pub core_work_product_types : List String
core_work_product_types =
    "plan" ∷ "requirement" ∷ "architecture" ∷ "test_spec" ∷ "report" ∷ "record" ∷ []

-- UNIQUE (project_id, code)
abbrev pub code_in_use : ℕ → String → List WorkProduct → Bool
code_in_use project_id code works =
    any (λ w. w.project_id == project_id && str_eq w.code code) works

abbrev pub revision_event : Codec → ℕ → ℕ → String → String → Dict Value
revision_event k work_id revision_id code wp_type =
    ("work_product_id", text (k.uuid work_id))
    ∷ ("revision_id", text (k.uuid revision_id))
    ∷ ("code", text code)
    ∷ ("type", text wp_type)
    ∷ []

-- The row of a new revision, the next of its work product.
abbrev pub new_revision :
    Codec → Call → ℕ → WorkProduct → ℕ → String → Dict Value → WorkProductRevision
new_revision k c id w revision_number body metadata =
    let hashes = canonical_hashes k w.code w.wp_type w.profile w.title body metadata in
    record {
      id = id;
      work_product_id = w.id;
      revision_number = revision_number;
      body = body;
      metadata = metadata;
      payload_hash = hashes.0;
      content_hash = hashes.1;
      created_by = c.actor_id;
    }

-- The row of a new work product: the columns status, classification and row_version take their
-- defaults.
abbrev pub new_work_product : Call → String → String → String → Tables → WorkProduct
new_work_product c code wp_type title t = record {
  id = t.queue.next_id;
  project_id = c.project_id;
  code = code;
  wp_type = wp_type;
  profile = concat "core:" wp_type;
  title = title;
  status = draft;
  classification = "internal";
  row_version = 1;
}

-- The tables with the rows of a new work product and its first revision.
abbrev pub created : Codec → Call → WorkProduct → WorkProductRevision → Tables → Tables
created k c w r t = record t {
  works = t.works ++ w ∷ [];
  revisions = t.revisions ++ r ∷ [];
  audit =
      t.audit
      ++ audit_row c "wp.create"
          (("work_product_id", text (k.uuid w.id)) ∷ ("code", text w.code) ∷ [])
        ∷ [];
  queue = emit c 2 "wp.revision_committed" (revision_event k w.id r.id w.code w.wp_type) t;
}

-- The checks of `CreateWorkProduct`, the unique index on the code last.
unfoldable pub check_new_work_product :
    Call → String → String → String → Tables → Result WorkError (Unit {0})
check_new_work_product c code wp_type title t = do
  fail_if (str_eq wp_type "plan") project_plan_reserved
  fail_if (not (contains wp_type core_work_product_types)) invalid_work_product_type
  fail_if (str_eq code "" || str_eq title "") invalid_code
  fail_if (code_in_use c.project_id code t.works) work_product_code_taken
  ok tt

-- `CreateWorkProduct`, for a project that exists.
unfoldable pub create_work_product :
    Codec
    → Call
    → String
    → String
    → String
    → String
    → Dict Value
    → Tables
    → Result WorkError (Tables × WorkProduct × WorkProductRevision)
unfolding check_new_work_product
create_work_product k c code wp_type title body metadata t =
    check_new_work_product c code wp_type title t >>= (λ checked.
      let w = new_work_product c code wp_type title t in
      let r = new_revision k c (t.queue.next_id + 1) w 1 body metadata in
      ok (created k c w r t, w, r))

-- A violation of the rule on obsolete work products has an error of its own.
abbrev obsolete_refusal : WorkError → WorkError
obsolete_refusal e = elim e [
  | rule_refused v ↦
      if str_eq v.rule_key "rule.core.no_revision_when_obsolete"
      then work_product_obsolete
      else rule_refused v
  | other ↦ other
]

abbrev pub as_obsolete : Result WorkError (List AuditEvent) → Result WorkError (List AuditEvent)
as_obsolete (ok notes) = ok notes
as_obsolete (err e) = err (obsolete_refusal e)

abbrev pub found_or : {A : Type 0} → WorkError → Option A → Result WorkError A
found_or e none = err e
found_or e (some a) = ok a

-- The tables once the new revision of a work product stands in them.
abbrev pub revised :
    Codec → Call → WorkProduct → WorkProductRevision → List AuditEvent → Tables → Tables
revised k c w r notes t = record t {
  works = update_where (λ x. x.id == w.id) (restatus draft) t.works;
  revisions = t.revisions ++ r ∷ [];
  requests = supersede_open_review_request c.now w.id t.requests;
  audit =
      t.audit
      ++ notes
      ++ audit_row c "wp.revise" (
          ("work_product_id", text (k.uuid w.id))
          ∷ ("revision_number", number (k.digits r.revision_number))
          ∷ [])
        ∷ [];
  queue = emit c 1 "wp.revision_committed" (revision_event k w.id r.id w.code w.wp_type) t;
}

-- `ReviseWorkProduct` once the row is read.
unfoldable pub revise_found :
    Codec
    → Call
    → ℕ
    → String
    → Dict Value
    → Tables
    → WorkProduct
    → List AuditEvent
    → Result WorkError (Tables × WorkProductRevision)
revise_found k c expected_row_version body metadata t w notes = do
  fail_if (not (w.row_version == expected_row_version)) version_conflict
  last ← found_or no_revision (latest_revision w.id t.revisions)
  let r = new_revision k c t.queue.next_id w (last.revision_number + 1) body metadata
  ok (revised k c w r notes t, r)

-- `ReviseWorkProduct`. The row is locked, so the UPDATE with its test of row_version hits it.
unfoldable pub revise_work_product :
    Codec
    → Call
    → ℕ
    → ℕ
    → String
    → Dict Value
    → Tables
    → Result WorkError (Tables × WorkProductRevision)
unfolding revise_found
revise_work_product k c id expected_row_version body metadata t = do
  w ← found_or work_product_not_found (find_work id c.project_id t.works)
  notes ← as_obsolete (
      enforce k.explain c "trigger.core.before_wp_transition"
        (("status", text (status_text w.status)) ∷ []) t)
  revise_found k c expected_row_version body metadata t w notes

-- `RetireWorkProduct`: nothing changes if the work product is obsolete already.
abbrev pub retired : Codec → Call → WorkProduct → List AuditEvent → Tables → Tables
retired k c w notes t = record t {
  works = update_where (λ x. x.id == w.id) (restatus obsolete) t.works;
  requests = supersede_open_review_request c.now w.id t.requests;
  audit =
      t.audit
      ++ notes
      ++ record_project_audit c "wp.retire" (("work_product_id", text (k.uuid w.id)) ∷ []) ∷ [];
  queue = emit c 0 "wp.retired" (("work_product_id", text (k.uuid w.id)) ∷ []) t;
}

abbrev pub is_obsolete : WorkStatus → Bool
is_obsolete s = elim s [ obsolete ↦ true | _ ↦ false ]

-- The part that a work product which is not obsolete goes through.
unfoldable pub retire_live : Codec → Call → ℕ → Tables → WorkProduct → Result WorkError Tables
retire_live k c expected_row_version t w = do
  fail_if (not (w.row_version == expected_row_version)) version_conflict
  notes ←
      enforce k.explain c "trigger.core.before_wp_transition"
        (("status", text (status_text w.status))
          ∷ ("action", text "retire")
          ∷ ("target_status", text "obsolete")
          ∷ [])
        t
  ok (retired k c w notes t)

abbrev pub retire_found : Codec → Call → ℕ → Tables → WorkProduct → Result WorkError Tables
retire_found k c expected_row_version t w =
    fail_if (str_eq w.wp_type "plan") project_plan_reserved
    >> (if is_obsolete w.status then ok t else retire_live k c expected_row_version t w)

unfoldable pub retire_work_product : Codec → Call → ℕ → ℕ → Tables → Result WorkError Tables
unfolding retire_live
retire_work_product k c id expected_row_version t =
    found_or work_product_not_found (find_work id c.project_id t.works)
    >>= retire_found k c expected_row_version t
