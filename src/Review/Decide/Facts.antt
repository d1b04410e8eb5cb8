-- ===== src/Review/Decide/Facts.antt =====
-- The checks that a recorded decision has passed (internal/project/decision.go).
use delmos.Base.{
  ℕ, ◌≡◌, arith, String, Bool, true, false, not, Option, none, some, List, ok, bind-ok, fail_if-ok,
  ok-pair, str_eq, ◌==◌, find, any, keep,
}
use delmos.Review.Tables.{
  WorkProduct, WorkProductRevision, ReviewRequest, DecisionKind, Tables, Call, AuditEvent,
  WorkError, find_work, open_for,
}
use delmos.Review.Works.{Codec, found_or}
use delmos.Review.Decide.{
  ReviewDecision, decide, insert_decision, conclude, conclude_request, first, ensure_assigned,
  required_assignment, quorum_missing, takes_place, new_decision, decided, is_in_review,
  resulting_status,
}

pub found_or-ok :
    {A : Type 0} (e : WorkError) (o : Option A) (a : A) → found_or e o ≡ ok a → o ≡ some a
found_or-ok e none a h = absurd (cc)
found_or-ok e (some b) a h = cc

-- What the last checks leave, for a work product, a request and a revision that were read.
abbrev pub Concluded :
    Codec
    → Call
    → ℕ
    → DecisionKind
    → String
    → String
    → WorkProduct
    → ReviewRequest
    → WorkProductRevision
    → Tables
    → Tables
    → ReviewDecision
    → Type 0
Concluded k c id kind reason operation_key w r v t after d =
    let row = new_decision c kind reason operation_key r v t in
    ((c.actor_id == v.created_by) ≡ false)
    × (str_eq r.payload_hash v.payload_hash ≡ true)
    × (quorum_missing kind r.id t.decisions ≡ false)
    × (any (takes_place row) t.decisions ≡ false)
    × ((notes : List AuditEvent) × (after ≡ decided k c kind id r row notes t))
    × (d ≡ record { row = row; work_product_state = resulting_status kind w.status })

-- The facts behind a decision: the work product, its open request and the request's revision.
abbrev pub Facts :
    Codec → Call → ℕ → DecisionKind → String → String → Tables → Tables → ReviewDecision → Type 0
Facts k c id kind reason operation_key t after d =
    (w : WorkProduct) × (r : ReviewRequest) × (v : WorkProductRevision) × (find_work id c.project_id
        t.works
      ≡ some w)
    × (is_in_review w.status ≡ true)
    × (first (keep (open_for id) t.requests) ≡ some r)
    × (ensure_assigned r.id c.actor_id (required_assignment kind) t.assignments ≡ true)
    × (find (λ u. u.id) r.revision_id t.revisions ≡ some v)
    × Concluded k c id kind reason operation_key w r v t after d

pub not-false : (b : Bool) → not b ≡ false → b ≡ true
not-false b h = ground arith

insert_decision-ok :
    (k : Codec) (c : Call) (id : ℕ) (kind : DecisionKind) (reason operation_key : String)
    (w : WorkProduct) (r : ReviewRequest) (v : WorkProductRevision) (t after : Tables)
    (notes : List AuditEvent) (d : ReviewDecision)
    → insert_decision k c id kind reason operation_key w r v t notes ≡ ok (after, d)
    → (any (takes_place (new_decision c kind reason operation_key r v t)) t.decisions ≡ false)
      × (after ≡ decided k c kind id r (new_decision c kind reason operation_key r v t) notes t)
      × (d ≡ record {
        row = new_decision c kind reason operation_key r v t;
        work_product_state = resulting_status kind w.status;
      })
unfolding insert_decision
insert_decision-ok k c id kind reason operation_key w r v t after notes d h =
    let (fresh, h1) = fail_if-ok _ _ _ _ h in
    let (tables, result) = ok-pair _ _ _ _ h1 in (fresh, tables, result)

conclude-ok :
    (k : Codec) (c : Call) (id : ℕ) (kind : DecisionKind) (reason operation_key : String)
    (w : WorkProduct) (r : ReviewRequest) (v : WorkProductRevision) (t after : Tables)
    (d : ReviewDecision)
    → conclude k c id kind reason operation_key w r v t ≡ ok (after, d)
    → Concluded k c id kind reason operation_key w r v t after d
unfolding conclude
conclude-ok k c id kind reason operation_key w r v t after d h =
    let (independent, h1) = fail_if-ok _ _ _ _ h in
    let (current, h2) = fail_if-ok _ _ _ _ h1 in
    let (quorum, h3) = fail_if-ok _ _ _ _ h2 in
    let (notes, passed, h4) =
      bind-ok _ (insert_decision k c id kind reason operation_key w r v t) _ h3 in
    let (fresh, tables, result) =
      insert_decision-ok k c id kind reason operation_key w r v t after notes d h4 in
    (independent, not-false _ current, quorum, fresh, (notes, tables), result)

conclude_request-ok :
    (k : Codec) (c : Call) (id : ℕ) (kind : DecisionKind) (reason operation_key : String)
    (w : WorkProduct) (r : ReviewRequest) (t after : Tables) (d : ReviewDecision)
    → conclude_request k c id kind reason operation_key w r t ≡ ok (after, d)
    → (v : WorkProductRevision) × (ensure_assigned r.id c.actor_id
          (required_assignment kind)
          t.assignments
        ≡ true)
      × (find (λ u. u.id) r.revision_id t.revisions ≡ some v)
      × Concluded k c id kind reason operation_key w r v t after d
unfolding conclude_request
conclude_request-ok k c id kind reason operation_key w r t after d h =
    let (assigned, h1) = fail_if-ok _ _ _ _ h in
    let (v, revision, h2) = bind-ok _ _ _ h1 in
    (
      v,
      not-false _ assigned,
      found_or-ok _ _ _ revision,
      conclude-ok k c id kind reason operation_key w r v t after d h2,
    )

pub decide-ok :
    (k : Codec) (c : Call) (id : ℕ) (kind : DecisionKind) (reason operation_key : String)
    (t after : Tables) (d : ReviewDecision)
    → decide k c id kind reason operation_key t ≡ ok (after, d)
    → Facts k c id kind reason operation_key t after d
unfolding decide
decide-ok k c id kind reason operation_key t after d h =
    let (w, in_table, h1) = bind-ok _ _ _ h in
    let (reviewing, h2) = fail_if-ok _ _ _ _ h1 in
    let (r, requested, h3) = bind-ok _ _ _ h2 in
    let (v, assigned, revision, concluded) =
      conclude_request-ok k c id kind reason operation_key w r t after d h3 in
    (
      w,
      r,
      v,
      found_or-ok _ _ _ in_table,
      not-false _ reviewing,
      found_or-ok _ _ _ requested,
      assigned,
      revision,
      concluded,
    )
