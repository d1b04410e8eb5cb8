-- ===== src/Review/Sound/Replay.antt =====
-- A decision that is sent again with its operation key (`RecordDecision` and
-- `loadDecisionByOperationKey` in internal/project/decision.go).
use delmos.Base.{
  ℕ, ◌≡◌, ◌⊎◌, refl, sym, ap, ◌∙◌, arith, String, Bool, true, false, Option, none, some, List, [],
  ◌∷◌, ◌++◌, Result, ok, err, ◌>>◌, fail_if, fail_if-ok, ok-pair, ◌==◌, if◌then◌else◌, inl, inr,
  Bool-cases, All-Among, Among, any, keep, keep-append, keep-Among, find, find-update_eq, str_eq,
  str_eq_refl,
}
use delmos.Review.Tables.{
  approved, draft, WorkProduct, WorkProductRevision, ReviewRequest, is_approved, changes_requested,
  DecisionKind, review, approval, request_changes, DecisionRow, AuditEvent, Tables, Call, WorkError,
  reason_required, latest_revision, open_for, restatus, close_as,
}
use delmos.Review.Works.{Codec}
use delmos.Review.Decide.{
  ReviewDecision, first, with_key, takes_place, new_decision, decided, decide, resulting_status,
  replayed, same_kind, same_reason, null_if_blank, load_decision_by_operation_key, record_decision,
  reason_missing, replay,
}
use delmos.Review.Decide.Facts.{decide-ok}
use delmos.Review.Sound.{Sound, UnderReview}
use delmos.Review.Sound.Rows.{opens}
use delmos.Review.Sound.Works.{in_project-some, in_project-project}
use delmos.Review.Sound.Reviews.{Settled-reviewing, UnderReview-first}
use delmos.Review.Sound.Reachable.{UnderReview-revision}

same_kind_refl : (kind : DecisionKind) → same_kind kind kind ≡ true
same_kind_refl review = refl
same_kind_refl approval = refl
same_kind_refl request_changes = refl

same_reason-null_if_blank : (reason : String) → same_reason (null_if_blank reason) reason ≡ true
same_reason-null_if_blank reason = elim (Bool-cases (str_eq reason "")) [
  | inl blank ↦ rw blank blank
  | inr given ↦ rw given (str_eq_refl reason)
]

-- No row takes the place of one with the key, so none has the key.
keyless :
    (d : DecisionRow) (key : String) (ds : List DecisionRow)
    → d.operation_key ≡ some key
    → any (takes_place d) ds ≡ false
    → keep (with_key key) ds ≡ []
keyless d key [] its h = refl
keyless d key (e ∷ ds) its h = elim (Bool-cases (takes_place d e)) [
  | inl taken ↦ absurd (cc (rw taken at h))
  | inr free ↦
      let other : with_key key e ≡ false = ground (arith, (rw its at free)) in
      rw other (keyless d key ds its (rw free at h))
]

-- The rows of the decision's request and work product afterwards.
decided_rows :
    (k : Codec) (c : Call) (kind : DecisionKind) (id : ℕ) (r : ReviewRequest) (d : DecisionRow)
    (notes : List AuditEvent) (t : Tables) (w : WorkProduct)
    → find (λ x. x.id) id t.works ≡ some w
    → find (λ x. x.id) r.id t.requests ≡ some r
    → (let after = decided k c kind id r d notes t in
        (q : ReviewRequest) × (u : WorkProduct) × (find (λ x. x.id) r.id after.requests ≡ some q)
        × (q.project_id ≡ r.project_id)
        × (q.work_product_id ≡ r.work_product_id)
        × (find (λ x. x.id) id after.works ≡ some u)
        × (u.status ≡ resulting_status kind w.status)
        × (latest_revision id after.revisions ≡ latest_revision id t.revisions))
decided_rows k c review id r d notes t w work request =
    (r, w, request, refl, refl, work, refl, refl)
decided_rows k c approval id r d notes t w work request = (
  close_as is_approved c.now r,
  restatus approved w,
  find-update_eq (λ x. x.id) r.id (close_as is_approved c.now) t.requests r (λ x. refl) request,
  refl,
  refl,
  find-update_eq (λ x. x.id) id (restatus approved) t.works w (λ x. refl) work,
  refl,
  refl,
)
decided_rows k c request_changes id r d notes t w work request = (
  close_as changes_requested c.now r,
  restatus draft w,
  find-update_eq (λ x. x.id) r.id (close_as changes_requested c.now) t.requests r (λ x. refl)
      request,
  refl,
  refl,
  find-update_eq (λ x. x.id) id (restatus draft) t.works w (λ x. refl) work,
  refl,
  refl,
)

replayed-ok :
    (c : Call) (id : ℕ) (kind : DecisionKind) (reason : String) (d : DecisionRow)
    (q : ReviewRequest) (u : WorkProduct) (v : WorkProductRevision)
    → d.decided_by ≡ c.actor_id
    → q.project_id ≡ c.project_id
    → q.work_product_id ≡ id
    → same_kind d.kind kind ≡ true
    → d.revision_id ≡ v.id
    → same_reason d.reason reason ≡ true
    → replayed c id kind reason d q u (some v)
      ≡ ok (some (record { row = d; work_product_state = u.status }))
replayed-ok c id kind reason d q u v e1 e2 e3 e4 e5 e6 =
    let t1 : (d.decided_by == c.actor_id) ≡ true = ground arith in
    let t2 : (q.project_id == c.project_id) ≡ true = ground arith in
    let t3 : (q.work_product_id == id) ≡ true = ground arith in
    let t5 : (d.revision_id == v.id) ≡ true = ground arith in rw (t1, t2, t3, e4, t5, e6) refl

-- What the look-up of a key computes, once its three reads are known.
load-some :
    (c : Call) (id : ℕ) (kind : DecisionKind) (reason key : String) (t : Tables) (d : DecisionRow)
    (q : ReviewRequest) (u : WorkProduct)
    → first (keep (with_key key) t.decisions) ≡ some d
    → find (λ x. x.id) d.review_request_id t.requests ≡ some q
    → find (λ x. x.id) q.work_product_id t.works ≡ some u
    → load_decision_by_operation_key c id kind reason key t
      ≡ replayed c id kind reason d q u (latest_revision q.work_product_id t.revisions)
unfolding load_decision_by_operation_key
load-some c id kind reason key t d q u e1 e2 e3 =
    rw (e1, load_decision_by_operation_key) (rw e2 (rw e3 refl))

request-project :
    (p : ℕ) (os : List ReviewRequest) (l : Option WorkProductRevision) (r : ReviewRequest)
    → UnderReview p os l
    → first os ≡ some r
    → r.project_id ≡ p
request-project p os l r (q, v, one, last, same, hash, project) h =
    let it : q ≡ r = cc (rw one at h) in rw (← it) project

-- After a decision its key finds it again, for the same person and project.
decide-found :
    (k : Codec) (c again : Call) (id : ℕ) (kind : DecisionKind) (reason key : String)
    (t after : Tables) (d : ReviewDecision)
    → Sound t
    → str_eq key "" ≡ false
    → again.actor_id ≡ c.actor_id
    → again.project_id ≡ c.project_id
    → decide k c id kind reason key t ≡ ok (after, d)
    → load_decision_by_operation_key again id kind reason key after ≡ ok (some d)
decide-found k c again id kind reason key t after d sound keyed same_actor same_project h =
    let (w, r, v, in_table, reviewing, requested, assigned, revision, concluded) =
      decide-ok k c id kind reason key t after d h in
    let (independent, current, quorum, fresh, (notes, tables), result) = concluded in
    let (works, revisions, requests, settled) = sound in
    let work = in_project-some c.project_id _ w in_table in
    let reviewed = Settled-reviewing id t w work reviewing (settled id) in
    let (latest, same, hash) =
      UnderReview-revision w.project_id id t r v revisions reviewed requested revision in
    let one = UnderReview-first w.project_id _ _ r reviewed requested in
    let here : Among r (opens id t.requests) = rw one (inl refl) in
    let (on, opened) = keep-Among (open_for id) r t.requests here in
    let request =
      All-Among (λ x. find (λ y. y.id) x.id t.requests ≡ some x) r t.requests requests.0 on in
    let row = new_decision c kind reason key r v t in
    let (q, u, q_found, q_project, q_work, u_found, u_status, last) =
      decided_rows k c kind id r row notes t w work request in
    let its : r.work_product_id ≡ id = ground arith in
    let has_key : row.operation_key ≡ some key = rw keyed refl in
    let none_before = keyless row key t.decisions has_key fresh in
    let its_key : with_key key row ≡ true = rw has_key (str_eq_refl key) in
    let first_row : first (keep (with_key key) (t.decisions ++ row ∷ [])) ≡ some row =
      rw (keep-append (with_key key) t.decisions (row ∷ []), none_before, its_key) refl in
    let q_id : q.work_product_id ≡ id = q_work ∙ its in
    let project : q.project_id ≡ again.project_id =
      q_project
      ∙ request-project w.project_id _ _ r reviewed requested
      ∙ in_project-project c.project_id _ w in_table
      ∙ sym same_project in
    let state : record { row = row; work_product_state = u.status } ≡ d =
      ap (λ s. record { row = row; work_product_state = s }) u_status ∙ sym result in
    rw tables (
      load-some again id kind reason key (decided k c kind id r row notes t) row q u first_row
        q_found (rw q_id u_found)
      ∙ ap (replayed again id kind reason row q u) (rw q_id last ∙ latest)
      ∙ replayed-ok again id kind reason row q u v (sym same_actor) project q_id
          (same_kind_refl kind) same (same_reason-null_if_blank reason)
      ∙ ap (λ x. ok (some x)) state)

load-same :
    (c again : Call) (id : ℕ) (kind : DecisionKind) (reason key : String) (t : Tables)
    → again.actor_id ≡ c.actor_id
    → again.project_id ≡ c.project_id
    → load_decision_by_operation_key again id kind reason key t
      ≡ load_decision_by_operation_key c id kind reason key t
unfolding load_decision_by_operation_key
load-same c again id kind reason key t same_actor same_project = rw (same_actor, same_project) refl

-- A replay is the known decision, or the fresh one where the key is new.
replay-cases :
    (t after : Tables) (d : ReviewDecision) (fresh : Result WorkError (Tables × ReviewDecision))
    (known : Result WorkError (Option ReviewDecision))
    → replay t fresh known ≡ ok (after, d)
    → (fresh ≡ ok (after, d)) ⊎ ((known ≡ ok (some d)) × (after ≡ t))
replay-cases t after d fresh (err e) h = absurd (cc)
replay-cases t after d fresh (ok none) h = inl h
replay-cases t after d fresh (ok (some old)) h =
    let (same, result) = ok-pair t after old d h in inr (ap (λ x. ok (some x)) (sym result), same)

keyed_branch : {A : Type 0} (b : Bool) (x y : A) → b ≡ false → y ≡ (if b then x else y)
keyed_branch b x y h = rw h refl

fail_if-passed :
    {A : Type 0} (b : Bool) (e : WorkError) (m : Result WorkError A)
    → b ≡ false
    → (fail_if b e >> m) ≡ m
fail_if-passed b e m h = rw h refl

record_decision-known :
    (k : Codec) (c : Call) (id : ℕ) (kind : DecisionKind) (reason key : String) (t : Tables)
    (d : ReviewDecision)
    → reason_missing kind reason ≡ false
    → str_eq key "" ≡ false
    → load_decision_by_operation_key c id kind reason key t ≡ ok (some d)
    → record_decision k c id kind reason key t ≡ ok (t, d)
unfolding record_decision
record_decision-known k c id kind reason key t d reasoned keyed found =
    let fresh = decide k c id kind reason key t in
    let known = load_decision_by_operation_key c id kind reason key t in
    fail_if-passed (reason_missing kind reason) reason_required
      (if str_eq key "" then fresh else replay t fresh known) reasoned
    ∙ sym (keyed_branch (str_eq key "") fresh (replay t fresh known) keyed)
    ∙ ap (replay t fresh) found

-- A recorded decision sent again by the same person with its operation key, when the tables are as
-- they were left, gives the same decision and changes nothing, whatever the fresh identifiers and
-- the time of the second call are.
pub record_decision-again :
    (k : Codec) (c again : Call) (id : ℕ) (kind : DecisionKind) (reason key : String)
    (t after : Tables) (d : ReviewDecision)
    → Sound t
    → str_eq key "" ≡ false
    → again.actor_id ≡ c.actor_id
    → again.project_id ≡ c.project_id
    → record_decision k c id kind reason key t ≡ ok (after, d)
    → record_decision k again id kind reason key after ≡ ok (after, d)
unfolding record_decision
record_decision-again k c again id kind reason key t after d sound keyed same_actor same_project h =
    let fresh = decide k c id kind reason key t in
    let known = load_decision_by_operation_key c id kind reason key t in
    let (reasoned, h1) =
      fail_if-ok (reason_missing kind reason) _
        (if str_eq key "" then fresh else replay t fresh known) _ h in
    let found : load_decision_by_operation_key again id kind reason key after ≡ ok (some d) =
      elim (replay-cases t after d fresh known (keyed_branch _ fresh _ keyed ∙ h1)) [
        | inl new ↦
            decide-found k c again id kind reason key t after d sound keyed same_actor same_project
              new
        | inr (old, same) ↦
            load-same c again id kind reason key after same_actor same_project
            ∙ ap (load_decision_by_operation_key c id kind reason key) same
            ∙ old
      ] in
    record_decision-known k again id kind reason key after d reasoned keyed found
