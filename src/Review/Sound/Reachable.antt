-- ===== src/Review/Sound/Reachable.antt =====
-- The states that the operations reach, and decisions in them (internal/project/workproduct.go,
-- review.go and decision.go).
use delmos.Base.{
  ℕ, ◌≡◌, ◌≢◌, refl, sym, ap, ◌∙◌, arith, String, Bool, true, false, not, some, List, [], ◌∷◌, ok,
  Dict, All-Among, any, Bool-cases, inl, inr, Among, find-update_eq, find, Keyed,
}
use delmos.Automation.Value.{Value}
use delmos.Review.Tables.{
  WorkProduct, WorkProductRevision, ReviewRequest, DecisionKind, DecisionRow, review, approval,
  positive, approved, restatus, Tables, Call, latest_revision,
}
use delmos.Review.Works.{Codec, create_work_product, revise_work_product, retire_work_product}
use delmos.Review.Submit.{ReviewAssignment, submit_work_product}
use delmos.Review.Decide.{ReviewDecision, decide, record_decision, first, positive_review}
use delmos.Review.Decide.Facts.{decide-ok}
use delmos.Review.Sound.{Sound, UnderReview}
use delmos.Review.Sound.Rows.{opens, latest_revision-Among}
use delmos.Review.Sound.Works.{
  create_work_product-Sound, revise_work_product-Sound, retire_work_product-Sound, in_project-some,
}
use delmos.Review.Sound.Reviews.{
  submit_work_product-Sound, decide-Sound, record_decision-Sound, Settled-reviewing,
}

-- The tables after calls of the five operations that went well, in any order; a call that fails
-- is rolled back.
pub data Reaches (start : Tables) : Tables → Type 0 where
  begin : Reaches start start
  creates :
      {t after : Tables} (k : Codec) (c : Call) (code wp_type title body : String)
      (metadata : Dict Value) (w : WorkProduct) (r : WorkProductRevision)
      → Reaches start t
      → create_work_product k c code wp_type title body metadata t ≡ ok (after, w, r)
      → Reaches start after
  revises :
      {t after : Tables} (k : Codec) (c : Call) (id expected : ℕ) (body : String)
      (metadata : Dict Value) (r : WorkProductRevision)
      → Reaches start t
      → revise_work_product k c id expected body metadata t ≡ ok (after, r)
      → Reaches start after
  retires :
      {t after : Tables} (k : Codec) (c : Call) (id expected : ℕ)
      → Reaches start t
      → retire_work_product k c id expected t ≡ ok after
      → Reaches start after
  submits :
      {t after : Tables} (k : Codec) (c : Call) (id : ℕ) (assignees : List ReviewAssignment)
      (r : ReviewRequest)
      → Reaches start t
      → submit_work_product k c id assignees t ≡ ok (after, r)
      → Reaches start after
  decides :
      {t after : Tables} (k : Codec) (c : Call) (id : ℕ) (kind : DecisionKind)
      (reason operation_key : String) (d : ReviewDecision)
      → Reaches start t
      → record_decision k c id kind reason operation_key t ≡ ok (after, d)
      → Reaches start after

-- In every state that the five operations reach from sound tables, a work product is in review
-- exactly while one request is open for it, and that request is for its last revision and its hash.
pub Reaches-Sound : (start t : Tables) → Sound start → Reaches start t → Sound t
Reaches-Sound start t sound begin = sound
Reaches-Sound start after sound (creates {t = t} k c code wp_type title body metadata w r past h) =
    create_work_product-Sound k c code wp_type title body metadata t after w r
      (Reaches-Sound start t sound past) h
Reaches-Sound start after sound (revises {t = t} k c id expected body metadata r past h) =
    revise_work_product-Sound k c id expected body metadata t after r
      (Reaches-Sound start t sound past) h
Reaches-Sound start after sound (retires {t = t} k c id expected past h) =
    retire_work_product-Sound k c id expected t after (Reaches-Sound start t sound past) h
Reaches-Sound start after sound (submits {t = t} k c id assignees r past h) =
    submit_work_product-Sound k c id assignees t after r (Reaches-Sound start t sound past) h
Reaches-Sound start after sound (decides {t = t} k c id kind reason operation_key d past h) =
    record_decision-Sound k c id kind reason operation_key t after d
      (Reaches-Sound start t sound past) h

pub UnderReview-revision :
    (p id : ℕ) (t : Tables) (r : ReviewRequest) (v : WorkProductRevision)
    → Keyed (λ x. x.id) t.queue.next_id t.revisions
    → UnderReview p (opens id t.requests) (latest_revision id t.revisions)
    → first (opens id t.requests) ≡ some r
    → find (λ x. x.id) r.revision_id t.revisions ≡ some v
    → (latest_revision id t.revisions ≡ some v)
      × (r.revision_id ≡ v.id)
      × (r.payload_hash ≡ v.payload_hash)
UnderReview-revision p id t r v (own, below) (q, last, one, latest, same, hash, project) h found =
    let it : q ≡ r = cc (rw one at h) in
    let mine =
      All-Among (λ x. find (λ y. y.id) x.id t.revisions ≡ some x) last t.revisions own
        (latest_revision-Among id t.revisions last latest) in
    let target : r.revision_id ≡ last.id = ap (λ x. x.revision_id) (sym it) ∙ same in
    let both : last ≡ v = cc in
    (
      latest ∙ ap some both,
      target ∙ ap (λ x. x.id) both,
      ap (λ x. x.payload_hash) (sym it) ∙ hash ∙ ap (λ x. x.payload_hash) both,
    )

-- In sound tables a decision that is recorded is on the last revision of the work product and its
-- hash, and the person who decides is not the author of that revision.
pub decide-independent :
    (k : Codec) (c : Call) (id : ℕ) (kind : DecisionKind) (reason operation_key : String)
    (t after : Tables) (d : ReviewDecision)
    → Sound t
    → decide k c id kind reason operation_key t ≡ ok (after, d)
    → (v : WorkProductRevision) × (latest_revision id t.revisions ≡ some v)
      × (d.row.revision_id ≡ v.id)
      × (d.row.payload_hash ≡ v.payload_hash)
      × (c.actor_id ≢ v.created_by)
decide-independent k c id kind reason operation_key t after d (works, revisions, requests, settled)
      h =
    let (w, r, v, in_table, reviewing, requested, assigned, revision, concluded) =
      decide-ok k c id kind reason operation_key t after d h in
    let (independent, current, quorum, fresh, tables, result) = concluded in
    let found = in_project-some c.project_id _ w in_table in
    let (latest, same, hash) =
      UnderReview-revision w.project_id id t r v revisions
        (Settled-reviewing id t w found reviewing (settled id)) requested revision in
    (
      v,
      latest,
      ap (λ x. x.row.revision_id) result ∙ same,
      ap (λ x. x.row.payload_hash) result,
      λ author. absurd (ground (arith, author, independent)),
    )

any-Among :
    (p : DecisionRow → Bool) (ds : List DecisionRow)
    → any p ds ≡ true
    → (e : DecisionRow) × Among e ds × (p e ≡ true)
any-Among p [] h = absurd (cc)
any-Among p (d ∷ ds) h = elim (Bool-cases (p d)) [
  | inl here ↦ (d, inl refl, here)
  | inr past ↦ let (e, on, holds) = any-Among p ds (rw past at h) in (e, inr on, holds)
]

not-true : (b : Bool) → not b ≡ false → b ≡ true
not-true b h = ground arith

positive_review-means :
    (request_id : ℕ) (e : DecisionRow)
    → positive_review request_id e ≡ true
    → (e.review_request_id ≡ request_id) × (e.kind ≡ review) × (e.outcome ≡ positive)
positive_review-means request_id e h =
    let at_request : e.review_request_id ≡ request_id = ground arith in
    let a_review : e.kind ≡ review = ground arith in
    let its_outcome : e.outcome ≡ positive = ground arith in (at_request, a_review, its_outcome)

-- An approval that is recorded was preceded by a positive review on the same request, and it
-- leaves the work product approved with no open request, if the tables were sound.
pub decide-quorum :
    (k : Codec) (c : Call) (id : ℕ) (reason operation_key : String) (t after : Tables)
    (d : ReviewDecision)
    → Sound t
    → decide k c id approval reason operation_key t ≡ ok (after, d)
    → ((e : DecisionRow) × Among e t.decisions
        × (e.review_request_id ≡ d.row.review_request_id)
        × (e.kind ≡ review)
        × (e.outcome ≡ positive))
      × ((w : WorkProduct) × (find (λ x. x.id) id after.works ≡ some w) × (w.status ≡ approved))
      × (opens id after.requests ≡ [])
decide-quorum k c id reason operation_key t after d sound h =
    let (w, r, v, in_table, reviewing, requested, assigned, revision, concluded) =
      decide-ok k c id approval reason operation_key t after d h in
    let (independent, current, quorum, fresh, (notes, tables), result) = concluded in
    let found = in_project-some c.project_id _ w in_table in
    let (works, revisions, requests, settled) = sound in
    let (e, on, counts) = any-Among (positive_review r.id) t.decisions (not-true _ quorum) in
    let (same, kind, outcome) = positive_review-means r.id e counts in
    let row : find (λ x. x.id) id after.works ≡ some (restatus approved w) =
      rw tables (find-update_eq (λ x. x.id) id (restatus approved) t.works w (λ x. refl) found) in
    let settled_after =
      (decide-Sound k c id approval reason operation_key t after d sound h).3 id in
    (
      (e, on, same ∙ ap (λ x. x.row.review_request_id) (sym result), kind, outcome),
      (restatus approved w, row, refl),
      (rw row at settled_after),
    )
