-- ===== src/Review/Sound/Reviews.antt =====
-- Submitting and deciding, on sound tables (internal/project/review.go and decision.go).
use delmos.Base.{
  ℕ, ◌+◌, ◌≡◌, refl, sym, ap, ◌∙◌, arith, String, Bool, true, false, Option, none, some, List, [],
  ◌∷◌, ◌++◌, ◌==◌, if◌then◌else◌, inl, inr, Bool-cases, Result, ok, err, fail_if, ◌>>◌, bind-ok,
  fail_if-ok, ok-pair, ok-same, find, find-update_ne, find-update_eq, update_where, Keyed-push,
  Keyed-later, Keyed-update_where, any, str_eq,
}
use delmos.Review.Tables.{
  WorkStatus, draft, in_review, approved, obsolete, WorkProduct, WorkProductRevision, ReviewRequest,
  DecisionRow, RequestStatus, is_approved, changes_requested, AuditEvent, DecisionKind, review,
  approval, request_changes, Tables, Call, WorkError, review_request_open, latest_revision,
  open_for, restatus, close_as,
}
use delmos.Review.Works.{Codec}
use delmos.Review.Submit.{
  ReviewAssignment, submitted, new_request, is_draft, submit_work_product, submit_found,
  submit_draft, submit_revision, submit_checked, check_assignments,
}
use delmos.Review.Decide.{
  decided, decide, record_decision, ReviewDecision, new_decision, is_in_review, first,
  reason_missing, replay, load_decision_by_operation_key,
}
use delmos.Review.Decide.Facts.{decide-ok, found_or-ok, not-false}
use delmos.Review.Sound.{Sound, Settled, FitsRow, FitsStatus, UnderReview}
use delmos.Review.Sound.Rows.{
  FitsRow-same, opens, opens-append_ne, opens-append_eq, opens-close_eq, opens-close_ne, Closing,
}
use delmos.Review.Sound.Works.{in_project-some, in_project-project}

status-opens :
    (s : WorkStatus) (p : ℕ) (os : List ReviewRequest) (l : Option WorkProductRevision)
    → is_draft s ≡ true
    → FitsStatus s p os l
    → os ≡ []
status-opens draft p os l is fits = fits
status-opens in_review p os l is fits = absurd (cc)
status-opens approved p os l is fits = fits
status-opens obsolete p os l is fits = fits

draft-opens :
    (w : WorkProduct) (o : Option WorkProduct) (os : List ReviewRequest)
    (l : Option WorkProductRevision)
    → is_draft w.status ≡ true
    → o ≡ some w
    → FitsRow o os l
    → os ≡ []
draft-opens w o os l is found fits = status-opens w.status w.project_id os l is (rw found at fits)

pub submitted-Sound :
    (k : Codec) (c : Call) (id : ℕ) (assignees : List ReviewAssignment) (notes : List AuditEvent)
    (t : Tables) (w : WorkProduct) (v : WorkProductRevision)
    → find (λ x. x.id) id t.works ≡ some w
    → w.project_id ≡ c.project_id
    → is_draft w.status ≡ true
    → latest_revision id t.revisions ≡ some v
    → Sound t
    → Sound (submitted k c id (new_request c id v t) assignees notes t)
submitted-Sound k c id assignees notes t w v found project fresh latest
      (works, revisions, requests, settled) =
    let next = t.queue.next_id in
    let r = new_request c id v t in
    (
      Keyed-update_where (λ x. x.id) next (next + 1 + 1) _ _ t.works (λ x. refl) (omega arith)
          works,
      Keyed-later (λ x. x.id) next (next + 1 + 1) t.revisions (omega arith) revisions,
      Keyed-push (λ x. x.id) next (next + 1 + 1) t.requests r requests (omega arith) (omega arith),
      λ j. elim (Bool-cases (id == j)) [
        | inr other ↦
            let other' : (j == id) ≡ false = ground arith in
            FitsRow-same
              (find-update_ne (λ x. x.id) j id (restatus in_review) t.works (λ x. refl) other')
              (opens-append_ne j t.requests r other) refl (settled j)
        | inl here ↦
            let it : j ≡ id = ground arith in
            let row : find (λ x. x.id) j
                  (update_where (λ x. x.id == id) (restatus in_review) t.works)
                ≡ some (restatus in_review w) =
              rw it
                (find-update_eq (λ x. x.id) id (restatus in_review) t.works w (λ x. refl) found) in
            let none_open : opens j t.requests ≡ [] =
              draft-opens w _ _ _ fresh (ap (λ x. find (λ y. y.id) x t.works) it ∙ found)
                (settled j) in
            let matches : open_for j r ≡ true = ground arith in
            let one : opens j (t.requests ++ r ∷ []) ≡ r ∷ [] =
              opens-append_eq j t.requests r matches ∙ ap (λ os. os ++ r ∷ []) none_open in
            let last : latest_revision j t.revisions ≡ some v = rw it latest in
            FitsRow-same row (λ i. opens j (t.requests ++ r ∷ []))
              (λ i. latest_revision j t.revisions) (r, v, one, last, refl, refl, sym project)
      ],
    )

in_review-UnderReview :
    (s : WorkStatus) (p : ℕ) (os : List ReviewRequest) (l : Option WorkProductRevision)
    → is_in_review s ≡ true
    → FitsStatus s p os l
    → UnderReview p os l
in_review-UnderReview draft p os l is fits = absurd (cc)
in_review-UnderReview in_review p os l is fits = fits
in_review-UnderReview approved p os l is fits = absurd (cc)
in_review-UnderReview obsolete p os l is fits = absurd (cc)

-- A work product in review has its one open request and the revision that this is for.
pub Settled-reviewing :
    (id : ℕ) (t : Tables) (w : WorkProduct)
    → find (λ x. x.id) id t.works ≡ some w
    → is_in_review w.status ≡ true
    → Settled id t
    → UnderReview w.project_id (opens id t.requests) (latest_revision id t.revisions)
Settled-reviewing id t w found reviewing settled =
    in_review-UnderReview w.status w.project_id _ _ reviewing (rw found at settled)

pub UnderReview-first :
    (p : ℕ) (os : List ReviewRequest) (l : Option WorkProductRevision) (r : ReviewRequest)
    → UnderReview p os l
    → first os ≡ some r
    → os ≡ r ∷ []
UnderReview-first p os l r (q, v, one, last, same, hash, project) h =
    let it : q ≡ r = cc (rw one at h) in rw one (rw it refl)

-- The tables after the request of a work product is closed and its status is changed.
closed-Settled :
    (status : WorkStatus) (closed : RequestStatus) (now id j : ℕ) (t : Tables) (w : WorkProduct)
    (r : ReviewRequest)
    → Closing closed
    → ((p : ℕ) (os : List ReviewRequest) (o : Option WorkProductRevision)
        → os ≡ []
        → FitsStatus status p os o)
    → find (λ x. x.id) id t.works ≡ some w
    → opens id t.requests ≡ r ∷ []
    → Sound t
    → FitsRow
        (find (λ x. x.id) j (update_where (λ x. x.id == id) (restatus status) t.works))
        (opens j (update_where (λ x. x.id == r.id) (close_as closed now) t.requests))
        (latest_revision j t.revisions)
closed-Settled status closed now id j t w r closing fits found one
      (works, revisions, requests, settled) =
    elim (Bool-cases (j == id)) [
      | inr other ↦
          FitsRow-same (find-update_ne (λ x. x.id) j id (restatus status) t.works (λ x. refl) other)
            (opens-close_ne closed now j id t.requests r closing requests.0 one other) refl
            (settled j)
      | inl here ↦
          let it : j ≡ id = ground arith in
          let row : find (λ x. x.id) j (update_where (λ x. x.id == id) (restatus status) t.works)
              ≡ some (restatus status w) =
            rw it (find-update_eq (λ x. x.id) id (restatus status) t.works w (λ x. refl) found) in
          let shut : opens j (update_where (λ x. x.id == r.id) (close_as closed now) t.requests)
              ≡ [] =
            opens-close_eq closed now j t.requests r closing
              (ap (λ x. opens x t.requests) it ∙ one) in
          FitsRow-same row shut (λ i. latest_revision j t.revisions)
            (fits w.project_id [] (latest_revision j t.revisions) refl)
    ]

is_approved-Closing : Closing is_approved
is_approved-Closing k now r = ground arith

changes_requested-Closing : Closing changes_requested
changes_requested-Closing k now r = ground arith

decided-Sound :
    (k : Codec) (c : Call) (kind : DecisionKind) (id : ℕ) (t : Tables) (w : WorkProduct)
    (r : ReviewRequest) (d : DecisionRow) (notes : List AuditEvent)
    → find (λ x. x.id) id t.works ≡ some w
    → opens id t.requests ≡ r ∷ []
    → Sound t
    → Sound (decided k c kind id r d notes t)
decided-Sound k c review id t w r d notes found one (works, revisions, requests, settled) =
    let next = t.queue.next_id in
    (
      Keyed-later (λ x. x.id) next (next + 1) t.works (omega arith) works,
      Keyed-later (λ x. x.id) next (next + 1) t.revisions (omega arith) revisions,
      Keyed-later (λ x. x.id) next (next + 1) t.requests (omega arith) requests,
      settled,
    )
decided-Sound k c approval id t w r d notes found one sound =
    let next = t.queue.next_id in
    let (works, revisions, requests, settled) = sound in
    (
      Keyed-update_where (λ x. x.id) next (next + 1 + 1) _ _ t.works (λ x. refl) (omega arith)
          works,
      Keyed-later (λ x. x.id) next (next + 1 + 1) t.revisions (omega arith) revisions,
      Keyed-update_where (λ x. x.id) next (next + 1 + 1) _ _ t.requests (λ x. refl) (omega arith)
          requests,
      λ j.
          closed-Settled approved is_approved c.now id j t w r is_approved-Closing (λ p os o e. e)
            found one sound,
    )
decided-Sound k c request_changes id t w r d notes found one sound =
    let next = t.queue.next_id in
    let (works, revisions, requests, settled) = sound in
    (
      Keyed-update_where (λ x. x.id) next (next + 1 + 1) _ _ t.works (λ x. refl) (omega arith)
          works,
      Keyed-later (λ x. x.id) next (next + 1 + 1) t.revisions (omega arith) revisions,
      Keyed-update_where (λ x. x.id) next (next + 1 + 1) _ _ t.requests (λ x. refl) (omega arith)
          requests,
      λ j.
          closed-Settled draft changes_requested c.now id j t w r changes_requested-Closing
            (λ p os o e. e) found one sound,
    )

pub decide-Sound :
    (k : Codec) (c : Call) (id : ℕ) (kind : DecisionKind) (reason operation_key : String)
    (t after : Tables) (d : ReviewDecision)
    → Sound t
    → decide k c id kind reason operation_key t ≡ ok (after, d)
    → Sound after
decide-Sound k c id kind reason operation_key t after d sound h =
    let (w, r, v, in_table, reviewing, requested, assigned, revision, concluded) =
      decide-ok k c id kind reason operation_key t after d h in
    let (independent, current, quorum, fresh, (notes, tables), result) = concluded in
    let (works, revisions, requests, settled) = sound in
    let found = in_project-some c.project_id _ w in_table in
    let one =
      UnderReview-first _ _ _ r (Settled-reviewing id t w found reviewing (settled id)) requested in
    rw tables (
      decided-Sound k c kind id t w r (new_decision c kind reason operation_key r v t) notes found
        one sound)

-- A replayed decision leaves the tables alone.
replay-Sound :
    (t after : Tables) (d : ReviewDecision) (fresh : Result WorkError (Tables × ReviewDecision))
    (known : Result WorkError (Option ReviewDecision))
    → Sound t
    → (fresh ≡ ok (after, d) → Sound after)
    → replay t fresh known ≡ ok (after, d)
    → Sound after
replay-Sound t after d fresh (err e) sound new h = absurd (cc)
replay-Sound t after d fresh (ok none) sound new h = new h
replay-Sound t after d fresh (ok (some old)) sound new h =
    let (same, result) = ok-pair t after old d h in rw same sound

branch-Sound :
    (b : Bool) (x y : Result WorkError (Tables × ReviewDecision)) (after : Tables)
    (d : ReviewDecision)
    → (x ≡ ok (after, d) → Sound after)
    → (y ≡ ok (after, d) → Sound after)
    → (if b then x else y) ≡ ok (after, d)
    → Sound after
branch-Sound true x y after d left right h = left h
branch-Sound false x y after d left right h = right h

pub record_decision-Sound :
    (k : Codec) (c : Call) (id : ℕ) (kind : DecisionKind) (reason operation_key : String)
    (t after : Tables) (d : ReviewDecision)
    → Sound t
    → record_decision k c id kind reason operation_key t ≡ ok (after, d)
    → Sound after
unfolding record_decision
record_decision-Sound k c id kind reason operation_key t after d sound h =
    let fresh = decide k c id kind reason operation_key t in
    let known = load_decision_by_operation_key c id kind reason operation_key t in
    let (e1, h1) =
      fail_if-ok (reason_missing kind reason) _
        (if str_eq operation_key "" then fresh else replay t fresh known) _ h in
    let new = decide-Sound k c id kind reason operation_key t after d sound in
    branch-Sound (str_eq operation_key "") fresh (replay t fresh known) after d new
      (replay-Sound t after d fresh known sound new) h1

-- What a submission that went well wrote.
submit_checked-ok :
    (k : Codec) (c : Call) (id : ℕ) (assignees : List ReviewAssignment) (t : Tables)
    (w : WorkProduct) (v : WorkProductRevision) (out : Tables × ReviewRequest)
    → submit_checked k c id assignees t w v ≡ ok out
    → (notes : List AuditEvent) × (out
        ≡ (submitted k c id (new_request c id v t) assignees notes t, new_request c id v t))
unfolding submit_checked
submit_checked-ok k c id assignees t w v out h =
    let (roles, h2) = fail_if-ok _ _ _ _ h in
    let written : List AuditEvent → Tables × ReviewRequest =
      λ notes. (submitted k c id (new_request c id v t) assignees notes t, new_request c id v t) in
    let (notes, enforced, h3) =
      bind-ok _
        (λ notes. fail_if (any (open_for id) t.requests) review_request_open >> ok (written notes))
        _ h2 in
    let (free, h4) = fail_if-ok _ _ (ok (written notes)) _ h3 in
    (notes, ok-same (written notes) out h4)

submit_revision-ok :
    (k : Codec) (c : Call) (id : ℕ) (assignees : List ReviewAssignment) (t : Tables)
    (w : WorkProduct) (v : WorkProductRevision) (out : Tables × ReviewRequest)
    → submit_revision k c id assignees t w v ≡ ok out
    → (notes : List AuditEvent) × (out
        ≡ (submitted k c id (new_request c id v t) assignees notes t, new_request c id v t))
unfolding submit_revision
submit_revision-ok k c id assignees t w v out h =
    let (checked, passed, h1) =
      bind-ok (check_assignments c v.created_by t [] assignees)
        (λ done. submit_checked k c id assignees t w v) _ h in
    submit_checked-ok k c id assignees t w v out h1

pub submit_work_product-Sound :
    (k : Codec) (c : Call) (id : ℕ) (assignees : List ReviewAssignment) (t after : Tables)
    (r : ReviewRequest)
    → Sound t
    → submit_work_product k c id assignees t ≡ ok (after, r)
    → Sound after
unfolding submit_work_product
submit_work_product-Sound k c id assignees t after r sound h =
    let (e1, h1) = fail_if-ok _ _ _ _ h in
    let (w, in_table, h2) = bind-ok _ (submit_found k c id assignees t) _ h1 in
    let (draft_now, h3) = fail_if-ok _ _ (submit_draft k c id assignees t w) _ h2 in
    let (v, latest, h4) = bind-ok _ (submit_revision k c id assignees t w) _ h3 in
    let (notes, h5) = submit_revision-ok k c id assignees t w v (after, r) h4 in
    let tables = ap (λ x. x.0) h5 in
    let found = in_project-some c.project_id _ w (found_or-ok _ _ _ in_table) in
    rw tables (
      submitted-Sound k c id assignees notes t w v found
        (in_project-project c.project_id _ w (found_or-ok _ _ _ in_table)) (not-false _ draft_now)
        (found_or-ok _ _ _ latest) sound)
