-- ===== src/Review/Sound/Works.antt =====
-- Creating, revising and retiring, on sound tables (internal/project/workproduct.go).
use delmos.Base.{
  ℕ, ◌+◌, ◌≤◌, ◌≡◌, refl, ap, ◌∙◌, arith, String, false, Option, none, some, List, [], ◌∷◌, ◌++◌,
  ◌==◌, if◌then◌else◌, inl, inr, Bool-cases, ok, bind-ok, fail_if-ok, ok-pair, ok-same, find-Among,
  Dict, find, find_fresh, find-append, find-append_ne, find-update_ne, find-update_eq, update_where,
  Keyed, Keyed-push, Keyed-later, Keyed-update_where,
}
use delmos.Automation.Value.{Value}
use delmos.Review.Tables.{
  WorkStatus, draft, obsolete, WorkProduct, WorkProductRevision, ReviewRequest, AuditEvent, Tables,
  Call, WorkError, no_revision, latest_revision, open_for, find_work, in_project, restatus,
  close_as, superseded, supersede_open_review_request,
}
use delmos.Review.Works.{
  Codec, new_work_product, check_new_work_product, created, create_work_product,
  revise_work_product, retire_work_product, revise_found, retire_live, retire_found, revised,
  retired, new_revision, found_or, is_obsolete,
}
use delmos.Review.Sound.{Sound, Settled, FitsRow, FitsStatus}
use delmos.Review.Sound.Rows.{
  FitsRow-same, latest_revision-append_ne, opens, opens-supersede_eq, opens-supersede_ne,
}

found_or-ok : {A : Type 0} (e : WorkError) (o : Option A) (a : A) → found_or e o ≡ ok a → o ≡ some a
found_or-ok e none a h = absurd (cc)
found_or-ok e (some b) a h = cc

-- The row of a work product that is found in its project.
pub in_project-some :
    (project_id : ℕ) (o : Option WorkProduct) (w : WorkProduct)
    → in_project project_id o ≡ some w
    → o ≡ some w
in_project-some p none w h = absurd (cc)
in_project-some p (some x) w h = elim (Bool-cases (x.project_id == p)) [
  | inl here ↦ rw here at h
  | inr other ↦ absurd (cc (rw other at h))
]

pub in_project-project :
    (project_id : ℕ) (o : Option WorkProduct) (w : WorkProduct)
    → in_project project_id o ≡ some w
    → w.project_id ≡ project_id
in_project-project p none w h = absurd (cc)
in_project-project p (some x) w h = elim (Bool-cases (x.project_id == p)) [
  | inl here ↦
      let same : x ≡ w = cc (rw here at h) in
      let it : x.project_id ≡ p = ground arith in rw (← same) it
  | inr other ↦ absurd (cc (rw other at h))
]

settled_nothing :
    (o : Option WorkProduct) (os : List ReviewRequest) (l : Option WorkProductRevision)
    → o ≡ none
    → FitsRow o os l
    → os ≡ []
settled_nothing o os l e h = rw e at h

-- The tables after a work product got a new status and lost its open request, whatever revisions
-- were added to it.
pub Settled-closed :
    (status : WorkStatus) (now id k : ℕ) (works : List WorkProduct) (requests : List ReviewRequest)
    (l m : Option WorkProductRevision) (w : WorkProduct)
    → ((p : ℕ) (os : List ReviewRequest) (o : Option WorkProductRevision)
        → os ≡ []
        → FitsStatus status p os o)
    → find (λ x. x.id) id works ≡ some w
    → ((k == id) ≡ false → m ≡ l)
    → FitsRow (find (λ x. x.id) k works) (opens k requests) l
    → FitsRow
        (find (λ x. x.id) k (update_where (λ x. x.id == id) (restatus status) works))
        (opens k (supersede_open_review_request now id requests))
        m
Settled-closed status now id k works requests l m w closes found same fits =
    elim (Bool-cases (k == id)) [
      | inr other ↦
          FitsRow-same (find-update_ne (λ x. x.id) k id (restatus status) works (λ x. refl) other)
            (opens-supersede_ne now k id requests other) (same other) fits
      | inl here ↦
          let it : k ≡ id = ground arith in
          let row : find (λ x. x.id) k (update_where (λ x. x.id == id) (restatus status) works)
              ≡ some (restatus status w) =
            rw it (find-update_eq (λ x. x.id) id (restatus status) works w (λ x. refl) found) in
          let shut : opens k (supersede_open_review_request now id requests) ≡ [] =
            rw it (opens-supersede_eq now id requests) in
          FitsRow-same row shut (λ i. m) (closes w.project_id [] m refl)
    ]

supersede-Keyed :
    (n m now id : ℕ) (rs : List ReviewRequest)
    → n ≤ m
    → Keyed (λ r. r.id) n rs
    → Keyed (λ r. r.id) m (supersede_open_review_request now id rs)
unfolding supersede_open_review_request
supersede-Keyed n m now id rs le keyed =
    Keyed-update_where (λ r. r.id) n m (open_for id) (close_as superseded now) rs (λ x. refl) le
      keyed

-- Whatever a revision writes, it keeps the tables sound.
pub revised-Sound :
    (k : Codec) (c : Call) (w : WorkProduct) (n : ℕ) (body : String) (metadata : Dict Value)
    (notes : List AuditEvent) (t : Tables)
    → find (λ x. x.id) w.id t.works ≡ some w
    → Sound t
    → Sound (revised k c w (new_revision k c t.queue.next_id w n body metadata) notes t)
revised-Sound k c w n body metadata notes t found (works, revisions, requests, settled) =
    let next = t.queue.next_id in
    let r = new_revision k c next w n body metadata in
    (
      Keyed-update_where (λ x. x.id) next (next + 1 + 1) _ _ t.works (λ x. refl) (omega arith)
          works,
      Keyed-push (λ x. x.id) next (next + 1 + 1) t.revisions r revisions (omega arith)
          (omega arith),
      supersede-Keyed next (next + 1 + 1) c.now w.id t.requests (omega arith) requests,
      λ j.
          Settled-closed draft c.now w.id j t.works t.requests (latest_revision j t.revisions) _ w
            (λ p os o e. e) found
            (λ other. latest_revision-append_ne j t.revisions r (ground arith)) (settled j),
    )

retired-Sound :
    (k : Codec) (c : Call) (w : WorkProduct) (notes : List AuditEvent) (t : Tables)
    → find (λ x. x.id) w.id t.works ≡ some w
    → Sound t
    → Sound (retired k c w notes t)
retired-Sound k c w notes t found (works, revisions, requests, settled) =
    let next = t.queue.next_id in
    (
      Keyed-update_where (λ x. x.id) next (next + 0 + 1) _ _ t.works (λ x. refl) (omega arith)
          works,
      Keyed-later (λ v. v.id) next (next + 0 + 1) t.revisions (omega arith) revisions,
      supersede-Keyed next (next + 0 + 1) c.now w.id t.requests (omega arith) requests,
      λ j.
          Settled-closed obsolete c.now w.id j t.works t.requests _ _ w (λ p os o e. e) found
            (λ other. refl) (settled j),
    )

-- A found work product stands under its own id.
own_id :
    (id p : ℕ) (works : List WorkProduct) (w : WorkProduct)
    → find_work id p works ≡ some w
    → find (λ x. x.id) w.id works ≡ some w
own_id id p works w h =
    let found = in_project-some p (find (λ x. x.id) id works) w h in
    ap (λ j. find (λ x. x.id) j works) (find-Among (λ x. x.id) id works w found).1 ∙ found

revise_found-Sound :
    (k : Codec) (c : Call) (expected : ℕ) (body : String) (metadata : Dict Value) (t after : Tables)
    (w : WorkProduct) (notes : List AuditEvent) (r : WorkProductRevision)
    → Sound t
    → find (λ x. x.id) w.id t.works ≡ some w
    → revise_found k c expected body metadata t w notes ≡ ok (after, r)
    → Sound after
unfolding revise_found
revise_found-Sound k c expected body metadata t after w notes r sound found h =
    let (version, h1) = fail_if-ok _ _ _ _ h in
    let added : WorkProductRevision → WorkProductRevision =
      λ last. new_revision k c t.queue.next_id w (last.revision_number + 1) body metadata in
    let (last, latest, h2) =
      bind-ok (found_or no_revision (latest_revision w.id t.revisions))
        (λ last. ok (revised k c w (added last) notes t, added last)) _ h1 in
    let (tables, result) = ok-pair _ _ _ _ h2 in
    rw tables (revised-Sound k c w (last.revision_number + 1) body metadata notes t found sound)

pub revise_work_product-Sound :
    (k : Codec) (c : Call) (id expected : ℕ) (body : String) (metadata : Dict Value)
    (t after : Tables) (r : WorkProductRevision)
    → Sound t
    → revise_work_product k c id expected body metadata t ≡ ok (after, r)
    → Sound after
unfolding revise_work_product
revise_work_product-Sound k c id expected body metadata t after r sound h =
    let (w, in_table, h1) = bind-ok _ _ _ h in
    let (notes, passed, h2) = bind-ok _ (revise_found k c expected body metadata t w) _ h1 in
    revise_found-Sound k c expected body metadata t after w notes r sound
      (own_id id c.project_id t.works w (found_or-ok _ _ _ in_table)) h2

retire_live-Sound :
    (k : Codec) (c : Call) (expected : ℕ) (t after : Tables) (w : WorkProduct)
    → Sound t
    → find (λ x. x.id) w.id t.works ≡ some w
    → retire_live k c expected t w ≡ ok after
    → Sound after
unfolding retire_live
retire_live-Sound k c expected t after w sound found h =
    let (version, h1) = fail_if-ok _ _ _ _ h in
    let (notes, passed, h2) = bind-ok _ (λ notes. ok (retired k c w notes t)) _ h1 in
    rw (ok-same _ _ h2) (retired-Sound k c w notes t found sound)

retire_found-Sound :
    (k : Codec) (c : Call) (expected : ℕ) (t after : Tables) (w : WorkProduct)
    → Sound t
    → find (λ x. x.id) w.id t.works ≡ some w
    → retire_found k c expected t w ≡ ok after
    → Sound after
retire_found-Sound k c expected t after w sound found h =
    let (kind, h1) =
      fail_if-ok _ _ (if is_obsolete w.status then ok t else retire_live k c expected t w) _ h in
    elim (Bool-cases (is_obsolete w.status)) [
      | inl before ↦ rw (ok-same t after (rw before at h1)) sound
      | inr now ↦ retire_live-Sound k c expected t after w sound found (rw now at h1)
    ]

pub retire_work_product-Sound :
    (k : Codec) (c : Call) (id expected : ℕ) (t after : Tables)
    → Sound t
    → retire_work_product k c id expected t ≡ ok after
    → Sound after
unfolding retire_work_product
retire_work_product-Sound k c id expected t after sound h =
    let (w, in_table, h1) = bind-ok _ (retire_found k c expected t) _ h in
    retire_found-Sound k c expected t after w sound
      (own_id id c.project_id t.works w (found_or-ok _ _ _ in_table)) h1

-- A work product and its first revision, both with fresh ids.
abbrev created_tables : Tables → WorkProduct → WorkProductRevision → Tables
created_tables t w r = record t { works = t.works ++ w ∷ []; revisions = t.revisions ++ r ∷ [] }

created-Settled :
    (t : Tables) (w : WorkProduct) (r : WorkProductRevision)
    → w.status ≡ draft
    → w.id ≡ t.queue.next_id
    → r.work_product_id ≡ w.id
    → Sound t
    → (k : ℕ) → Settled k (created_tables t w r)
created-Settled t w r new_status new_id its (works, revisions, requests, settled) k =
    elim (Bool-cases (w.id == k)) [
      | inr other ↦
          let kept : latest_revision k (t.revisions ++ r ∷ []) ≡ latest_revision k t.revisions =
            latest_revision-append_ne k t.revisions r (ground arith) in
          FitsRow-same (find-append_ne (λ x. x.id) k t.works w other) (λ i. opens k t.requests) kept
            (settled k)
      | inl here ↦
          let it : t.queue.next_id ≤ k = ground arith in
          let absent = find_fresh (λ x. x.id) t.queue.next_id k t.works works.1 it in
          let shut = settled_nothing _ _ _ absent (settled k) in
          let row : find (λ x. x.id) k (t.works ++ w ∷ []) ≡ some w =
            find-append (λ x. x.id) k t.works (w ∷ []) ∙ rw (absent, here) refl in
          FitsRow-same row shut (λ i. latest_revision k (t.revisions ++ r ∷ []))
            (rw new_status refl)
    ]

created-Sound :
    (k : Codec) (c : Call) (code wp_type title body : String) (metadata : Dict Value) (t : Tables)
    → Sound t
    → (let w = new_work_product c code wp_type title t in
        Sound (created k c w (new_revision k c (t.queue.next_id + 1) w 1 body metadata) t))
created-Sound k c code wp_type title body metadata t sound =
    let next = t.queue.next_id in
    let w = new_work_product c code wp_type title t in
    let r = new_revision k c (next + 1) w 1 body metadata in
    let (works, revisions, requests, settled) = sound in
    (
      Keyed-push (λ x. x.id) next (next + 2 + 1) t.works w works (omega arith) (omega arith),
      Keyed-push (λ x. x.id) next (next + 2 + 1) t.revisions r revisions (omega arith)
          (omega arith),
      Keyed-later (λ x. x.id) next (next + 2 + 1) t.requests (omega arith) requests,
      created-Settled t w r refl refl refl sound,
    )

pub create_work_product-Sound :
    (k : Codec) (c : Call) (code wp_type title body : String) (metadata : Dict Value)
    (t after : Tables) (made : WorkProduct) (first : WorkProductRevision)
    → Sound t
    → create_work_product k c code wp_type title body metadata t ≡ ok (after, made, first)
    → Sound after
unfolding create_work_product
create_work_product-Sound k c code wp_type title body metadata t after made first sound h =
    let w = new_work_product c code wp_type title t in
    let r = new_revision k c (t.queue.next_id + 1) w 1 body metadata in
    let out : Tables × WorkProduct × WorkProductRevision = (created k c w r t, w, r) in
    let (checked, passed, h1) =
      bind-ok (check_new_work_product c code wp_type title t) (λ checked. ok out) _ h in
    rw (ap (λ x. x.0) (ok-same out (after, made, first) h1))
      (created-Sound k c code wp_type title body metadata t sound)
