-- ===== src/Review/Sound/Rows.antt =====
-- The open requests and the last revision of a work product, when rows are added or change.
use delmos.Base.{
  ℕ, ◌≡◌, ◌⊎◌, refl, ◌∙◌, arith, true, false, not, Option, none, some, List, [], ◌∷◌, ◌++◌, ◌==◌,
  leb, inl, inr, Bool-cases, All-map, All-self, All-Among, Among, update_where, keep, keep-append,
  keep-update_where, keep_nothing, keep_everything, keep-passes, keep-Among, Own,
}
use delmos.Review.Tables.{
  WorkProduct, WorkProductRevision, RequestStatus, ReviewRequest, latest_revision, newer, open_for,
  close_as, supersede_open_review_request, superseded,
}
use delmos.Review.Sound.{FitsRow}

pub FitsRow-same :
    {f g : Option WorkProduct} {os ps : List ReviewRequest} {l m : Option WorkProductRevision}
    → f ≡ g
    → os ≡ ps
    → l ≡ m
    → FitsRow g ps m
    → FitsRow f os l
FitsRow-same e1 e2 e3 h = rw (e1, e2, e3) h

pub latest_revision-append_ne :
    (k : ℕ) (rs : List WorkProductRevision) (r : WorkProductRevision)
    → (r.work_product_id == k) ≡ false
    → latest_revision k (rs ++ r ∷ []) ≡ latest_revision k rs
latest_revision-append_ne k [] r ne = rw ne refl
latest_revision-append_ne k (s ∷ rs) r ne = rw (latest_revision-append_ne k rs r ne) refl

newer-cases :
    (r v : WorkProductRevision) (o : Option WorkProductRevision)
    → newer r o ≡ some v
    → (v ≡ r) ⊎ (o ≡ some v)
newer-cases r v none h = inl (cc)
newer-cases r v (some s) h = elim (Bool-cases (leb s.revision_number r.revision_number)) [
  | inl later ↦ inl (cc (rw later at h))
  | inr earlier ↦ inr (cc (rw earlier at h))
]

pub latest_revision-Among :
    (k : ℕ) (rs : List WorkProductRevision) (v : WorkProductRevision)
    → latest_revision k rs ≡ some v
    → Among v rs
latest_revision-Among k [] v h = absurd (cc)
latest_revision-Among k (r ∷ rs) v h = elim (Bool-cases (r.work_product_id == k)) [
  | inl here ↦ elim (newer-cases r v (latest_revision k rs) (rw here at h)) [
    | inl it ↦ inl it
    | inr below ↦ inr (latest_revision-Among k rs v below)
  ]
  | inr past ↦ inr (latest_revision-Among k rs v (rw past at h))
]

-- The requests open for a work product.
abbrev pub opens : ℕ → List ReviewRequest → List ReviewRequest
opens k rs = keep (open_for k) rs

pub opens-append_ne :
    (k : ℕ) (rs : List ReviewRequest) (r : ReviewRequest)
    → (r.work_product_id == k) ≡ false
    → opens k (rs ++ r ∷ []) ≡ opens k rs
opens-append_ne k [] r ne = rw ne refl
opens-append_ne k (s ∷ rs) r ne = rw (opens-append_ne k rs r ne) refl

pub opens-append_eq :
    (k : ℕ) (rs : List ReviewRequest) (r : ReviewRequest)
    → open_for k r ≡ true
    → opens k (rs ++ r ∷ []) ≡ opens k rs ++ r ∷ []
opens-append_eq k rs r e = keep-append (open_for k) rs (r ∷ []) ∙ rw e refl

-- A status that a request has once it is closed.
abbrev pub Closing : RequestStatus → Type 0
Closing status = (k now : ℕ) (r : ReviewRequest) → open_for k (close_as status now r) ≡ false

pub superseded-Closing : Closing superseded
superseded-Closing k now r = ground arith

pub opens-supersede_eq :
    (now k : ℕ) (rs : List ReviewRequest) → opens k (supersede_open_review_request now k rs) ≡ []
unfolding supersede_open_review_request
opens-supersede_eq now k rs =
    keep-update_where (open_for k) (open_for k) (close_as superseded now) rs
      (superseded-Closing k now)
    ∙ keep_nothing (λ x. not (open_for k x)) (opens k rs)
        (All-map _ (opens k rs) (λ x passes. rw passes refl) (keep-passes (open_for k) rs))

pub opens-supersede_ne :
    (now k j : ℕ) (rs : List ReviewRequest)
    → (k == j) ≡ false
    → opens k (supersede_open_review_request now j rs) ≡ opens k rs
unfolding supersede_open_review_request
opens-supersede_ne now k j rs ne =
    keep-update_where (open_for k) (open_for j) (close_as superseded now) rs
      (superseded-Closing k now)
    ∙ keep_everything (λ x. not (open_for j x)) (opens k rs)
        (All-map _ (opens k rs) (λ x passes. ground arith) (keep-passes (open_for k) rs))

-- Closing the one request that is open, by its id.
pub opens-close_eq :
    (status : RequestStatus) (now k : ℕ) (rs : List ReviewRequest) (r : ReviewRequest)
    → Closing status
    → opens k rs ≡ r ∷ []
    → opens k (update_where (λ x. x.id == r.id) (close_as status now) rs) ≡ []
opens-close_eq status now k rs r closing one =
    keep-update_where (open_for k) (λ x. x.id == r.id) (close_as status now) rs (closing k now)
    ∙ rw one (ground arith)

pub opens-close_ne :
    (status : RequestStatus) (now k j : ℕ) (rs : List ReviewRequest) (r : ReviewRequest)
    → Closing status
    → Own (λ x. x.id) rs
    → opens j rs ≡ r ∷ []
    → (k == j) ≡ false
    → opens k (update_where (λ x. x.id == r.id) (close_as status now) rs) ≡ opens k rs
opens-close_ne status now k j rs r closing own one ne =
    let here : Among r (opens j rs) = rw one (inl refl) in
    let (on, open_j) = keep-Among (open_for j) r rs here in
    let mine = All-Among _ r rs own on in
    keep-update_where (open_for k) (λ x. x.id == r.id) (close_as status now) rs (closing k now)
    ∙ keep_everything (λ x. not (x.id == r.id)) (opens k rs)
        (All-map _ (opens k rs)
          (λ x found. elim (Bool-cases (x.id == r.id)) [
            | inr other ↦ rw other refl
            | inl same ↦
                let (at_x, open_k) = keep-Among (open_for k) x rs found in
                let theirs = All-Among _ x rs own at_x in
                let ids : x.id ≡ r.id = ground arith in
                let both : x ≡ r = cc in absurd (ground (arith, (rw both at open_k)))
          ])
          (All-self (opens k rs) (opens k rs) (λ a a_in. a_in)))
