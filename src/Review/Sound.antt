-- ===== src/Review/Sound.antt =====
-- What holds between the rows of a work product: its status, its open requests and its revisions.
pub mod Rows
mod Works
mod Reviews
pub mod Reachable
pub mod Replay
use delmos.Base.{ℕ, ◌≡◌, Option, none, some, List, [], ◌∷◌, find, keep, Keyed}
use delmos.Review.Tables.{
  WorkStatus, draft, in_review, approved, obsolete, WorkProduct, WorkProductRevision, ReviewRequest,
  Tables, latest_revision, open_for,
}

-- One request is open; it is for the last revision and its hash, and of the same project.
abbrev pub UnderReview : ℕ → List ReviewRequest → Option WorkProductRevision → Type 0
UnderReview project_id opened latest =
    (r : ReviewRequest) × (v : WorkProductRevision) × (opened ≡ r ∷ [])
    × (latest ≡ some v)
    × (r.revision_id ≡ v.id)
    × (r.payload_hash ≡ v.payload_hash)
    × (r.project_id ≡ project_id)

abbrev pub FitsStatus : WorkStatus → ℕ → List ReviewRequest → Option WorkProductRevision → Type 0
FitsStatus in_review project_id opened latest = UnderReview project_id opened latest
FitsStatus draft project_id opened latest = opened ≡ []
FitsStatus approved project_id opened latest = opened ≡ []
FitsStatus obsolete project_id opened latest = opened ≡ []

abbrev pub FitsRow : Option WorkProduct → List ReviewRequest → Option WorkProductRevision → Type 0
FitsRow none opened latest = opened ≡ []
FitsRow (some w) opened latest = FitsStatus w.status w.project_id opened latest

-- The work product is in review exactly while one request, for its last revision, is open.
abbrev pub Settled : ℕ → Tables → Type 0
Settled k t =
    FitsRow (find (λ w. w.id) k t.works) (keep (open_for k) t.requests)
      (latest_revision k t.revisions)

-- The identifiers are primary keys from the supply, and every work product is settled.
abbrev pub Sound : Tables → Type 0
Sound t =
    Keyed (λ w. w.id) t.queue.next_id t.works
    × Keyed (λ v. v.id) t.queue.next_id t.revisions
    × Keyed (λ r. r.id) t.queue.next_id t.requests
    × ((k : ℕ) → Settled k t)
