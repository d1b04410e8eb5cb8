-- ===== src/Review.antt =====
-- Work products, their revisions, and the review and approval of a revision
-- (internal/project/store.go, workproduct.go, review.go and decision.go).
pub mod Tables
pub mod Works
pub mod Submit
pub mod Decide
pub mod Sound
mod Tests
