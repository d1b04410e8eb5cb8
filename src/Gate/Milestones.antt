-- ===== src/Gate/Milestones.antt =====
-- Accepting a milestone: `AcceptMilestone` (internal/project/milestone.go).
mod Standing
mod Gathering
mod Acceptance
unfoldable pub use Standing.*
unfoldable pub use Gathering.*
unfoldable pub use Acceptance.*
