-- ===== src/Gate.antt =====
-- The gates of a project: accepting a milestone (internal/project/milestone.go) and moving a phase on
-- (internal/project/phase.go).
pub mod Milestones
pub mod Phases
pub mod Evidence
pub mod Counted
pub mod Completion
pub mod Moves
pub mod Order
pub mod Latest
pub mod Accepted
pub mod Close
mod Tests
