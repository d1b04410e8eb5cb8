-- ===== src/Plan.antt =====
-- Generic Project Plan: internal/project/plan.go.
pub mod Graph
pub mod Manifest
pub mod Dates
pub mod Validation
pub mod Projection
pub mod Apply
pub mod Revise
