-- ===== src/Economics.antt =====
-- The economics of a project: what its phases cost and earn (internal/economics).
pub mod Money
pub mod Costs
pub mod Facts
pub mod Earned
pub mod Limits
pub mod Bounds
pub mod Spending
pub mod Approval
pub mod Books
pub mod Closed
mod Tests
mod BookTests
