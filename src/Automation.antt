-- ===== src/Automation.antt =====
-- The automation engine: internal/automation.
pub mod Value
pub mod Rational
pub mod Condition
pub mod Rules
pub mod Workflow
pub mod Outbox
pub mod Delivery
pub mod Clock
pub mod Cron
pub mod Scheduler
