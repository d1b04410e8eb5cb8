-- ===== src/Economics/Spending.antt =====
-- Logging of work and expenses, rates and cost baselines (internal/economics/store.go).
mod Tables
mod Logging
mod Rates
mod Baselines
pub use Tables.*
unfoldable pub use Logging.*
unfoldable pub use Rates.*
unfoldable pub use Baselines.*
