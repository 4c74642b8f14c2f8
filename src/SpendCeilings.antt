-- ===== src/SpendCeilings.antt =====
-- Default spend ceilings: internal/api/priority_default_spend_ceiling.go.
pub mod Defaults
pub mod Lowest
pub mod HandSet
mod Examples
