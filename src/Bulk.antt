-- ===== src/Bulk.antt =====
-- Bulk card commands: internal/api/bulk_card_commands.go and internal/model/bulk.go.
pub mod Commands
pub mod Runs
pub mod ChangedTags
mod Examples
