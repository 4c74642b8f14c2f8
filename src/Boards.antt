-- ===== src/Boards.antt =====
-- Boards, their columns and the cards placed on them: internal/db/db.go.
pub mod Tables
pub mod Columns
pub mod Placing
pub mod Consistency
pub mod Keeps
pub mod ColumnKeeps
pub mod History
pub mod Effects
pub mod Settings
pub mod Versions
pub mod Assignments
pub mod SharedAssignments
pub mod VersionedAssignment
mod Examples
mod VersionExamples
