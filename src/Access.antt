-- ===== src/Access.antt =====
-- Who may see and change which board: internal/api/principal_access.go.
pub mod Levels
pub mod Grants
pub mod Routes
pub mod Gate
pub mod CardLevel
pub mod GrantLevel
pub mod RouteSafety
pub mod GateSafety
mod Examples
