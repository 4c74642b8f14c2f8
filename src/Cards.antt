-- ===== src/Cards.antt =====
-- The requests on cards: the handlers of internal/api/api.go, internal/api/activity.go,
-- internal/api/assignments.go and internal/api/board_settings.go.
pub mod World
pub mod Clock
pub mod Arriving
pub mod Placements
pub mod Creating
pub mod Actions
pub mod Limits
pub mod Counting
pub mod Wip
pub mod Moved
pub mod Recording
pub mod Latest
pub mod Carried
pub mod SteadyClocks
pub mod Requests
pub mod Kept
pub mod Placed
pub mod Served
mod Examples
