-- ===== src/Timeline.antt =====
-- A card's events and the time between them: internal/model/activity.go,
-- internal/model/time_entry.go and internal/timeaccounting/timeaccounting.go.
pub mod Events
pub mod Business
pub mod BusinessBounds
pub mod Compute
pub mod Elapsed
mod Examples
