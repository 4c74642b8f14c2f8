-- ===== src/Log.antt =====
-- The log of card events, the notes, the priority ladder and the paged reads: internal/db/activity.go.
pub mod Events
pub mod Timelines
pub mod Notes
pub mod Ladder
pub mod LadderRoundTrip
pub mod Successors
pub mod Pages
pub mod AllPages
mod Examples
