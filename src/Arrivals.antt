-- ===== src/Arrivals.antt =====
-- What a card's placements and a board's settings decide about it: its shared work state
-- (internal/model/work_state_selection.go) and who it is assigned to when it arrives
-- (internal/api/board_settings.go, internal/db/db.go).
pub mod WorkState
pub mod Pool
pub mod PoolSafety
mod Examples
