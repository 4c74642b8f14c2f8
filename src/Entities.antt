-- ===== src/Entities.antt =====
-- The tags of entities and the links of cards: internal/db/db.go.
pub mod Tags
pub mod Links
pub mod LinkEffects
pub mod TagCounts
mod Examples
mod LinkExamples
