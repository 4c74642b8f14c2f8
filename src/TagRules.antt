-- ===== src/TagRules.antt =====
-- A board's tag rules: internal/model/tag_rules.go and internal/db/tag_rules.go.
pub mod Rules
pub mod Precedence
pub mod Validity
pub mod Stored
pub mod Written
pub mod RoundTrip
mod Examples
