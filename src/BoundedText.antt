-- ===== src/BoundedText.antt =====
-- Texts cut to a length: internal/boundedtext/boundedtext.go.
pub mod Cut
pub mod CutBounds
mod Examples
