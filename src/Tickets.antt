-- ===== src/Tickets.antt =====
-- Tickets: internal/db/ticket.go and internal/model/ticket.go.
pub mod Rows
pub mod Source
mod Examples
