-- ===== src/Messaging.antt =====
-- Message triggers and their deliveries: internal/messaging/dispatcher.go, internal/db/messaging.go and
-- internal/model/messaging.go.
pub mod Dispatcher
pub mod Firing
pub mod Claims
pub mod AtMostOnce
pub mod Recorded
mod Examples
