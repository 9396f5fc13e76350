-- ===== src/Cron.antt =====
-- delayquene/parser.go and delayquene/spec.go: cron patterns and the schedules they stand for.
pub mod Bits
pub mod Field
pub mod Calendar
pub mod Next
pub mod Parser
pub mod Fires
mod Examples
