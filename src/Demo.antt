-- ===== src/Demo.antt =====
-- example/app/main.go: the backend of the demo.
pub mod Broker
pub mod Schedule
pub mod Fired
mod Examples
