-- ===== src/Http.antt =====
-- The admin REST API: httpv1/spec.go, httpv1/http.go and the router of cmd.go.
pub mod Types
pub mod Handlers
pub mod Router
mod Examples
