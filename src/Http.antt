-- ===== src/Http.antt =====
-- internal/http/http.go.
pub mod Mac
pub mod Params
pub mod Page
pub mod Traffic
pub mod Server
pub mod Routes
