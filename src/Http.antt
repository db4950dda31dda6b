-- ===== src/Http.antt =====
-- src/http.rs
pub mod Parser
pub mod Client
