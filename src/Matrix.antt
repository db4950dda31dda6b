-- ===== src/Matrix.antt =====
-- src/matrix/
pub mod Protocol
pub mod Models
pub mod Services
pub mod SyncClient
pub mod Client
