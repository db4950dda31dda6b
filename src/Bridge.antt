-- ===== src/Bridge.antt =====
-- src/bridge/mod.rs
pub mod UniqueName
pub mod Action
pub mod MappingStore
pub mod Events
pub mod Polls
