-- ===== src/Irc.antt =====
-- src/irc/
pub mod Models
pub mod Protocol
pub mod Socket
pub mod Transport
pub mod User
pub mod Login
