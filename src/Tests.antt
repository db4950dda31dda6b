-- ===== src/Tests.antt =====
-- The tests of src/irc/protocol.rs, and the theorems at concrete inputs.
mod Protocol
mod Transport
mod Server
mod Room
mod Mappings
mod Bridge
mod Login
mod Http
