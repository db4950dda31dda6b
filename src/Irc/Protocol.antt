-- ===== src/Irc/Protocol.antt =====
-- src/irc/protocol.rs: IRC lines, commands and numeric replies.
pub mod Command
pub mod Line
pub mod IrcCommand
pub mod Numeric
