-- ===== src/Irc/Transport/Waits.antt =====
-- src/irc/transport.rs: `poll_read` where it has no command yet.
use matrix_ircd.Prelude.{ℕ, ◌<◌, ◌≡◌, true, ◌⊎◌, [], ◌++◌}
use matrix_ircd.Prelude.{returns}
use matrix_ircd.Text.Utf8.{Bytes}
use matrix_ircd.Irc.Socket.{Socket, arrives, read_blocks, arriving, read}
use matrix_ircd.Irc.Transport.{IrcServerConnection, no_line}
use matrix_ircd.Irc.Protocol.IrcCommand.{IrcCommand}
use matrix_ircd.Irc.Transport.Reading.{first_command}

-- The bytes `taken` have arrived, no command is in them and the buffer together, and what is behind
-- the last line in them is in the buffer now. The last call of `read`, with room for a byte at
-- least, blocked, or gave the end of the stream, by which the connection is closed.
pub record Waits (c c' : IrcServerConnection) : Type 0 where
  pub taken : Bytes
  pub before : Socket
  pub room : ℕ
  pub has_room : 0 < room
  pub has_taken : arriving c.conn.reads ≡ taken ++ arriving before.reads
  pub no_command : first_command (c.read_buffer ++ taken) ≡ returns (no_line c'.read_buffer)
  pub last_read : (read room before).1 ≡ c'.conn
  pub is_silent :
      ((read room before).0 ≡ read_blocks)
      ⊎ (((read room before).0 ≡ arrives []) × (c'.closed ≡ true))
