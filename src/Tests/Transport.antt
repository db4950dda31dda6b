-- ===== src/Tests/Transport.antt =====
-- The theorems on src/irc/transport.rs at a concrete connection.
use matrix_ircd.Prelude.{◌≡◌, refl, Bool, true, false, List, [], ◌∷◌, ◌++◌, arith}
use mathlib.Core.Option
use matrix_ircd.Prelude.{returns}
use matrix_ircd.Text.{Str, codes, same}
use matrix_ircd.Text.Utf8.{as_bytes}
use matrix_ircd.Irc.Protocol.IrcCommand.{IrcCommand}
use matrix_ircd.Irc.Socket.{Socket, arrives, read_blocks, room_for, write_blocks, flushed}
use matrix_ircd.Irc.Transport.{
  IrcServerConnection, poll_read, poll_write, write_line, welcome, command,
}
use matrix_ircd.Irc.Transport.Writing.{
  IsWritable, outbound, Keeps, outbound-write_line, poll_write-Keeps,
}
use matrix_ircd.Irc.Transport.Ready.{poll_write_ready}
use matrix_ircd.Irc.Transport.Lines.{Writes, Writes-welcome, welcome_lines}
use matrix_ircd.Irc.Transport.Reading.{inbound, first_command, poll_read_lem}
use matrix_ircd.Irc.Transport.Bounds.{ReturnsBuffered, poll_read_returns}
use matrix_ircd.Irc.Transport.Waits.{Waits}

-- A command that comes in two parts, behind one that is not known, and a stream that takes three
-- bytes and then blocks.
abbrev socket : Socket
socket = record {
  reads = arrives (codes "FOO\nPING ab") ∷ read_blocks ∷ arrives (codes "c\r\nNICK x\n") ∷ [];
  writes = room_for 3 ∷ room_for 100 ∷ write_blocks ∷ [];
  flushes = flushed ∷ flushed ∷ [];
  sent = [];
}

abbrev connection : IrcServerConnection
connection = record {
  conn = socket;
  read_buffer = [];
  write_buffer = [];
  position = 0;
  write_notify = false;
  closed = false;
  server_name = codes "s";
}

-- The same with a line to send.
abbrev pending : IrcServerConnection
pending = record connection { write_buffer = codes "PONG a\n" }

abbrev arrived : IrcServerConnection
arrived = record connection {
  conn = record socket { reads = arrives (codes "PING ab\nNICK x\n") ∷ [] };
}

abbrev behind_ping : IrcServerConnection
behind_ping = record arrived { conn = record socket { reads = [] }; read_buffer = codes "NICK x\n" }

poll_read_lem_example :
    first_command (inbound arrived)
    ≡ returns (command (IrcCommand.ping (codes "ab")) (inbound behind_ping))
unfolding same Option.bind
poll_read_lem_example =
    poll_read_lem arrived behind_ping (IrcCommand.ping (codes "ab")) (unfold poll_read in refl)

outbound-write_line_example :
    IsWritable (write_line pending (codes "HI"))
    × (outbound (write_line pending (codes "HI"))
        ≡ outbound pending ++ (as_bytes (codes "HI") ++ b'\n' ∷ []))
outbound-write_line_example = outbound-write_line pending (codes "HI") (omega arith)

poll_read_returns_example : ReturnsBuffered (poll_read connection)
poll_read_returns_example = poll_read_returns connection (omega arith)

-- The first part has been read, and its line that is no command is gone.
abbrev blocked : IrcServerConnection
blocked = record connection {
  conn = record socket { reads = arrives (codes "c\r\nNICK x\n") ∷ [] };
  read_buffer = codes "PING ab";
}

poll_write-Keeps_example : Keeps pending (poll_write pending).1
poll_write-Keeps_example = poll_write-Keeps pending (omega arith)

poll_write_ready_example : (poll_write pending).1.conn.sent ≡ outbound pending
poll_write_ready_example = poll_write_ready pending (omega arith) (unfold poll_write in refl)

Writes-welcome_example :
    Writes pending (welcome_lines (codes "s") (codes "n")) (welcome pending (codes "n"))
Writes-welcome_example = Writes-welcome pending (codes "n") (omega arith)

abbrev two_names : List (Str × Bool)
two_names = (codes "a", true) ∷ (codes "b", false) ∷ []
