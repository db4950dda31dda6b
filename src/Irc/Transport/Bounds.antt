-- ===== src/Irc/Transport/Bounds.antt =====
-- src/irc/transport.rs: `poll_read` and the size of its buffer.
use matrix_ircd.Prelude.{
  ℕ, zero, suc, ◌+◌, ◌-◌, ◌≤◌, ◌≡◌, refl, inl, inr, [], ◌∷◌, arith, leb, Bool-cases, length,
  length-append,
}
use matrix_ircd.Prelude.{returns, replicate, length-replicate}
use matrix_ircd.Text.Utf8.{Bytes}
use matrix_ircd.Irc.Socket.{Poll, ReadEvent, arrives, read_blocks, read_fails, read_measure, read}
use matrix_ircd.Irc.Protocol.IrcCommand.{IrcCommand}
use matrix_ircd.Irc.Transport.{
  IrcServerConnection, Drained, command, invalid_utf8, no_line, read_loop, after_read, after_drain,
  poll_read, buffer_size, ReadResult,
}
use matrix_ircd.Irc.Transport.Drain.{drain_lines_total, left, drain_lines-left}
use matrix_ircd.Irc.Transport.Reading.{read-room}

-- The loop returns, and does so with a buffer of at most `buffer_size` bytes.
abbrev pub IsBuffered : IrcServerConnection → Type 0
IsBuffered c = length c.read_buffer ≤ buffer_size

abbrev pub ReturnsBuffered : ReadResult → Type 0
ReturnsBuffered r =
    (p : Poll IrcCommand) × (c : IrcServerConnection) × (r ≡ returns (p, c)) × IsBuffered c

after_read_returns :
    (again : IrcServerConnection → ReadResult)
    → ((c : IrcServerConnection) → IsBuffered c → ReturnsBuffered (again c))
    → (c : IrcServerConnection) (rest : Bytes) (event : ReadEvent)
    → ((bs : Bytes) → event ≡ arrives bs → length rest + length bs ≤ buffer_size)
    → length rest ≤ buffer_size
    → ReturnsBuffered (after_read again c rest event)
unfolding after_read
after_read_returns again ih c rest (arrives []) fits le = (_, _, refl, le)
after_read_returns again ih c rest (arrives (b ∷ bs)) fits le =
    ih _ (omega (arith, length-append rest (b ∷ bs), fits (b ∷ bs) refl))
after_read_returns again ih c rest read_blocks fits le = (_, _, refl, le)
after_read_returns again ih c rest (read_fails e) fits le = (
  _,
  _,
  refl,
  omega (
    arith,
    length-append rest (replicate (buffer_size - length rest) 0),
    length-replicate {A = ℕ} (buffer_size - length rest) 0,
  ),
)

after_drain_returns :
    (again : IrcServerConnection → ReadResult)
    → ((c : IrcServerConnection) → IsBuffered c → ReturnsBuffered (again c))
    → (c : IrcServerConnection) (d : Drained) → length (left d) ≤ buffer_size
    → ReturnsBuffered (after_drain again c d)
unfolding after_drain
after_drain_returns again ih c (command x rest) le = (_, _, refl, le)
after_drain_returns again ih c (invalid_utf8 rest) le = (_, _, refl, le)
after_drain_returns again ih c (no_line rest) le =
    elim (Bool-cases (leb buffer_size (length rest))) [
      | inl full ↦ rw full (_, _, refl, le)
      | inr fits ↦
          let room = buffer_size - length rest in
          rw fits (
            after_read_returns again ih (record c { conn = (read room c.conn).1 }) rest
              (read room c.conn).0 (λ bs e. omega (arith, read-room room c.conn bs e)) le)
    ]

read_loop_returns :
    (fuel : ℕ) (c : IrcServerConnection) → IsBuffered c → ReturnsBuffered (read_loop fuel c)
unfolding read_loop
read_loop_returns zero c h = (_, _, refl, h)
read_loop_returns (suc fuel) c h =
    let (d, e) = drain_lines_total (length c.read_buffer) c.read_buffer in
    rw e (
      after_drain_returns (read_loop fuel) (read_loop_returns fuel) c d
        (omega (arith, drain_lines-left (length c.read_buffer) c.read_buffer d e)))

-- If the read buffer holds at most 2048 bytes, `poll_read` returns without a panic and the buffer
-- holds at most 2048 bytes again.
pub poll_read_returns : (c : IrcServerConnection) → IsBuffered c → ReturnsBuffered (poll_read c)
unfolding poll_read
poll_read_returns c h = read_loop_returns (suc (read_measure c.conn.reads)) c h
