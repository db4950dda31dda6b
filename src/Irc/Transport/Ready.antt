-- ===== src/Irc/Transport/Ready.antt =====
-- src/irc/transport.rs: `poll_write` where it is ready.
use matrix_ircd.Prelude.{◌≡◌, sym, ◌∙◌, List, [], ◌∷◌, append-nil, arith}
use matrix_ircd.Text.{is_empty}
use matrix_ircd.Irc.Socket.{
  Poll, ready, WriteEvent, room_for, write_blocks, write_fails, FlushEvent, flushed, flush_blocks,
  flush_fails, flush,
}
use matrix_ircd.Irc.Transport.{
  IrcServerConnection, accept, unless_written, after_flush, flush_of, registered, write_loop,
  poll_write,
}
use matrix_ircd.Irc.Transport.Writing.{outbound, IsWritable, drop_nil, poll_write-Keeps}

-- A loop that is ready leaves nothing buffered.
abbrev ReadyEmpty : Poll (Unit {0}) × IrcServerConnection → Type 0
ReadyEmpty r = r.0 ≡ ready tt → r.1.write_buffer ≡ []

unless_written-ReadyEmpty :
    (c : IrcServerConnection) (go_on : Poll (Unit {0}) × IrcServerConnection)
    → ReadyEmpty go_on
    → ReadyEmpty (unless_written c go_on)
unfolding unless_written is_empty
unless_written-ReadyEmpty c go_on h r = ground arith

after_flush-ReadyEmpty :
    (d : IrcServerConnection) (f : FlushEvent) (again : Poll (Unit {0}) × IrcServerConnection)
    → ReadyEmpty again
    → ReadyEmpty (after_flush f again d)
unfolding after_flush
after_flush-ReadyEmpty d flushed again h = h
after_flush-ReadyEmpty d flush_blocks again h = λ r. cc
after_flush-ReadyEmpty d (flush_fails e) again h = λ r. cc

write_loop-ReadyEmpty :
    (ws : List WriteEvent) (c : IrcServerConnection) → ReadyEmpty (write_loop ws c)
unfolding write_loop
write_loop-ReadyEmpty [] c = unless_written-ReadyEmpty (registered c) _ (λ r. cc)
write_loop-ReadyEmpty (write_blocks ∷ ws) c = unless_written-ReadyEmpty (registered c) _ (λ r. cc)
write_loop-ReadyEmpty (write_fails e ∷ ws) c = unless_written-ReadyEmpty (registered c) _ (λ r. cc)
write_loop-ReadyEmpty (room_for n ∷ ws) c =
    let written = accept (registered c) n ws in
    unless_written-ReadyEmpty (registered c) _ (
      after_flush-ReadyEmpty (flush_of written) (flush written.conn).0
        (write_loop ws (flush_of written)) (write_loop-ReadyEmpty ws (flush_of written)))

outbound_of_empty : (c : IrcServerConnection) → c.write_buffer ≡ [] → outbound c ≡ c.conn.sent
unfolding outbound
outbound_of_empty c h = rw (h, drop_nil c.position, append-nil)

-- If the write position is within the buffer and `poll_write` is ready, then the stream has taken
-- all the bytes that were sent or waiting to be sent.
pub poll_write_ready :
    (c : IrcServerConnection)
    → IsWritable c
    → (poll_write c).0 ≡ ready tt
    → (poll_write c).1.conn.sent ≡ outbound c
poll_write_ready c h r =
    let c' = (poll_write c).1 in
    sym (outbound_of_empty c' (unfold poll_write in write_loop-ReadyEmpty c.conn.writes c r))
    ∙ (poll_write-Keeps c h).same_outbound
