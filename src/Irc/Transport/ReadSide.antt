-- ===== src/Irc/Transport/ReadSide.antt =====
-- src/irc/transport.rs: what writing and a command leave of the read side.
use matrix_ircd.Prelude.{
  Option, ◌-◌, ◌<◌, ◌≡◌, refl, ap, ap₂, ◌∙◌, inl, inr, none, some, List, [], ◌∷◌, ◌++◌, arith, ◌==◌,
  Bool, true, false, Bool-cases, length, if◌then◌else◌, returns, ◌>>=◌, >>=-eq-returns,
}
use matrix_ircd.Prelude.{List-cases, returns_injective}
use matrix_ircd.Text.{Str, is_empty}
use matrix_ircd.Text.Utf8.{Bytes}
use matrix_ircd.Irc.Protocol.IrcCommand.{IrcCommand}
use matrix_ircd.Irc.Socket.{
  Poll, ready, not_ready, failed, WriteEvent, room_for, write_blocks, write_fails, FlushEvent,
  flushed, flush_blocks, flush_fails, flush, arriving, Socket,
}
use matrix_ircd.Irc.Transport.{
  IrcServerConnection, accept, unless_written, after_flush, flush_of, registered, write_loop,
  poll_write, buffer_line, write_line, poll_read, poll, hand_on, read_on, PollResult,
}
use matrix_ircd.Irc.Transport.Drain.{drain_command-shorter}
use matrix_ircd.Irc.Transport.Bounds.{IsBuffered, poll_read_returns}
use matrix_ircd.Irc.Transport.Reading.{inbound, first_command, poll_read_lem}

-- The two connections have the same read side.
pub record SameReadSide (c c' : IrcServerConnection) : Type 0 where
  pub same_read_buffer : c'.read_buffer ≡ c.read_buffer
  pub same_reads : c'.conn.reads ≡ c.conn.reads

SameReadSide-refl : (c : IrcServerConnection) → SameReadSide c c
SameReadSide-refl c = record { same_read_buffer = refl; same_reads = refl }

pub SameReadSide-trans :
    {c d e : IrcServerConnection} → SameReadSide c d → SameReadSide d e → SameReadSide c e
SameReadSide-trans h k = record {
  same_read_buffer = k.same_read_buffer ∙ h.same_read_buffer;
  same_reads = k.same_reads ∙ h.same_reads;
}

abbrev WriteResult : Type 0
WriteResult = Poll (Unit {0}) × IrcServerConnection

unless_written-SameReadSide :
    (c : IrcServerConnection) (r : WriteResult)
    → SameReadSide c r.1
    → SameReadSide c (unless_written c r).1
unfolding unless_written
unless_written-SameReadSide c r h = elim (Bool-cases (is_empty c.write_buffer)) [
  | inl e ↦ rw e (SameReadSide-refl c)
  | inr e ↦ elim (Bool-cases (length c.write_buffer - c.position == 0)) [
    | inl e' ↦ rw (e, e') (record { same_read_buffer = refl; same_reads = refl })
    | inr e' ↦ rw (e, e') h
  ]
]

flush_keeps : (s : Socket) → (flush s).1.reads ≡ s.reads
unfolding flush
flush_keeps s = elim (List-cases s.flushes) [
  | inl e ↦ rw (flush, e) refl
  | inr (x, xs, e) ↦ rw (flush, e) refl
]

flush_of-SameReadSide : (c : IrcServerConnection) → SameReadSide c (flush_of c)
flush_of-SameReadSide c = record { same_read_buffer = refl; same_reads = flush_keeps c.conn }

after_flush-SameReadSide :
    (c : IrcServerConnection) (e : FlushEvent) (again : WriteResult) (d : IrcServerConnection)
    → SameReadSide c d
    → SameReadSide c again.1
    → SameReadSide c (after_flush e again d).1
unfolding after_flush
after_flush-SameReadSide c flushed again d h k = k
after_flush-SameReadSide c flush_blocks again d h k = h
after_flush-SameReadSide c (flush_fails e) again d h k = h

spent :
    (c : IrcServerConnection) (ws : List WriteEvent)
    → SameReadSide (registered c) (record (registered c) { conn = record c.conn { writes = ws } })
spent c ws = record { same_read_buffer = refl; same_reads = refl }

write_loop-SameReadSide :
    (ws : List WriteEvent) (c : IrcServerConnection) → SameReadSide c (write_loop ws c).1
unfolding write_loop accept
write_loop-SameReadSide [] c =
    let h =
      unless_written-SameReadSide (registered c) (not_ready, registered c)
        (SameReadSide-refl (registered c)) in
    record { same_read_buffer = h.same_read_buffer; same_reads = h.same_reads }
write_loop-SameReadSide (write_blocks ∷ ws) c =
    let h = unless_written-SameReadSide (registered c) _ (spent c ws) in
    record { same_read_buffer = h.same_read_buffer; same_reads = h.same_reads }
write_loop-SameReadSide (write_fails e ∷ ws) c =
    let h = unless_written-SameReadSide (registered c) _ (spent c ws) in
    record { same_read_buffer = h.same_read_buffer; same_reads = h.same_reads }
write_loop-SameReadSide (room_for n ∷ ws) c =
    let written = accept (registered c) n ws in
    let before : SameReadSide (registered c) written = record {
      same_read_buffer = refl;
      same_reads = refl;
    } in
    let behind = SameReadSide-trans before (flush_of-SameReadSide written) in
    let h = unless_written-SameReadSide (registered c) _ (
      after_flush-SameReadSide (registered c) (flush written.conn).0
        (write_loop ws (flush_of written)) (flush_of written) behind
        (SameReadSide-trans behind (write_loop-SameReadSide ws (flush_of written)))) in
    record { same_read_buffer = h.same_read_buffer; same_reads = h.same_reads }

pub poll_write-SameReadSide : (c : IrcServerConnection) → SameReadSide c (poll_write c).1
unfolding poll_write
poll_write-SameReadSide c = write_loop-SameReadSide c.conn.writes c

pub write_line-SameReadSide :
    (c : IrcServerConnection) (line : Str) → SameReadSide c (write_line c line)
unfolding write_line buffer_line
write_line-SameReadSide c line =
    let h = poll_write-SameReadSide (buffer_line c line) in
    record { same_read_buffer = h.same_read_buffer; same_reads = h.same_reads }

pub inbound-SameReadSide : (c c' : IrcServerConnection) → SameReadSide c c' → inbound c' ≡ inbound c
unfolding inbound
inbound-SameReadSide c c' h =
    ap₂ (λ (b : Bytes) rs. b ++ arriving rs) h.same_read_buffer h.same_reads

pub write_line-inbound :
    (c : IrcServerConnection) (line : Str) → inbound (write_line c line) ≡ inbound c
write_line-inbound c line = inbound-SameReadSide c _ (write_line-SameReadSide c line)

pub poll_read-shorter :
    (c c' : IrcServerConnection) (cmd : IrcCommand)
    → poll_read c ≡ returns (ready cmd, c')
    → length (inbound c') < length (inbound c)
unfolding first_command
poll_read-shorter c c' cmd h =
    drain_command-shorter (length (inbound c)) (inbound c) cmd (inbound c')
      (poll_read_lem c c' cmd h)

hand_on-ready :
    (p : Poll IrcCommand) (c c' : IrcServerConnection) (cmd : IrcCommand)
    → hand_on p c ≡ (ready (some cmd), c')
    → (p ≡ ready cmd) × (c ≡ c')
unfolding hand_on
hand_on-ready (ready line) c c' cmd h = (ground arith, ap (λ r. r.1) h)
hand_on-ready (failed e) c c' cmd h = absurd (let p = ap (λ r. r.0) h in cc)
hand_on-ready not_ready c c' cmd h = absurd (ground arith)

poll_read_then :
    (c c' : IrcServerConnection) (cmd : IrcCommand)
    → (poll_read c >>= λ r. returns (hand_on r.0 r.1)) ≡ returns (ready (some cmd), c')
    → length (inbound c') < length (inbound c)
poll_read_then c c' cmd h =
    let (r, e, k) = >>=-eq-returns (poll_read c) (λ r. returns (hand_on r.0 r.1)) h in
    let (is_ready, same_conn) = hand_on-ready r.0 r.1 c' cmd (returns_injective k) in
    poll_read-shorter c c' cmd (e ∙ ap₂ (λ p d. returns (p, d)) is_ready same_conn)

read_on-shorter :
    (w : Poll (Unit {0})) (c c' : IrcServerConnection) (cmd : IrcCommand)
    → read_on w c ≡ returns (ready (some cmd), c')
    → length (inbound c') < length (inbound c)
unfolding read_on
read_on-shorter (failed e) c c' cmd h = absurd (let p = ap (λ r. r.0) (returns_injective h) in cc)
read_on-shorter not_ready c c' cmd h = poll_read_then c c' cmd h
read_on-shorter (ready _) c c' cmd h = poll_read_then c c' cmd h

none_polled :
    (c c' : IrcServerConnection) (cmd : IrcCommand)
    → ¬ (◌≡◌ {A = PollResult} (returns (ready none, c)) (returns (ready (some cmd), c')))
none_polled c c' cmd h = let p = ap (λ r. r.0) (returns_injective h) in cc

poll_unless_closed :
    (closed : Bool) (c c' : IrcServerConnection) (cmd : IrcCommand)
    → (if closed then returns (ready none, c) else read_on (poll_write c).0 (poll_write c).1)
      ≡ returns (ready (some cmd), c')
    → length (inbound c') < length (inbound c)
poll_unless_closed true c c' cmd h = absurd (none_polled c c' cmd h)
poll_unless_closed false c c' cmd h =
    let (written, c₁) = poll_write c in
    let less = read_on-shorter written c₁ c' cmd h in
    omega
      (arith, ap (λ (b : Bytes). length b) (inbound-SameReadSide c _ (poll_write-SameReadSide c)))

-- A command that `Stream::poll` gives leaves fewer bytes to come.
pub poll-shorter :
    (c c' : IrcServerConnection) (cmd : IrcCommand)
    → poll c ≡ returns (ready (some cmd), c')
    → length (inbound c') < length (inbound c)
unfolding poll
poll-shorter c c' cmd h = poll_unless_closed c.closed c c' cmd h

-- It returns, with a buffer within its bound.
abbrev pub PollReturns : PollResult → Type 0
PollReturns r =
    (p : Poll (Option IrcCommand)) × (c : IrcServerConnection) × (r ≡ returns (p, c)) × IsBuffered c

hand_on-IsBuffered :
    (p : Poll IrcCommand) (c : IrcServerConnection) → IsBuffered c → IsBuffered (hand_on p c).1
unfolding hand_on
hand_on-IsBuffered (ready line) c h = h
hand_on-IsBuffered (failed e) c h = h
hand_on-IsBuffered not_ready c h = ground arith

poll_read_then_returns :
    (c : IrcServerConnection)
    → IsBuffered c
    → PollReturns (poll_read c >>= λ r. returns (hand_on r.0 r.1))
poll_read_then_returns c h =
    let (p, c', e, k) = poll_read_returns c h in
    rw e ((hand_on p c').0, (hand_on p c').1, refl, hand_on-IsBuffered p c' k)

read_on_returns :
    (w : Poll (Unit {0})) (c : IrcServerConnection) → IsBuffered c → PollReturns (read_on w c)
unfolding read_on
read_on_returns (failed e) c h = (failed e, c, refl, h)
read_on_returns not_ready c h = poll_read_then_returns c h
read_on_returns (ready _) c h = poll_read_then_returns c h

unless_closed_returns :
    (closed : Bool) (c : IrcServerConnection)
    → IsBuffered c
    → PollReturns
        (if closed then returns (ready none, c) else read_on (poll_write c).0 (poll_write c).1)
unless_closed_returns true c h = (ready none, c, refl, h)
unless_closed_returns false c h =
    let (written, c₁) = poll_write c in
    let same = poll_write-SameReadSide c in
    read_on_returns written c₁
      (omega (arith, ap (λ (b : Bytes). length b) same.same_read_buffer, h))

-- If the read buffer is within its bound, `Stream::poll` returns without a panic and the buffer is
-- within its bound again.
pub poll_returns : (c : IrcServerConnection) → IsBuffered c → PollReturns (poll c)
unfolding poll
poll_returns c h = unless_closed_returns c.closed c h
