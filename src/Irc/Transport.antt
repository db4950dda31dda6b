-- ===== src/Irc/Transport.antt =====
-- src/irc/transport.rs: `IrcServerConnection`, which splits the bytes of a stream into IRC commands
-- and buffers the lines written to it. The two halves of `IrcServerConnectionInner` are fields of
-- the connection: the lock around them is held by one task. Of the registered task only its
-- presence is kept, and nothing is logged.
pub mod Writing
pub mod Ready
pub mod Drain
pub mod Reading
pub mod Bounds
pub mod Waits
pub mod ReadSide
pub mod Lines
use matrix_ircd.Prelude.{
  ℕ, zero, suc, ◌+◌, ◌-◌, ◌*◌, ◌/◌, ◌%◌, ◌<◌, ◌≤◌, ◌≡◌, refl, sym, ap, ap₂, subst, ◌∙◌, ◌≡⟨◌⟩◌, ◌∎,
  Bool, true, false, ◌&&◌, ◌||◌, not, ◌≢◌, ◌↔◌, ◌⊎◌, inl, inr, Option, none, some, List, [], ◌∷◌,
  ◌++◌, map, append-nil, append_assoc, arith, leb, ltb, ◌==◌, if◌then◌else◌, Bool-cases,
  Option-cases, length, length-append, get_elem?, take, drop, String, ==_iff,
}
use mathlib.Core.List.{reverse}
use Prim.Native.Nat.{min}
use matrix_ircd.Prelude.{replicate, Outcome, returns, panics, ◌>>=◌}
use matrix_ircd.Text.{Str, codes, trim_end, trim, is_empty}
use matrix_ircd.Text.Utf8.{Bytes, as_bytes, from_utf8}
use matrix_ircd.Irc.Protocol.Numeric.{
  Numeric, as_str, rpl_welcome, rpl_motdstart, rpl_motd, rpl_endofmotd, rpl_topic, rpl_namreply,
  rpl_endofnames, err_needmoreparams, err_passwdmismatch,
}
use matrix_ircd.Irc.Protocol.IrcCommand.{IrcCommand, from_str}
use matrix_ircd.Irc.Socket.{
  IoError, invalid_data, Poll, ready, not_ready, failed, ReadEvent, arrives, read_blocks,
  read_fails, WriteEvent, room_for, write_blocks, write_fails, FlushEvent, flushed, flush_blocks,
  flush_fails, Socket, read, read_measure, flush,
}

pub record IrcServerConnection : Type 0 where
  pub conn : Socket
  pub read_buffer : Bytes
  pub write_buffer : Bytes
  pub position : ℕ
  pub write_notify : Bool
  pub closed : Bool
  pub server_name : Str

unfoldable pub new : Socket → Str → IrcServerConnection
new conn server_name = record {
  conn = conn;
  read_buffer = [];
  write_buffer = [];
  position = 0;
  write_notify = false;
  closed = false;
  server_name = server_name;
}

-- The bytes accepted by `write`, and the state that it leaves.
accept : IrcServerConnection → ℕ → List WriteEvent → IrcServerConnection
accept c n ws =
    let to_write = drop c.position c.write_buffer in
    let bytes_written = min n (length to_write) in
    record c {
      conn = record c.conn { writes = ws; sent = c.conn.sent ++ take bytes_written to_write };
      position = c.position + bytes_written;
    }

-- A round's tests of the buffer: nothing buffered, or all of it written, ends the loop.
-- `len - pos` is exact, since the position does not pass the end of the buffer.
unless_written :
    IrcServerConnection
    → Poll (Unit {0}) × IrcServerConnection
    → Poll (Unit {0}) × IrcServerConnection
unless_written c go_on =
    if is_empty c.write_buffer
    then (ready tt, c)
    else if length c.write_buffer - c.position == 0
    then (ready tt, record c { write_buffer = []; position = 0 })
    else go_on

-- `task::current()` is registered.
abbrev registered : IrcServerConnection → IrcServerConnection
registered c = record c { write_notify = true }

-- Behind `flush`: `again` is the next round.
after_flush :
    FlushEvent
    → Poll (Unit {0}) × IrcServerConnection
    → IrcServerConnection
    → Poll (Unit {0}) × IrcServerConnection
after_flush flushed again c = again
after_flush flush_blocks again c = (not_ready, c)
after_flush (flush_fails e) again c = (failed e, c)

-- The connection with the result of `flush` read.
abbrev flush_of : IrcServerConnection → IrcServerConnection
flush_of c = record c { conn = (flush c.conn).1 }

-- The loop of `poll_write`, one round for each result of `write`.
write_loop : List WriteEvent → IrcServerConnection → Poll (Unit {0}) × IrcServerConnection
unfolding accept unless_written flush is_empty after_flush
write_loop [] c = unless_written (registered c) (not_ready, registered c)
write_loop (room_for n ∷ ws) c =
    let written = accept (registered c) n ws in
    unless_written (registered c)
      (after_flush (flush written.conn).0 (write_loop ws (flush_of written)) (flush_of written))
write_loop (write_blocks ∷ ws) c =
    unless_written (registered c)
      (not_ready, record (registered c) { conn = record c.conn { writes = ws } })
write_loop (write_fails e ∷ ws) c =
    unless_written (registered c)
      (failed e, record (registered c) { conn = record c.conn { writes = ws } })

unfoldable pub poll_write : IrcServerConnection → Poll (Unit {0}) × IrcServerConnection
unfolding write_loop
poll_write c = write_loop c.conn.writes c

-- `extend_from_slice` and `push`; notifying the registered task changes no state.
pub buffer_line : IrcServerConnection → Str → IrcServerConnection
buffer_line c line = record c { write_buffer = c.write_buffer ++ (as_bytes line ++ b'\n' ∷ []) }

-- The result of `poll_write` is dropped.
unfoldable pub write_line : IrcServerConnection → Str → IrcServerConnection
unfolding buffer_line poll_write
write_line c line = (poll_write (buffer_line c line)).1

-- `format!(":{} {} {} {}", …)`.
unfoldable pub numeric_line : Str → Numeric → Str → Str → Str
unfolding as_str
numeric_line server_name numeric nick rest_of_line =
    b':' ∷ (server_name ++ b' ' ∷ (as_str numeric ++ b' ' ∷ (nick ++ b' ' ∷ rest_of_line)))

unfoldable pub write_numeric : IrcServerConnection → Numeric → Str → Str → IrcServerConnection
unfolding write_line numeric_line
write_numeric c numeric nick rest_of_line =
    write_line c (numeric_line c.server_name numeric nick rest_of_line)

unfoldable pub write_invalid_password : IrcServerConnection → Str → IrcServerConnection
write_invalid_password c nick = write_numeric c err_passwdmismatch nick (codes ":Invalid password")

unfoldable pub write_password_required : IrcServerConnection → Str → IrcServerConnection
write_password_required c nick =
    write_numeric c err_needmoreparams nick (codes "PASS :Password required")

unfoldable pub welcome : IrcServerConnection → Str → IrcServerConnection
welcome c₀ nick =
    let c₁ =
      write_numeric c₀ rpl_welcome nick (codes ":Welcome to the Matrix Internet Relay Network") in
    let motd_start = codes ":- " ++ (c₀.server_name ++ codes " Message of the day -") in
    let c₂ = write_numeric c₁ rpl_motdstart nick motd_start in
    let c₃ = write_numeric c₂ rpl_motd nick (codes ":-") in
    let c₄ = write_numeric c₃ rpl_motd nick (codes ":- This is a bridge into Matrix") in
    let c₅ = write_numeric c₄ rpl_motd nick (codes ":-") in
    write_numeric c₅ rpl_endofmotd nick (codes ":End of MOTD")

unfoldable pub write_join : IrcServerConnection → Str → Str → IrcServerConnection
write_join c nick channel = write_line c (b':' ∷ (nick ++ (codes " JOIN " ++ channel)))

unfoldable pub write_topic : IrcServerConnection → Str → Str → Str → IrcServerConnection
write_topic c nick channel topic = write_numeric c rpl_topic nick (channel ++ (codes " :" ++ topic))

-- `names.chunks(10)`, of a list of at most `fuel` chunks.
pub chunks : {A : Type 0} → ℕ → ℕ → List A → List (List A)
chunks zero n xs = []
chunks (suc fuel) n [] = []
chunks (suc fuel) n (x ∷ xs) = take n (x ∷ xs) ∷ chunks fuel n (drop n (x ∷ xs))

-- The names of one line, each behind `@` for an operator and before a space.
unfoldable pub name_list : List (Str × Bool) → Str
name_list [] = []
name_list ((nick, op) ∷ names) = (if op then b'@' ∷ [] else []) ++ (nick ++ b' ' ∷ name_list names)

unfoldable pub write_name_lines :
    IrcServerConnection → Str → Str → List (List (Str × Bool)) → IrcServerConnection
write_name_lines c nick channel [] = c
write_name_lines c nick channel (names ∷ rest) =
    let line = codes "@ " ++ (channel ++ (codes " :" ++ name_list names)) in
    write_name_lines (write_numeric c rpl_namreply nick (trim line)) nick channel rest

unfoldable pub write_names :
    IrcServerConnection → Str → Str → List (Str × Bool) → IrcServerConnection
write_names c nick channel names =
    write_numeric (write_name_lines c nick channel (chunks (length names) 10 names)) rpl_endofnames
      nick (channel ++ codes " :End of /NAMES")

-- `position(|&c| c == b'\n')` and `drain(..pos + 1)`: the first line with its newline, and the
-- bytes behind it.
unfoldable pub split_line : Bytes → Option (Bytes × Bytes)
split_line [] = none
split_line (b ∷ bs) =
    if b == b'\n'
    then some (b ∷ [], bs)
    else elim (split_line bs) [ none ↦ none | some (line, rest) ↦ some (b ∷ line, rest) ]

-- What the inner `while let` comes to: a command, bytes that are no text, or no further newline;
-- each with the buffer that is left.
pub data Drained : Type 0 where
  command : IrcCommand → Bytes → Drained
  invalid_utf8 : Bytes → Drained
  no_line : Bytes → Drained

-- What one line comes to: its text without the white space at its end is parsed.
pub data LineResult : Type 0 where
  is_command : IrcCommand → LineResult
  not_command not_text : LineResult

unfoldable pub read_line : Bytes → Outcome LineResult
unfolding from_utf8 trim_end from_str
read_line line = elim (from_utf8 line) [
  | none ↦ returns not_text
  | some text ↦ from_str (trim_end text) >>= λ parsed. elim parsed [
    | some irc_line ↦ returns (is_command irc_line)
    | none ↦ returns not_command
  ]
]

-- The inner `while let`, for at most `fuel` lines. A line that is no command is dropped.
unfoldable pub drain_lines : ℕ → Bytes → Outcome Drained
unfolding split_line read_line
drain_lines zero buffer = returns (no_line buffer)
drain_lines (suc fuel) buffer = elim (split_line buffer) [
  | none ↦ returns (no_line buffer)
  | some (line, rest) ↦ read_line line >>= λ result. elim result [
    | is_command irc_line ↦ returns (command irc_line rest)
    | not_command ↦ drain_lines fuel rest
    | not_text ↦ returns (invalid_utf8 rest)
  ]
]

abbrev pub utf8_error : IoError
utf8_error = record { kind = invalid_data; message = codes "Invalid UTF-8" }

abbrev pub too_long_error : IoError
too_long_error = record { kind = invalid_data; message = codes "Line too long" }

abbrev pub buffer_size : ℕ
buffer_size = 2048

abbrev with_buffer : IrcServerConnection → Bytes → IrcServerConnection
with_buffer c buffer = record c { read_buffer = buffer }

abbrev pub ReadResult : Type 0
ReadResult = Outcome (Poll IrcCommand × IrcServerConnection)

-- What follows a call of `read` that was made with `rest` in the buffer. The zeros that pad the
-- buffer for the call are cut off behind it, so the buffer grows by the bytes read; where `read`
-- fails the padding stays. `again` is the next round.
after_read :
    (IrcServerConnection → ReadResult) → IrcServerConnection → Bytes → ReadEvent → ReadResult
after_read again c rest (arrives []) =
    returns (not_ready, record c { read_buffer = rest; closed = true })
after_read again c rest (arrives (b ∷ bs)) = again (with_buffer c (rest ++ b ∷ bs))
after_read again c rest read_blocks = returns (not_ready, with_buffer c rest)
after_read again c rest (read_fails e) =
    returns (failed e, with_buffer c (rest ++ replicate (buffer_size - length rest) 0))

-- The round behind the inner loop.
after_drain : (IrcServerConnection → ReadResult) → IrcServerConnection → Drained → ReadResult
after_drain again c (command irc_line rest) = returns (ready irc_line, with_buffer c rest)
after_drain again c (invalid_utf8 rest) = returns (failed utf8_error, with_buffer c rest)
after_drain again c (no_line rest) =
    let start_len = length rest in
    let (event, conn) = read (buffer_size - start_len) c.conn in
    let more = after_read again (record c { conn = conn }) rest event in
    if leb buffer_size start_len then returns (failed too_long_error, with_buffer c rest) else more

-- The loop of `poll_read`, for at most `fuel` calls of `read`.
pub read_loop : ℕ → IrcServerConnection → ReadResult
unfolding drain_lines read after_drain after_read
read_loop zero c = returns (not_ready, c)
read_loop (suc fuel) c =
    drain_lines (length c.read_buffer) c.read_buffer >>= after_drain (read_loop fuel) c

unfoldable pub poll_read : IrcServerConnection → ReadResult
unfolding read_loop read_measure
poll_read c = read_loop (suc (read_measure c.conn.reads)) c

-- The end of `Stream::poll`, behind `poll_read`.
hand_on : Poll IrcCommand → IrcServerConnection → Poll (Option IrcCommand) × IrcServerConnection
hand_on (ready line) c = (ready (some line), c)
hand_on (failed e) c = (failed e, c)
hand_on not_ready c = if c.closed then (ready none, c) else (not_ready, c)

abbrev pub PollResult : Type 0
PollResult = Outcome (Poll (Option IrcCommand) × IrcServerConnection)

-- The rest of `Stream::poll`, behind `poll_write`, of which only an error counts.
read_on : Poll (Unit {0}) → IrcServerConnection → PollResult
unfolding poll_read hand_on
read_on (failed e) c = returns (failed e, c)
read_on not_ready c = poll_read c >>= λ r. returns (hand_on r.0 r.1)
read_on (ready _) c = poll_read c >>= λ r. returns (hand_on r.0 r.1)

-- `Stream::poll`.
unfoldable pub poll : IrcServerConnection → PollResult
unfolding poll_write read_on
poll c =
    if c.closed
    then returns (ready none, c)
    else let (written, c₁) = poll_write c in read_on written c₁
