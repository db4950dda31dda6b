-- ===== src/Irc/Transport/Reading.antt =====
-- The read side of the connection: the commands of the stream, however its bytes are cut up.
use matrix_ircd.Prelude.{
  ℕ, zero, suc, ◌+◌, ◌-◌, ◌<◌, ◌≤◌, ◌≡◌, refl, sym, ap, ◌∙◌, inl, inr, List, [], ◌∷◌, ◌++◌,
  append_assoc, arith, leb, Bool-cases, length, length-append, take, drop,
}
use matrix_ircd.Prelude.{Outcome, returns, take-append-drop, length-take, length-drop}
use matrix_ircd.Text.Utf8.{Bytes}
use matrix_ircd.Irc.Socket.{
  ready, ReadEvent, arrives, read_blocks, read_fails, Socket, arriving, read_measure, push_back,
  next_read, read,
}
use matrix_ircd.Irc.Protocol.IrcCommand.{IrcCommand}
use matrix_ircd.Irc.Transport.{
  IrcServerConnection, Drained, command, invalid_utf8, no_line, drain_lines, read_loop, after_read,
  after_drain, poll_read, buffer_size, ReadResult,
}
use matrix_ircd.Irc.Transport.Drain.{drain_lines_total, drain_command-append, drain_no_line-append}

-- The bytes read and not yet used, and those still to arrive.
unfoldable pub inbound : IrcServerConnection → Bytes
inbound c = c.read_buffer ++ arriving c.conn.reads

-- What the first lines of a text of bytes come to.
unfoldable pub first_command : Bytes → Outcome Drained
first_command b = drain_lines (length b) b

arriving-push_back :
    (bs : Bytes) (rs : List ReadEvent) → arriving (push_back bs rs) ≡ bs ++ arriving rs
unfolding arriving push_back
arriving-push_back [] rs = refl
arriving-push_back (b ∷ bs) rs = refl

-- What a call of `read` delivers is the front of what was to arrive.
next_read_delivers :
    (room : ℕ) (rs : List ReadEvent) (bs : Bytes)
    → (next_read room rs).0 ≡ arrives bs
    → arriving rs ≡ bs ++ arriving (next_read room rs).1
unfolding next_read arriving
next_read_delivers room [] bs h = cc
next_read_delivers room (read_blocks ∷ rs) bs h = cc
next_read_delivers room (read_fails e ∷ rs) bs h = cc
next_read_delivers room (arrives xs ∷ rs) bs h =
    let e : take room xs ≡ bs = cc in rw (← e, arriving-push_back, ← append_assoc, take-append-drop)

-- A call delivers no more than it has room for.
next_read_room :
    (room : ℕ) (rs : List ReadEvent) (bs : Bytes)
    → (next_read room rs).0 ≡ arrives bs
    → length bs ≤ room
unfolding next_read
next_read_room room [] bs h = cc
next_read_room room (read_blocks ∷ rs) bs h = cc
next_read_room room (read_fails e ∷ rs) bs h = cc
next_read_room room (arrives xs ∷ rs) bs h =
    let e : take room xs ≡ bs = cc in
    omega (arith, length-take room xs, ap (λ (t : Bytes). length t) e)

read_measure-push_back :
    (bs : Bytes) (rs : List ReadEvent)
    → read_measure (push_back bs rs) ≤ suc (length bs + read_measure rs)
unfolding read_measure push_back
read_measure-push_back [] rs = omega arith
read_measure-push_back (b ∷ bs) rs = omega arith

-- A call that delivers a byte leaves less to deliver.
next_read_smaller :
    (room : ℕ) (rs : List ReadEvent) (b : ℕ) (bs : Bytes)
    → (next_read room rs).0 ≡ arrives (b ∷ bs)
    → read_measure (next_read room rs).1 < read_measure rs
unfolding next_read read_measure
next_read_smaller room [] b bs h = cc
next_read_smaller room (read_blocks ∷ rs) b bs h = cc
next_read_smaller room (read_fails e ∷ rs) b bs h = cc
next_read_smaller zero (arrives xs ∷ rs) b bs h = cc
next_read_smaller (suc room) (arrives [] ∷ rs) b bs h = cc
next_read_smaller (suc room) (arrives (x ∷ xs) ∷ rs) b bs h =
    omega (arith, read_measure-push_back (drop room xs) rs, length-drop room xs)

module _ (room : ℕ) (s : Socket) where
  pub read-room : (bs : Bytes) → (read room s).0 ≡ arrives bs → length bs ≤ room
  unfolding read
  read-room bs h = next_read_room room s.reads bs h

  pub read_delivers :
      (bs : Bytes)
      → (read room s).0 ≡ arrives bs
      → arriving s.reads ≡ bs ++ arriving (read room s).1.reads
  unfolding read
  read_delivers bs h = next_read_delivers room s.reads bs h

  pub read_smaller :
      (b : ℕ) (bs : Bytes)
      → (read room s).0 ≡ arrives (b ∷ bs)
      → read_measure (read room s).1.reads < read_measure s.reads
  unfolding read
  read_smaller b bs h = next_read_smaller room s.reads b bs h

-- `c'` follows from `c` by reading the command.
abbrev Reads : IrcServerConnection → ReadResult → Type 0
Reads c r =
    (cmd : IrcCommand) (c' : IrcServerConnection)
    → r ≡ returns (ready cmd, c')
    → first_command (inbound c) ≡ returns (command cmd (inbound c'))

inbound_moves :
    (c : IrcServerConnection) (rest bs : Bytes) (conn : Socket)
    → arriving c.conn.reads ≡ bs ++ arriving conn.reads
    → inbound (record c { read_buffer = rest })
      ≡ inbound (record c { conn = conn; read_buffer = rest ++ bs })
unfolding inbound
inbound_moves c rest bs conn e =
    ap (λ (t : Bytes). rest ++ t) e ∙ sym (append_assoc rest bs (arriving conn.reads))

after_read-Reads :
    (again : IrcServerConnection → ReadResult)
    → ((c : IrcServerConnection) → Reads c (again c))
    → (c : IrcServerConnection) (rest : Bytes) (event : ReadEvent) (conn : Socket)
    → ((bs : Bytes) → event ≡ arrives bs → arriving c.conn.reads ≡ bs ++ arriving conn.reads)
    → Reads
        (record c { read_buffer = rest })
        (after_read again (record c { conn = conn }) rest event)
unfolding after_read
after_read-Reads again ih c rest (arrives []) conn d cmd c' h = cc
after_read-Reads again ih c rest read_blocks conn d cmd c' h = cc
after_read-Reads again ih c rest (read_fails e) conn d cmd c' h = cc
after_read-Reads again ih c rest (arrives (b ∷ bs)) conn d cmd c' h =
    ap first_command (inbound_moves c rest (b ∷ bs) conn (d (b ∷ bs) refl))
    ∙ ih (record c { conn = conn; read_buffer = rest ++ b ∷ bs }) cmd c' h

-- A command found in the buffer is the first of all that is to come.
first_command_found :
    (c : IrcServerConnection) (x : IrcCommand) (rest : Bytes)
    → drain_lines (length c.read_buffer) c.read_buffer ≡ returns (command x rest)
    → first_command (inbound c) ≡ returns (command x (inbound (record c { read_buffer = rest })))
unfolding first_command inbound
first_command_found c x rest e =
    let more = arriving c.conn.reads in
    drain_command-append (length c.read_buffer) (length (c.read_buffer ++ more)) c.read_buffer more
      x rest (omega (arith, length-append c.read_buffer more)) e

-- Without one in the buffer, the search goes on from what is left of it.
first_command_later :
    (c : IrcServerConnection) (rest : Bytes)
    → drain_lines (length c.read_buffer) c.read_buffer ≡ returns (no_line rest)
    → first_command (inbound c) ≡ first_command (inbound (record c { read_buffer = rest }))
unfolding first_command inbound
first_command_later c rest e =
    let more = arriving c.conn.reads in
    drain_no_line-append (length c.read_buffer) (length (c.read_buffer ++ more))
      (length (rest ++ more)) c.read_buffer more rest (omega arith)
      (omega (arith, length-append c.read_buffer more)) (omega (arith, length-append rest more)) e

after_drain-Reads :
    (again : IrcServerConnection → ReadResult)
    → ((c : IrcServerConnection) → Reads c (again c))
    → (c : IrcServerConnection) (d : Drained)
    → drain_lines (length c.read_buffer) c.read_buffer ≡ returns d
    → Reads c (after_drain again c d)
unfolding after_drain
after_drain-Reads again ih c (command x rest) e cmd c' h =
    ground (arith, first_command_found c x rest e)
after_drain-Reads again ih c (invalid_utf8 rest) e cmd c' h = cc
after_drain-Reads again ih c (no_line rest) e cmd c' h =
    elim (Bool-cases (leb buffer_size (length rest))) [
      | inl full ↦ absurd (ground arith)
      | inr fits ↦
          let room = buffer_size - length rest in
          first_command_later c rest e
          ∙ after_read-Reads again ih c rest (read room c.conn).0 (read room c.conn).1
              (unfold read in next_read_delivers room c.conn.reads) cmd c' (rw fits at h)
    ]

read_loop-Reads : (fuel : ℕ) (c : IrcServerConnection) → Reads c (read_loop fuel c)
unfolding read_loop
read_loop-Reads zero c cmd c' h = cc
read_loop-Reads (suc fuel) c cmd c' h =
    let (d, e) = drain_lines_total (length c.read_buffer) c.read_buffer in
    after_drain-Reads (read_loop fuel) (read_loop-Reads fuel) c d e cmd c' (rw e at h)

-- If `poll_read` returns a command, it is the first command of the bytes in the buffer and those
-- still to arrive, taken as one text, and the bytes behind its line are what is left, in the buffer
-- and still to arrive. So how the stream cuts its bytes up makes no difference.
pub poll_read_lem :
    (c c' : IrcServerConnection) (cmd : IrcCommand)
    → poll_read c ≡ returns (ready cmd, c')
    → first_command (inbound c) ≡ returns (command cmd (inbound c'))
unfolding poll_read
poll_read_lem c c' cmd h = read_loop-Reads (suc (read_measure c.conn.reads)) c cmd c' h
