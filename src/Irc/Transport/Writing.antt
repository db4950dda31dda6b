-- ===== src/Irc/Transport/Writing.antt =====
-- The write side of the connection: the bytes that it has been given, in the order given.
use matrix_ircd.Prelude.{
  ℕ, zero, suc, ◌+◌, ◌-◌, ◌≤◌, ◌≡◌, refl, ap, ◌∙◌, inl, inr, List, [], ◌∷◌, ◌++◌, append_assoc,
  arith, ◌==◌, Bool-cases, length, length-append, take, drop, ==_iff,
}
use Prim.Native.Nat.{min}
use matrix_ircd.Prelude.{take-append-drop, length-drop}
use matrix_ircd.Text.{Str, is_empty}
use matrix_ircd.Text.Utf8.{Bytes, as_bytes}
use matrix_ircd.Irc.Socket.{
  Poll, WriteEvent, room_for, write_blocks, write_fails, FlushEvent, flushed, flush_blocks,
  flush_fails, flush,
}
use matrix_ircd.Irc.Transport.{
  IrcServerConnection, accept, unless_written, after_flush, flush_of, registered, write_loop,
  poll_write, buffer_line, write_line,
}

-- What the stream has taken, and what is still to be written.
unfoldable pub outbound : IrcServerConnection → Bytes
outbound c = c.conn.sent ++ drop c.position c.write_buffer

-- The cursor stands in the buffer.
abbrev pub IsWritable : IrcServerConnection → Type 0
IsWritable c = c.position ≤ length c.write_buffer

pub drop_nil : (k : ℕ) → drop {A = ℕ} k [] ≡ []
drop_nil zero = refl
drop_nil (suc k) = refl

take-nil : (k : ℕ) → take {A = ℕ} k [] ≡ []
take-nil zero = refl
take-nil (suc k) = refl

-- A write moves a piece of the buffer to the stream.
move_bytes : (p k : ℕ) (xs : Bytes) → take k (drop p xs) ++ drop (p + k) xs ≡ drop p xs
move_bytes zero k xs = let e : zero + k ≡ k = omega arith in rw e (take-append-drop k xs)
move_bytes (suc p) k [] =
    let e : suc p + k ≡ suc (p + k) = omega arith in rw e (ap (λ (t : Bytes). t ++ []) (take-nil k))
move_bytes (suc p) k (x ∷ xs) =
    let e : suc p + k ≡ suc (p + k) = omega arith in rw e (move_bytes p k xs)

drop_all : (p : ℕ) (xs : Bytes) → length xs ≤ p → drop p xs ≡ []
drop_all zero [] h = refl
drop_all zero (x ∷ xs) h = absurd (omega arith)
drop_all (suc p) [] h = refl
drop_all (suc p) (x ∷ xs) h = drop_all p xs (omega arith)

drop-append_of_le : (p : ℕ) (xs ys : Bytes) → p ≤ length xs → drop p (xs ++ ys) ≡ drop p xs ++ ys
drop-append_of_le zero xs ys h = refl
drop-append_of_le (suc p) [] ys h = absurd (omega arith)
drop-append_of_le (suc p) (x ∷ xs) ys h = drop-append_of_le p xs ys (omega arith)

-- What a round, and the loop, keep: the cursor in the buffer, the bytes and the read side.
pub record Keeps (c c' : IrcServerConnection) : Type 0 where
  pub writable : IsWritable c'
  pub same_outbound : outbound c' ≡ outbound c
  pub same_read_buffer : c'.read_buffer ≡ c.read_buffer
  pub same_reads : c'.conn.reads ≡ c.conn.reads
  pub same_closed : c'.closed ≡ c.closed
  pub same_server_name : c'.server_name ≡ c.server_name

Keeps-refl : (c : IrcServerConnection) → IsWritable c → Keeps c c
Keeps-refl c h = record {
  writable = h;
  same_outbound = refl;
  same_read_buffer = refl;
  same_reads = refl;
  same_closed = refl;
  same_server_name = refl;
}

Keeps-trans : {a b c : IrcServerConnection} → Keeps a b → Keeps b c → Keeps a c
Keeps-trans p q = record {
  writable = q.writable;
  same_outbound = q.same_outbound ∙ p.same_outbound;
  same_read_buffer = q.same_read_buffer ∙ p.same_read_buffer;
  same_reads = q.same_reads ∙ p.same_reads;
  same_closed = q.same_closed ∙ p.same_closed;
  same_server_name = q.same_server_name ∙ p.same_server_name;
}

outbound-accept :
    (c : IrcServerConnection) (n : ℕ) (ws : List WriteEvent) → outbound (accept c n ws) ≡ outbound c
unfolding outbound accept
outbound-accept c n ws =
    let k = min n (length (drop c.position c.write_buffer)) in
    rw append_assoc (ap (λ (t : Bytes). c.conn.sent ++ t) (move_bytes c.position k c.write_buffer))

accept-IsWritable :
    (c : IrcServerConnection) (n : ℕ) (ws : List WriteEvent)
    → IsWritable c
    → IsWritable (accept c n ws)
unfolding accept
accept-IsWritable c n ws h = omega (arith, length-drop c.position c.write_buffer)

Keeps-registered : (c : IrcServerConnection) → IsWritable c → Keeps c (registered c)
unfolding outbound
Keeps-registered c h = record {
  writable = h;
  same_outbound = refl;
  same_read_buffer = refl;
  same_reads = refl;
  same_closed = refl;
  same_server_name = refl;
}

Keeps-flush : (c : IrcServerConnection) → IsWritable c → Keeps c (flush_of c)
unfolding outbound flush
Keeps-flush c h = ground arith

Keeps-accept :
    (c : IrcServerConnection) (n : ℕ) (ws : List WriteEvent)
    → IsWritable c
    → Keeps c (accept c n ws)
Keeps-accept c n ws h = record {
  writable = accept-IsWritable c n ws h;
  same_outbound = outbound-accept c n ws;
  same_read_buffer = unfold accept in refl;
  same_reads = unfold accept in refl;
  same_closed = unfold accept in refl;
  same_server_name = unfold accept in refl;
}

Keeps-cleared :
    (c : IrcServerConnection)
    → IsWritable c
    → length c.write_buffer ≤ c.position
    → Keeps c (record c { write_buffer = []; position = 0 })
unfolding outbound
Keeps-cleared c h done = record {
  writable = omega arith;
  same_outbound = rw (drop_all c.position c.write_buffer done);
  same_read_buffer = refl;
  same_reads = refl;
  same_closed = refl;
  same_server_name = refl;
}

unless_written-Keeps :
    (c : IrcServerConnection) (go_on : Poll (Unit {0}) × IrcServerConnection)
    → IsWritable c
    → Keeps c go_on.1
    → Keeps c (unless_written c go_on).1
unfolding unless_written
unless_written-Keeps c go_on h k = elim (Bool-cases (is_empty c.write_buffer)) [
  | inl e ↦ rw (e, unless_written) (Keeps-refl c h)
  | inr e ↦ elim (Bool-cases (length c.write_buffer - c.position == 0)) [
    | inl d ↦
        rw (e, d, unless_written)
          (Keeps-cleared c h (omega (arith, (==_iff (length c.write_buffer - c.position) 0).0 d)))
    | inr d ↦ rw (e, d, unless_written) k
  ]
]

after_flush-Keeps :
    (c d : IrcServerConnection) (f : FlushEvent) (again : Poll (Unit {0}) × IrcServerConnection)
    → Keeps c again.1
    → Keeps c d
    → Keeps c (after_flush f again d).1
unfolding after_flush
after_flush-Keeps c d flushed again k l = k
after_flush-Keeps c d flush_blocks again k l = l
after_flush-Keeps c d (flush_fails e) again k l = l

Keeps-spent :
    (c : IrcServerConnection) (ws : List WriteEvent)
    → IsWritable c
    → Keeps c (record c { conn = record c.conn { writes = ws } })
unfolding outbound
Keeps-spent c ws h = record {
  writable = h;
  same_outbound = refl;
  same_read_buffer = refl;
  same_reads = refl;
  same_closed = refl;
  same_server_name = refl;
}

write_loop-Keeps :
    (ws : List WriteEvent) (c : IrcServerConnection)
    → IsWritable c
    → Keeps (registered c) (write_loop ws c).1
unfolding write_loop
write_loop-Keeps [] c h = unless_written-Keeps (registered c) _ h (Keeps-refl (registered c) h)
write_loop-Keeps (write_blocks ∷ ws) c h =
    unless_written-Keeps (registered c) _ h (Keeps-spent (registered c) ws h)
write_loop-Keeps (write_fails e ∷ ws) c h =
    unless_written-Keeps (registered c) _ h (Keeps-spent (registered c) ws h)
write_loop-Keeps (room_for n ∷ ws) c h =
    let written = accept (registered c) n ws in
    let k = Keeps-accept (registered c) n ws h in
    let k' = Keeps-trans k (Keeps-flush written k.writable) in
    let next =
      Keeps-trans (Keeps-registered (flush_of written) k'.writable)
        (write_loop-Keeps ws (flush_of written) k'.writable) in
    unless_written-Keeps (registered c) _ h (
      after_flush-Keeps (registered c) (flush_of written) (flush written.conn).0
        (write_loop ws (flush_of written)) (Keeps-trans k' next) k')

-- If the write position is within the buffer, it is so behind `poll_write`, and the bytes sent or
-- waiting to be sent, the read buffer, what is to arrive, the closed flag and the server's name
-- stay as they are, whatever the stream answers.
pub poll_write-Keeps : (c : IrcServerConnection) → IsWritable c → Keeps c (poll_write c).1
unfolding poll_write
poll_write-Keeps c h = Keeps-trans (Keeps-registered c h) (write_loop-Keeps c.conn.writes c h)

pub write_line-Keeps :
    (c : IrcServerConnection) (line : Str)
    → IsWritable c
    → Keeps (buffer_line c line) (write_line c line)
unfolding write_line
write_line-Keeps c line h =
    let l = as_bytes line ++ b'\n' ∷ [] in
    poll_write-Keeps (buffer_line c line)
      (unfold buffer_line in omega (arith, length-append c.write_buffer l))

-- If the write position is within the buffer, it is so behind `write_line`, and the bytes sent or
-- waiting to be sent are those of before and then the line and a line feed, whatever the stream
-- answers.
pub outbound-write_line :
    (c : IrcServerConnection) (line : Str)
    → IsWritable c
    → IsWritable (write_line c line)
      × (outbound (write_line c line) ≡ outbound c ++ (as_bytes line ++ b'\n' ∷ []))
outbound-write_line c line h =
    let k = write_line-Keeps c line h in
    let l = as_bytes line ++ b'\n' ∷ [] in
    (
      k.writable,
      k.same_outbound
          ∙ unfold outbound buffer_line in
            (rw (drop-append_of_le c.position c.write_buffer l h, append_assoc)),
    )
