-- ===== src/Irc/Transport/Lines.antt =====
-- The writing operations as the lines that they add to what the connection has been given.
use matrix_ircd.Prelude.{
  ℕ, zero, suc, ◌<◌, ◌≤◌, ◌≡◌, refl, sym, ap, subst, ◌∙◌, Bool, List, [], ◌∷◌, ◌++◌, append-nil,
  append_assoc, arith, length, take, drop,
}
use matrix_ircd.Prelude.{length-drop, length-take, take-append-drop}
use matrix_ircd.Text.{Str, codes, trim}
use matrix_ircd.Text.Utf8.{Bytes, as_bytes}
use matrix_ircd.Irc.Protocol.Numeric.{
  Numeric, rpl_welcome, rpl_motdstart, rpl_motd, rpl_endofmotd, rpl_topic, rpl_namreply,
  rpl_endofnames,
}
use matrix_ircd.Irc.Transport.{
  IrcServerConnection, buffer_line, write_line, numeric_line, write_numeric, welcome, write_join,
  write_topic, chunks, name_list, write_name_lines, write_names,
}
use matrix_ircd.Irc.Transport.Writing.{outbound, IsWritable, write_line-Keeps, outbound-write_line}

abbrev pub lines_bytes : List Str → Bytes
lines_bytes [] = []
lines_bytes (l ∷ ls) = (as_bytes l ++ b'\n' ∷ []) ++ lines_bytes ls

lines_bytes-append : (ls ms : List Str) → lines_bytes (ls ++ ms) ≡ lines_bytes ls ++ lines_bytes ms
lines_bytes-append [] ms = refl
lines_bytes-append (l ∷ ls) ms = simp (lines_bytes-append ls ms, append_assoc)

-- `c'` is `c` with these lines written, and with the same read side.
pub record Writes (c : IrcServerConnection) (ls : List Str) (c' : IrcServerConnection)
    : Type 0 where
  pub writable : IsWritable c'
  pub adds : outbound c' ≡ outbound c ++ lines_bytes ls
  pub same_read_buffer : c'.read_buffer ≡ c.read_buffer
  pub same_reads : c'.conn.reads ≡ c.conn.reads
  pub same_closed : c'.closed ≡ c.closed
  pub same_server_name : c'.server_name ≡ c.server_name

pub Writes-refl : (c : IrcServerConnection) → IsWritable c → Writes c [] c
Writes-refl c h = record {
  writable = h;
  adds = sym (append-nil (outbound c));
  same_read_buffer = refl;
  same_reads = refl;
  same_closed = refl;
  same_server_name = refl;
}

pub Writes-trans :
    {a b c : IrcServerConnection} {ls ms : List Str}
    → Writes a ls b
    → Writes b ms c
    → Writes a (ls ++ ms) c
Writes-trans {a} {ls = ls} {ms = ms} p q = record {
  writable = q.writable;
  adds =
      q.adds
      ∙ ap (λ (t : Bytes). t ++ lines_bytes ms) p.adds
      ∙ append_assoc (outbound a) (lines_bytes ls) (lines_bytes ms)
      ∙ ap (λ (t : Bytes). outbound a ++ t) (sym (lines_bytes-append ls ms));
  same_read_buffer = q.same_read_buffer ∙ p.same_read_buffer;
  same_reads = q.same_reads ∙ p.same_reads;
  same_closed = q.same_closed ∙ p.same_closed;
  same_server_name = q.same_server_name ∙ p.same_server_name;
}

pub Writes-write_line :
    (c : IrcServerConnection) (line : Str) → IsWritable c → Writes c (line ∷ []) (write_line c line)
Writes-write_line c line h =
    let (w, e) = outbound-write_line c line h in
    let k = write_line-Keeps c line h in
    record {
      writable = w;
      adds =
          e ∙ ap (λ (t : Bytes). outbound c ++ t) (sym (append-nil (as_bytes line ++ b'\n' ∷ [])));
      same_read_buffer = unfold buffer_line in k.same_read_buffer;
      same_reads = unfold buffer_line in k.same_reads;
      same_closed = unfold buffer_line in k.same_closed;
      same_server_name = unfold buffer_line in k.same_server_name;
    }

pub Writes-write_numeric :
    (c : IrcServerConnection) (n : Numeric) (nick rest : Str)
    → IsWritable c
    → Writes c (numeric_line c.server_name n nick rest ∷ []) (write_numeric c n nick rest)
unfolding write_numeric
Writes-write_numeric c n nick rest h =
    Writes-write_line c (numeric_line c.server_name n nick rest) h

-- The lines of the greeting.
abbrev pub welcome_lines : Str → Str → List Str
welcome_lines server nick =
    numeric_line server rpl_welcome nick (codes ":Welcome to the Matrix Internet Relay Network")
    ∷ numeric_line server rpl_motdstart nick
        (codes ":- " ++ (server ++ codes " Message of the day -"))
    ∷ numeric_line server rpl_motd nick (codes ":-")
    ∷ numeric_line server rpl_motd nick (codes ":- This is a bridge into Matrix")
    ∷ numeric_line server rpl_motd nick (codes ":-")
    ∷ numeric_line server rpl_endofmotd nick (codes ":End of MOTD")
    ∷ []

-- One operation after another, where the lines of the second depend on the server's name.
pub Writes-then :
    {a c d : IrcServerConnection} {ls : List Str} (ms : Str → List Str)
    → Writes a ls c
    → (IsWritable c → Writes c (ms c.server_name) d)
    → Writes a (ls ++ ms a.server_name) d
Writes-then {c = c} {d = d} ms w k =
    Writes-trans w (subst (λ s. Writes c (ms s) d) w.same_server_name (k w.writable))

-- A further numeric reply, with the server's name as it was at the start.
pub Writes-then_numeric :
    (a c : IrcServerConnection) (ls : List Str) (n : Numeric) (nick rest : Str)
    → Writes a ls c
    → Writes a (ls ++ numeric_line a.server_name n nick rest ∷ []) (write_numeric c n nick rest)
Writes-then_numeric a c ls n nick rest w = Writes-trans w (
    subst (λ s. Writes c (numeric_line s n nick rest ∷ []) (write_numeric c n nick rest))
      w.same_server_name (Writes-write_numeric c n nick rest w.writable))

-- If the write position is within the buffer, `welcome` puts the welcome and the message of the
-- day, line by line, behind the bytes sent or waiting to be sent. The read side stays as it is.
pub Writes-welcome :
    (c : IrcServerConnection) (nick : Str)
    → IsWritable c
    → Writes c (welcome_lines c.server_name nick) (welcome c nick)
unfolding welcome
Writes-welcome c nick h =
    let add = Writes-then_numeric c in
    let w₁ =
      Writes-write_numeric c rpl_welcome nick
        (codes ":Welcome to the Matrix Internet Relay Network") h in
    let w₂ =
      add _ _ rpl_motdstart nick (codes ":- " ++ (c.server_name ++ codes " Message of the day -"))
        w₁ in
    let w₃ = add _ _ rpl_motd nick (codes ":-") w₂ in
    let w₄ = add _ _ rpl_motd nick (codes ":- This is a bridge into Matrix") w₃ in
    let w₅ = add _ _ rpl_motd nick (codes ":-") w₄ in
    add _ _ rpl_endofmotd nick (codes ":End of MOTD") w₅

pub Writes-write_join :
    (c : IrcServerConnection) (nick channel : Str)
    → IsWritable c
    → Writes c ((b':' ∷ (nick ++ (codes " JOIN " ++ channel))) ∷ []) (write_join c nick channel)
unfolding write_join
Writes-write_join c nick channel h = Writes-write_line c _ h

pub Writes-write_topic :
    (c : IrcServerConnection) (nick channel topic : Str)
    → IsWritable c
    → Writes c
        (numeric_line c.server_name rpl_topic nick (channel ++ (codes " :" ++ topic)) ∷ [])
        (write_topic c nick channel topic)
unfolding write_topic
Writes-write_topic c nick channel topic h = Writes-write_numeric c rpl_topic nick _ h

-- One line for each chunk of names, then the end of the list.
abbrev pub name_lines : Str → Str → Str → List (List (Str × Bool)) → List Str
name_lines server nick channel [] = []
name_lines server nick channel (names ∷ rest) =
    numeric_line server rpl_namreply nick
      (trim (codes "@ " ++ (channel ++ (codes " :" ++ name_list names))))
    ∷ name_lines server nick channel rest

Writes-write_name_lines :
    (c : IrcServerConnection) (nick channel : Str) (ls : List (List (Str × Bool)))
    → IsWritable c
    → Writes c (name_lines c.server_name nick channel ls) (write_name_lines c nick channel ls)
unfolding write_name_lines
Writes-write_name_lines c nick channel [] h = Writes-refl c h
Writes-write_name_lines c nick channel (names ∷ rest) h =
    let w =
      Writes-write_numeric c rpl_namreply nick
        (trim (codes "@ " ++ (channel ++ (codes " :" ++ name_list names)))) h in
    let c' =
      write_numeric c rpl_namreply nick
        (trim (codes "@ " ++ (channel ++ (codes " :" ++ name_list names)))) in
    Writes-trans w (
      subst
        (λ s. Writes c' (name_lines s nick channel rest) (write_name_lines c' nick channel rest))
        w.same_server_name (Writes-write_name_lines c' nick channel rest w.writable))

-- If the write position is within the buffer, `write_names` puts one line for every ten names, and
-- then the end of the names, behind the bytes sent or waiting to be sent. The read side stays as it
-- is.
pub Writes-write_names :
    (c : IrcServerConnection) (nick channel : Str) (names : List (Str × Bool))
    → IsWritable c
    → Writes c
        (name_lines c.server_name nick channel (chunks (length names) 10 names)
          ++ numeric_line c.server_name rpl_endofnames nick (channel ++ codes " :End of /NAMES")
            ∷ [])
        (write_names c nick channel names)
unfolding write_names
Writes-write_names c nick channel names h =
    Writes-then_numeric c _ _ rpl_endofnames nick (channel ++ codes " :End of /NAMES")
      (Writes-write_name_lines c nick channel (chunks (length names) 10 names) h)

-- The chunks hold every name once, in order, and each is short.
abbrev pub concat : List (List (Str × Bool)) → List (Str × Bool)
concat [] = []
concat (xs ∷ xss) = xs ++ concat xss

abbrev pub AllShort : List (List (Str × Bool)) → Type 0
AllShort [] = Unit
AllShort (xs ∷ xss) = (0 < length xs) × (length xs ≤ 10) × AllShort xss

-- With at least as many rounds as names, the chunks in a row are the names, and each has from one
-- to ten of them.
pub chunks_lem :
    (fuel : ℕ) (names : List (Str × Bool))
    → length names ≤ fuel
    → (concat (chunks fuel 10 names) ≡ names) × AllShort (chunks fuel 10 names)
unfolding chunks
chunks_lem zero [] h = (refl, tt)
chunks_lem zero (x ∷ xs) h = absurd (omega arith)
chunks_lem (suc fuel) [] h = (refl, tt)
chunks_lem (suc fuel) (x ∷ xs) h =
    let rest = chunks_lem fuel (drop 10 (x ∷ xs)) (omega (arith, length-drop 10 (x ∷ xs))) in
    (
      ap (λ (t : List (Str × Bool)). take 10 (x ∷ xs) ++ t) rest.0 ∙ take-append-drop 10 (x ∷ xs),
      (omega (arith, length-take 10 (x ∷ xs)), omega (arith, length-take 10 (x ∷ xs)), rest.1),
    )
