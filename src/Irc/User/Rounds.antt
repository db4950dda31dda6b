-- ===== src/Irc/User/Rounds.antt =====
-- src/irc/mod.rs: the arms of `poll`, and the bytes still to come.
use matrix_ircd.Prelude.{returns_injective}
use matrix_ircd.Prelude.{
  ◌≤◌, ◌≡◌, refl, sym, ap, ◌∙◌, Bool, inl, inr, Option, none, some, List, [], ◌∷◌, arith,
  if◌then◌else◌, Bool-cases, length, length-append,
}
use matrix_ircd.Prelude.{Outcome, returns, panics, ◌>>=◌}
use matrix_ircd.Text.{Str, codes, starts_with}
use matrix_ircd.Irc.Protocol.Numeric.{Numeric}
use matrix_ircd.Irc.Protocol.IrcCommand.{IrcCommand, ping, join, who, mode, pong}
use matrix_ircd.Irc.Models.{User, UserRoomEntry, Channel, get_members, get_channel}
use matrix_ircd.Irc.Socket.{arriving, read_measure, ReadEvent, arrives, read_blocks, read_fails}
use matrix_ircd.Irc.Transport.{
  IrcServerConnection, write_numeric, write_name_lines, write_join, write_topic, write_names,
}
use matrix_ircd.Irc.Transport.ReadSide.{write_line-inbound}
use matrix_ircd.Irc.Transport.Reading.{inbound}
use matrix_ircd.Irc.User
use matrix_ircd.Irc.User.{
  IrcUserConnection, Handled, go_on, hand_over, handle_cmd, poll_loop, poll, after_cmd, after_poll,
  commands_left, join_response, respond_if, who_replies, who_all, attempt_to_write_join_response,
  handle_who_channel_cmd, handle_mode_channel_cmd, PollResult,
}

arriving_le : (rs : List ReadEvent) → length (arriving rs) ≤ read_measure rs
unfolding arriving read_measure
arriving_le [] = omega arith
arriving_le (arrives bs ∷ rs) = omega (arith, arriving_le rs, length-append bs (arriving rs))
arriving_le (read_blocks ∷ rs) = omega (arith, arriving_le rs)
arriving_le (read_fails e ∷ rs) = omega (arith, arriving_le rs)

pub inbound-le-commands_left : (c : IrcServerConnection) → length (inbound c) ≤ commands_left c
unfolding inbound
inbound-le-commands_left c =
    omega (arith, arriving_le c.conn.reads, length-append c.read_buffer (arriving c.conn.reads))

pub numeric-inbound :
    (c : IrcServerConnection) (n : Numeric) (nick rest : Str)
    → inbound (write_numeric c n nick rest) ≡ inbound c
unfolding write_numeric
numeric-inbound c n nick rest = write_line-inbound c _

write_name_lines-inbound :
    (names : List (List (Str × Bool))) (c : IrcServerConnection) (nick channel : Str)
    → inbound (write_name_lines c nick channel names) ≡ inbound c
unfolding write_name_lines
write_name_lines-inbound [] c nick channel = refl
write_name_lines-inbound (x ∷ xs) c nick channel =
    write_name_lines-inbound xs _ nick channel ∙ numeric-inbound c _ nick _

join_response-inbound :
    (c : IrcUserConnection) (name : Str) (channel : Channel) (members : List (User × UserRoomEntry))
    → inbound (join_response c name channel members) ≡ inbound c.conn
unfolding join_response write_join write_topic write_names
join_response-inbound c name channel members =
    numeric-inbound _ _ _ _
    ∙ numeric-inbound _ _ _ _
    ∙ write_name_lines-inbound _ _ _ _
    ∙ numeric-inbound _ _ _ _
    ∙ write_line-inbound c.conn _

-- The connection behind an arm.
abbrev conn_of : Handled → IrcUserConnection
conn_of (go_on c) = c
conn_of (hand_over cmd c) = c

-- The bytes to come are as they were.
abbrev pub GoesOn : IrcUserConnection → Outcome Handled → Type 0
GoesOn c m = (h : Handled) → m ≡ returns h → inbound (conn_of h).conn ≡ inbound c.conn

GoesOn-go_on :
    (c d : IrcUserConnection) → inbound d.conn ≡ inbound c.conn → GoesOn c (returns (go_on d))
GoesOn-go_on c d e h q =
    ap (λ (x : Handled). inbound (conn_of x).conn) (sym (returns_injective q)) ∙ e

GoesOn-hand_over : (c : IrcUserConnection) (cmd : IrcCommand) → GoesOn c (returns (hand_over cmd c))
GoesOn-hand_over c cmd h q =
    ap (λ (x : Handled). inbound (conn_of x).conn) (sym (returns_injective q))

GoesOn-panics : (c : IrcUserConnection) → GoesOn c panics
GoesOn-panics c c' h = absurd cc

GoesOn-respond_if :
    (c : IrcUserConnection) (name : Str) (channel : Option Channel)
    (members : Option (List (User × UserRoomEntry)))
    → GoesOn c (
        returns (
          if (respond_if c name channel members).1
          then go_on (respond_if c name channel members).0
          else hand_over (join name) (respond_if c name channel members).0))
unfolding respond_if
GoesOn-respond_if c name (some channel) (some members) =
    GoesOn-go_on c _ (join_response-inbound c name channel members)
GoesOn-respond_if c name (some channel) none = GoesOn-hand_over c (join name)
GoesOn-respond_if c name none (some members) = GoesOn-hand_over c (join name)
GoesOn-respond_if c name none none = GoesOn-hand_over c (join name)

GoesOn-join :
    (c : IrcUserConnection) (name : Str) (m : Outcome (Option (List (User × UserRoomEntry))))
    → GoesOn c (
        (m >>= λ members. returns (respond_if c name (get_channel c.server_model name) members))
        >>= λ r. returns (if r.1 then go_on r.0 else hand_over (join name) r.0))
GoesOn-join c name (returns members) =
    GoesOn-respond_if c name (get_channel c.server_model name) members
GoesOn-join c name panics = GoesOn-panics c

who_replies-inbound :
    (members : List (User × UserRoomEntry)) (c : IrcUserConnection) (channel : Str)
    → inbound (who_replies c channel members).conn ≡ inbound c.conn
unfolding who_replies
who_replies-inbound [] c channel = refl
who_replies-inbound ((u, entry) ∷ members) c channel =
    who_replies-inbound members _ channel ∙ numeric-inbound c.conn _ c.nick _

GoesOn-who :
    (c : IrcUserConnection) (channel : Str) (m : Outcome (Option (List (User × UserRoomEntry))))
    → GoesOn c ((m >>= λ members. returns (who_all c channel members)) >>= λ c'. returns (go_on c'))
unfolding who_all
GoesOn-who c channel (returns none) = GoesOn-go_on c c refl
GoesOn-who c channel (returns (some members)) = GoesOn-go_on c _ (
    numeric-inbound (who_replies c channel members).conn _ _ _
    ∙ who_replies-inbound members c channel)
GoesOn-who c channel panics = GoesOn-panics c

-- Every arm leaves the bytes to come as they are.
pub handle_cmd-GoesOn : (c : IrcUserConnection) (cmd : IrcCommand) → GoesOn c (handle_cmd c cmd)
unfolding handle_cmd attempt_to_write_join_response handle_who_channel_cmd handle_mode_channel_cmd
    User.write_line
handle_cmd-GoesOn c (ping payload) = GoesOn-go_on c _ (write_line-inbound c.conn _)
handle_cmd-GoesOn c (join channel) = GoesOn-join c channel (get_members c.server_model channel)
handle_cmd-GoesOn c (who matches) = elim (Bool-cases (starts_with (codes "#") matches)) [
  | inl e ↦ rw e (GoesOn-who c matches (get_members c.server_model matches))
  | inr e ↦ rw e (GoesOn-go_on c c refl)
]
handle_cmd-GoesOn c (mode target none) = elim (Bool-cases (starts_with (codes "#") target)) [
  | inl e ↦ rw e (GoesOn-go_on c _ (numeric-inbound c.conn _ c.nick _))
  | inr e ↦ rw e (GoesOn-go_on c c refl)
]
handle_cmd-GoesOn c (mode target (some mask)) = GoesOn-go_on c c refl
handle_cmd-GoesOn c (pong payload) = GoesOn-go_on c c refl
handle_cmd-GoesOn c cmd = GoesOn-hand_over c cmd
