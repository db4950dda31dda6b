-- ===== src/Irc/User.antt =====
-- src/irc/mod.rs: `IrcUserConnection`, an IRC client that has logged in, over the connection and
-- the model of the server. Nothing is logged.
pub mod Join
pub mod Rounds
pub mod Writes
pub mod Shorter
pub mod Runs
pub mod Model
use matrix_ircd.Prelude.{
  ℕ, zero, suc, ◌+◌, ◌-◌, ◌*◌, ◌/◌, ◌%◌, ◌<◌, ◌≤◌, ◌≡◌, refl, sym, ap, ap₂, subst, ◌∙◌, ◌≡⟨◌⟩◌, ◌∎,
  Bool, true, false, ◌&&◌, ◌||◌, not, ◌≢◌, ◌↔◌, ◌⊎◌, inl, inr, Option, none, some, List, [], ◌∷◌,
  ◌++◌, map, append-nil, append_assoc, arith, leb, ltb, ◌==◌, if◌then◌else◌, Bool-cases,
  Option-cases, length, length-append, get_elem?, take, drop, String, ==_iff,
}
use matrix_ircd.Prelude.{Outcome, returns, panics, ◌>>=◌}
use matrix_ircd.Text.{Str, codes, split, starts_with}
use matrix_ircd.Irc.Models
use matrix_ircd.Irc.Models.{Channel, User, UserRoomEntry, ServerModel, get_channel, get_members}
use matrix_ircd.Irc.Protocol.Numeric.{
  Numeric, rpl_channelmodeis, rpl_unaway, rpl_nowaway, rpl_endofwho, rpl_whoreply,
  rpl_forwarded_channel,
}
use matrix_ircd.Irc.Protocol.IrcCommand.{IrcCommand, ping, join, who, mode, pong}
use matrix_ircd.Irc.Socket.{IoError, Poll, ready, not_ready, failed, read_measure}
use matrix_ircd.Irc.Transport
use matrix_ircd.Irc.Transport.{
  IrcServerConnection, write_numeric, write_join, write_topic, write_names,
}

pub record IrcUserConnection : Type 0 where
  pub conn : IrcServerConnection
  pub user : Str
  pub nick : Str
  pub real_name : Str
  pub password : Str
  pub server_name : Str
  pub user_prefix : Str
  pub server_model : ServerModel

unfoldable pub nick_exists : IrcUserConnection → Str → Bool
nick_exists c nick = Models.nick_exists c.server_model nick

unfoldable pub channel_exists : IrcUserConnection → Str → Bool
channel_exists c channel = Models.channel_exists c.server_model channel

unfoldable pub create_user : IrcUserConnection → Str → Str → IrcUserConnection
create_user c nick user = record c { server_model = Models.create_user c.server_model nick user }

-- The names and flags of the members.
unfoldable pub names_of : List (User × UserRoomEntry) → List (Str × Bool)
names_of [] = []
names_of ((u, entry) ∷ members) = (u.nick, entry.operator) ∷ names_of members

-- The four writes of a join response.
unfoldable pub join_response :
    IrcUserConnection → Str → Channel → List (User × UserRoomEntry) → IrcServerConnection
unfolding names_of
join_response c name channel members =
    let conn₁ = write_join c.conn c.user_prefix channel.name in
    let conn₂ = write_topic conn₁ c.server_name channel.name channel.topic in
    let conn₃ = write_names conn₂ c.nick name (names_of members) in
    write_numeric conn₃ rpl_channelmodeis c.nick (channel.name ++ codes " +n")

-- `if let (Some(channel), Some(members)) = (…)`.
respond_if :
    IrcUserConnection
    → Str
    → Option Channel
    → Option (List (User × UserRoomEntry))
    → IrcUserConnection × Bool
respond_if c name (some channel) (some members) =
    (record c { conn = join_response c name channel members }, true)
respond_if c name _ _ = (c, false)

unfoldable pub attempt_to_write_join_response :
    IrcUserConnection → Str → Outcome (IrcUserConnection × Bool)
unfolding respond_if
attempt_to_write_join_response c name = get_members c.server_model name >>= λ members.
    returns (respond_if c name (get_channel c.server_model name) members)

unfoldable pub add_channel :
    IrcUserConnection → Str → Str → List (Str × Bool) → Outcome IrcUserConnection
add_channel c name topic members = Models.add_channel c.server_model name topic members >>= λ added.
    attempt_to_write_join_response (record c { server_model = added.0 }) name >>= λ r. returns r.0

unfoldable pub write_line : IrcUserConnection → Str → IrcUserConnection
write_line c line = record c { conn = Transport.write_line c.conn line }

-- One line for each line of the body.
write_each : IrcUserConnection → (Str → Str) → List Str → IrcUserConnection
unfolding write_line
write_each c format [] = c
write_each c format (line ∷ lines) = write_each (write_line c (format line)) format lines

-- `format!(":{} PRIVMSG {} :{}", …)`.
unfoldable pub message_line : Str → Str → Str → Str
message_line channel sender line =
    b':' ∷ (sender ++ (codes " PRIVMSG " ++ (channel ++ (codes " :" ++ line))))

-- `format!(":{} PRIVMSG {} :\u{0001}ACTION {}\u{0001}", …)`.
unfoldable pub action_line : Str → Str → Str → Str
action_line channel sender line =
    b':'
    ∷ (sender
        ++ (codes " PRIVMSG "
            ++ (channel ++ (codes " :" ++ (1 ∷ (codes "ACTION " ++ (line ++ 1 ∷ [])))))))

unfoldable pub send_message : IrcUserConnection → Str → Str → Str → IrcUserConnection
unfolding write_each message_line split
send_message c channel sender body = write_each c (message_line channel sender) (split b'\n' body)

unfoldable pub send_action : IrcUserConnection → Str → Str → Str → IrcUserConnection
unfolding write_each action_line split
send_action c channel sender body = write_each c (action_line channel sender) (split b'\n' body)

abbrev numeric : IrcUserConnection → Numeric → Str → IrcUserConnection
numeric c n rest = record c { conn = write_numeric c.conn n c.nick rest }

unfoldable pub write_invalid_password : IrcUserConnection → IrcUserConnection
write_invalid_password c = record c { conn = Transport.write_invalid_password c.conn c.nick }

unfoldable pub write_redirect_join : IrcUserConnection → Str → Str → IrcUserConnection
write_redirect_join c old_channel new_channel =
    numeric c rpl_forwarded_channel
      (old_channel ++ b' ' ∷ (new_channel ++ codes " :Forwarding to another channel"))

unfoldable pub welcome : IrcUserConnection → IrcUserConnection
welcome c = record c { conn = Transport.welcome c.conn c.nick }

unfoldable pub send_ping : IrcUserConnection → Str → IrcUserConnection
unfolding write_line
send_ping c payload = write_line c (codes "PING " ++ payload)

unfoldable pub away : IrcUserConnection → IrcUserConnection
away c = numeric c rpl_nowaway (codes "You are now away")

unfoldable pub unaway : IrcUserConnection → IrcUserConnection
unaway c = numeric c rpl_unaway (codes "Welcome back")

-- `format!("{} {} {} {} {} H :0 {}", …)`.
who_rest : Str → Str → User → Str
who_rest channel server_name u =
    channel
    ++ b' '
      ∷ (u.nick
          ++ b' '
            ∷ (u.mask ++ b' ' ∷ (server_name ++ b' ' ∷ (u.user ++ (codes " H :0 " ++ u.user)))))

who_replies : IrcUserConnection → Str → List (User × UserRoomEntry) → IrcUserConnection
unfolding who_rest
who_replies c channel [] = c
who_replies c channel ((u, entry) ∷ members) =
    who_replies (numeric c rpl_whoreply (who_rest channel c.server_name u)) channel members

who_all : IrcUserConnection → Str → Option (List (User × UserRoomEntry)) → IrcUserConnection
unfolding who_replies
who_all c channel none = c
who_all c channel (some members) =
    numeric (who_replies c channel members) rpl_endofwho (channel ++ codes " :End of /WHO")

unfoldable pub handle_who_channel_cmd : IrcUserConnection → Str → Outcome IrcUserConnection
unfolding who_all
handle_who_channel_cmd c channel =
    get_members c.server_model channel >>= λ members. returns (who_all c channel members)

unfoldable pub handle_mode_channel_cmd : IrcUserConnection → Str → IrcUserConnection
handle_mode_channel_cmd c channel = numeric c rpl_channelmodeis (channel ++ codes " +n")

-- What an arm of `poll` does: go on with the loop, or return a command.
pub data Handled : Type 0 where
  go_on : IrcUserConnection → Handled
  hand_over : IrcCommand → IrcUserConnection → Handled

-- The arms of `poll`.
unfoldable pub handle_cmd : IrcUserConnection → IrcCommand → Outcome Handled
unfolding write_line attempt_to_write_join_response handle_who_channel_cmd handle_mode_channel_cmd
handle_cmd c (ping payload) =
    returns (go_on (write_line c (b':' ∷ (c.server_name ++ (codes " PONG " ++ payload)))))
handle_cmd c (join channel) = attempt_to_write_join_response c channel >>= λ r.
    returns (if r.1 then go_on r.0 else hand_over (join channel) r.0)
handle_cmd c (who matches) =
    if starts_with (codes "#") matches
    then (handle_who_channel_cmd c matches >>= λ c'. returns (go_on c'))
    else returns (go_on c)
handle_cmd c (mode target none) =
    if starts_with (codes "#") target
    then returns (go_on (handle_mode_channel_cmd c target))
    else returns (go_on c)
handle_cmd c (mode target (some mask)) = returns (go_on c)
handle_cmd c (pong payload) = returns (go_on c)
handle_cmd c cmd = returns (hand_over cmd c)

abbrev pub PollResult : Type 0
PollResult = Outcome (Poll (Option IrcCommand) × IrcUserConnection)

-- `again` is the next round.
after_cmd : (IrcUserConnection → PollResult) → Handled → PollResult
after_cmd again (go_on c) = again c
after_cmd again (hand_over cmd c) = returns (ready (some cmd), c)

after_poll :
    (IrcUserConnection → PollResult) → IrcUserConnection → Poll (Option IrcCommand) → PollResult
unfolding handle_cmd after_cmd
after_poll again c (failed e) = returns (failed e, c)
after_poll again c not_ready = returns (not_ready, c)
after_poll again c (ready none) = returns (ready none, c)
after_poll again c (ready (some cmd)) = handle_cmd c cmd >>= after_cmd again

-- The loop of `poll`, for at most `fuel` commands.
pub poll_loop : ℕ → IrcUserConnection → PollResult
unfolding after_poll
poll_loop zero c = returns (not_ready, c)
poll_loop (suc fuel) c =
    Transport.poll c.conn >>= λ r. after_poll (poll_loop fuel) (record c { conn = r.1 }) r.0

-- A command is at least a byte, so there are no more of them than bytes.
abbrev pub commands_left : IrcServerConnection → ℕ
commands_left c = length c.read_buffer + read_measure c.conn.reads

unfoldable pub poll : IrcUserConnection → PollResult
unfolding poll_loop
poll c = poll_loop (suc (commands_left c.conn)) c
