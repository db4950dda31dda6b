-- ===== src/Irc/User/Model.antt =====
-- src/irc/mod.rs: `poll` of the user connection, and the model of the server.
use matrix_ircd.Prelude.{
  ℕ, zero, suc, ◌≡◌, refl, ◌∙◌, inl, inr, Option, none, some, List, [], ◌∷◌, if◌then◌else◌,
  Bool-cases,
}
use matrix_ircd.Prelude.{Outcome, returns, panics, ◌>>=◌}
use matrix_ircd.Text.{Str, codes, starts_with}
use matrix_ircd.Irc.Models.{Channel, User, UserRoomEntry, get_channel, get_members}
use matrix_ircd.Irc.Protocol.IrcCommand.{IrcCommand, ping, join, who, mode, pong}
use matrix_ircd.Irc.Socket.{Poll, ready, not_ready, failed}
use matrix_ircd.Irc.Transport
use matrix_ircd.Irc.Transport.{IrcServerConnection}
use matrix_ircd.Irc.User
use matrix_ircd.Irc.User.{
  IrcUserConnection, Handled, go_on, hand_over, respond_if, who_replies, who_all, handle_cmd,
  attempt_to_write_join_response, handle_who_channel_cmd, handle_mode_channel_cmd, PollResult,
  after_cmd, after_poll, poll_loop, poll, commands_left,
}

-- The arm leaves the model.
abbrev HasModel : IrcUserConnection → Outcome Handled → Type 0
HasModel c (returns (go_on c')) = c'.server_model ≡ c.server_model
HasModel c (returns (hand_over cmd c')) = c'.server_model ≡ c.server_model
HasModel c panics = Unit

HasModel-respond_if :
    (c : IrcUserConnection) (name : Str) (channel : Option Channel)
    (members : Option (List (User × UserRoomEntry)))
    → HasModel c (
        returns (
          if (respond_if c name channel members).1
          then go_on (respond_if c name channel members).0
          else hand_over (join name) (respond_if c name channel members).0))
unfolding respond_if
HasModel-respond_if c name (some channel) (some members) = refl
HasModel-respond_if c name (some channel) none = refl
HasModel-respond_if c name none (some members) = refl
HasModel-respond_if c name none none = refl

HasModel-join :
    (c : IrcUserConnection) (name : Str) (m : Outcome (Option (List (User × UserRoomEntry))))
    → HasModel c (
        (m >>= λ members. returns (respond_if c name (get_channel c.server_model name) members))
        >>= λ r. returns (if r.1 then go_on r.0 else hand_over (join name) r.0))
HasModel-join c name (returns members) =
    HasModel-respond_if c name (get_channel c.server_model name) members
HasModel-join c name panics = tt

who_replies-server_model :
    (members : List (User × UserRoomEntry)) (c : IrcUserConnection) (channel : Str)
    → (who_replies c channel members).server_model ≡ c.server_model
unfolding who_replies
who_replies-server_model [] c channel = refl
who_replies-server_model ((u, entry) ∷ members) c channel =
    who_replies-server_model members _ channel

HasModel-who :
    (c : IrcUserConnection) (channel : Str) (m : Outcome (Option (List (User × UserRoomEntry))))
    → HasModel c
        ((m >>= λ members. returns (who_all c channel members)) >>= λ c'. returns (go_on c'))
unfolding who_all
HasModel-who c channel (returns none) = refl
HasModel-who c channel (returns (some members)) = who_replies-server_model members c channel
HasModel-who c channel panics = tt

handle_cmd-HasModel : (c : IrcUserConnection) (cmd : IrcCommand) → HasModel c (handle_cmd c cmd)
unfolding handle_cmd attempt_to_write_join_response handle_who_channel_cmd handle_mode_channel_cmd
    User.write_line
handle_cmd-HasModel c (ping payload) = refl
handle_cmd-HasModel c (join channel) = HasModel-join c channel (get_members c.server_model channel)
handle_cmd-HasModel c (who matches) = elim (Bool-cases (starts_with (codes "#") matches)) [
  | inl e ↦ rw e (HasModel-who c matches (get_members c.server_model matches))
  | inr e ↦ rw e refl
]
handle_cmd-HasModel c (mode target none) = elim (Bool-cases (starts_with (codes "#") target)) [
  | inl e ↦ rw e refl
  | inr e ↦ rw e refl
]
handle_cmd-HasModel c (mode target (some mask)) = refl
handle_cmd-HasModel c (pong payload) = refl
handle_cmd-HasModel c cmd = refl

-- The poll leaves the model.
abbrev pub LeavesModel : IrcUserConnection → PollResult → Type 0
LeavesModel c (returns (p, c')) = c'.server_model ≡ c.server_model
LeavesModel c panics = Unit

LeavesModel-trans :
    (c c' : IrcUserConnection) (r : PollResult)
    → c'.server_model ≡ c.server_model
    → LeavesModel c' r
    → LeavesModel c r
LeavesModel-trans c c' (returns (p, d)) e h = h ∙ e
LeavesModel-trans c c' panics e h = tt

after_cmd-LeavesModel :
    (again : IrcUserConnection → PollResult) (c : IrcUserConnection) (m : Outcome Handled)
    → ((c' : IrcUserConnection) → LeavesModel c' (again c'))
    → HasModel c m
    → LeavesModel c (m >>= after_cmd again)
unfolding after_cmd
after_cmd-LeavesModel again c (returns (go_on c')) ih h =
    LeavesModel-trans c c' (again c') h (ih c')
after_cmd-LeavesModel again c (returns (hand_over cmd c')) ih h = h
after_cmd-LeavesModel again c panics ih h = tt

after_poll-LeavesModel :
    (again : IrcUserConnection → PollResult) (c : IrcUserConnection)
    (m : Outcome (Poll (Option IrcCommand) × IrcServerConnection))
    → ((c' : IrcUserConnection) → LeavesModel c' (again c'))
    → LeavesModel c (m >>= λ r. after_poll again (record c { conn = r.1 }) r.0)
unfolding after_poll
after_poll-LeavesModel again c (returns (ready (some cmd), d)) ih =
    let c' = record c { conn = d } in
    LeavesModel-trans c c' (handle_cmd c' cmd >>= after_cmd again) refl
      (after_cmd-LeavesModel again c' (handle_cmd c' cmd) ih (handle_cmd-HasModel c' cmd))
after_poll-LeavesModel again c (returns (ready none, d)) ih = refl
after_poll-LeavesModel again c (returns (not_ready, d)) ih = refl
after_poll-LeavesModel again c (returns (failed x, d)) ih = refl
after_poll-LeavesModel again c panics ih = tt

poll_loop-LeavesModel : (fuel : ℕ) (c : IrcUserConnection) → LeavesModel c (poll_loop fuel c)
unfolding poll_loop
poll_loop-LeavesModel zero c = refl
poll_loop-LeavesModel (suc fuel) c =
    after_poll-LeavesModel (poll_loop fuel) c (Transport.poll c.conn) (poll_loop-LeavesModel fuel)

pub poll-LeavesModel : (c : IrcUserConnection) → LeavesModel c (poll c)
unfolding poll
poll-LeavesModel c = poll_loop-LeavesModel (suc (commands_left c.conn)) c
