-- ===== src/Bridge/Polls/Rounds.antt =====
-- src/bridge/mod.rs: the commands of the client, and the bytes still to come from it.
use matrix_ircd.Prelude.{ℕ, ◌≡◌, refl, inl, inr, Option, none, some, [], ◌∷◌, ◌++◌, Bool-cases}
use matrix_ircd.Prelude.{Outcome, returns, panics, ◌>>=◌}
use matrix_ircd.Text.{Str, is_empty}
use matrix_ircd.Text.Utf8.{Bytes}
use matrix_ircd.Bridge.Action.{handle_privmsg_action}
use matrix_ircd.Bridge.MappingStore.{channel_to_room_id}
use matrix_ircd.Irc.Protocol.IrcCommand.{IrcCommand}
use matrix_ircd.Irc.Transport.Reading.{inbound}
use matrix_ircd.Irc.User.{away, unaway}
use matrix_ircd.Irc.User.Rounds.{numeric-inbound}
use matrix_ircd.Matrix.Client.{MatrixClient, send_text_message, join_room}
use matrix_ircd.Matrix.Protocol.{Json}
use matrix_ircd.Matrix.Services.{Services}
use matrix_ircd.Bridge.Events.{Bridge, send_to, handle_irc_cmd}

-- Two functions that agree on what a computation returns.
module _ {J : Json} (S : Services J) where
  -- The bytes to come from the client.
  abbrev pub coming : Bridge S → Bytes
  coming b = inbound b.irc_conn.conn

  abbrev pub KeepsComing : Bridge S → Outcome (Bridge S) → Type 0
  KeepsComing b (returns b') = coming b' ≡ coming b
  KeepsComing b panics = Unit

  sent-KeepsComing :
      (b : Bridge S) (m : Outcome (ℕ × MatrixClient S)) (f : ℕ → MatrixClient S → Bridge S)
      → ((future : ℕ) (c : MatrixClient S) → coming (f future c) ≡ coming b)
      → KeepsComing b (m >>= λ (future, c). returns (f future c))
  sent-KeepsComing b (returns (future, c)) f h = h future c
  sent-KeepsComing b panics f h = tt

  send_to-KeepsComing :
      (b : Bridge S) (text : Str) (room_id : Option Str) → KeepsComing b (send_to S b text room_id)
  unfolding send_to
  send_to-KeepsComing b text none = refl
  send_to-KeepsComing b text (some room_id) =
      let (msgtype, body) = handle_privmsg_action text in
      sent-KeepsComing b (send_text_message S b.matrix_client room_id body msgtype)
        (λ future c. record b { matrix_client = c; sends = b.sends ++ future ∷ [] })
        (λ future c. refl)

  -- A command of the client leaves what is still to come from it.
  pub handle_irc_cmd-KeepsComing :
      (b : Bridge S) (cmd : IrcCommand) → KeepsComing b (handle_irc_cmd S b cmd)
  unfolding handle_irc_cmd away unaway
  handle_irc_cmd-KeepsComing b (IrcCommand.priv_msg channel text) =
      send_to-KeepsComing b text (channel_to_room_id b.mappings channel)
  handle_irc_cmd-KeepsComing b (IrcCommand.join channel) =
      sent-KeepsComing b (join_room S b.matrix_client channel)
        (λ future c. record b { matrix_client = c; joins = b.joins ++ (future, channel) ∷ [] })
        (λ future c. refl)
  handle_irc_cmd-KeepsComing b (IrcCommand.away message) = elim (Bool-cases (is_empty message)) [
    | inl e ↦ rw e (numeric-inbound b.irc_conn.conn _ _ _)
    | inr e ↦ rw e (numeric-inbound b.irc_conn.conn _ _ _)
  ]
  handle_irc_cmd-KeepsComing b cmd = refl
