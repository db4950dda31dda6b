-- ===== src/Bridge/Polls/Synced.antt =====
-- src/bridge/mod.rs: `poll_irc` behind the first sync.
use matrix_ircd.Prelude.{
  ℕ, zero, suc, ◌≡◌, refl, false, inl, inr, Option, none, some, [], ◌∷◌, ◌++◌, if◌then◌else◌,
  Bool-cases,
}
use matrix_ircd.Prelude.{Outcome, returns, panics, ◌>>=◌}
use matrix_ircd.Text.{Str, is_empty}
use matrix_ircd.Bridge.Action.{handle_privmsg_action}
use matrix_ircd.Bridge.MappingStore.{channel_to_room_id}
use matrix_ircd.Irc.Protocol.IrcCommand.{IrcCommand}
use matrix_ircd.Irc.Socket.{Poll, ready, not_ready, failed}
use matrix_ircd.Irc.User
use matrix_ircd.Irc.User.{IrcUserConnection, commands_left, away, unaway}
use matrix_ircd.Matrix.Client.{MatrixClient, send_text_message, join_room}
use matrix_ircd.Matrix.Protocol.{Json}
use matrix_ircd.Matrix.Services.{Services}
use matrix_ircd.Bridge.Events.{Bridge, send_to, handle_irc_cmd}
use matrix_ircd.Bridge.Polls.{PollResult, after_irc, irc_loop}
use matrix_ircd.Irc.User.Model.{LeavesModel, poll-LeavesModel}
use matrix_ircd.Bridge.MappingStore.Channels.{IsMapped}
use matrix_ircd.Bridge.Events.Lines.{SameModel, IsMapped-SameModel}

module _ {J : Json} (S : Services J) where
  abbrev pub IsSynced : Bridge S → Type 0
  IsSynced b = IsMapped (b.mappings, b.irc_conn) × (b.is_first_sync ≡ false)

  abbrev KeepsSynced : Outcome (Bridge S) → Type 0
  KeepsSynced (returns b') = IsSynced b'
  KeepsSynced panics = Unit

  sent-KeepsSynced :
      (m : Outcome (ℕ × MatrixClient S)) (f : ℕ → MatrixClient S → Bridge S)
      → ((future : ℕ) (c : MatrixClient S) → IsSynced (f future c))
      → KeepsSynced (m >>= λ (future, c). returns (f future c))
  sent-KeepsSynced (returns (future, c)) f h = h future c
  sent-KeepsSynced panics f h = tt

  send_to-KeepsSynced :
      (b : Bridge S) (text : Str) (room_id : Option Str)
      → IsSynced b
      → KeepsSynced (send_to S b text room_id)
  unfolding send_to
  send_to-KeepsSynced b text none h = h
  send_to-KeepsSynced b text (some room_id) h =
      let (msgtype, body) = handle_privmsg_action text in
      sent-KeepsSynced (send_text_message S b.matrix_client room_id body msgtype)
        (λ future c. record b { matrix_client = c; sends = b.sends ++ future ∷ [] }) (λ future c. h)

  away-SameModel :
      (c : IrcUserConnection) (message : Str)
      → SameModel c (if is_empty message then unaway c else away c)
  unfolding away unaway SameModel
  away-SameModel c message = elim (Bool-cases (is_empty message)) [
    | inl e ↦ rw e refl
    | inr e ↦ rw e refl
  ]

  handle_irc_cmd-KeepsSynced :
      (b : Bridge S) (cmd : IrcCommand) → IsSynced b → KeepsSynced (handle_irc_cmd S b cmd)
  unfolding handle_irc_cmd
  handle_irc_cmd-KeepsSynced b (IrcCommand.priv_msg channel text) h =
      send_to-KeepsSynced b text (channel_to_room_id b.mappings channel) h
  handle_irc_cmd-KeepsSynced b (IrcCommand.join channel) h =
      sent-KeepsSynced (join_room S b.matrix_client channel)
        (λ future c. record b { matrix_client = c; joins = b.joins ++ (future, channel) ∷ [] })
        (λ future c. h)
  handle_irc_cmd-KeepsSynced b (IrcCommand.away message) (h, e) =
      (IsMapped-SameModel b.mappings b.irc_conn _ (away-SameModel b.irc_conn message) h, e)
  handle_irc_cmd-KeepsSynced b cmd h = h

  abbrev pub PollsSynced : PollResult S → Type 0
  PollsSynced (returns (p, b')) = IsSynced b'
  PollsSynced panics = Unit

  bind-PollsSynced :
      (m : Outcome (Bridge S)) (f : Bridge S → PollResult S)
      → KeepsSynced m
      → ((b : Bridge S) → IsSynced b → PollsSynced (f b))
      → PollsSynced (m >>= f)
  bind-PollsSynced (returns b) f h ih = ih b h
  bind-PollsSynced panics f h ih = tt

  after_irc-PollsSynced :
      (again : Bridge S → PollResult S) (p : Poll (Option IrcCommand)) (b : Bridge S)
      → ((b' : Bridge S) → IsSynced b' → PollsSynced (again b'))
      → IsSynced b
      → PollsSynced (after_irc S again p b)
  unfolding after_irc
  after_irc-PollsSynced again (failed e) b ih h = h
  after_irc-PollsSynced again not_ready b ih h = h
  after_irc-PollsSynced again (ready none) b ih h = h
  after_irc-PollsSynced again (ready (some line)) b ih h =
      bind-PollsSynced (handle_irc_cmd S b line) again (handle_irc_cmd-KeepsSynced b line h) ih

  polled-PollsSynced :
      (again : Bridge S → PollResult S) (b : Bridge S) (m : User.PollResult)
      → LeavesModel b.irc_conn m
      → ((b' : Bridge S) → IsSynced b' → PollsSynced (again b'))
      → IsSynced b
      → PollsSynced (m >>= λ (p, c). after_irc S again p (record b { irc_conn = c }))
  unfolding SameModel
  polled-PollsSynced again b (returns (p, c)) e ih (h, first) =
      after_irc-PollsSynced again p (record b { irc_conn = c }) ih
        (IsMapped-SameModel b.mappings b.irc_conn c e h, first)
  polled-PollsSynced again b panics e ih h = tt

  pub irc_loop-PollsSynced :
      (fuel : ℕ) (b : Bridge S) → IsSynced b → PollsSynced (irc_loop S fuel b)
  unfolding irc_loop
  irc_loop-PollsSynced zero b h = h
  irc_loop-PollsSynced (suc fuel) b h =
      polled-PollsSynced (irc_loop S fuel) b (User.poll b.irc_conn) (poll-LeavesModel b.irc_conn)
        (irc_loop-PollsSynced fuel) h
