-- ===== src/Bridge/Polls.antt =====
-- src/bridge/mod.rs: `poll_irc` and `poll_matrix`, the two tasks of a bridge.
pub mod Rounds
pub mod Runs
pub mod Synced
pub mod Reachable
use matrix_ircd.Prelude.{ℕ, zero, suc, true, Option, none, some, List, if◌then◌else◌, length}
use matrix_ircd.Prelude.{Outcome, returns, ◌>>=◌}
use matrix_ircd.Http.Client.{OneshotPoll}
use matrix_ircd.Irc.Protocol.IrcCommand.{IrcCommand}
use matrix_ircd.Irc.Socket.{Poll, ready, not_ready, failed}
use matrix_ircd.Irc.User
use matrix_ircd.Irc.User.{
  IrcUserConnection, commands_left, send_message, send_action, write_redirect_join, welcome,
  send_ping, away, unaway, write_invalid_password,
}
use matrix_ircd.Matrix.Client
use matrix_ircd.Matrix.Client.{
  MatrixClient, LoginError, io, invalid_password, JsonPostError, send_text_message, join_room,
  get_room, media_url, json_response, into_io_error,
}
use matrix_ircd.Matrix.Protocol.{Json, SyncResponse}
use matrix_ircd.Matrix.Services.{Services}
use matrix_ircd.Bridge.Events.{Bridge, handle_irc_cmd, handle_sync_response}

module _ {J : Json} (S : Services J) where
  abbrev pub PollResult : Type 0
  PollResult = Outcome (Poll (Unit {0}) × Bridge S)

  -- What follows the poll of the connection; `again` is the next round.
  pub after_irc : (Bridge S → PollResult) → Poll (Option IrcCommand) → Bridge S → PollResult
  unfolding handle_irc_cmd
  after_irc again (failed e) b = returns (failed e, b)
  after_irc again not_ready b = returns (not_ready, b)
  after_irc again (ready none) b = returns (ready tt, record b { closed = true })
  after_irc again (ready (some line)) b = handle_irc_cmd S b line >>= again

  pub irc_loop : ℕ → Bridge S → PollResult
  unfolding after_irc
  irc_loop zero b = returns (not_ready, b)
  irc_loop (suc fuel) b = User.poll b.irc_conn >>= λ (p, irc_conn).
      after_irc (irc_loop fuel) p (record b { irc_conn = irc_conn })

  -- A command is at least a byte, so there are no more rounds than bytes.
  unfoldable pub poll_irc : Bridge S → PollResult
  unfolding irc_loop
  poll_irc b =
      if b.is_first_sync
      then returns (not_ready, b)
      else irc_loop (suc (commands_left b.irc_conn.conn)) b

  abbrev pub SyncPollResult : Type 0
  SyncPollResult = Outcome (Poll (Unit {0}) × Bridge S × List OneshotPoll)

  -- What follows the poll of the Matrix client.
  pub after_matrix :
      (Bridge S → List OneshotPoll → SyncPollResult)
      → Poll (Option (SyncResponse J))
      → Bridge S
      → List OneshotPoll
      → SyncPollResult
  unfolding handle_sync_response
  after_matrix again (failed e) b polls = returns (failed e, b, polls)
  after_matrix again not_ready b polls = returns (not_ready, b, polls)
  after_matrix again (ready none) b polls = returns (ready tt, record b { closed = true }, polls)
  after_matrix again (ready (some sync_response)) b polls =
      handle_sync_response S b sync_response >>= λ b'. again b' polls

  pub matrix_loop : ℕ → Bridge S → List OneshotPoll → SyncPollResult
  unfolding after_matrix
  matrix_loop zero b polls = returns (not_ready, b, polls)
  matrix_loop (suc fuel) b polls =
      Client.poll S polls b.matrix_client >>= λ (p, matrix_client, rest).
      after_matrix (matrix_loop fuel) p (record b { matrix_client = matrix_client }) rest

  -- Each round but the last uses up a poll of the list.
  unfoldable pub poll_matrix : List OneshotPoll → Bridge S → SyncPollResult
  unfolding matrix_loop
  poll_matrix polls b = matrix_loop (suc (length polls)) b polls
