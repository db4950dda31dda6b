-- ===== src/Irc/User/Runs.antt =====
-- src/irc/mod.rs: `poll` of the user connection as a run, command by command.
use matrix_ircd.Prelude.{
  ℕ, zero, suc, ◌<◌, ◌≡◌, refl, ap, Bool, true, false, inl, inr, Option, none, some, ◌++◌, arith,
  if◌then◌else◌, Bool-cases, length,
}
use matrix_ircd.Prelude.{Outcome, returns, panics, ◌>>=◌}
use matrix_ircd.Text.{Str, codes, starts_with}
use matrix_ircd.Text.Utf8.{Bytes}
use matrix_ircd.Irc.Protocol.Numeric.{rpl_channelmodeis}
use matrix_ircd.Irc.Protocol.IrcCommand.{IrcCommand, ping, join, who, mode, pong}
use matrix_ircd.Irc.Socket.{IoError, Poll, ready, not_ready, failed}
use matrix_ircd.Irc.Transport
use matrix_ircd.Irc.Transport.{IrcServerConnection, write_numeric}
use matrix_ircd.Irc.Transport.Reading.{inbound}
use matrix_ircd.Irc.Transport.ReadSide.{poll-shorter}
use matrix_ircd.Irc.User
use matrix_ircd.Irc.User.{
  IrcUserConnection, Handled, go_on, hand_over, handle_cmd, PollResult, after_cmd, after_poll,
  poll_loop, poll, commands_left, attempt_to_write_join_response, handle_who_channel_cmd,
  handle_mode_channel_cmd, numeric,
}
use matrix_ircd.Irc.User.Rounds.{handle_cmd-GoesOn, inbound-le-commands_left}

abbrev with_conn : IrcUserConnection → IrcServerConnection → IrcUserConnection
with_conn c d = record c { conn = d }

-- The line is written.
abbrev writes : IrcUserConnection → Str → IrcUserConnection
writes c line = record c { conn = Transport.write_line c.conn line }

-- Commands that are neither answered nor handed over: PONG, MODE with a mask, and MODE and WHO of
-- what is no channel.
pub data IsDropped : IrcCommand → Type 0 where
  of_pong : (payload : Str) → IsDropped (pong payload)
  of_mask : (target mask : Str) → IsDropped (mode target (some mask))
  of_user_mode :
      (target : Str) → starts_with (codes "#") target ≡ false → IsDropped (mode target none)
  of_who : (matches : Str) → starts_with (codes "#") matches ≡ false → IsDropped (who matches)

-- Commands that are always handed over.
unfoldable pub is_passed_on : IrcCommand → Bool
is_passed_on (ping payload) = false
is_passed_on (join channel) = false
is_passed_on (who matches) = false
is_passed_on (mode target mask) = false
is_passed_on (pong payload) = false
is_passed_on cmd = true

-- The commands that the connection gives are handled one after the other, up to one that is handed
-- over, or to where the connection waits, fails, is at its end or panics, or the answer panics.
pub data Runs : IrcUserConnection → PollResult → Type 0 where
  waits :
      {c : IrcUserConnection} {d : IrcServerConnection}
      → Transport.poll c.conn ≡ returns (not_ready, d)
      → Runs c (returns (not_ready, with_conn c d))
  ends :
      {c : IrcUserConnection} {d : IrcServerConnection}
      → Transport.poll c.conn ≡ returns (ready none, d)
      → Runs c (returns (ready none, with_conn c d))
  breaks :
      {c : IrcUserConnection} {d : IrcServerConnection} {e : IoError}
      → Transport.poll c.conn ≡ returns (failed e, d)
      → Runs c (returns (failed e, with_conn c d))
  poll_panics : {c : IrcUserConnection} → Transport.poll c.conn ≡ panics → Runs c panics
  hands_over :
      {c : IrcUserConnection} {d : IrcServerConnection} {cmd : IrcCommand}
      → Transport.poll c.conn ≡ returns (ready (some cmd), d)
      → is_passed_on cmd ≡ true
      → Runs c (returns (ready (some cmd), with_conn c d))
  drops :
      {c : IrcUserConnection} {d : IrcServerConnection} {cmd : IrcCommand} {res : PollResult}
      → Transport.poll c.conn ≡ returns (ready (some cmd), d)
      → IsDropped cmd
      → Runs (with_conn c d) res
      → Runs c res
  answers_ping :
      {c : IrcUserConnection} {d : IrcServerConnection} {payload : Str} {res : PollResult}
      → Transport.poll c.conn ≡ returns (ready (some (ping payload)), d)
      → Runs
          (writes (with_conn c d) (codes ":" ++ (c.server_name ++ (codes " PONG " ++ payload))))
          res
      → Runs c res
  answers_mode :
      {c : IrcUserConnection} {d : IrcServerConnection} {channel : Str} {res : PollResult}
      → Transport.poll c.conn ≡ returns (ready (some (mode channel none)), d)
      → starts_with (codes "#") channel ≡ true
      → Runs (with_conn c (write_numeric d rpl_channelmodeis c.nick (channel ++ codes " +n"))) res
      → Runs c res
  answers_who :
      {c c' : IrcUserConnection} {d : IrcServerConnection} {channel : Str} {res : PollResult}
      → Transport.poll c.conn ≡ returns (ready (some (who channel)), d)
      → starts_with (codes "#") channel ≡ true
      → handle_who_channel_cmd (with_conn c d) channel ≡ returns c'
      → Runs c' res
      → Runs c res
  who_panics :
      {c : IrcUserConnection} {d : IrcServerConnection} {channel : Str}
      → Transport.poll c.conn ≡ returns (ready (some (who channel)), d)
      → starts_with (codes "#") channel ≡ true
      → handle_who_channel_cmd (with_conn c d) channel ≡ panics
      → Runs c panics
  answers_join :
      {c c' : IrcUserConnection} {d : IrcServerConnection} {channel : Str} {res : PollResult}
      → Transport.poll c.conn ≡ returns (ready (some (join channel)), d)
      → attempt_to_write_join_response (with_conn c d) channel ≡ returns (c', true)
      → Runs c' res
      → Runs c res
  hands_over_join :
      {c c' : IrcUserConnection} {d : IrcServerConnection} {channel : Str}
      → Transport.poll c.conn ≡ returns (ready (some (join channel)), d)
      → attempt_to_write_join_response (with_conn c d) channel ≡ returns (c', false)
      → Runs c (returns (ready (some (join channel)), c'))
  join_panics :
      {c : IrcUserConnection} {d : IrcServerConnection} {channel : Str}
      → Transport.poll c.conn ≡ returns (ready (some (join channel)), d)
      → attempt_to_write_join_response (with_conn c d) channel ≡ panics
      → Runs c panics

module _ (again : IrcUserConnection → PollResult) (c : IrcUserConnection)
    (d : IrcServerConnection) where
  -- Where the arm goes on, the rest is a run.
  abbrev GoesRuns : IrcCommand → Type 0
  GoesRuns cmd =
      (c' : IrcUserConnection)
      → handle_cmd (with_conn c d) cmd ≡ returns (go_on c')
      → Runs c' (again c')

  after_join-Runs :
      (channel : Str) (m : Outcome (IrcUserConnection × Bool))
      → Transport.poll c.conn ≡ returns (ready (some (join channel)), d)
      → attempt_to_write_join_response (with_conn c d) channel ≡ m
      → ((c' : IrcUserConnection)
          → (m >>= λ r. returns (if r.1 then go_on r.0 else hand_over (join channel) r.0))
            ≡ returns (go_on c')
          → Runs c' (again c'))
      → Runs c (
          (m >>= λ r. returns (if r.1 then go_on r.0 else hand_over (join channel) r.0))
          >>= after_cmd again)
  unfolding after_cmd
  after_join-Runs channel (returns (c', true)) q e ih = answers_join q e (ih c' refl)
  after_join-Runs channel (returns (c', false)) q e ih = hands_over_join q e
  after_join-Runs channel panics q e ih = join_panics q e

  after_who-Runs :
      (channel : Str) (m : Outcome IrcUserConnection)
      → Transport.poll c.conn ≡ returns (ready (some (who channel)), d)
      → starts_with (codes "#") channel ≡ true
      → handle_who_channel_cmd (with_conn c d) channel ≡ m
      → ((c' : IrcUserConnection)
          → (m >>= λ x. returns (go_on x)) ≡ returns (go_on c')
          → Runs c' (again c'))
      → Runs c ((m >>= λ x. returns (go_on x)) >>= after_cmd again)
  unfolding after_cmd
  after_who-Runs channel (returns c') q s e ih = answers_who q s e (ih c' refl)
  after_who-Runs channel panics q s e ih = who_panics q s e

  handle_cmd-Runs :
      (cmd : IrcCommand)
      → Transport.poll c.conn ≡ returns (ready (some cmd), d)
      → GoesRuns cmd
      → Runs c (handle_cmd (with_conn c d) cmd >>= after_cmd again)
  unfolding handle_cmd after_cmd is_passed_on handle_mode_channel_cmd User.write_line
  handle_cmd-Runs (ping payload) q ih = answers_ping q (ih _ refl)
  handle_cmd-Runs (join channel) q ih =
      after_join-Runs channel (attempt_to_write_join_response (with_conn c d) channel) q refl ih
  handle_cmd-Runs (who matches) q ih = elim (Bool-cases (starts_with (codes "#") matches)) [
    | inl e ↦ rw e (
        after_who-Runs matches (handle_who_channel_cmd (with_conn c d) matches) q e refl
          (λ c' k. ih c' (rw e k)))
    | inr e ↦ rw e (drops q (of_who matches e) (ih (with_conn c d) (rw e refl)))
  ]
  handle_cmd-Runs (mode target none) q ih = elim (Bool-cases (starts_with (codes "#") target)) [
    | inl e ↦ rw e (answers_mode q e (ih _ (rw e refl)))
    | inr e ↦ rw e (drops q (of_user_mode target e) (ih (with_conn c d) (rw e refl)))
  ]
  handle_cmd-Runs (mode target (some mask)) q ih = drops q (of_mask target mask) (ih _ refl)
  handle_cmd-Runs (pong payload) q ih = drops q (of_pong payload) (ih _ refl)
  handle_cmd-Runs cmd q ih = hands_over q refl

after_poll-Runs :
    (again : IrcUserConnection → PollResult) (c : IrcUserConnection)
    (m : Outcome (Poll (Option IrcCommand) × IrcServerConnection))
    → Transport.poll c.conn ≡ m
    → ((c' : IrcUserConnection)
        → length (inbound c'.conn) < length (inbound c.conn)
        → Runs c' (again c'))
    → Runs c (m >>= λ r. after_poll again (record c { conn = r.1 }) r.0)
unfolding after_poll
after_poll-Runs again c (returns (ready (some cmd), d)) q ih =
    let lt = poll-shorter c.conn d cmd q in
    handle_cmd-Runs again c d cmd q (λ c' e.
      let same = handle_cmd-GoesOn (with_conn c d) cmd (go_on c') e in
      ih c' (omega (arith, ap (λ (b : Bytes). length b) same)))
after_poll-Runs again c (returns (ready none, d)) q ih = ends q
after_poll-Runs again c (returns (not_ready, d)) q ih = waits q
after_poll-Runs again c (returns (failed e, d)) q ih = breaks q
after_poll-Runs again c panics q ih = poll_panics q

poll_loop-Runs :
    (n : ℕ) (c : IrcUserConnection) → length (inbound c.conn) < n → Runs c (poll_loop n c)
unfolding poll_loop
poll_loop-Runs zero c lt = absurd (omega arith)
poll_loop-Runs (suc n) c lt =
    after_poll-Runs (poll_loop n) c (Transport.poll c.conn) refl
      (λ c' less. poll_loop-Runs n c' (omega arith))

-- `poll` handles the commands of its connection one after the other (`Runs`): a PING is answered
-- with a PONG of its payload, MODE and WHO of a channel and JOIN of a channel that the server has
-- are answered, PONG, MODE with a mask and MODE and WHO of what is no channel are dropped. It is
-- over at the first other command, which it hands over, or where the connection waits, fails, is at
-- its end or panics, or where the answer to WHO or JOIN panics.
pub poll-Runs : (c : IrcUserConnection) → Runs c (poll c)
unfolding poll
poll-Runs c =
    poll_loop-Runs (suc (commands_left c.conn)) c (omega (arith, inbound-le-commands_left c.conn))
