-- ===== src/Bridge/Polls/Runs.antt =====
-- src/bridge/mod.rs: `poll_irc` and `poll_matrix` as runs, round by round.
use matrix_ircd.Prelude.{
  ℕ, zero, suc, ◌<◌, ◌≡◌, refl, sym, ap, subst, true, false, ◌⊎◌, Bool-cases, inl, inr, Option,
  none, some, List, arith, if◌then◌else◌, length,
}
use matrix_ircd.Prelude.{returns, panics}
use matrix_ircd.Text.Utf8.{Bytes}
use matrix_ircd.Http.Client.{OneshotPoll}
use matrix_ircd.Irc.Protocol.IrcCommand.{IrcCommand}
use matrix_ircd.Irc.Socket.{IoError, Poll, ready, not_ready, failed}
use matrix_ircd.Irc.User
use matrix_ircd.Irc.User.{IrcUserConnection, commands_left}
use matrix_ircd.Irc.User.Rounds.{inbound-le-commands_left}
use matrix_ircd.Irc.User.Shorter.{Shorter, poll-Shorter}
use matrix_ircd.Matrix.Client
use matrix_ircd.Matrix.Client.{MatrixClient}
use matrix_ircd.Matrix.Client.Shorter.{PollShorter, poll-PollShorter}
use matrix_ircd.Matrix.Protocol.{Json, SyncResponse}
use matrix_ircd.Matrix.Services.{Services}
use matrix_ircd.Bridge.Events.{Bridge, handle_irc_cmd, handle_sync_response}
use matrix_ircd.Bridge.Events.Lines.{outcome_cases}
use matrix_ircd.Bridge.Polls.Rounds.{coming, KeepsComing, handle_irc_cmd-KeepsComing}
use matrix_ircd.Bridge.Polls.{
  PollResult, SyncPollResult, after_irc, irc_loop, poll_irc, after_matrix, matrix_loop, poll_matrix,
}

module _ {J : Json} (S : Services J) where
  abbrev with_irc : Bridge S → IrcUserConnection → Bridge S
  with_irc b c = record b { irc_conn = c }

  -- The client's commands are handled one after the other, each on what the one before left, up to
  -- an end: the connection waits, is at its end or fails, or something panics.
  pub data IrcRuns : Bridge S → PollResult S → Type 0 where
    waits :
        {b : Bridge S} {c : IrcUserConnection}
        → User.poll b.irc_conn ≡ returns (not_ready, c)
        → IrcRuns b (returns (not_ready, with_irc b c))
    ends :
        {b : Bridge S} {c : IrcUserConnection}
        → User.poll b.irc_conn ≡ returns (ready none, c)
        → IrcRuns b (returns (ready tt, record b { irc_conn = c; closed = true }))
    breaks :
        {b : Bridge S} {c : IrcUserConnection} {e : IoError}
        → User.poll b.irc_conn ≡ returns (failed e, c)
        → IrcRuns b (returns (failed e, with_irc b c))
    poll_panics : {b : Bridge S} → User.poll b.irc_conn ≡ panics → IrcRuns b panics
    command_panics :
        {b : Bridge S} {c : IrcUserConnection} {line : IrcCommand}
        → User.poll b.irc_conn ≡ returns (ready (some line), c)
        → handle_irc_cmd S (with_irc b c) line ≡ panics
        → IrcRuns b panics
    handles :
        {b b' : Bridge S} {c : IrcUserConnection} {line : IrcCommand} {res : PollResult S}
        → User.poll b.irc_conn ≡ returns (ready (some line), c)
        → handle_irc_cmd S (with_irc b c) line ≡ returns b'
        → IrcRuns b' res
        → IrcRuns b res

  after_irc-IrcRuns :
      (again : Bridge S → PollResult S) (b : Bridge S) (p : Poll (Option IrcCommand))
      (c : IrcUserConnection)
      → User.poll b.irc_conn ≡ returns (p, c)
      → ((b' : Bridge S) (line : IrcCommand)
          → p ≡ ready (some line)
          → handle_irc_cmd S (with_irc b c) line ≡ returns b'
          → IrcRuns b' (again b'))
      → IrcRuns b (after_irc S again p (with_irc b c))
  unfolding after_irc
  after_irc-IrcRuns again b (failed e) c q ih = breaks q
  after_irc-IrcRuns again b not_ready c q ih = waits q
  after_irc-IrcRuns again b (ready none) c q ih = ends q
  after_irc-IrcRuns again b (ready (some line)) c q ih =
      elim (outcome_cases S (handle_irc_cmd S (with_irc b c) line)) [
        | inl (b', e) ↦ rw e (handles q e (ih b' line refl e))
        | inr e ↦ rw e (command_panics q e)
      ]

  irc_loop-IrcRuns : (n : ℕ) (b : Bridge S) → length (coming S b) < n → IrcRuns b (irc_loop S n b)
  unfolding irc_loop
  irc_loop-IrcRuns zero b lt = absurd (omega arith)
  irc_loop-IrcRuns (suc n) b lt = elim (outcome_cases S (User.poll b.irc_conn)) [
    | inr e ↦ rw e (poll_panics e)
    | inl ((p, c), e) ↦ rw e (
        after_irc-IrcRuns (irc_loop S n) b p c e (λ b' line is_line q.
          let less = subst (Shorter (length (coming S b))) e (poll-Shorter b.irc_conn) in
          let less' = subst (λ x. Shorter (length (coming S b)) (returns (x, c))) is_line less in
          let same =
            subst (KeepsComing S (with_irc b c)) q
              (handle_irc_cmd-KeepsComing S (with_irc b c) line) in
          irc_loop-IrcRuns n b' (omega (arith, ap (λ (x : Bytes). length x) same))))
  ]

  poll_irc_lem :
      (b : Bridge S)
      → ((b.is_first_sync ≡ true) × (poll_irc S b ≡ returns (not_ready, b)))
        ⊎ ((b.is_first_sync ≡ false) × IrcRuns b (poll_irc S b))
  unfolding poll_irc
  poll_irc_lem b =
      let rounds = suc (commands_left b.irc_conn.conn) in
      elim (Bool-cases b.is_first_sync) [
        | inl e ↦ inl (e, ap (λ t. if t then returns (not_ready, b) else irc_loop S rounds b) e)
        | inr e ↦ inr (
          e,
          subst (IrcRuns b)
              (ap (λ t. if t then returns (not_ready, b) else irc_loop S rounds b) (sym e))
              (irc_loop-IrcRuns rounds b (omega (arith, inbound-le-commands_left b.irc_conn.conn))),
        )
      ]

  abbrev with_client : Bridge S → MatrixClient S → Bridge S
  with_client b c = record b { matrix_client = c }

  -- Sync responses are handled one after the other, up to an end: the Matrix client waits, is at
  -- its end or fails, or something panics.
  pub data MatrixRuns : Bridge S → List OneshotPoll → SyncPollResult S → Type 0 where
    waits :
        {b : Bridge S} {c : MatrixClient S} {polls rest : List OneshotPoll}
        → Client.poll S polls b.matrix_client ≡ returns (not_ready, c, rest)
        → MatrixRuns b polls (returns (not_ready, with_client b c, rest))
    ends :
        {b : Bridge S} {c : MatrixClient S} {polls rest : List OneshotPoll}
        → Client.poll S polls b.matrix_client ≡ returns (ready none, c, rest)
        → MatrixRuns b polls
            (returns (ready tt, record b { matrix_client = c; closed = true }, rest))
    breaks :
        {b : Bridge S} {c : MatrixClient S} {polls rest : List OneshotPoll} {e : IoError}
        → Client.poll S polls b.matrix_client ≡ returns (failed e, c, rest)
        → MatrixRuns b polls (returns (failed e, with_client b c, rest))
    poll_panics :
        {b : Bridge S} {polls : List OneshotPoll}
        → Client.poll S polls b.matrix_client ≡ panics
        → MatrixRuns b polls panics
    response_panics :
        {b : Bridge S} {c : MatrixClient S} {polls rest : List OneshotPoll} {r : SyncResponse J}
        → Client.poll S polls b.matrix_client ≡ returns (ready (some r), c, rest)
        → handle_sync_response S (with_client b c) r ≡ panics
        → MatrixRuns b polls panics
    handles :
        {b b' : Bridge S} {c : MatrixClient S} {polls rest : List OneshotPoll} {r : SyncResponse J}
        {res : SyncPollResult S}
        → Client.poll S polls b.matrix_client ≡ returns (ready (some r), c, rest)
        → handle_sync_response S (with_client b c) r ≡ returns b'
        → MatrixRuns b' rest res
        → MatrixRuns b polls res

  after_matrix-MatrixRuns :
      (again : Bridge S → List OneshotPoll → SyncPollResult S) (b : Bridge S)
      (p : Poll (Option (SyncResponse J))) (c : MatrixClient S) (polls rest : List OneshotPoll)
      → Client.poll S polls b.matrix_client ≡ returns (p, c, rest)
      → ((b' : Bridge S) (r : SyncResponse J)
          → p ≡ ready (some r)
          → MatrixRuns b' rest (again b' rest))
      → MatrixRuns b polls (after_matrix S again p (with_client b c) rest)
  unfolding after_matrix
  after_matrix-MatrixRuns again b (failed e) c polls rest q ih = breaks q
  after_matrix-MatrixRuns again b not_ready c polls rest q ih = waits q
  after_matrix-MatrixRuns again b (ready none) c polls rest q ih = ends q
  after_matrix-MatrixRuns again b (ready (some r)) c polls rest q ih =
      elim (outcome_cases S (handle_sync_response S (with_client b c) r)) [
        | inl (b', e) ↦ rw e (handles q e (ih b' r refl))
        | inr e ↦ rw e (response_panics q e)
      ]

  matrix_loop-MatrixRuns :
      (n : ℕ) (b : Bridge S) (polls : List OneshotPoll)
      → length polls < n
      → MatrixRuns b polls (matrix_loop S n b polls)
  unfolding matrix_loop
  matrix_loop-MatrixRuns zero b polls lt = absurd (omega arith)
  matrix_loop-MatrixRuns (suc n) b polls lt =
      elim (outcome_cases S (Client.poll S polls b.matrix_client)) [
        | inr e ↦ rw e (poll_panics e)
        | inl ((p, c, rest), e) ↦ rw e (
            after_matrix-MatrixRuns (matrix_loop S n) b p c polls rest e (λ b' r is_response.
              let less =
                subst (PollShorter S (length polls)) e (poll-PollShorter S polls b.matrix_client) in
              let less' =
                subst (λ x. PollShorter S (length polls) (returns (x, c, rest))) is_response less in
              matrix_loop-MatrixRuns n b' rest (omega arith)))
      ]

  poll_matrix_lem :
      (polls : List OneshotPoll) (b : Bridge S) → MatrixRuns b polls (poll_matrix S polls b)
  unfolding poll_matrix
  poll_matrix_lem polls b = matrix_loop-MatrixRuns (suc (length polls)) b polls (omega arith)

  -- Before the first sync `poll_irc` waits and changes nothing. Behind it, it handles the client's
  -- commands one after the other (`IrcRuns`): it ends where the connection waits, fails or is at
  -- its end, which closes the bridge, or with a panic of the connection or of a command.
  -- `poll_matrix` handles the sync responses one after the other (`MatrixRuns`), with the same ends
  -- for the Matrix client.
  pub tasks_lem :
      (polls : List OneshotPoll) (b : Bridge S)
      → (((b.is_first_sync ≡ true) × (poll_irc S b ≡ returns (not_ready, b)))
          ⊎ ((b.is_first_sync ≡ false) × IrcRuns b (poll_irc S b)))
        × MatrixRuns b polls (poll_matrix S polls b)
  tasks_lem polls b = (poll_irc_lem b, poll_matrix_lem polls b)
