-- ===== src/Irc/User/Shorter.antt =====
-- src/irc/mod.rs: `poll` of the user connection, and the bytes still to come behind a command.
use matrix_ircd.Prelude.{ℕ, zero, suc, ◌<◌, ◌≤◌, ◌≡◌, refl, ap, Option, none, some, arith, length}
use matrix_ircd.Prelude.{Outcome, returns, panics, ◌>>=◌}
use matrix_ircd.Text.Utf8.{Bytes}
use matrix_ircd.Irc.Protocol.IrcCommand.{IrcCommand}
use matrix_ircd.Irc.Socket.{Poll, ready, not_ready, failed}
use matrix_ircd.Irc.Transport
use matrix_ircd.Irc.Transport.{IrcServerConnection}
use matrix_ircd.Irc.Transport.Reading.{inbound}
use matrix_ircd.Irc.Transport.ReadSide.{poll-shorter}
use matrix_ircd.Irc.User.{
  IrcUserConnection, Handled, go_on, hand_over, handle_cmd, PollResult, after_cmd, after_poll,
  poll_loop, poll, commands_left,
}
use matrix_ircd.Irc.User.Rounds.{GoesOn, handle_cmd-GoesOn}

-- If it gives a command, fewer bytes than `n` are left.
abbrev pub Shorter : ℕ → PollResult → Type 0
Shorter n (returns (ready (some cmd), c)) = length (inbound c.conn) < n
Shorter n (returns (ready none, c)) = Unit
Shorter n (returns (not_ready, c)) = Unit
Shorter n (returns (failed e, c)) = Unit
Shorter n panics = Unit

Shorter-weaken : (n m : ℕ) (r : PollResult) → n ≤ m → Shorter n r → Shorter m r
Shorter-weaken n m (returns (ready (some cmd), c)) le h = omega arith
Shorter-weaken n m (returns (ready none, c)) le h = tt
Shorter-weaken n m (returns (not_ready, c)) le h = tt
Shorter-weaken n m (returns (failed e, c)) le h = tt
Shorter-weaken n m panics le h = tt

after_cmd-Shorter :
    (again : IrcUserConnection → PollResult) (c : IrcUserConnection) (n : ℕ) (m : Outcome Handled)
    → ((c' : IrcUserConnection) → Shorter (length (inbound c'.conn)) (again c'))
    → GoesOn c m
    → length (inbound c.conn) < n
    → Shorter n (m >>= after_cmd again)
unfolding after_cmd
after_cmd-Shorter again c n (returns (go_on c')) ih h lt =
    let e = ap (λ (b : Bytes). length b) (h (go_on c') refl) in
    Shorter-weaken (length (inbound c'.conn)) n (again c') (omega arith) (ih c')
after_cmd-Shorter again c n (returns (hand_over cmd c')) ih h lt =
    omega (arith, ap (λ (b : Bytes). length b) (h (hand_over cmd c') refl))
after_cmd-Shorter again c n panics ih h lt = tt

after_poll-Shorter :
    (again : IrcUserConnection → PollResult) (c : IrcUserConnection)
    (m : Outcome (Poll (Option IrcCommand) × IrcServerConnection))
    → Transport.poll c.conn ≡ m
    → ((c' : IrcUserConnection) → Shorter (length (inbound c'.conn)) (again c'))
    → Shorter (length (inbound c.conn)) (m >>= λ r. after_poll again (record c { conn = r.1 }) r.0)
unfolding after_poll
after_poll-Shorter again c (returns (ready (some cmd), d)) e ih =
    let c' = record c { conn = d } in
    after_cmd-Shorter again c' (length (inbound c.conn)) (handle_cmd c' cmd) ih
      (handle_cmd-GoesOn c' cmd) (poll-shorter c.conn d cmd e)
after_poll-Shorter again c (returns (ready none, d)) e ih = tt
after_poll-Shorter again c (returns (not_ready, d)) e ih = tt
after_poll-Shorter again c (returns (failed x, d)) e ih = tt
after_poll-Shorter again c panics e ih = tt

poll_loop-Shorter :
    (fuel : ℕ) (c : IrcUserConnection) → Shorter (length (inbound c.conn)) (poll_loop fuel c)
unfolding poll_loop
poll_loop-Shorter zero c = tt
poll_loop-Shorter (suc fuel) c =
    after_poll-Shorter (poll_loop fuel) c (Transport.poll c.conn) refl (poll_loop-Shorter fuel)

pub poll-Shorter : (c : IrcUserConnection) → Shorter (length (inbound c.conn)) (poll c)
unfolding poll
poll-Shorter c = poll_loop-Shorter (suc (commands_left c.conn)) c
