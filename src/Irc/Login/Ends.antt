-- ===== src/Irc/Login/Ends.antt =====
-- src/irc/mod.rs: what a login comes to.
use matrix_ircd.Prelude.{
  suc, ◌≡◌, refl, sym, ap, subst, ◌∙◌, Bool, true, false, ◌&&◌, Option, none, some, List, [], ◌∷◌,
  ◌++◌, arith, length,
}
use matrix_ircd.Prelude.{returns}
use matrix_ircd.Prelude.{or_else}
use matrix_ircd.StreamFold.{empty, full}
use matrix_ircd.StreamFold.Runs.{
  Folds, start, item, Ends, finished, at_end, broken, waits, poll_lem,
}
use matrix_ircd.Text.{Str}
use matrix_ircd.Irc.Models
use matrix_ircd.Irc.Protocol.IrcCommand.{IrcCommand}
use matrix_ircd.Irc.Socket.{IoError, Poll, ready, not_ready, failed}
use matrix_ircd.Irc.Transport
use matrix_ircd.Irc.Transport.{IrcServerConnection, write_password_required}
use matrix_ircd.Irc.Transport.Bounds.{IsBuffered}
use matrix_ircd.Irc.Transport.Reading.{inbound}
use matrix_ircd.Irc.Transport.ReadSide.{poll-shorter, poll_returns}
use matrix_ircd.Irc.User.Rounds.{inbound-le-commands_left}
use matrix_ircd.Irc.User.{IrcUserConnection, commands_left}
use matrix_ircd.Irc.Login.{
  lost, UserNick, is_some, note, is_complete, take_command, no_password_error, ended_error,
  LoginEnd, accepted, refused, died, expect, prefix_of, with_password, finish_login, Login, waiting,
  ended, LoginState, and_then, rounds, poll_login,
}

-- The commands that polls of the connection give one after another.
pub data Gives : IrcServerConnection → List IrcCommand → IrcServerConnection → Type 0 where
  none_yet : {c : IrcServerConnection} → Gives c [] c
  gives :
      {c c' end : IrcServerConnection} {cmd : IrcCommand} {cmds : List IrcCommand}
      → Transport.poll c ≡ returns (ready (some cmd), c')
      → Gives c' cmds end
      → Gives c (cmd ∷ cmds) end

-- The last of the commands that name a nick, a user with a real name, or a password.
abbrev nick_in : IrcCommand → Option Str
nick_in (IrcCommand.nick n) = some n
nick_in cmd = none

abbrev user_in : IrcCommand → Option Str
user_in (IrcCommand.user n real_name) = some n
user_in cmd = none

abbrev real_name_in : IrcCommand → Option Str
real_name_in (IrcCommand.user n real_name) = some real_name
real_name_in cmd = none

abbrev password_in : IrcCommand → Option Str
password_in (IrcCommand.pass p) = some p
password_in cmd = none

abbrev last_of : (IrcCommand → Option Str) → List IrcCommand → Option Str
last_of f [] = none
last_of f (cmd ∷ cmds) = or_else (last_of f cmds) (f cmd)

-- What is known behind commands: what the last of them said, or else what was known before.
abbrev pub known : UserNick → List IrcCommand → UserNick
known u cmds = record {
  nick = or_else (last_of nick_in cmds) u.nick;
  user = or_else (last_of user_in cmds) u.user;
  real_name = or_else (last_of real_name_in cmds) u.real_name;
  password = or_else (last_of password_in cmds) u.password;
}

note_lem : (cmd : IrcCommand) (u : UserNick) → note cmd u ≡ known u (cmd ∷ [])
unfolding note
note_lem (IrcCommand.nick n) u = refl
note_lem (IrcCommand.user n r) u = refl
note_lem (IrcCommand.pass p) u = refl
note_lem cmd u = refl

or_else_assoc : (a b c : Option Str) → or_else (or_else a b) c ≡ or_else a (or_else b c)
or_else_assoc none b c = refl
or_else_assoc (some x) b c = refl

known-cons :
    (cmd : IrcCommand) (cmds : List IrcCommand) (u : UserNick)
    → known (note cmd u) cmds ≡ known u (cmd ∷ cmds)
known-cons cmd cmds u = simp (note_lem, or_else_assoc)

take_command-false :
    (cmd : IrcCommand) (u v : UserNick) (b : Bool)
    → take_command cmd u ≡ (b, v)
    → (is_complete (note cmd u) ≡ b) × (note cmd u ≡ v)
unfolding take_command
take_command-false cmd u v b h = (ap (λ p. p.0) h, ap (λ p. p.1) h)

Folds-Gives :
    (c end : IrcServerConnection) (u v : UserNick) (cmds : List IrcCommand)
    → Folds Transport.poll take_command c u cmds end v
    → Gives c cmds end × (v ≡ known u cmds)
Folds-Gives c end u v [] start = (none_yet, refl)
Folds-Gives c end u v (cmd ∷ cmds) (item {stream' = c'} {value' = w} e f h) =
    let (g, k) = Folds-Gives c' end w v cmds h in
    let (_, noted) = take_command-false cmd u w false f in
    (gives e g, k ∙ ap (λ (x : UserNick). known x cmds) (sym noted) ∙ known-cons cmd cmds u)

Gives-append :
    {c d end : IrcServerConnection} {cmds more : List IrcCommand}
    → Gives c cmds d
    → Gives d more end
    → Gives c (cmds ++ more) end
Gives-append none_yet h = h
Gives-append (gives e g) h = gives e (Gives-append g h)

known-append :
    (u : UserNick) (cmds : List IrcCommand) (cmd : IrcCommand)
    → known u (cmds ++ cmd ∷ []) ≡ note cmd (known u cmds)
known-append u [] cmd = sym (note_lem cmd u)
known-append u (x ∷ cmds) cmd =
    sym (known-cons x (cmds ++ cmd ∷ []) u)
    ∙ known-append (note x u) cmds cmd
    ∙ ap (note cmd) (known-cons x cmds u)

-- What a poll of the login comes to, from a connection and what is known before.
pub data Logins (server_name : Str) (c : IrcServerConnection) (u : UserNick)
    : Login → LoginState → Type 0 where
  logs_in :
      (cmds : List IrcCommand) (a : IrcUserConnection)
      → Gives c cmds a.conn
      → known u cmds ≡ record {
        nick = some a.nick;
        user = some a.user;
        real_name = some a.real_name;
        password = some a.password;
      }
      → a.server_name ≡ server_name
      → a.user_prefix ≡ prefix_of a.nick a.user server_name
      → a.server_model ≡ Models.new
      → Logins server_name c u (ended (accepted a)) empty
  lacks_password :
      (cmds : List IrcCommand) {d : IrcServerConnection} {nick : Str}
      → Gives c cmds d
      → is_complete (known u cmds) ≡ true
      → (known u cmds).nick ≡ some nick
      → (known u cmds).password ≡ none
      → Logins server_name c u
          (ended (refused no_password_error (write_password_required d nick)))
          empty
  hangs_up :
      (cmds : List IrcCommand) {d d' : IrcServerConnection}
      → Gives c cmds d
      → Transport.poll d ≡ returns (ready none, d')
      → Logins server_name c u (ended (died ended_error)) empty
  breaks :
      (cmds : List IrcCommand) {d d' : IrcServerConnection} {e : IoError}
      → Gives c cmds d
      → Transport.poll d ≡ returns (failed e, d')
      → Logins server_name c u (lost e) empty
  goes_on :
      (cmds : List IrcCommand) {d d' : IrcServerConnection}
      → Gives c cmds d
      → Transport.poll d ≡ returns (not_ready, d')
      → Logins server_name c u waiting (full d' (known u cmds))

module _ (server_name : Str) (c d : IrcServerConnection) (u : UserNick) (cmds : List IrcCommand)
    (g : Gives c cmds d) where
  abbrev Finishes : UserNick → Type 0
  Finishes v =
      (r : LoginEnd) × (finish_login server_name (some (v, d)) ≡ returns r)
      × Logins server_name c u (ended r) empty

  -- The end of a complete login, by what is known.
  finish_fields :
      (n us rn pw : Option Str)
      → known u cmds ≡ record { nick = n; user = us; real_name = rn; password = pw }
      → (is_some n && is_some us && is_some rn) ≡ true
      → Finishes (record { nick = n; user = us; real_name = rn; password = pw })
  unfolding finish_login with_password expect
  finish_fields (some n) (some us) (some rn) (some pw) k complete =
      (_, refl, logs_in cmds _ g k refl refl refl)
  finish_fields (some n) us rn none k complete = (
    _,
    refl,
    lacks_password cmds g (ap (λ (x : UserNick). is_complete x) k ∙ complete)
        (ap (λ (x : UserNick). x.nick) k) (ap (λ (x : UserNick). x.password) k),
  )
  finish_fields (some n) none rn (some pw) k complete = absurd (cc)
  finish_fields (some n) (some us) none (some pw) k complete = absurd (cc)
  finish_fields none us rn pw k complete = absurd (cc)

  finish_complete : (v : UserNick) → known u cmds ≡ v → is_complete v ≡ true → Finishes v
  finish_complete v k complete = finish_fields v.nick v.user v.real_name v.password k complete

-- The four ends of a fold are ends of the login.
ends_lem :
    (server_name : Str) (c : IrcServerConnection) (u : UserNick)
    (p : Poll (Option (UserNick × IrcServerConnection))) (state : LoginState)
    → Ends Transport.poll take_command c u p state
    → (r : Login) × (state' : LoginState) × (and_then server_name p state ≡ returns (r, state'))
      × Logins server_name c u r state'
unfolding and_then finish_login
ends_lem server_name c u p state (finished {s = s} {s' = d} {v = v} {w = w} {i = cmd} items h e f) =
    let (g, k) = Folds-Gives c s u v items h in
    let (complete, noted) = take_command-false cmd v w true f in
    let g' = Gives-append g (gives e none_yet) in
    let k' : known u (items ++ cmd ∷ []) ≡ w =
      known-append u items cmd ∙ ap (note cmd) (sym k) ∙ noted in
    let (r, q, l) =
      finish_complete server_name c d u (items ++ cmd ∷ []) g' w k'
        (ap is_complete (sym noted) ∙ complete) in
    (ended r, empty, rw q refl, l)
ends_lem server_name c u p state (at_end {s = s} {v = v} items h e) =
    let (g, k) = Folds-Gives c s u v items h in (_, _, refl, hangs_up items g e)
ends_lem server_name c u p state (broken {s = s} {v = v} items h e) =
    let (g, k) = Folds-Gives c s u v items h in (_, _, refl, breaks items g e)
ends_lem server_name c u p state (waits {s = s} {s' = d} {v = v} items h e) =
    let (g, k) = Folds-Gives c s u v items h in
    (
      _,
      _,
      refl,
      subst (λ (x : UserNick). Logins server_name c u waiting (full d x)) (sym k)
          (goes_on items g e),
    )

-- As long as the login is not over and the read buffer is within its bound, a poll of it returns
-- without a panic, and is over or waits. It is a user connection with the names and the password
-- that the last commands gave, a refusal where there was no password, the end of the stream, its
-- error, or the wait with what is known so far.
pub poll_login_lem :
    (server_name : Str) (c : IrcServerConnection) (u : UserNick)
    → IsBuffered c
    → (r : Login) × (state : LoginState) × (poll_login server_name (full c u) ≡ returns (r, state))
      × Logins server_name c u r state
unfolding poll_login rounds
poll_login_lem server_name c u buffered =
    let (p, state, e, h) =
      poll_lem Transport.poll take_command (λ (d : IrcServerConnection). length (inbound d))
        IsBuffered poll_returns poll-shorter (suc (commands_left c)) c u
        (omega (arith, inbound-le-commands_left c)) buffered in
    let (r, state', q, l) = ends_lem server_name c u p state h in (r, state', rw e q, l)
