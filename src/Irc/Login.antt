-- ===== src/Irc/Login.antt =====
-- src/irc/mod.rs: `await_login`, which folds the first commands of a connection into a login. Nothing
-- is logged.
pub mod Ends
use matrix_ircd.Prelude.{
  ℕ, zero, suc, ◌+◌, ◌-◌, ◌*◌, ◌/◌, ◌%◌, ◌<◌, ◌≤◌, ◌≡◌, refl, sym, ap, ap₂, subst, ◌∙◌, ◌≡⟨◌⟩◌, ◌∎,
  Bool, true, false, ◌&&◌, ◌||◌, not, ◌≢◌, ◌↔◌, ◌⊎◌, inl, inr, Option, none, some, List, [], ◌∷◌,
  ◌++◌, map, append-nil, append_assoc, arith, leb, ltb, ◌==◌, if◌then◌else◌, Bool-cases,
  Option-cases, length, length-append, get_elem?, take, drop, String, ==_iff,
}
use matrix_ircd.Prelude.{Outcome, returns, panics, ◌>>=◌, >>=-eq-returns}
use matrix_ircd.StreamFold
use matrix_ircd.StreamFold.{StreamFoldState, full}
use matrix_ircd.Text.{Str, codes}
use matrix_ircd.Irc.Models
use matrix_ircd.Irc.Protocol.IrcCommand.{IrcCommand}
use matrix_ircd.Irc.Socket.{
  IoError, invalid_data, unexpected_eof, Poll, ready, not_ready, failed, Socket,
}
use matrix_ircd.Irc.Transport
use matrix_ircd.Irc.Transport.{IrcServerConnection, write_password_required}
use matrix_ircd.Irc.User.{IrcUserConnection, commands_left}

pub record UserNick : Type 0 where
  pub nick : Option Str
  pub user : Option Str
  pub real_name : Option Str
  pub password : Option Str

abbrev pub default : UserNick
default = record { nick = none; user = none; real_name = none; password = none }

abbrev pub is_some {ℓ} : {A : Type ℓ} → Option A → Bool
is_some none = false
is_some (some a) = true

-- The match on the command; others are ignored.
unfoldable pub note : IrcCommand → UserNick → UserNick
note (IrcCommand.nick n) u = record u { nick = some n }
note (IrcCommand.user name real_name) u = record u { user = some name; real_name = some real_name }
note (IrcCommand.pass p) u = record u { password = some p }
note cmd u = u

abbrev pub is_complete : UserNick → Bool
is_complete u = is_some u.nick && is_some u.user && is_some u.real_name

-- The function that is folded.
unfoldable pub take_command : IrcCommand → UserNick → Bool × UserNick
take_command cmd u = let noted = note cmd u in (is_complete noted, noted)

abbrev pub no_password_error : IoError
no_password_error = record {
  kind = invalid_data;
  message = codes "IRC user did not supply password";
}

abbrev pub ended_error : IoError
ended_error = record { kind = unexpected_eof; message = codes "IRC stream ended during login" }

-- What a login comes to. A refused connection is dropped with what was written to it.
pub data LoginEnd : Type 0 where
  accepted : IrcUserConnection → LoginEnd
  refused : IoError → IrcServerConnection → LoginEnd
  died : IoError → LoginEnd

-- `expect`.
expect {ℓ} : {A : Type ℓ} → Option A → Outcome A
expect none = panics
expect (some a) = returns a

-- `format!("{}!{}@{}", …)`.
abbrev pub prefix_of : Str → Str → Str → Str
prefix_of nick user server_name = nick ++ (b'!' ∷ (user ++ (b'@' ∷ server_name)))

-- The rest behind the nick, by the password.
with_password : Str → UserNick → IrcServerConnection → Str → Option Str → Outcome LoginEnd
unfolding expect
with_password server_name u conn nick none =
    returns (refused no_password_error (write_password_required conn nick))
with_password server_name u conn nick (some password) = expect u.user >>= λ user.
    expect u.real_name >>= λ real_name. returns (
      accepted (record {
        conn = conn;
        user = user;
        nick = nick;
        real_name = real_name;
        password = password;
        server_name = server_name;
        user_prefix = prefix_of nick user server_name;
        server_model = Models.new;
      }))

-- The closure behind the fold.
unfoldable pub finish_login : Str → Option (UserNick × IrcServerConnection) → Outcome LoginEnd
unfolding expect with_password
finish_login server_name none = returns (died ended_error)
finish_login server_name (some (u, conn)) =
    expect u.nick >>= λ nick. with_password server_name u conn nick u.password

-- What a poll of the login gives: nothing yet, its end, or an error of the connection.
pub data Login : Type 0 where
  waiting : Login
  ended : LoginEnd → Login
  lost : IoError → Login

abbrev pub LoginState : Type 0
LoginState = StreamFoldState IrcServerConnection UserNick

-- `and_then`.
and_then :
    Str → Poll (Option (UserNick × IrcServerConnection)) → LoginState → Outcome (Login × LoginState)
unfolding finish_login
and_then server_name (ready opt) state =
    finish_login server_name opt >>= λ r. returns (ended r, state)
and_then server_name not_ready state = returns (waiting, state)
and_then server_name (failed e) state = returns (lost e, state)

-- As many rounds as commands can come.
rounds : LoginState → ℕ
rounds StreamFold.empty = 0
rounds (full conn u) = suc (commands_left conn)

unfoldable pub await_login : Str → Socket → LoginState
unfolding StreamFold.new Transport.new
await_login server_name stream = StreamFold.new (Transport.new stream server_name) default

-- A poll of the future that `await_login` gives.
unfoldable pub poll_login : Str → LoginState → Outcome (Login × LoginState)
unfolding StreamFold.poll Transport.poll take_command and_then rounds
poll_login server_name state =
    StreamFold.poll Transport.poll take_command (rounds state) state >>= λ r.
    and_then server_name r.0 r.1
