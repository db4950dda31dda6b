-- ===== src/Irc/Protocol/IrcCommand.antt =====
-- src/irc/protocol.rs: `IrcCommand`, read from a line.
use matrix_ircd.Prelude.{Option, none, some, List, [], get_elem?}
use mathlib.Core.Option
use matrix_ircd.Prelude.{Outcome, returns, ◌>>=◌}
use matrix_ircd.Text.{Str}
use matrix_ircd.Irc.Protocol.Command.{Command}
use matrix_ircd.Irc.Protocol.Line.{IrcLine, parse_irc_line}

pub data IrcCommand : Type 0 where
  nick : (nick : Str) → IrcCommand
  user : (user real_name : Str) → IrcCommand
  join : (channel : Str) → IrcCommand
  part : (channel : Str) → IrcCommand
  quit : IrcCommand
  ping : (payload : Str) → IrcCommand
  mode : (target : Str) (mask : Option Str) → IrcCommand
  pong : (payload : Str) → IrcCommand
  pass : (password : Str) → IrcCommand
  priv_msg : (channel text : Str) → IrcCommand
  topic : (channel topic : Str) → IrcCommand
  who : (matches : Str) → IrcCommand
  away : (message : Str) → IrcCommand

-- `if let (Some(a), Some(b)) = (…)`.
both : Option Str → Option Str → (Str → Str → IrcCommand) → Option IrcCommand
both (some a) (some b) f = some (f a b)
both _ _ f = none

away_of : Option Str → IrcCommand
away_of (some message) = away message
away_of none = away []

-- `it.nth(i)` on a fresh iterator is the argument at `i`; a second `it.nth(j)` is the one at
-- `i + 1 + j`.
from_args : Command → List Str → Option IrcCommand
unfolding both away_of
from_args Command.nick args = Option.map nick (get_elem? args 0)
from_args Command.user args = both (get_elem? args 0) (get_elem? args 3) user
from_args Command.join args = Option.map join (get_elem? args 0)
from_args Command.part args = Option.map part (get_elem? args 0)
from_args Command.quit args = some quit
from_args Command.ping args = Option.map ping (get_elem? args 0)
from_args Command.mode args =
    Option.map (λ target. mode target (get_elem? args 1)) (get_elem? args 0)
from_args Command.pong args = Option.map pong (get_elem? args 0)
from_args Command.pass args = Option.map pass (get_elem? args 0)
from_args Command.priv_msg args = both (get_elem? args 0) (get_elem? args 1) priv_msg
from_args Command.topic args = both (get_elem? args 0) (get_elem? args 1) topic
from_args Command.who args = Option.map who (get_elem? args 0)
from_args (Command.numeric _ _) args = none
from_args Command.unknown args = none
from_args Command.away args = some (away_of (get_elem? args 0))

unfoldable pub from_irc_line : IrcLine → Option IrcCommand
unfolding from_args
from_irc_line l = from_args l.command l.args

unfoldable pub command : IrcCommand → Command
command (nick _) = Command.nick
command (user _ _) = Command.user
command (join _) = Command.join
command (part _) = Command.part
command quit = Command.quit
command (ping _) = Command.ping
command (mode _ _) = Command.mode
command (pong _) = Command.pong
command (pass _) = Command.pass
command (priv_msg _ _) = Command.priv_msg
command (topic _ _) = Command.topic
command (who _) = Command.who
command (away _) = Command.away

-- `FromStr`: `none` stands for `Err(())`.
unfoldable pub from_str : Str → Outcome (Option IrcCommand)
unfolding parse_irc_line from_irc_line
from_str line = parse_irc_line line >>= λ l. returns (Option.bind l from_irc_line)
