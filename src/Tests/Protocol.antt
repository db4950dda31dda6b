-- ===== src/Tests/Protocol.antt =====
-- The tests of src/irc/protocol.rs, and the theorems on its parser at concrete lines.
use matrix_ircd.Prelude.{◌≡◌, refl, inl, Option, none, some, List, [], ◌∷◌, ◌++◌}
use matrix_ircd.Prelude.{returns, panics}
use matrix_ircd.Text.{Str, codes, same}
use mathlib.Core.Option
use matrix_ircd.Text.Utf8.{as_bytes}
use matrix_ircd.Irc.Protocol.Command.{Command, from_string, from_ref, to_str}
use matrix_ircd.Irc.Protocol.Command.Conversions.{
  read_command, unless_numeric, to_str-from_string, from_ref_lem,
}
use matrix_ircd.Irc.Protocol.Line.{IrcLine, nospcrlfcl, parse_irc_line}
use matrix_ircd.Irc.Protocol.Line.Grammar.{
  render, trailing_args, parse_irc_line-render, parse_irc_line_total, AllParams, PrefixFits,
  TrailingFits,
}
use matrix_ircd.Irc.Protocol.Line.Words.{IsCommandWord}
use matrix_ircd.Irc.Protocol.Line.Sound.{parse_irc_line_sound}
use matrix_ircd.Irc.Protocol.IrcCommand
use matrix_ircd.Irc.Protocol.IrcCommand.{from_str}

abbrev privmsg_line : IrcLine
privmsg_line = record {
  prefix = some (codes "example.com");
  command = Command.priv_msg;
  args = codes "#test" ∷ codes "Some text" ∷ [];
}

simple_nick :
    parse_irc_line (codes "NICK test")
    ≡ returns (some (record { prefix = none; command = Command.nick; args = codes "test" ∷ [] }))
unfolding parse_irc_line same
simple_nick = refl

simple_nick_command : from_str (codes "NICK test") ≡ returns (some (IrcCommand.nick (codes "test")))
unfolding from_str same Option.bind
simple_nick_command = refl

simple_user :
    from_str (codes "USER test * * :Real Name")
    ≡ returns (some (IrcCommand.user (codes "test") (codes "Real Name")))
unfolding from_str same Option.bind
simple_user = refl

simple_prefix :
    parse_irc_line (codes ":example.com PRIVMSG #test :Some text") ≡ returns (some privmsg_line)
unfolding parse_irc_line same
simple_prefix = refl

simple_numeric :
    parse_irc_line (codes "001 test :Some text")
    ≡ returns (
        some (record {
          prefix = none;
          command = Command.numeric 1 (as_bytes (codes "001"));
          args = codes "test" ∷ codes "Some text" ∷ [];
        }))
unfolding parse_irc_line as_bytes same
simple_numeric = refl

parse_irc_line-render_example :
    parse_irc_line
      (render (some (codes "me")) (codes "PING") (codes "#a" ∷ []) (some (codes "b :c")))
    ≡ returns (
        some (record {
          prefix = some (codes "me");
          command = read_command (codes "PING");
          args = codes "#a" ∷ trailing_args (some (codes "b :c"));
        }))
unfolding nospcrlfcl
parse_irc_line-render_example =
    parse_irc_line-render (some (codes "me")) (codes "PING") (codes "#a" ∷ []) (some (codes "b :c"))
      ((λ e. cc), (refl, (refl, tt))) (inl ((λ e. cc), (refl, (refl, (refl, (refl, tt))))))
      ((refl, (refl, tt)), tt) (refl, (refl, (refl, (refl, tt))))

parse_irc_line_total_example : (l : Option IrcLine) × (parse_irc_line (codes ":a  ") ≡ returns l)
parse_irc_line_total_example = parse_irc_line_total (codes ":a  ")

parse_irc_line_sound_example :
    (prefix : Option Str) × (word : Str) × (params : List Str) × (trailing : Option Str)
    × PrefixFits prefix
    × IsCommandWord word
    × AllParams params
    × TrailingFits trailing
    × (privmsg_line ≡ record {
      prefix = prefix;
      command = read_command word;
      args = params ++ trailing_args trailing;
    })
    × (parse_irc_line (render prefix word params trailing) ≡ returns (some privmsg_line))
parse_irc_line_sound_example =
    parse_irc_line_sound (codes ":example.com PRIVMSG #test :Some text") privmsg_line simple_prefix

to_str-from_string_example : to_str (Command.numeric 1 (codes "001")) ≡ returns (codes "001")
to_str-from_string_example =
    to_str-from_string (codes "001") (Command.numeric 1 (codes "001")) (refl, (refl, (refl, tt)))
      (unfold from_string as_bytes same in refl) (λ e. cc)

from_ref_lem_example :
    (c : Command) × (from_string (codes "001") ≡ returns c)
    × (from_ref (codes "001") ≡ unless_numeric c)
from_ref_lem_example = from_ref_lem (codes "001")

-- The conversion from `&str` panics at a numeric.
from_ref_panics : from_ref (codes "001") ≡ panics
unfolding from_ref same
from_ref_panics = refl
