-- ===== src/Irc/Protocol/Command.antt =====
-- src/irc/protocol.rs: `Command`, its two conversions from text and `to_str`.
pub mod Conversions
use matrix_ircd.Prelude.{
  ℕ, Bool, true, ◌&&◌, Option, none, some, [], ◌∷◌, leb, ltb, ◌==◌, if◌then◌else◌, get_elem?,
}
use matrix_ircd.Prelude.{Outcome, returns, panics, ◌>>=◌}
use matrix_ircd.Text.{Str, codes, same, byte_len}
use matrix_ircd.Text.Decimal.{parse_below}
use matrix_ircd.Text.Utf8.{Bytes, as_bytes, from_utf8}

-- `Numeric` holds the code and the three bytes of its text.
pub data Command : Type 0 where
  nick user join part quit ping mode pong pass priv_msg topic who away : Command
  numeric : (code : ℕ) (string : Bytes) → Command
  unknown : Command

-- `str::parse::<u16>`.
unfoldable pub parse_u16 : Str → Option ℕ
unfolding parse_below
parse_u16 = parse_below 65536

-- The arms that both conversions share.
unfoldable pub keyword : Str → Option Command
keyword cmd =
    if same cmd (codes "NICK")
    then some nick
    else if same cmd (codes "USER")
    then some user
    else if same cmd (codes "JOIN")
    then some join
    else if same cmd (codes "PART")
    then some part
    else if same cmd (codes "QUIT")
    then some quit
    else if same cmd (codes "PING")
    then some ping
    else if same cmd (codes "PONG")
    then some pong
    else if same cmd (codes "MODE")
    then some mode
    else if same cmd (codes "PASS")
    then some pass
    else if same cmd (codes "PRIVMSG")
    then some priv_msg
    else if same cmd (codes "TOPIC")
    then some topic
    else if same cmd (codes "WHO")
    then some who
    else if same cmd (codes "AWAY")
    then some away
    else none

-- `bytes[i]`.
index : Bytes → ℕ → Outcome ℕ
index bytes i = elim (get_elem? bytes i) [ none ↦ panics | some b ↦ returns b ]

-- The array of the bytes at 0, 1 and `last`.
three_bytes : Bytes → ℕ → Outcome Bytes
unfolding index
three_bytes bytes last = do
  a ← index bytes 0
  b ← index bytes 1
  c ← index bytes last
  returns (a ∷ b ∷ c ∷ [])

-- The last arm; `last` is the third index that the conversion uses.
numeric_or_unknown : ℕ → Str → Outcome Command
unfolding byte_len parse_u16 three_bytes as_bytes
numeric_or_unknown last cmd =
    if byte_len cmd == 3
    then elim (parse_u16 cmd) [
      | some c ↦ three_bytes (as_bytes cmd) last >>= λ string. returns (numeric c string)
      | none ↦ returns unknown
    ]
    else returns unknown

-- `From<&str>`: the third index is 3.
unfoldable pub from_ref : Str → Outcome Command
unfolding keyword numeric_or_unknown
from_ref cmd = elim (keyword cmd) [ some c ↦ returns c | none ↦ numeric_or_unknown 3 cmd ]

-- `From<String>`: the third index is 2.
unfoldable pub from_string : Str → Outcome Command
unfolding keyword numeric_or_unknown
from_string cmd = elim (keyword cmd) [ some c ↦ returns c | none ↦ numeric_or_unknown 2 cmd ]

unfoldable pub to_str : Command → Outcome Str
unfolding from_utf8
to_str nick = returns (codes "NICK")
to_str user = returns (codes "USER")
to_str join = returns (codes "JOIN")
to_str part = returns (codes "PART")
to_str quit = returns (codes "QUIT")
to_str ping = returns (codes "PING")
to_str mode = returns (codes "MODE")
to_str pong = returns (codes "PONG")
to_str pass = returns (codes "PASS")
to_str priv_msg = returns (codes "PRIVMSG")
to_str topic = returns (codes "TOPIC")
to_str who = returns (codes "WHO")
to_str away = returns (codes "AWAY")
to_str (numeric _ string) = elim (from_utf8 string) [ some s ↦ returns s | none ↦ panics ]
to_str unknown = returns (codes "<UNKNOWN>")
