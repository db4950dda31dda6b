-- ===== src/Irc/Protocol/Command/Conversions.antt =====
-- `Command` and its text: the two conversions, and the way back.
use matrix_ircd.Prelude.{
  ℕ, ◌≡◌, refl, ◌≢◌, none, some, [], ◌∷◌, arith, ◌==◌, if◌then◌else◌, length, length-append,
}
use matrix_ircd.Prelude.{Outcome, returns, panics}
use matrix_ircd.Text.{Str, codes, same_iff, byte_len, utf8_width}
use matrix_ircd.Text.Utf8.{Bytes, encode, as_bytes, AllScalar, from_utf8-as_bytes}
use matrix_ircd.Irc.Protocol.Command.{
  Command, numeric, unknown, keyword, three_bytes, numeric_or_unknown, from_ref, from_string,
  to_str, parse_u16,
}

length-encode : (c : ℕ) → length (encode c) ≡ utf8_width c
unfolding encode utf8_width
length-encode c = ground arith

-- `len()` is the number of bytes.
pub length-as_bytes : (s : Str) → length (as_bytes s) ≡ byte_len s
unfolding as_bytes byte_len
length-as_bytes [] = refl
length-as_bytes (c ∷ s) =
    omega (arith, length-append (encode c) (as_bytes s), length-encode c, length-as_bytes s)

three_bytes_of_three :
    (b : Bytes) → length b ≡ 3 → (three_bytes b 2 ≡ returns b) × (three_bytes b 3 ≡ panics)
unfolding three_bytes
three_bytes_of_three [] h = absurd (omega arith)
three_bytes_of_three (x ∷ []) h = absurd (omega arith)
three_bytes_of_three (x ∷ y ∷ []) h = absurd (omega arith)
three_bytes_of_three (x ∷ y ∷ z ∷ []) h = (refl, refl)
three_bytes_of_three (x ∷ y ∷ z ∷ w ∷ b) h = absurd (omega arith)

-- What the last arm of the conversion from `String` gives.
abbrev last_arm : Str → Command
last_arm cmd =
    if byte_len cmd == 3
    then elim (parse_u16 cmd) [ some c ↦ numeric c (as_bytes cmd) | none ↦ unknown ]
    else unknown

numeric_or_unknown_lem : (cmd : Str) → numeric_or_unknown 2 cmd ≡ returns (last_arm cmd)
unfolding numeric_or_unknown
numeric_or_unknown_lem cmd =
    ground (arith, three_bytes_of_three (as_bytes cmd), length-as_bytes cmd)

-- The command that a text stands for.
unfoldable pub read_command : Str → Command
read_command cmd = elim (keyword cmd) [ some c ↦ c | none ↦ last_arm cmd ]

-- The conversion from `String` never panics.
pub from_string_lem : (cmd : Str) → from_string cmd ≡ returns (read_command cmd)
unfolding from_string read_command
from_string_lem cmd = ground (arith, numeric_or_unknown_lem cmd)

-- A keyword's command has the keyword as its text, and is neither a numeric nor unknown.
keyword-to_str : (cmd : Str) (c : Command) → keyword cmd ≡ some c → to_str c ≡ returns cmd
unfolding keyword to_str
keyword-to_str cmd c h = ground (
  arith,
  same_iff cmd (codes "NICK"),
  same_iff cmd (codes "USER"),
  same_iff cmd (codes "JOIN"),
  same_iff cmd (codes "PART"),
  same_iff cmd (codes "QUIT"),
  same_iff cmd (codes "PING"),
  same_iff cmd (codes "PONG"),
  same_iff cmd (codes "MODE"),
  same_iff cmd (codes "PASS"),
  same_iff cmd (codes "PRIVMSG"),
  same_iff cmd (codes "TOPIC"),
  same_iff cmd (codes "WHO"),
  same_iff cmd (codes "AWAY"),
)

keyword_not_numeric :
    (cmd : Str) (code : ℕ) (string : Bytes) → keyword cmd ≢ some (numeric code string)
unfolding keyword
keyword_not_numeric cmd code string h = ground arith

last_arm-to_str :
    (cmd : Str) → AllScalar cmd → last_arm cmd ≢ unknown → to_str (last_arm cmd) ≡ returns cmd
unfolding to_str
last_arm-to_str cmd valid ne = ground (arith, from_utf8-as_bytes cmd valid)

-- If a valid text is read as a command other than the unknown one, then the text of that command is
-- this text, for keywords and numerics alike.
pub to_str-from_string :
    (cmd : Str) (c : Command)
    → AllScalar cmd
    → from_string cmd ≡ returns c
    → c ≢ unknown
    → to_str c ≡ returns cmd
unfolding read_command
to_str-from_string cmd c valid h ne =
    ground (arith, from_string_lem cmd, keyword-to_str cmd c, last_arm-to_str cmd valid)

-- A numeric is a panic, and every other command is returned.
unfoldable pub unless_numeric : Command → Outcome Command
unless_numeric (numeric code string) = panics
unless_numeric c = returns c

from_ref_reads : (cmd : Str) → from_ref cmd ≡ unless_numeric (read_command cmd)
unfolding from_ref numeric_or_unknown read_command unless_numeric
from_ref_reads cmd =
    ground
      (arith, three_bytes_of_three (as_bytes cmd), length-as_bytes cmd, keyword_not_numeric cmd)

-- The conversion from `String` returns a command, and the one from `&str` returns it too, but
-- panics if it is a numeric.
pub from_ref_lem :
    (cmd : Str) → (c : Command) × (from_string cmd ≡ returns c) × (from_ref cmd ≡ unless_numeric c)
from_ref_lem cmd = (read_command cmd, from_string_lem cmd, from_ref_reads cmd)
