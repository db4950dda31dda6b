-- ===== src/Irc/Protocol/Line.antt =====
-- src/irc/protocol.rs: `IrcLine` and `parse_irc_line`. The grammar is a parsing expression grammar:
-- an alternative is tried only after the one before it fails, a repetition takes all that it can,
-- and an optional part that fails gives back what it read. Each rule below takes a text and
-- returns what the rule captures with the text behind it, or `none` where the rule fails.
pub mod Words
pub mod Grammar
pub mod Sound
pub mod Fuel
use matrix_ircd.Prelude.{
  ℕ, zero, suc, Bool, ◌&&◌, ◌||◌, Option, none, some, List, [], ◌∷◌, ◌++◌, leb, ◌==◌, if◌then◌else◌,
  length,
}
use mathlib.Core.Option
use matrix_ircd.Prelude.{Outcome, returns, panics, ◌>>=◌}
use matrix_ircd.Text.{Str, span, is_empty}
use matrix_ircd.Text.Decimal.{is_digit}
use matrix_ircd.Irc.Protocol.Command.{Command, from_string}

pub record IrcLine : Type 0 where
  pub prefix : Option Str
  pub command : Command
  pub args : List Str

-- `prefix`, `command` and the arguments as text, in the order of the parser's queue.
pub record IrcLineBuilder : Type 0 where
  pub prefix : Option Str
  pub command : Option Str
  pub args : List Str

abbrev within : ℕ → ℕ → ℕ → Bool
within lo hi c = leb lo c && leb c hi

-- The rule `nospcrlfcl`: no NUL, LF, CR, space or colon.
unfoldable pub nospcrlfcl : ℕ → Bool
nospcrlfcl c =
    within 0x01 0x09 c
    || within 0x0B 0x0C c
    || within 0x0E 0x1F c
    || within 0x21 0x39 c
    || within 0x3B 0x7F c
    || within 0x80 0x7FF c
    || within 0x800 0xFFFF c
    || within 0x10000 0x1FFFF c

abbrev pub colon_or_nospcrlfcl : ℕ → Bool
colon_or_nospcrlfcl c = c == b':' || nospcrlfcl c

abbrev pub trailing_char : ℕ → Bool
trailing_char c = c == b':' || c == b' ' || nospcrlfcl c

abbrev pub is_space : ℕ → Bool
is_space c = c == b' '

abbrev pub is_upper : ℕ → Bool
is_upper c = within b'A' b'Z' c

-- One or more characters of a class.
unfoldable pub many1 : (ℕ → Bool) → Str → Option (Str × Str)
unfolding span is_empty
many1 p s = let (taken, rest) = span p s in if is_empty taken then none else some (taken, rest)

-- A literal character.
unfoldable pub literal : ℕ → Str → Option Str
literal c [] = none
literal c (d ∷ s) = if d == c then some s else none

unfoldable pub prefix_rule : Str → Option (Str × Str)
unfolding many1
prefix_rule = many1 colon_or_nospcrlfcl

digits_rule : Str → Option (Str × Str)
digits_rule (a ∷ b ∷ c ∷ s) =
    if is_digit a && is_digit b && is_digit c then some (a ∷ b ∷ c ∷ [], s) else none
digits_rule _ = none

unfoldable pub command_rule : Str → Option (Str × Str)
unfolding many1 digits_rule
command_rule s = elim (many1 is_upper s) [ some r ↦ some r | none ↦ digits_rule s ]

-- The rule `space`, of which only the rest matters.
unfoldable pub space_rule : Str → Option Str
unfolding many1
space_rule s = Option.map (λ r. r.1) (many1 is_space s)

param_from : Str → Option (Str × Str)
param_from [] = none
param_from (c ∷ s) =
    let (taken, rest) = span colon_or_nospcrlfcl s in
    if nospcrlfcl c then some (c ∷ taken, rest) else none

unfoldable pub param_rule : Str → Option (Str × Str)
unfolding param_from span nospcrlfcl
param_rule = param_from

-- `space ~ param`.
unfoldable pub spaced_param : Str → Option (Str × Str)
unfolding space_rule param_rule
spaced_param s = elim (space_rule s) [ none ↦ none | some r ↦ param_rule r ]

-- `(space ~ param)*`: the parameters, and the text where the next one fails. Each round reads a
-- character, so as many rounds as there are characters are enough.
unfoldable pub params_loop : ℕ → Str → List Str × Str
unfolding spaced_param
params_loop zero s = ([], s)
params_loop (suc fuel) s = elim (spaced_param s) [
  | none ↦ ([], s)
  | some (p, r) ↦ let (ps, rest) = params_loop fuel r in (p ∷ ps, rest)
]

-- `space ~ ":" ~ trailing_param`; a `trailing_param` never fails.
unfoldable pub trailing_rule : Str → Option (Str × Str)
unfolding space_rule literal span nospcrlfcl
trailing_rule s = elim (space_rule s) [
  | none ↦ none
  | some r ↦ elim (literal b':' r) [ none ↦ none | some t ↦ some (span trailing_char t) ]
]

unfoldable pub params_rule : Str → List Str × Str
unfolding params_loop trailing_rule
params_rule s =
    let (ps, r) = params_loop (length s) s in
    elim (trailing_rule r) [ none ↦ (ps, r) | some (t, rest) ↦ (ps ++ t ∷ [], rest) ]

-- `([":"] ~ prefix ~ space)?`: on a failure of any part the text is as it was.
unfoldable pub optional_prefix : Str → Option Str × Str
unfolding literal prefix_rule space_rule
optional_prefix s = elim (literal b':' s) [
  | none ↦ (none, s)
  | some a ↦ elim (prefix_rule a) [
    | none ↦ (none, s)
    | some (p, b) ↦ elim (space_rule b) [ none ↦ (none, s) | some c ↦ (some p, c) ]
  ]
]

-- `expression`, and the fold over the parser's queue.
unfoldable pub expression : Str → Option (IrcLineBuilder × Str)
unfolding optional_prefix command_rule params_rule
expression line =
    let (prefix, s) = optional_prefix line in
    elim (command_rule s) [
      | none ↦ none
      | some (cmd, r) ↦
          let (args, rest) = params_rule r in
          some (record { prefix = prefix; command = some cmd; args = args }, rest)
    ]

-- `command.expect("expected command").into()`.
pub finish : IrcLineBuilder → Outcome IrcLine
unfolding from_string
finish b = elim b.command [
  | none ↦ panics
  | some cmd ↦
      from_string cmd >>= λ c. returns (record { prefix = b.prefix; command = c; args = b.args })
]

-- The line is refused unless the expression reaches its end.
unfoldable pub parse_irc_line : Str → Outcome (Option IrcLine)
unfolding expression is_empty finish
parse_irc_line line = elim (expression line) [
  | none ↦ returns none
  | some (b, rest) ↦ if is_empty rest then (finish b >>= λ l. returns (some l)) else returns none
]
