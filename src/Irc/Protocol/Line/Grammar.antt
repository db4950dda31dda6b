-- ===== src/Irc/Protocol/Line/Grammar.antt =====
-- The lines that the grammar accepts, and what they are read as.
use matrix_ircd.Prelude.{
  ℕ, zero, suc, ◌≤◌, ◌≡◌, refl, ap, ◌≢◌, inl, inr, Option, none, some, List, [], ◌∷◌, ◌++◌,
  append-nil, arith, Option-cases, length, length-append,
}
use matrix_ircd.Prelude.{returns}
use matrix_ircd.Text.{Str, span, All, Stops, span-append}
use matrix_ircd.Irc.Protocol.Command.Conversions.{read_command, from_string_lem}
use matrix_ircd.Irc.Protocol.Line.{
  IrcLineBuilder, IrcLine, nospcrlfcl, trailing_char, is_space, literal, spaced_param, params_loop,
  params_rule, trailing_rule, optional_prefix, expression, finish, parse_irc_line,
}
use matrix_ircd.Irc.Protocol.Line.Words.{
  IsParam, IsPrefix, IsCommandWord, AtBreak, space_rule-one, prefix_rule-append,
  command_rule-append, param_rule-append,
}

-- The text of a line.
abbrev pub render_prefix : Option Str → Str → Str
render_prefix none rest = rest
render_prefix (some p) rest = b':' ∷ (p ++ (b' ' ∷ rest))

abbrev pub render_trailing : Option Str → Str
render_trailing none = []
render_trailing (some t) = b' ' ∷ b':' ∷ t

abbrev pub render_params : List Str → Str → Str
render_params [] rest = rest
render_params (p ∷ ps) rest = b' ' ∷ (p ++ render_params ps rest)

abbrev pub render : Option Str → Str → List Str → Option Str → Str
render prefix word params trailing =
    render_prefix prefix (word ++ render_params params (render_trailing trailing))

abbrev pub AllParams : List Str → Type 0
AllParams [] = Unit
AllParams (p ∷ ps) = IsParam p × AllParams ps

abbrev pub PrefixFits : Option Str → Type 0
PrefixFits none = Unit
PrefixFits (some p) = IsPrefix p

abbrev pub TrailingFits : Option Str → Type 0
TrailingFits none = Unit
TrailingFits (some t) = All trailing_char t

abbrev pub trailing_args : Option Str → List Str
trailing_args none = []
trailing_args (some t) = t ∷ []

AtBreak-params :
    (ps : List Str) (trailing : Option Str) → AtBreak (render_params ps (render_trailing trailing))
AtBreak-params [] none = tt
AtBreak-params [] (some t) = refl
AtBreak-params (p ∷ ps) trailing = refl

-- A parameter does not begin with a space.
Stops-param : (p s : Str) → IsParam p → Stops is_space (p ++ s)
unfolding nospcrlfcl
Stops-param [] s h = absurd h
Stops-param (c ∷ p) s h = ground arith

spaced_param-append :
    (p s : Str) → IsParam p → AtBreak s → spaced_param (b' ' ∷ (p ++ s)) ≡ some (p, s)
unfolding spaced_param
spaced_param-append p s h st =
    ground (arith, space_rule-one (p ++ s) (Stops-param p s h), param_rule-append p s h st)

spaced_param-trailing : (trailing : Option Str) → spaced_param (render_trailing trailing) ≡ none
unfolding spaced_param
spaced_param-trailing none = refl
spaced_param-trailing (some t) = refl

params_loop-render :
    (fuel : ℕ) (ps : List Str) (trailing : Option Str)
    → length (render_params ps (render_trailing trailing)) ≤ fuel
    → AllParams ps
    → params_loop fuel (render_params ps (render_trailing trailing))
      ≡ (ps, render_trailing trailing)
unfolding params_loop
params_loop-render zero [] trailing le h = refl
params_loop-render zero (p ∷ ps) trailing le h = absurd (omega arith)
params_loop-render (suc fuel) [] trailing le h = rw (spaced_param-trailing, params_loop)
params_loop-render (suc fuel) (p ∷ ps) trailing le h =
    let rest = render_params ps (render_trailing trailing) in
    let smaller : length rest ≤ fuel = omega (arith, length-append p rest) in
    ground (
      arith,
      spaced_param-append p rest h.0 (AtBreak-params ps trailing),
      params_loop-render fuel ps trailing smaller h.1,
    )

trailing_rule-render :
    (t : Str) → All trailing_char t → trailing_rule (b' ' ∷ b':' ∷ t) ≡ some (t, [])
unfolding trailing_rule
trailing_rule-render t h = ground (
  arith,
  space_rule-one (b':' ∷ t) refl,
  ap (span trailing_char) (append-nil t),
  span-append trailing_char t [] h tt,
)

params_rule-render :
    (ps : List Str) (trailing : Option Str)
    → AllParams ps
    → TrailingFits trailing
    → params_rule (render_params ps (render_trailing trailing)) ≡ (ps ++ trailing_args trailing, [])
unfolding params_rule
params_rule-render ps none h t =
    let s = render_params ps (render_trailing none) in
    ground (arith, params_loop-render (length s) ps none (omega arith) h, append-nil ps)
params_rule-render ps (some t) h ht =
    let s = render_params ps (render_trailing (some t)) in
    ground
      (arith, params_loop-render (length s) ps (some t) (omega arith) h, trailing_rule-render t ht)

-- A word of letters or digits does not begin with a space or a colon.
word_first :
    (w s : Str) → IsCommandWord w → Stops is_space (w ++ s) × (literal b':' (w ++ s) ≡ none)
unfolding literal
word_first [] s (inl (ne, h)) = absurd (ne refl)
word_first (c ∷ w) s (inl (ne, h)) = ground arith
word_first w s (inr (a, b, c, e, x, y, z)) = rw e (ground arith)

optional_prefix-render :
    (prefix : Option Str) (w s : Str)
    → PrefixFits prefix
    → IsCommandWord w
    → optional_prefix (render_prefix prefix (w ++ s)) ≡ (prefix, w ++ s)
unfolding optional_prefix
optional_prefix-render none w s h hw = ground (arith, (word_first w s hw).1)
optional_prefix-render (some p) w s h hw = ground (
  arith,
  prefix_rule-append p (b' ' ∷ (w ++ s)) h refl,
  space_rule-one (w ++ s) (word_first w s hw).0,
)

module _ (prefix : Option Str) (word : Str) (params : List Str) (trailing : Option Str)
    (fits : PrefixFits prefix) (is_word : IsCommandWord word) (all : AllParams params)
    (ends : TrailingFits trailing) where
  expression-render :
      expression (render prefix word params trailing)
      ≡ some (
        record { prefix = prefix; command = some word; args = params ++ trailing_args trailing },
        [],
      )
  unfolding expression
  expression-render =
      let s = render_params params (render_trailing trailing) in
      ground (
        arith,
        optional_prefix-render prefix word s fits is_word,
        command_rule-append word s is_word (AtBreak-params params trailing),
        params_rule-render params trailing all ends,
      )

  -- A line of a prefix, a command word, parameters and a trailing parameter (prefix and trailing
  -- parameter may be missing), each with characters of its class and with one space between them,
  -- is read as those parts.
  pub parse_irc_line-render :
      parse_irc_line (render prefix word params trailing)
      ≡ returns (
          some (record {
            prefix = prefix;
            command = read_command word;
            args = params ++ trailing_args trailing;
          }))
  unfolding parse_irc_line
  parse_irc_line-render = ground (arith, expression-render, from_string_lem word)

-- `expect("expected command")` always has a command.
expression_has_command :
    (line : Str) (b : IrcLineBuilder) (rest : Str)
    → expression line ≡ some (b, rest)
    → b.command ≢ none
unfolding expression
expression_has_command line b rest h = ground arith

pub finish_lem :
    (b : IrcLineBuilder) (w : Str)
    → b.command ≡ some w
    → finish b ≡ returns (record { prefix = b.prefix; command = read_command w; args = b.args })
unfolding finish
finish_lem b w h = ground (arith, from_string_lem w)

finish_total : (b : IrcLineBuilder) → b.command ≢ none → (l : IrcLine) × (finish b ≡ returns l)
finish_total b h = elim (Option-cases b.command) [
  | inl e ↦ absurd (h e)
  | inr (w, e) ↦
      (record { prefix = b.prefix; command = read_command w; args = b.args }, finish_lem b w e)
]

-- On every text the parser returns, with a line or with none, and does not panic.
pub parse_irc_line_total : (line : Str) → (l : Option IrcLine) × (parse_irc_line line ≡ returns l)
unfolding parse_irc_line
parse_irc_line_total line = elim (Option-cases (expression line)) [
  | inl e ↦ (none, ground arith)
  | inr ((b, []), e) ↦
      let (l, p) = finish_total b (expression_has_command line b [] e) in (some l, ground arith)
  | inr ((b, c ∷ rest), e) ↦ (none, ground arith)
]
