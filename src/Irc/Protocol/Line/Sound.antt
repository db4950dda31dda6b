-- ===== src/Irc/Protocol/Line/Sound.antt =====
-- What an accepted line can hold.
use matrix_ircd.Prelude.{
  ℕ, zero, suc, ◌≡◌, sym, ap, ◌∙◌, Bool, true, ◌≢◌, inl, inr, Option, none, some, List, [], ◌∷◌,
  ◌++◌, append-nil, arith, Option-cases, length,
}
use matrix_ircd.Prelude.{returns, ◌>>=◌}
use matrix_ircd.Text.{Str, span, is_empty, All, span-All}
use matrix_ircd.Irc.Protocol.Command.Conversions.{read_command}
use matrix_ircd.Irc.Protocol.Line.{
  IrcLine, IrcLineBuilder, nospcrlfcl, colon_or_nospcrlfcl, trailing_char, is_upper, many1, literal,
  digits_rule, prefix_rule, command_rule, space_rule, param_rule, spaced_param, params_loop,
  params_rule, trailing_rule, optional_prefix, expression, finish, parse_irc_line,
}
use matrix_ircd.Irc.Protocol.Line.Words.{IsParam, IsCommandWord}
use matrix_ircd.Irc.Protocol.Line.Grammar.{
  AllParams, PrefixFits, TrailingFits, trailing_args, render, finish_lem, parse_irc_line-render,
}

many1_sound : (p : ℕ → Bool) (s w rest : Str) → many1 p s ≡ some (w, rest) → (w ≢ []) × All p w
unfolding many1 is_empty
many1_sound p s w rest h =
    let e : (span p s).0 ≡ w = ground arith in (ground arith, rw e at (span-All p s))

digits_rule_sound : (s w rest : Str) → digits_rule s ≡ some (w, rest) → IsCommandWord w
unfolding digits_rule
digits_rule_sound (a ∷ b ∷ c ∷ s) w rest h =
    inr (a, b, c, ground arith, ground arith, ground arith, ground arith)
digits_rule_sound _ w rest h = cc

command_rule_sound : (s w rest : Str) → command_rule s ≡ some (w, rest) → IsCommandWord w
unfolding command_rule
command_rule_sound s w rest h = elim (Option-cases (many1 is_upper s)) [
  | inl e ↦ digits_rule_sound s w rest (ground arith)
  | inr ((v, r), e) ↦ inl (many1_sound is_upper s w rest (ground arith))
]

param_rule_sound : (s p rest : Str) → param_rule s ≡ some (p, rest) → IsParam p
unfolding param_rule
param_rule_sound [] p rest h = cc
param_rule_sound (c ∷ s) p rest h =
    let first : nospcrlfcl c ≡ true = ground arith in
    let e : c ∷ (span colon_or_nospcrlfcl s).0 ≡ p = ground arith in
    rw (← e) (first, span-All colon_or_nospcrlfcl s)

spaced_param_sound : (s p rest : Str) → spaced_param s ≡ some (p, rest) → IsParam p
unfolding spaced_param
spaced_param_sound s p rest h = elim (Option-cases (space_rule s)) [
  | inl e ↦ absurd (ground arith)
  | inr (r, e) ↦ param_rule_sound r p rest (ground arith)
]

params_loop_sound : (fuel : ℕ) (s : Str) → AllParams (params_loop fuel s).0
unfolding params_loop
params_loop_sound zero s = tt
params_loop_sound (suc fuel) s = elim (Option-cases (spaced_param s)) [
  | inl e ↦ rw (e, params_loop) tt
  | inr ((p, r), e) ↦ rw (e, params_loop) (spaced_param_sound s p r e, params_loop_sound fuel r)
]

trailing_rule_sound : (s t rest : Str) → trailing_rule s ≡ some (t, rest) → All trailing_char t
unfolding trailing_rule
trailing_rule_sound s t rest h = elim (Option-cases (space_rule s)) [
  | inl e ↦ absurd (ground arith)
  | inr (r, e) ↦ elim (Option-cases (literal b':' r)) [
    | inl f ↦ absurd (ground arith)
    | inr (u, f) ↦
        let q : (span trailing_char u).0 ≡ t = ground arith in rw q at (span-All trailing_char u)
  ]
]

-- The arguments are parameters, and one trailing parameter at most.
abbrev AreArgs : List Str → Type 0
AreArgs args =
    (ps : List Str) × (trailing : Option Str) × (args ≡ ps ++ trailing_args trailing)
    × AllParams ps
    × TrailingFits trailing

params_rule_sound : (s : Str) → AreArgs (params_rule s).0
unfolding params_rule
params_rule_sound s =
    let (ps, r) = params_loop (length s) s in
    elim (Option-cases (trailing_rule r)) [
      | inl e ↦ (ps, none, ground (arith, append-nil ps), params_loop_sound (length s) s, tt)
      | inr ((t, rest), e) ↦
          (ps, some t, ground arith, params_loop_sound (length s) s, trailing_rule_sound r t rest e)
    ]

optional_prefix_sound : (s : Str) → PrefixFits (optional_prefix s).0
unfolding optional_prefix
optional_prefix_sound s = elim (Option-cases (literal b':' s)) [
  | inl e ↦ (let q : (optional_prefix s).0 ≡ none = ground arith in rw q tt)
  | inr (a, e) ↦ elim (Option-cases (prefix_rule a)) [
    | inl f ↦ (let q : (optional_prefix s).0 ≡ none = ground arith in rw q tt)
    | inr ((p, b), f) ↦ elim (Option-cases (space_rule b)) [
      | inl g ↦ (let q : (optional_prefix s).0 ≡ none = ground arith in rw q tt)
      | inr (c, g) ↦
          (let q : (optional_prefix s).0 ≡ some p = ground arith in
            rw q (many1_sound colon_or_nospcrlfcl a p b (unfold prefix_rule in f)))
    ]
  ]
]

-- The parts that a builder was made of.
abbrev IsSound : IrcLineBuilder → Type 0
IsSound b =
    (word : Str) × (b.command ≡ some word)
    × IsCommandWord word
    × PrefixFits b.prefix
    × AreArgs b.args

expression-IsSound :
    (line : Str) (b : IrcLineBuilder) (rest : Str) → expression line ≡ some (b, rest) → IsSound b
unfolding expression
expression-IsSound line b rest h =
    let (prefix, s) = optional_prefix line in
    elim (Option-cases (command_rule s)) [
      | inl e ↦ absurd (ground arith)
      | inr ((w, r), e) ↦ (
        w,
        ground arith,
        command_rule_sound s w r e,
        (let q : b.prefix ≡ prefix = ground arith in rw q (optional_prefix_sound line)),
        (let q : b.args ≡ (params_rule r).0 = ground arith in rw q (params_rule_sound r)),
      )
    ]

finish_sound :
    (b : IrcLineBuilder) (word : Str) (ps : List Str) (trailing : Option Str) (l : IrcLine)
    → b.command ≡ some word
    → b.args ≡ ps ++ trailing_args trailing
    → (finish b >>= λ x. returns (some x)) ≡ returns (some l)
    → l ≡ record {
      prefix = b.prefix;
      command = read_command word;
      args = ps ++ trailing_args trailing;
    }
finish_sound b word ps trailing l has args h = ground (arith, finish_lem b word has)

-- An accepted line is read as a prefix, a command word, parameters and a trailing parameter (prefix
-- and trailing parameter may be missing), each with characters of its class, and the line written
-- of these parts with one space between them is read alike.
pub parse_irc_line_sound :
    (line : Str) (l : IrcLine)
    → parse_irc_line line ≡ returns (some l)
    → (prefix : Option Str) × (word : Str) × (params : List Str) × (trailing : Option Str)
      × PrefixFits prefix
      × IsCommandWord word
      × AllParams params
      × TrailingFits trailing
      × (l ≡ record {
        prefix = prefix;
        command = read_command word;
        args = params ++ trailing_args trailing;
      })
      × (parse_irc_line (render prefix word params trailing) ≡ returns (some l))
unfolding parse_irc_line
parse_irc_line_sound line l h = elim (Option-cases (expression line)) [
  | inl e ↦ absurd (ground arith)
  | inr ((b, c ∷ rest), e) ↦ absurd (ground arith)
  | inr ((b, []), e) ↦
      let (word, has, is_word, fits, args_sound) = expression-IsSound line b [] e in
      let (ps, trailing, args, all, ends) = args_sound in
      let same_line = finish_sound b word ps trailing l has args (ground arith) in
      let read_back = parse_irc_line-render b.prefix word ps trailing fits is_word all ends in
      let again = ap (λ (x : IrcLine). returns (some x)) (sym same_line) in
      (b.prefix, word, ps, trailing, fits, is_word, all, ends, same_line, read_back ∙ again)
]
