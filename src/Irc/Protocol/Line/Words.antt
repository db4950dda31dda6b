-- ===== src/Irc/Protocol/Line/Words.antt =====
-- How each rule of the grammar reads a piece of a line that is followed by any rest.
use mathlib.Core.Option
use matrix_ircd.Prelude.{
  ap, ℕ, ◌≡◌, refl, Bool, true, false, ◌≢◌, ◌⊎◌, inl, inr, some, [], ◌∷◌, ◌++◌, arith,
}
use matrix_ircd.Text.{Str, span, is_empty, All, Stops, span-append}
use matrix_ircd.Text.Decimal.{is_digit}
use matrix_ircd.Irc.Protocol.Command.{}
use matrix_ircd.Irc.Protocol.Line.{
  nospcrlfcl, colon_or_nospcrlfcl, is_space, is_upper, many1, prefix_rule, command_rule, space_rule,
  param_rule, digits_rule,
}

-- A parameter that is not the last of a line with a trailing one.
abbrev pub IsParam : Str → Type 0
IsParam [] = ⊥
IsParam (c ∷ s) = (nospcrlfcl c ≡ true) × All colon_or_nospcrlfcl s

abbrev pub IsPrefix : Str → Type 0
IsPrefix s = (s ≢ []) × All colon_or_nospcrlfcl s

-- Letters, or three digits.
abbrev pub IsCommandWord : Str → Type 0
IsCommandWord s =
    ((s ≢ []) × All is_upper s)
    ⊎ ((a : ℕ) × (b : ℕ) × (c : ℕ) × (s ≡ a ∷ b ∷ c ∷ [])
        × (is_digit a ≡ true)
        × (is_digit b ≡ true)
        × (is_digit c ≡ true))

-- The end of the line, or a space: what may follow a word.
abbrev pub AtBreak : Str → Type 0
AtBreak [] = Unit
AtBreak (c ∷ s) = c ≡ b' '

pub many1-append :
    (p : ℕ → Bool) (a b : Str) → a ≢ [] → All p a → Stops p b → many1 p (a ++ b) ≡ some (a, b)
unfolding many1
many1-append p [] b ne h st = absurd (ne refl)
many1-append p (c ∷ a) b ne h st = rw (span-append p (c ∷ a) b h st)

break-Stops_word : (s : Str) → AtBreak s → Stops colon_or_nospcrlfcl s
unfolding nospcrlfcl
break-Stops_word [] h = tt
break-Stops_word (c ∷ s) h = ground arith

break-Stops_upper : (s : Str) → AtBreak s → Stops is_upper s
break-Stops_upper [] h = tt
break-Stops_upper (c ∷ s) h = ground arith

pub space_rule-one : (s : Str) → Stops is_space s → space_rule (b' ' ∷ s) ≡ some s
unfolding space_rule
space_rule-one s h =
    ap (Option.map (λ r. r.1)) (many1-append is_space (b' ' ∷ []) s (λ e. cc) (refl, tt) h)

pub prefix_rule-append : (p s : Str) → IsPrefix p → AtBreak s → prefix_rule (p ++ s) ≡ some (p, s)
unfolding prefix_rule
prefix_rule-append p s h st = many1-append colon_or_nospcrlfcl p s h.0 h.1 (break-Stops_word s st)

digit_not_upper : (a : ℕ) → is_digit a ≡ true → is_upper a ≡ false
digit_not_upper a h = ground arith

pub command_rule-append :
    (w s : Str) → IsCommandWord w → AtBreak s → command_rule (w ++ s) ≡ some (w, s)
unfolding command_rule
command_rule-append w s (inl (ne, h)) st =
    rw (many1-append is_upper w s ne h (break-Stops_upper s st), command_rule)
command_rule-append w s (inr (a, b, c, e, x, y, z)) st =
    rw e (unfold many1 span is_empty digits_rule in ground (arith, digit_not_upper a))

pub param_rule-append : (p s : Str) → IsParam p → AtBreak s → param_rule (p ++ s) ≡ some (p, s)
unfolding param_rule
param_rule-append [] s h st = absurd h
param_rule-append (c ∷ p) s h st =
    ground (arith, span-append colon_or_nospcrlfcl p s h.1 (break-Stops_word s st))
