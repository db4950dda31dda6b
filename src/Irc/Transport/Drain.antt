-- ===== src/Irc/Transport/Drain.antt =====
-- src/irc/transport.rs: the lines of a buffer.
use matrix_ircd.Prelude.{
  ℕ, zero, suc, ◌+◌, ◌<◌, ◌≤◌, ◌≡◌, refl, sym, ap, ◌∙◌, inl, inr, Option, none, some, [], ◌∷◌, ◌++◌,
  arith, Option-cases, length, length-append,
}
use mathlib.Core.Option
use matrix_ircd.Prelude.{Outcome, returns}
use matrix_ircd.Text.{Str, trim_end}
use matrix_ircd.Text.Utf8.{Bytes, from_utf8}
use matrix_ircd.Irc.Protocol.IrcCommand.{IrcCommand, from_str, from_irc_line}
use matrix_ircd.Irc.Protocol.Line.Grammar.{parse_irc_line_total}
use matrix_ircd.Irc.Transport.{
  LineResult, is_command, not_command, not_text, read_line, split_line, Drained, command,
  invalid_utf8, no_line, drain_lines,
}

-- No text makes the reading of a command panic.
pub from_str_total : (s : Str) → (c : Option IrcCommand) × (from_str s ≡ returns c)
unfolding from_str
from_str_total s =
    let (l, e) = parse_irc_line_total s in (Option.bind l from_irc_line, ground arith)

-- A first line is there with any bytes behind it, and is not empty.
split_line-append :
    (b more line rest : Bytes)
    → split_line b ≡ some (line, rest)
    → (split_line (b ++ more) ≡ some (line, rest ++ more)) × (length rest < length b)
unfolding split_line
split_line-append [] more line rest h = cc
split_line-append (x ∷ b) more line rest h = elim (Option-cases (split_line b)) [
  | inl e ↦ ground arith
  | inr ((l, r), e) ↦ ground (arith, split_line-append b more l r e)
]

-- No line makes its reading panic.
read_line_total : (line : Bytes) → (r : LineResult) × (read_line line ≡ returns r)
unfolding read_line
read_line_total line = elim (Option-cases (from_utf8 line)) [
  | inl e ↦ (not_text, ground arith)
  | inr (t, e) ↦ (let (c, q) = from_str_total (trim_end t) in parsed t e c q)
]
  where
    parsed :
        (t : Str)
        → from_utf8 line ≡ some t
        → (c : Option IrcCommand) → from_str (trim_end t) ≡ returns c
        → (r : LineResult) × (read_line line ≡ returns r)
    parsed t e none q = (not_command, ground arith)
    parsed t e (some c) q = (is_command c, ground arith)

-- The rest of the loop behind a line.
abbrev after_line : LineResult → Bytes → Outcome Drained → Outcome Drained
after_line (is_command irc_line) rest again = returns (command irc_line rest)
after_line not_command rest again = again
after_line not_text rest again = returns (invalid_utf8 rest)

module _ (fuel : ℕ) (b : Bytes) where
  drain_lines-none : split_line b ≡ none → drain_lines (suc fuel) b ≡ returns (no_line b)
  unfolding drain_lines
  drain_lines-none e = rw (e, drain_lines)

  drain_lines-some :
      {line rest : Bytes} {r : LineResult}
      → split_line b ≡ some (line, rest)
      → read_line line ≡ returns r
      → drain_lines (suc fuel) b ≡ after_line r rest (drain_lines fuel rest)
  unfolding drain_lines
  drain_lines-some {r = is_command c} e q = ground arith
  drain_lines-some {r = not_command} e q = ground arith
  drain_lines-some {r = not_text} e q = ground arith

after_line_total :
    (r : LineResult) (rest : Bytes) (again : Outcome Drained)
    → (d : Drained) × (again ≡ returns d)
    → (d : Drained) × (after_line r rest again ≡ returns d)
after_line_total (is_command c) rest again h = (command c rest, refl)
after_line_total not_command rest again h = h
after_line_total not_text rest again h = (invalid_utf8 rest, refl)

pub drain_lines_total : (fuel : ℕ) (b : Bytes) → (d : Drained) × (drain_lines fuel b ≡ returns d)
drain_lines_total zero b = (no_line b, unfold drain_lines in refl)
drain_lines_total (suc fuel) b = elim (Option-cases (split_line b)) [
  | inl e ↦ (no_line b, drain_lines-none fuel b e)
  | inr ((line, rest), e) ↦
      let (r, q) = read_line_total line in
      rw (drain_lines-some fuel b e q)
        (after_line_total r rest (drain_lines fuel rest) (drain_lines_total fuel rest))
]

-- Any two numbers of rounds that are at least the bytes in the buffer make the loop over its lines
-- give the same result.
pub drain_lines_fuel :
    (f g : ℕ) (b : Bytes) → length b ≤ f → length b ≤ g → drain_lines f b ≡ drain_lines g b
unfolding drain_lines
drain_lines_fuel zero zero b p q = refl
drain_lines_fuel zero (suc g) [] p q = unfold split_line in refl
drain_lines_fuel zero (suc g) (x ∷ b) p q = absurd (omega arith)
drain_lines_fuel (suc f) zero [] p q = unfold split_line in refl
drain_lines_fuel (suc f) zero (x ∷ b) p q = absurd (omega arith)
drain_lines_fuel (suc f) (suc g) b p q = elim (Option-cases (split_line b)) [
  | inl e ↦ rw (e, drain_lines)
  | inr ((line, rest), e) ↦
      let (_, lt) = split_line-append b [] line rest e in
      ground (arith, drain_lines_fuel f g rest, read_line_total line)
]

after_line_command :
    (r : LineResult) (rest more rest' : Bytes) (again again' : Outcome Drained) (c : IrcCommand)
    → after_line r rest again ≡ returns (command c rest')
    → (again ≡ returns (command c rest') → again' ≡ returns (command c (rest' ++ more)))
    → after_line r (rest ++ more) again' ≡ returns (command c (rest' ++ more))
after_line_command (is_command c') rest more rest' again again' c h k = ground arith
after_line_command not_command rest more rest' again again' c h k = k h
after_line_command not_text rest more rest' again again' c h k = cc

-- A command that is read from a buffer is read with any bytes behind it too, and they stay.
pub drain_command-append :
    (f g : ℕ) (b more : Bytes) (c : IrcCommand) (rest : Bytes)
    → length b + length more ≤ g
    → drain_lines f b ≡ returns (command c rest)
    → drain_lines g (b ++ more) ≡ returns (command c (rest ++ more))
drain_command-append zero g b more c rest le h = absurd (unfold drain_lines in cc)
drain_command-append (suc f) zero [] more c rest le h = absurd (unfold drain_lines split_line in cc)
drain_command-append (suc f) zero (x ∷ b) more c rest le h = absurd (omega arith)
drain_command-append (suc f) (suc g) b more c rest le h = elim (Option-cases (split_line b)) [
  | inl e ↦ absurd (cc (drain_lines-none f b e))
  | inr ((line, r), e) ↦
      let (res, q) = read_line_total line in
      let (e', lt) = split_line-append b more line r e in
      rw (drain_lines-some g (b ++ more) e' q) (
        after_line_command res r more rest (drain_lines f r) (drain_lines g (r ++ more)) c
          (sym (drain_lines-some f b e q) ∙ h)
          (drain_command-append f g r more c rest (omega arith)))
]

after_line_no_line :
    (r : LineResult) (rest more rest' : Bytes) (again again' final : Outcome Drained)
    → after_line r rest again ≡ returns (no_line rest')
    → (again ≡ returns (no_line rest') → again' ≡ final)
    → after_line r (rest ++ more) again' ≡ final
after_line_no_line (is_command c') rest more rest' again again' final h k = cc
after_line_no_line not_command rest more rest' again again' final h k = k h
after_line_no_line not_text rest more rest' again again' final h k = cc

same_rest :
    (g k : ℕ) (b more rest : Bytes)
    → length b + length more ≤ g
    → length rest + length more ≤ k
    → b ≡ rest
    → drain_lines g (b ++ more) ≡ drain_lines k (rest ++ more)
same_rest g k b more rest lg lk e =
    ap (λ (t : Bytes). drain_lines g (t ++ more)) e
    ∙ drain_lines_fuel g k (rest ++ more)
        (omega (arith, length-append rest more, ap (λ (t : Bytes). length t) e))
        (omega (arith, length-append rest more))

-- Where a buffer holds no command, the bytes behind it are read as if only what is left of the
-- buffer stood before them.
pub drain_no_line-append :
    (f g k : ℕ) (b more rest : Bytes)
    → length b ≤ f
    → length b + length more ≤ g
    → length rest + length more ≤ k
    → drain_lines f b ≡ returns (no_line rest)
    → drain_lines g (b ++ more) ≡ drain_lines k (rest ++ more)
drain_no_line-append zero g k b more rest lf lg lk h =
    same_rest g k b more rest lg lk (unfold drain_lines in ground arith)
drain_no_line-append (suc f) zero k [] more rest lf lg lk h =
    same_rest 0 k [] more rest lg lk (unfold drain_lines split_line in ground arith)
drain_no_line-append (suc f) zero k (x ∷ b) more rest lf lg lk h = absurd (omega arith)
drain_no_line-append (suc f) (suc g) k b more rest lf lg lk h = elim (Option-cases (split_line b)) [
  | inl e ↦ same_rest (suc g) k b more rest lg lk (cc (drain_lines-none f b e))
  | inr ((line, r), e) ↦
      let (res, q) = read_line_total line in
      let (e', lt) = split_line-append b more line r e in
      rw (drain_lines-some g (b ++ more) e' q) (
        after_line_no_line res r more rest (drain_lines f r) (drain_lines g (r ++ more))
          (drain_lines k (rest ++ more)) (sym (drain_lines-some f b e q) ∙ h)
          (drain_no_line-append f g k r more rest (omega arith) (omega arith) lk))
]

-- The bytes that are left behind the lines.
abbrev pub left : Drained → Bytes
left (command x rest) = rest
left (invalid_utf8 rest) = rest
left (no_line rest) = rest

Outcome_injective : {d e : Drained} → returns d ≡ returns e → d ≡ e
Outcome_injective h = cc

left_of :
    (b : Bytes) (d e : Drained) → left e ≡ b → returns e ≡ returns d → length (left d) ≤ length b
left_of b d e l h =
    let p : left e ≡ left d = ap left (Outcome_injective h) in
    omega (arith, ap (λ (t : Bytes). length t) p, ap (λ (t : Bytes). length t) l)

after_line-left :
    (r : LineResult) (rest : Bytes) (again : Outcome Drained) (d : Drained)
    → after_line r rest again ≡ returns d
    → (again ≡ returns d → length (left d) ≤ length rest)
    → length (left d) ≤ length rest
after_line-left (is_command c) rest again d h k = left_of rest d (command c rest) refl h
after_line-left not_command rest again d h k = k h
after_line-left not_text rest again d h k = left_of rest d (invalid_utf8 rest) refl h

pub drain_lines-left :
    (fuel : ℕ) (b : Bytes) (d : Drained)
    → drain_lines fuel b ≡ returns d
    → length (left d) ≤ length b
drain_lines-left zero b d h = left_of b d (no_line b) refl (unfold drain_lines in h)
drain_lines-left (suc fuel) b d h = elim (Option-cases (split_line b)) [
  | inl e ↦ left_of b d (no_line b) refl (sym (drain_lines-none fuel b e) ∙ h)
  | inr ((line, rest), e) ↦
      let (r, q) = read_line_total line in
      let (_, lt) = split_line-append b [] line rest e in
      let le =
        after_line-left r rest (drain_lines fuel rest) d (sym (drain_lines-some fuel b e q) ∙ h)
          (drain_lines-left fuel rest d) in
      omega arith
]

-- A command takes at least a byte with it.
pub drain_command-shorter :
    (fuel : ℕ) (b : Bytes) (x : IrcCommand) (end : Bytes)
    → drain_lines fuel b ≡ returns (command x end)
    → length end < length b
drain_command-shorter zero b x end h = absurd (unfold drain_lines in cc)
drain_command-shorter (suc fuel) b x end h = elim (Option-cases (split_line b)) [
  | inl e ↦ absurd (let p = sym (drain_lines-none fuel b e) ∙ h in cc)
  | inr ((line, rest), e) ↦
      let (r, q) = read_line_total line in
      let (_, lt) = split_line-append b [] line rest e in
      let le =
        after_line-left r rest (drain_lines fuel rest) (command x end)
          (sym (drain_lines-some fuel b e q) ∙ h) (drain_lines-left fuel rest (command x end)) in
      omega arith
]
