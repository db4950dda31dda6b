-- ===== src/Irc/Protocol/Line/Fuel.antt =====
-- src/irc/protocol.rs: the rounds of the parameter loop.
use matrix_ircd.Prelude.{
  ℕ, zero, suc, ◌<◌, ◌≤◌, ◌≡◌, refl, Bool, inl, inr, none, some, [], ◌∷◌, arith, Option-cases,
  length,
}
use matrix_ircd.Text.{Str, span, is_empty}
use matrix_ircd.Irc.Protocol.Line.{
  colon_or_nospcrlfcl, is_space, many1, space_rule, param_rule, spaced_param, params_loop,
}

length-span : (p : ℕ → Bool) (s : Str) → length (span p s).1 ≤ length s
unfolding span
length-span p [] = omega arith
length-span p (c ∷ s) = ground (arith, length-span p s)

length-space_rule : (s r : Str) → space_rule s ≡ some r → length r < length s
unfolding space_rule
length-space_rule [] r h = cc
length-space_rule (c ∷ s) r h = ground (arith, length-span is_space s)

length-param_rule : (s p r : Str) → param_rule s ≡ some (p, r) → length r < length s
unfolding param_rule
length-param_rule [] p r h = cc
length-param_rule (c ∷ s) p r h = ground (arith, length-span colon_or_nospcrlfcl s)

length-spaced_param : (s p r : Str) → spaced_param s ≡ some (p, r) → length r < length s
unfolding spaced_param
length-spaced_param s p r h = elim (Option-cases (space_rule s)) [
  | inl e ↦ absurd (ground arith)
  | inr (t, e) ↦
      let q : param_rule t ≡ some (p, r) = ground arith in
      omega (arith, length-space_rule s t e, length-param_rule t p r q)
]

-- With at least as many rounds as characters, the loop over the parameters stops where no parameter
-- follows.
pub params_loop_ends :
    (fuel : ℕ) (s : Str) → length s ≤ fuel → spaced_param (params_loop fuel s).1 ≡ none
unfolding params_loop
params_loop_ends zero [] h = unfold spaced_param space_rule many1 span is_empty in refl
params_loop_ends zero (c ∷ s) h = absurd (omega arith)
params_loop_ends (suc fuel) s h = elim (Option-cases (spaced_param s)) [
  | inl e ↦ rw (e, params_loop) e
  | inr ((p, r), e) ↦
      rw (e, params_loop) (params_loop_ends fuel r (omega (arith, length-spaced_param s p r e)))
]
