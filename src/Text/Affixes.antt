-- ===== src/Text/Affixes.antt =====
-- What `strip_prefix` and `strip_suffix` find.
use matrix_ircd.Prelude.{
  ◌≡◌, refl, sym, ap, ap₂, ◌∙◌, some, [], ◌∷◌, ◌++◌, arith, Option-cases, inl, inr,
}
use mathlib.Core.List.{reverse, reverse-append, reverse-reverse}
use matrix_ircd.Text.{Str, strip_prefix, strip_suffix}

pub strip_prefix-append : (p s : Str) → strip_prefix p (p ++ s) ≡ some s
unfolding strip_prefix
strip_prefix-append [] s = refl
strip_prefix-append (c ∷ p) s = ground (arith, strip_prefix-append p s)

pub strip_prefix-eq-some : (p s r : Str) → strip_prefix p s ≡ some r → s ≡ p ++ r
unfolding strip_prefix
strip_prefix-eq-some [] s r h = ground arith
strip_prefix-eq-some (c ∷ p) [] r h = cc
strip_prefix-eq-some (c ∷ p) (d ∷ s) r h = ground (arith, strip_prefix-eq-some p s r)

pub strip_suffix-append : (p s : Str) → strip_suffix p (s ++ p) ≡ some s
unfolding strip_suffix
strip_suffix-append p s = rw (reverse-append, strip_prefix-append, reverse-reverse) refl

pub strip_suffix-eq-some : (p s r : Str) → strip_suffix p s ≡ some r → s ≡ r ++ p
unfolding strip_suffix
strip_suffix-eq-some p s r h = elim (Option-cases (strip_prefix (reverse p) (reverse s))) [
  | inl e ↦ absurd (ground arith)
  | inr (t, e) ↦
      let turned : reverse t ≡ r = ground arith in
      sym (reverse-reverse s)
      ∙ ap reverse (strip_prefix-eq-some (reverse p) (reverse s) t e)
      ∙ reverse-append (reverse p) t
      ∙ ap₂ (λ (a b : Str). a ++ b) turned (reverse-reverse p)
]
