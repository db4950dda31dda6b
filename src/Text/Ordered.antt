-- ===== src/Text/Ordered.antt =====
-- Texts: literals, equality, and the order that a `BTreeMap` keeps its keys in. The byte-wise
-- order of UTF-8 texts is the lexicographic order of their code points.
use Prim.Native.Char.{code}
use matrix_ircd.Prelude.{
  ℕ, String, ◌≡◌, refl, ◌↔◌, ◌≢◌, Bool, true, false, ◌&&◌, ◌||◌, List, [], ◌∷◌, arith, ◌==◌, ltb,
}

abbrev pub Str : Type 0
Str = List ℕ

-- The code points of a literal.
abbrev pub codes : String → Str
codes String.[] = []
codes (String.◌∷◌ c s) = code c ∷ codes s

-- `==` on strings.
unfoldable pub same : Str → Str → Bool
same [] [] = true
same (x ∷ a) (y ∷ b) = x == y && same a b
same _ _ = false

pub same_iff : (a b : Str) → (same a b ≡ true) ↔ (a ≡ b)
unfolding same
same_iff (x ∷ a) (y ∷ b) = ground (arith, same_iff a b)
same_iff _ _ = ground arith

pub same_refl : (a : Str) → same a a ≡ true
same_refl a = (same_iff a a).1 refl

pub same_ne : (a b : Str) → a ≢ b → same a b ≡ false
same_ne a b h = ground (arith, same_iff a b)

-- `<` on strings.
unfoldable pub before : Str → Str → Bool
before a [] = false
before [] (y ∷ b) = true
before (x ∷ a) (y ∷ b) = ltb x y || (x == y && before a b)

pub before_irrefl : (a : Str) → before a a ≡ false
unfolding before
before_irrefl [] = refl
before_irrefl (x ∷ a) = ground (arith, before_irrefl a)

pub before_trans : (a b c : Str) → before a b ≡ true → before b c ≡ true → before a c ≡ true
unfolding before
before_trans [] (y ∷ b) (z ∷ c) p q = refl
before_trans (x ∷ a) (y ∷ b) (z ∷ c) p q = ground (arith, before_trans a b c)
before_trans a b [] p q = cc
before_trans a [] c p q = ground arith

-- Two texts are equal, or one stands before the other.
pub before_total : (a b : Str) → same a b ≡ false → before a b ≡ false → before b a ≡ true
unfolding same before
before_total [] [] p q = cc
before_total [] (y ∷ b) p q = cc
before_total (x ∷ a) [] p q = refl
before_total (x ∷ a) (y ∷ b) p q = ground (arith, before_total a b)
