-- ===== src/Text/Search.antt =====
-- What the source uses of `str`: `len`, `starts_with`, `strip_prefix`, `strip_suffix`, `split`,
-- `trim_end`, `trim`.
use matrix_ircd.Prelude.{
  ℕ, ◌+◌, ◌≡◌, refl, Bool, true, false, ◌&&◌, ◌||◌, Option, none, some, List, [], ◌∷◌, ◌++◌, arith,
  ◌==◌, ltb, leb, if◌then◌else◌,
}
use mathlib.Core.List.{reverse}
use matrix_ircd.Text.Ordered.{Str}

-- The number of bytes of a code point in UTF-8.
unfoldable pub utf8_width : ℕ → ℕ
utf8_width c = if ltb c 0x80 then 1 else if ltb c 0x800 then 2 else if ltb c 0x10000 then 3 else 4

-- `len()`: bytes, not characters.
unfoldable pub byte_len : Str → ℕ
unfolding utf8_width
byte_len [] = 0
byte_len (c ∷ s) = utf8_width c + byte_len s

unfoldable pub is_empty : Str → Bool
is_empty [] = true
is_empty (c ∷ s) = false

unfoldable pub strip_prefix : Str → Str → Option Str
strip_prefix [] s = some s
strip_prefix (p ∷ ps) [] = none
strip_prefix (p ∷ ps) (c ∷ s) = if p == c then strip_prefix ps s else none

abbrev reversed : Option Str → Option Str
reversed none = none
reversed (some s) = some (reverse s)

unfoldable pub strip_suffix : Str → Str → Option Str
unfolding strip_prefix
strip_suffix p s = reversed (strip_prefix (reverse p) (reverse s))

unfoldable pub starts_with : Str → Str → Bool
unfolding strip_prefix
starts_with p s = elim (strip_prefix p s) [ none ↦ false | some _ ↦ true ]

-- `split(sep)` on a character: one piece more than there are separators.
abbrev cons_head : ℕ → List Str → List Str
cons_head c [] = (c ∷ []) ∷ []
cons_head c (p ∷ ps) = (c ∷ p) ∷ ps

unfoldable pub split : ℕ → Str → List Str
split sep [] = [] ∷ []
split sep (c ∷ s) = let rest = split sep s in if c == sep then [] ∷ rest else cons_head c rest

-- The characters with the Unicode property White_Space.
unfoldable pub is_whitespace : ℕ → Bool
is_whitespace c =
    (leb 9 c && leb c 13)
    || c == 32
    || c == 0x85
    || c == 0xA0
    || c == 0x1680
    || (leb 0x2000 c && leb c 0x200A)
    || c == 0x2028
    || c == 0x2029
    || c == 0x202F
    || c == 0x205F
    || c == 0x3000

unfoldable pub trim_start : Str → Str
unfolding is_whitespace
trim_start [] = []
trim_start (c ∷ s) = if is_whitespace c then trim_start s else c ∷ s

unfoldable pub trim_end : Str → Str
unfolding trim_start
trim_end s = reverse (trim_start (reverse s))

unfoldable pub trim : Str → Str
unfolding trim_end
trim s = trim_end (trim_start s)

-- The greedy match of a class of characters.
unfoldable pub span : (ℕ → Bool) → Str → Str × Str
span p [] = ([], [])
span p (c ∷ s) = let (taken, rest) = span p s in if p c then (c ∷ taken, rest) else ([], c ∷ s)

abbrev pub All : (ℕ → Bool) → Str → Type 0
All p [] = Unit
All p (c ∷ s) = (p c ≡ true) × All p s

-- `s` is empty or begins with a character outside the class.
abbrev pub Stops : (ℕ → Bool) → Str → Type 0
Stops p [] = Unit
Stops p (c ∷ s) = p c ≡ false

pub span-append : (p : ℕ → Bool) (a b : Str) → All p a → Stops p b → span p (a ++ b) ≡ (a, b)
unfolding span
span-append p [] [] ha hb = refl
span-append p [] (c ∷ b) ha hb = rw hb
span-append p (c ∷ a) b ha hb = rw (ha.0, span-append p a b ha.1 hb)

pub span_splits : (p : ℕ → Bool) (s : Str) → (span p s).0 ++ (span p s).1 ≡ s
unfolding span
span_splits p [] = refl
span_splits p (c ∷ s) = ground (arith, span_splits p s)

pub span-All : (p : ℕ → Bool) (s : Str) → All p (span p s).0
unfolding span
span-All p [] = tt
span-All p (c ∷ s) = ground (arith, span-All p s)
