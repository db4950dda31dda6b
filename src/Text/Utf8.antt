-- ===== src/Text/Utf8.antt =====
-- `as_bytes` and `String::from_utf8`.
use matrix_ircd.Prelude.{
  ℕ, zero, suc, ◌+◌, ◌-◌, ◌*◌, ◌/◌, ◌%◌, ◌≡◌, refl, ap, ◌∙◌, Bool, true, ◌&&◌, ◌||◌, Option, none,
  some, List, [], ◌∷◌, ◌++◌, append_assoc, arith, leb, ltb, if◌then◌else◌,
}
use matrix_ircd.Text.Ordered.{Str}

abbrev pub Bytes : Type 0
Bytes = List ℕ

-- The UTF-8 encoding of one code point.
unfoldable pub encode : ℕ → Bytes
encode c =
    if ltb c 0x80
    then c ∷ []
    else if ltb c 0x800
    then (0xC0 + c / 0x40) ∷ (0x80 + c % 0x40) ∷ []
    else if ltb c 0x10000
    then (0xE0 + c / 0x1000) ∷ (0x80 + c / 0x40 % 0x40) ∷ (0x80 + c % 0x40) ∷ []
    else (0xF0 + c / 0x40000)
      ∷ (0x80 + c / 0x1000 % 0x40)
      ∷ (0x80 + c / 0x40 % 0x40)
      ∷ (0x80 + c % 0x40)
      ∷ []

-- `as_bytes`.
unfoldable pub as_bytes : Str → Bytes
unfolding encode
as_bytes [] = []
as_bytes (c ∷ s) = encode c ++ as_bytes s

-- A `char`: a code point that is no surrogate.
abbrev pub is_scalar : ℕ → Bool
is_scalar c = ltb c 0xD800 || (leb 0xE000 c && ltb c 0x110000)

-- The decoder stands at the start of a character, or wants `k + 1` more bytes of one whose bits so
-- far are `v` and which must come out at `lo` or more (a shorter encoding is refused).
pub data Pending : Type 0 where
  start : Pending
  wants : (k v lo : ℕ) → Pending

pub data Next : Type 0 where
  invalid : Next
  emit : ℕ → Next
  wait : Pending → Next

lead : ℕ → Next
lead b =
    if ltb b 0x80
    then emit b
    else if ltb b 0xC0
    then invalid
    else if ltb b 0xE0
    then wait (wants 0 (b - 0xC0) 0x80)
    else if ltb b 0xF0
    then wait (wants 1 (b - 0xE0) 0x800)
    else if ltb b 0xF8
    then wait (wants 2 (b - 0xF0) 0x10000)
    else invalid

continuation : ℕ → ℕ → ℕ → Next
continuation zero v lo = if leb lo v && is_scalar v then emit v else invalid
continuation (suc k) v lo = wait (wants k v lo)

next : Pending → ℕ → Next
unfolding lead continuation
next start b = lead b
next (wants k v lo) b =
    if leb 0x80 b && ltb b 0xC0 then continuation k (v * 0x40 + (b - 0x80)) lo else invalid

abbrev push : ℕ → Option Str → Option Str
push c none = none
push c (some s) = some (c ∷ s)

decode : Pending → Bytes → Option Str
unfolding next
decode start [] = some []
decode (wants k v lo) [] = none
decode p (b ∷ bs) = elim (next p b) [
  | invalid ↦ none
  | emit c ↦ push c (decode start bs)
  | wait q ↦ decode q bs
]

unfoldable pub from_utf8 : Bytes → Option Str
unfolding decode
from_utf8 = decode start

abbrev pub AllScalar : Str → Type 0
AllScalar [] = Unit
AllScalar (c ∷ s) = (is_scalar c ≡ true) × AllScalar s

decode-encode :
    (c : ℕ) (bs : Bytes)
    → is_scalar c ≡ true
    → decode start (encode c ++ bs) ≡ push c (decode start bs)
unfolding decode encode
decode-encode c bs h = ground arith

-- The bytes of a text decode to it.
pub from_utf8-as_bytes : (s : Str) → AllScalar s → from_utf8 (as_bytes s) ≡ some s
unfolding from_utf8 as_bytes decode
from_utf8-as_bytes [] h = refl
from_utf8-as_bytes (c ∷ s) h =
    decode-encode c (as_bytes s) h.0 ∙ ap (push c) (from_utf8-as_bytes s h.1)

-- A newline byte stands for the newline character alone: no other character holds one.
pub as_bytes-append : (s t : Str) → as_bytes (s ++ t) ≡ as_bytes s ++ as_bytes t
unfolding as_bytes
as_bytes-append [] t = refl
as_bytes-append (c ∷ s) t = rw (as_bytes-append s t, append_assoc)
