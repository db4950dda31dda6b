-- ===== src/Text/Decimal.antt =====
-- `format!("{}", n)` of an unsigned number, and `str::parse` back.
use matrix_ircd.Prelude.{
  Bool, true, ◌&&◌, Option, some, none, leb, ◌==◌, ℕ, zero, suc, ◌+◌, ◌-◌, ◌*◌, ◌/◌, ◌%◌, ◌<◌, ◌≡◌,
  refl, sym, ap, ◌∙◌, [], ◌∷◌, ◌++◌, arith, ltb, if◌then◌else◌,
}
use matrix_ircd.Text.Ordered.{Str, codes}

decimal_fuel : ℕ → ℕ → Str
decimal_fuel zero n = []
decimal_fuel (suc f) n =
    let front = decimal_fuel f (n / 10) in
    if ltb n 10 then (48 + n) ∷ [] else front ++ ((48 + n % 10) ∷ [])

unfoldable pub decimal : ℕ → Str
unfolding decimal_fuel
decimal n = decimal_fuel (suc n) n

-- The value of a run of digits, after those already read.
unfoldable pub digits_value : ℕ → Str → ℕ
digits_value n [] = n
digits_value n (c ∷ s) = digits_value (n * 10 + (c - 48)) s

digits_value-append :
    (n : ℕ) (s t : Str) → digits_value n (s ++ t) ≡ digits_value (digits_value n s) t
unfolding digits_value
digits_value-append n [] t = refl
digits_value-append n (c ∷ s) t = digits_value-append (n * 10 + (c - 48)) s t

digits_value-decimal_fuel : (f n : ℕ) → n < f → digits_value 0 (decimal_fuel f n) ≡ n
unfolding decimal_fuel digits_value
digits_value-decimal_fuel zero n h = elim h [ ]
digits_value-decimal_fuel (suc f) n h = ground (
  arith,
  digits_value-append 0 (decimal_fuel f (n / 10)) ((48 + n % 10) ∷ []),
  digits_value-decimal_fuel f (n / 10),
)

pub digits_value-decimal : (n : ℕ) → digits_value 0 (decimal n) ≡ n
unfolding decimal
digits_value-decimal n = digits_value-decimal_fuel (suc n) n (omega arith)

pub decimal_injective : {m n : ℕ} → decimal m ≡ decimal n → m ≡ n
decimal_injective {m} {n} h =
    sym (digits_value-decimal m) ∙ ap (digits_value 0) h ∙ digits_value-decimal n

decimal_test : decimal 1205 ≡ codes "1205"
unfolding decimal
decimal_test = refl

abbrev pub is_digit : ℕ → Bool
is_digit c = leb b'0' c && leb c b'9'

unfoldable pub all_digits : Str → Bool
all_digits [] = true
all_digits (c ∷ s) = is_digit c && all_digits s

-- What is left of a number's text behind an optional `+`.
unsigned : Str → Str
unsigned [] = []
unsigned (c ∷ s) = if c == b'+' then s else c ∷ s

-- One digit at least, and a value below the bound.
checked : ℕ → Str → Option ℕ
checked bound [] = none
checked bound (c ∷ s) =
    let n = digits_value 0 (c ∷ s) in if all_digits (c ∷ s) && ltb n bound then some n else none

-- `str::parse` of an unsigned number below a bound.
unfoldable pub parse_below : ℕ → Str → Option ℕ
unfolding unsigned checked all_digits digits_value
parse_below bound s = checked bound (unsigned s)
