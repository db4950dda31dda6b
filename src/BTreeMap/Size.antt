-- ===== src/BTreeMap/Size.antt =====
-- A map with n entries holds at most n different keys.
use matrix_ircd.Prelude.{ℕ, zero, suc, ◌<◌, ◌≤◌, ◌≡◌, true, ◌≢◌, [], ◌∷◌, arith, length}
use matrix_ircd.Text.{Str, same_ne}
use matrix_ircd.BTreeMap.{BTreeMap, get, contains_key, remove}
use matrix_ircd.BTreeMap.Laws.{get-remove}

module _ {ℓ} {V : Type ℓ} where
  length-remove-le : (k : Str) (m : BTreeMap V) → length (remove k m) ≤ length m
  unfolding remove
  length-remove-le k [] = omega arith
  length-remove-le k ((j, v) ∷ m) = ground (arith, length-remove-le k m)

  length-remove-lt :
      (k : Str) (m : BTreeMap V) → contains_key k m ≡ true → length (remove k m) < length m
  unfolding remove contains_key get
  length-remove-lt k [] h = cc
  length-remove-lt k ((j, v) ∷ m) h = ground (arith, length-remove-le k m, length-remove-lt k m)

  contains_key-remove_ne :
      (k j : Str) (m : BTreeMap V)
      → k ≢ j
      → contains_key j m ≡ true
      → contains_key j (remove k m) ≡ true
  unfolding contains_key
  contains_key-remove_ne k j m ne h = ground (arith, get-remove k j m, same_ne k j)

  -- `n` different keys that are all there: the map has at least `n` entries.
  pub le-length_of_contains :
      (f : ℕ → Str)
      → ((i j : ℕ) → f i ≡ f j → i ≡ j)
      → (n : ℕ) (m : BTreeMap V) → ((i : ℕ) → i < n → contains_key (f i) m ≡ true)
      → n ≤ length m
  le-length_of_contains f inj zero m h = omega arith
  le-length_of_contains f inj (suc n) m h = omega (
    arith,
    length-remove-lt (f n) m (h n (omega arith)),
    le-length_of_contains f inj n (remove (f n) m) (λ i lt.
        contains_key-remove_ne (f n) (f i) m (λ e. absurd (omega (arith, inj n i e)))
          (h i (omega arith))),
  )
