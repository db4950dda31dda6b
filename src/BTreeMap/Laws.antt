-- ===== src/BTreeMap/Laws.antt =====
-- What a lookup finds after an update. None of these needs the order of the entries.
use matrix_ircd.Prelude.{
  ◌≡◌, refl, true, false, ◌||◌, inl, inr, none, some, [], ◌∷◌, arith, if◌then◌else◌, Option-cases,
}
use matrix_ircd.Text.{Str, same, same_iff, same_refl}
use matrix_ircd.BTreeMap.{BTreeMap, get, contains_key, insert, remove}

module _ {ℓ} {V : Type ℓ} where
  pub get-insert :
      (k j : Str) (v : V) (m : BTreeMap V)
      → get j (insert k v m) ≡ (if same k j then some v else get j m)
  unfolding get insert
  get-insert k j v [] = refl
  get-insert k j v ((i, w) ∷ m) =
      ground (arith, same_iff k j, same_iff i k, same_iff i j, get-insert k j v m)

  pub get-remove :
      (k j : Str) (m : BTreeMap V) → get j (remove k m) ≡ (if same k j then none else get j m)
  unfolding get remove
  get-remove k j [] = ground arith
  get-remove k j ((i, w) ∷ m) =
      ground (arith, same_iff k j, same_iff i k, same_iff i j, get-remove k j m)

  pub get-insert_self : (k : Str) (v : V) (m : BTreeMap V) → get k (insert k v m) ≡ some v
  get-insert_self k v m = rw (get-insert, same_refl)

  pub contains_key-insert :
      (k j : Str) (v : V) (m : BTreeMap V)
      → contains_key j (insert k v m) ≡ (same k j || contains_key j m)
  unfolding contains_key
  contains_key-insert k j v m = ground (arith, get-insert k j v m)

  pub contains_key_of_get :
      (k : Str) (m : BTreeMap V) {v : V} → get k m ≡ some v → contains_key k m ≡ true
  unfolding contains_key
  contains_key_of_get k m h = ground arith

  pub contains_key_of_none : (k : Str) (m : BTreeMap V) → get k m ≡ none → contains_key k m ≡ false
  unfolding contains_key
  contains_key_of_none k m h = ground arith

  pub get_of_contains_key :
      (k : Str) (m : BTreeMap V) → contains_key k m ≡ true → (v : V) × (get k m ≡ some v)
  unfolding contains_key
  get_of_contains_key k m h = elim (Option-cases (get k m)) [
    | inl e ↦ absurd (ground arith)
    | inr (v, e) ↦ (v, e)
  ]

  pub get_of_not_contains_key :
      (k : Str) (m : BTreeMap V) → contains_key k m ≡ false → get k m ≡ none
  unfolding contains_key
  get_of_not_contains_key k m h = ground arith
