-- ===== src/BTreeMap.antt =====
-- `std::collections::BTreeMap` with string keys: the list of its entries in the order of their
-- keys, which is the order in which the source iterates over it.
pub mod Laws
pub mod Order
pub mod Size
pub mod Inverse
use matrix_ircd.Prelude.{
  ℕ, zero, suc, ◌+◌, ◌-◌, ◌*◌, ◌/◌, ◌%◌, ◌<◌, ◌≤◌, ◌≡◌, refl, sym, ap, ap₂, subst, ◌∙◌, ◌≡⟨◌⟩◌, ◌∎,
  Bool, true, false, ◌&&◌, ◌||◌, not, ◌≢◌, ◌↔◌, ◌⊎◌, inl, inr, Option, none, some, List, [], ◌∷◌,
  ◌++◌, map, append-nil, append_assoc, arith, leb, ltb, ◌==◌, if◌then◌else◌, Bool-cases,
  Option-cases, length, length-append, get_elem?, take, drop, String, ==_iff,
}
use matrix_ircd.Text.{Str, same, before}

abbrev pub BTreeMap {ℓ} : Type ℓ → Type ℓ
BTreeMap V = List (Str × V)

module _ {ℓ} {V : Type ℓ} where
  unfoldable pub get : Str → BTreeMap V → Option V
  get k [] = none
  get k ((j, v) ∷ m) = if same j k then some v else get k m

  unfoldable pub contains_key : Str → BTreeMap V → Bool
  unfolding get
  contains_key k m = elim (get k m) [ none ↦ false | some _ ↦ true ]

  unfoldable pub insert : Str → V → BTreeMap V → BTreeMap V
  insert k v [] = (k, v) ∷ []
  insert k v ((j, w) ∷ m) =
      if same j k
      then (k, v) ∷ m
      else if before k j
      then (k, v) ∷ (j, w) ∷ m
      else (j, w) ∷ insert k v m

  unfoldable pub remove : Str → BTreeMap V → BTreeMap V
  remove k [] = []
  remove k ((j, v) ∷ m) = let rest = remove k m in if same j k then rest else (j, v) ∷ rest

  -- `collect()`: the entries inserted in turn.
  unfoldable pub collect_onto : BTreeMap V → List (Str × V) → BTreeMap V
  unfolding insert
  collect_onto m [] = m
  collect_onto m ((k, v) ∷ r) = collect_onto (insert k v m) r

  unfoldable pub collect : List (Str × V) → BTreeMap V
  unfolding collect_onto
  collect = collect_onto []
