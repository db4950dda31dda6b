-- ===== src/BTreeMap/Order.antt =====
-- The entries stay in the order of their keys, with no key twice.
use matrix_ircd.Prelude.{◌≡◌, true, List, [], ◌∷◌, arith}
use matrix_ircd.Text.{Str, before, same_iff, before_total, before_trans}
use matrix_ircd.BTreeMap.{BTreeMap, insert, remove, collect_onto, collect}

module _ {ℓ} {V : Type ℓ} where
  -- Every key of `m` stands after `k`.
  abbrev pub AllAfter : Str → BTreeMap V → Type 0
  AllAfter k [] = Unit
  AllAfter k ((j, v) ∷ m) = (before k j ≡ true) × AllAfter k m

  abbrev pub IsSorted : BTreeMap V → Type 0
  IsSorted [] = Unit
  IsSorted ((k, v) ∷ m) = AllAfter k m × IsSorted m

module _ {ℓ} {V : Type ℓ} where
  AllAfter-trans : (k j : Str) (m : BTreeMap V) → before k j ≡ true → AllAfter j m → AllAfter k m
  AllAfter-trans k j [] h a = tt
  AllAfter-trans k j ((i, v) ∷ m) h a = (before_trans k j i h a.0, AllAfter-trans k j m h a.1)

  AllAfter-insert :
      (j k : Str) (v : V) (m : BTreeMap V)
      → before j k ≡ true
      → AllAfter j m
      → AllAfter j (insert k v m)
  unfolding insert
  AllAfter-insert j k v [] h a = (h, tt)
  AllAfter-insert j k v ((i, w) ∷ m) h a = ground (arith, AllAfter-insert j k v m)

  AllAfter-remove : (j k : Str) (m : BTreeMap V) → AllAfter j m → AllAfter j (remove k m)
  unfolding remove
  AllAfter-remove j k [] a = tt
  AllAfter-remove j k ((i, w) ∷ m) a = ground (arith, AllAfter-remove j k m)

  pub insert-IsSorted : (k : Str) (v : V) (m : BTreeMap V) → IsSorted m → IsSorted (insert k v m)
  unfolding insert
  insert-IsSorted k v [] s = (tt, tt)
  insert-IsSorted k v ((j, w) ∷ m) s = ground (
    arith,
    same_iff j k,
    before_total k j,
    same_iff k j,
    AllAfter-trans k j m,
    AllAfter-insert j k v m,
    insert-IsSorted k v m,
  )

  pub remove-IsSorted : (k : Str) (m : BTreeMap V) → IsSorted m → IsSorted (remove k m)
  unfolding remove
  remove-IsSorted k [] s = tt
  remove-IsSorted k ((j, w) ∷ m) s = ground (arith, AllAfter-remove j k m, remove-IsSorted k m)

  collect_onto-IsSorted :
      (m : BTreeMap V) (r : List (Str × V)) → IsSorted m → IsSorted (collect_onto m r)
  unfolding collect_onto
  collect_onto-IsSorted m [] s = s
  collect_onto-IsSorted m ((k, v) ∷ r) s =
      collect_onto-IsSorted (insert k v m) r (insert-IsSorted k v m s)

  pub collect-IsSorted : (r : List (Str × V)) → IsSorted (collect r)
  unfolding collect
  collect-IsSorted r = collect_onto-IsSorted [] r tt
