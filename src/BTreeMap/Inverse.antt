-- ===== src/BTreeMap/Inverse.antt =====
-- Two maps that are each other's inverse.
use matrix_ircd.Prelude.{◌≡◌, none, some, [], arith}
use matrix_ircd.Text.{Str, same_iff}
use matrix_ircd.BTreeMap.{BTreeMap, get, insert}
use matrix_ircd.BTreeMap.Laws.{get-insert}

-- `m` takes `k` to `v` exactly when `n` takes `v` to `k`.
pub record AreInverse (m n : BTreeMap Str) : Type 0 where
  pub forth : (k v : Str) → get k m ≡ some v → get v n ≡ some k
  pub back : (k v : Str) → get v n ≡ some k → get k m ≡ some v

pub AreInverse-nil : AreInverse [] []
unfolding get
AreInverse-nil = record { forth = λ k v h. cc; back = λ k v h. cc }

-- One direction of a new pair.
insert_forth :
    (m n : BTreeMap Str) (k v : Str)
    → ((j w : Str) → get j m ≡ some w → get w n ≡ some j)
    → get v n ≡ none
    → (j w : Str) → get j (insert k v m) ≡ some w
    → get w (insert v k n) ≡ some j
insert_forth m n k v h fresh j w e =
    ground (
      arith,
      get-insert k j v m,
      get-insert v w k n,
      same_iff k j,
      same_iff v w,
      same_iff v v,
      h j w,
    )

-- A new key with a new value.
pub insert-AreInverse :
    (m n : BTreeMap Str) (k v : Str)
    → get k m ≡ none
    → get v n ≡ none
    → AreInverse m n
    → AreInverse (insert k v m) (insert v k n)
insert-AreInverse m n k v fk fv h = record {
  forth = insert_forth m n k v h.forth fv;
  back = λ j w. insert_forth n m v k (λ a b. h.back b a) fk w j;
}
