-- ===== src/Bridge/UniqueName.antt =====
-- src/bridge/mod.rs: the two loops that put `[1]`, `[2]`, … behind a name until it is new. The
-- source counts in an `i32`; the theorem bounds the count by the number of names in use.
use matrix_ircd.Prelude.{
  ℕ, zero, suc, ◌+◌, ◌<◌, ◌≤◌, ◌≡◌, refl, subst, true, false, ◌⊎◌, inl, inr, [], ◌∷◌, ◌++◌, arith,
  if◌then◌else◌, Bool-cases, length,
}
use native.Mathlib.Decide.{dec_lt}
use matrix_ircd.Text.{Str}
use matrix_ircd.Text.Decimal.{decimal, decimal_injective}
use matrix_ircd.BTreeMap.{BTreeMap, contains_key}
use matrix_ircd.BTreeMap.Size.{le-length_of_contains}

-- `format!("{}[{}]", …)`.
unfoldable pub suffixed : Str → ℕ → Str
unfolding decimal
suffixed base idx = base ++ b'[' ∷ (decimal idx ++ b']' ∷ [])

module _ {V : Type 0} where
  -- The loop from `idx`, for at most `fuel` names that are taken.
  suffix_loop : ℕ → BTreeMap V → Str → ℕ → Str
  unfolding suffixed
  suffix_loop zero taken base idx = suffixed base idx
  suffix_loop (suc fuel) taken base idx =
      let later = suffix_loop fuel taken base (idx + 1) in
      if contains_key (suffixed base idx) taken then later else suffixed base idx

  -- The name, or the first new one with a suffix. A map with n entries can take n names.
  unfoldable pub unique_name : BTreeMap V → Str → Str
  unfolding suffix_loop contains_key
  unique_name taken base =
      if contains_key base taken then suffix_loop (length taken) taken base 1 else base

append_cancel_left : (a : Str) {b c : Str} → a ++ b ≡ a ++ c → b ≡ c
append_cancel_left [] h = h
append_cancel_left (x ∷ a) h = append_cancel_left a (cc)

append_cancel_last : {a b : Str} (x : ℕ) → a ++ x ∷ [] ≡ b ++ x ∷ [] → a ≡ b
append_cancel_last {a = []} {b = []} x h = refl
append_cancel_last {a = []} {b = y ∷ []} x h = cc
append_cancel_last {a = []} {b = y ∷ z ∷ b} x h = cc
append_cancel_last {a = y ∷ []} {b = []} x h = cc
append_cancel_last {a = y ∷ z ∷ a} {b = []} x h = cc
append_cancel_last {a = y ∷ a} {b = z ∷ b} x h =
    let t : a ++ x ∷ [] ≡ b ++ x ∷ [] = cc in
    let y≡z : y ≡ z = cc in cc (append_cancel_last {a = a} {b = b} x t)

-- Different numbers give different names.
pub suffixed_injective : (base : Str) (i j : ℕ) → suffixed base i ≡ suffixed base j → i ≡ j
unfolding suffixed
suffixed_injective base i j h =
    let t : b'[' ∷ (decimal i ++ b']' ∷ []) ≡ b'[' ∷ (decimal j ++ b']' ∷ []) =
      append_cancel_left base h in
    decimal_injective (append_cancel_last b']' (cc))

module _ {V : Type 0} (taken : BTreeMap V) (base : Str) where
  -- The suffixes from 1 up to `idx`, not included, are in use.
  abbrev pub TakenBelow : ℕ → Type 0
  TakenBelow idx = (i : ℕ) → 1 ≤ i → i < idx → contains_key (suffixed base i) taken ≡ true

  TakenBelow-suc :
      (idx : ℕ)
      → TakenBelow idx
      → contains_key (suffixed base idx) taken ≡ true
      → TakenBelow (idx + 1)
  TakenBelow-suc idx h t i p q = elim (dec_lt i idx) [
    | yes lt ↦ h i p lt
    | no ge ↦
        let e : idx ≡ i = omega arith in
        subst (λ j. contains_key (suffixed base j) taken ≡ true) e t
  ]

  -- A map holds no more suffixed names than entries.
  TakenBelow-le : (idx : ℕ) → TakenBelow idx → idx ≤ length taken + 1
  TakenBelow-le zero h = omega arith
  TakenBelow-le (suc n) h = omega (
    arith,
    le-length_of_contains (λ i. suffixed base (suc i))
        (λ i j e. omega (arith, suffixed_injective base (suc i) (suc j) e)) n taken
        (λ i lt. h (suc i) (omega arith) (omega arith)),
  )

  -- The name has the first suffix that is not in use, and the suffix is at most one more than the
  -- number of names in use.
  pub record IsFirstSuffix (name : Str) : Type 0 where
    pub index : ℕ
    pub is_suffixed : name ≡ suffixed base index
    pub positive : 1 ≤ index
    pub bounded : index ≤ length taken + 1
    pub is_new : contains_key name taken ≡ false
    pub is_first : TakenBelow index

  suffix_loop_lem :
      (fuel idx : ℕ)
      → 1 ≤ idx
      → idx + fuel ≡ length taken + 1
      → TakenBelow idx
      → IsFirstSuffix (suffix_loop fuel taken base idx)
  unfolding suffix_loop
  suffix_loop_lem zero idx p e h = record {
    index = idx;
    is_suffixed = refl;
    positive = p;
    bounded = omega arith;
    is_new = elim (Bool-cases (contains_key (suffixed base idx) taken)) [
      | inl t ↦ absurd (omega (arith, TakenBelow-le (idx + 1) (TakenBelow-suc idx h t)))
      | inr f ↦ f
    ];
    is_first = h;
  }
  suffix_loop_lem (suc fuel) idx p e h =
      elim (Bool-cases (contains_key (suffixed base idx) taken)) [
        | inl t ↦
            rw (t, suffix_loop)
              (suffix_loop_lem fuel (idx + 1) (omega arith) (omega arith) (TakenBelow-suc idx h t))
        | inr f ↦
            rw (f, suffix_loop)
              (record {
                index = idx;
                is_suffixed = refl;
                positive = p;
                bounded = omega arith;
                is_new = f;
                is_first = h;
              })
      ]

-- A name that is not in use stays as it is. Another one gets the first suffix from 1 on that makes
-- it new, and the number in it is at most one more than the number of names in use.
pub unique_name_lem :
    {V : Type 0} (taken : BTreeMap V) (base : Str)
    → ((contains_key base taken ≡ false) × (unique_name taken base ≡ base))
      ⊎ ((contains_key base taken ≡ true) × IsFirstSuffix taken base (unique_name taken base))
unfolding unique_name
unique_name_lem taken base = elim (Bool-cases (contains_key base taken)) [
  | inl t ↦ inr (
    t,
    rw t (
        suffix_loop_lem taken base (length taken) 1 (omega arith) (omega arith)
          (λ i p q. absurd (omega arith))),
  )
  | inr f ↦ inl (f, rw f)
]

-- The name that the loops find is not in use.
pub unique_name_new :
    {V : Type 0} (taken : BTreeMap V) (base : Str)
    → contains_key (unique_name taken base) taken ≡ false
unique_name_new taken base = elim (unique_name_lem taken base) [
  | inl (f, e) ↦ rw e f
  | inr (t, s) ↦ s.is_new
]
