-- ===== src/Matrix/Models/Moderators.antt =====
-- src/matrix/models.rs: `moderators`, and the power levels.
use matrix_ircd.Prelude.{
  ℕ, ◌≤◌, ◌↔◌, ◌++◌, sym, ◌≡◌, refl, ap, ◌∙◌, Bool, true, false, ◌&&◌, ◌||◌, inl, inr, Option, none,
  some, List, [], ◌∷◌, arith, Bool-cases,
}
use mathlib.Core.Option
use matrix_ircd.Text.{Str, codes, same, same_iff, same_refl}
use matrix_ircd.BTreeMap
use matrix_ircd.BTreeMap.{BTreeMap, get, contains_key}
use matrix_ircd.BTreeMap.Laws.{contains_key-insert}
use matrix_ircd.Irc.Models.{BTreeSet}
use matrix_ircd.Matrix.Protocol.{Json, Event}
use matrix_ircd.Matrix.Models.{Room, is_moderator_level, collect_mods, moderators, get_state}

module _ (J : Json) where
  -- Some power level of the user is 50 or more.
  abbrev pub Moderates : Str → List (Str × J.Value) → Type 0
  Moderates user_id users =
      (before : List (Str × J.Value)) × (level : J.Value) × (n : ℕ) × (after : List (Str × J.Value))
      × (users ≡ before ++ (user_id, level) ∷ after)
      × (J.as_u64 level ≡ some n)
      × (50 ≤ n)

  -- The same as a test.
  unfoldable pub moderates : Str → List (Str × J.Value) → Bool
  unfolding is_moderator_level
  moderates user_id [] = false
  moderates user_id ((u, level) ∷ users) =
      (same u user_id && is_moderator_level (J.as_u64 level)) || moderates user_id users

  level_of_moderator :
      (o : Option ℕ) → is_moderator_level o ≡ true → (n : ℕ) × (o ≡ some n) × (50 ≤ n)
  unfolding is_moderator_level
  level_of_moderator none h = cc
  level_of_moderator (some n) h = (n, refl, ground arith)

  -- The first of several is there.
  at_head :
      (user_id u : Str) (level : J.Value) (users : List (Str × J.Value))
      → (same u user_id && is_moderator_level (J.as_u64 level)) ≡ true
      → Moderates user_id ((u, level) ∷ users)
  at_head user_id u level users h =
      let (n, e, le) = level_of_moderator (J.as_u64 level) (ground arith) in
      let is_user : u ≡ user_id = (same_iff u user_id).0 (ground arith) in
      ([], level, n, users, rw is_user refl, e, le)

  moderates-Moderates :
      (user_id : Str) (users : List (Str × J.Value))
      → moderates user_id users ≡ true
      → Moderates user_id users
  unfolding moderates
  moderates-Moderates user_id [] h = absurd cc
  moderates-Moderates user_id ((u, level) ∷ users) h =
      elim (Bool-cases (same u user_id && is_moderator_level (J.as_u64 level))) [
        | inl e ↦ at_head user_id u level users e
        | inr e ↦
            let (before, l, n, after, e', q, le) =
              moderates-Moderates user_id users (ground arith) in
            ((u, level) ∷ before, l, n, after, ap (λ x. (u, level) ∷ x) e', q, le)
      ]

  Moderates-moderates :
      (user_id : Str) (before after : List (Str × J.Value)) (level : J.Value) (n : ℕ)
      → J.as_u64 level ≡ some n
      → 50 ≤ n
      → moderates user_id (before ++ (user_id, level) ∷ after) ≡ true
  unfolding moderates is_moderator_level
  Moderates-moderates user_id [] after level n e le = rw e (ground (arith, same_refl user_id))
  Moderates-moderates user_id ((u, l) ∷ before) after level n e le =
      ground (arith, Moderates-moderates user_id before after level n e le)

  collect_mods_lem :
      (users : List (Str × J.Value)) (mods : BTreeSet) (user_id : Str)
      → contains_key user_id (collect_mods J mods users)
        ≡ (moderates user_id users || contains_key user_id mods)
  unfolding collect_mods moderates
  collect_mods_lem [] mods user_id = refl
  collect_mods_lem ((u, level) ∷ users) mods user_id =
      elim (Bool-cases (is_moderator_level (J.as_u64 level))) [
        | inl e ↦ ground (
          arith,
          e,
          collect_mods_lem users (BTreeMap.insert u tt mods) user_id,
          contains_key-insert u user_id tt mods,
        )
        | inr e ↦ ground (arith, e, collect_mods_lem users mods user_id)
      ]

  from_empty :
      (users : List (Str × J.Value)) (user_id : Str)
      → contains_key user_id (collect_mods J [] users) ≡ moderates user_id users
  unfolding contains_key get
  from_empty users user_id = ground (arith, collect_mods_lem users [] user_id)

module _ {J : Json} where
  -- The state has an event with power levels, and these are of users.
  pub record HasLevels (room : Room J) (users : List (Str × J.Value)) : Type 0 where
    pub events : BTreeMap (Event J)
    pub event : Event J
    pub value : J.Value
    pub has_events : get (codes "m.room.power_levels") room.state ≡ some events
    pub has_event : get [] events ≡ some event
    pub has_users : J.get event.content (codes "users") ≡ some value
    pub are_users : J.as_object value ≡ some users

  -- The power levels of the users, if the state has them.
  unfoldable levels_of : Room J → Option (BTreeMap J.Value)
  levels_of room =
      Option.bind
        (Option.bind (get_state room (codes "m.room.power_levels") [])
          (λ c. J.get c (codes "users")))
        J.as_object

  HasLevels-levels_of :
      (room : Room J) (users : List (Str × J.Value))
      → HasLevels room users
      → levels_of room ≡ some users
  unfolding levels_of get_state Option.bind
  HasLevels-levels_of room users h = rw (h.has_events, h.has_event, h.has_users, h.are_users) refl

  mods_are :
      (room : Room J) (users : List (Str × J.Value)) (user_id : Str)
      → levels_of room ≡ some users
      → contains_key user_id (moderators room) ≡ moderates J user_id users
  unfolding levels_of moderators
  mods_are room users user_id h =
      let mods_of : Option (BTreeMap J.Value) → BTreeSet =
        λ o. elim o [ none ↦ [] | some u ↦ collect_mods J [] u ] in
      ap (λ o. contains_key user_id (mods_of o)) h ∙ from_empty J users user_id

  -- If the state has an event with power levels of users, the moderators are just the users to whom
  -- it gives a number of 50 or more.
  pub moderators_lem :
      (room : Room J) (users : List (Str × J.Value)) (user_id : Str)
      → HasLevels room users
      → (contains_key user_id (moderators room) ≡ true) ↔ Moderates J user_id users
  moderators_lem room users user_id h =
      let e = mods_are room users user_id (HasLevels-levels_of room users h) in
      (
        λ k. moderates-Moderates J user_id users (sym e ∙ k),
        λ (before, level, n, after, at, q, le).
            e
            ∙ ap (moderates J user_id) at
            ∙ Moderates-moderates J user_id before after level n q le,
      )
