-- ===== src/Matrix/Models.antt =====
-- src/matrix/models.rs: a Matrix room, kept up to date from sync responses.
pub mod Sync
pub mod Membership
pub mod Moderators
pub mod Unnoticed
use matrix_ircd.Prelude.{
  ℕ, zero, suc, ◌+◌, ◌-◌, ◌*◌, ◌/◌, ◌%◌, ◌<◌, ◌≤◌, ◌≡◌, refl, sym, ap, ap₂, subst, ◌∙◌, ◌≡⟨◌⟩◌, ◌∎,
  Bool, true, false, ◌&&◌, ◌||◌, not, ◌≢◌, ◌↔◌, ◌⊎◌, inl, inr, Option, none, some, List, [], ◌∷◌,
  ◌++◌, map, append-nil, append_assoc, arith, leb, ltb, ◌==◌, if◌then◌else◌, Bool-cases,
  Option-cases, length, length-append, get_elem?, take, drop, String, ==_iff,
}
use mathlib.Core.Option
use matrix_ircd.Prelude.{Outcome, returns, panics, ◌>>=◌}
use matrix_ircd.Text.{Str, codes, same}
use matrix_ircd.BTreeMap
use matrix_ircd.BTreeMap.{BTreeMap, contains_key}
use matrix_ircd.Irc.Models.{BTreeSet}
use matrix_ircd.Matrix.Protocol.{Json, Event, JoinedRoomSyncResponse}

pub record Member : Type 0 where
  pub user_id : Str
  pub display_name : Str
  pub moderator : Bool

module _ (J : Json) where
  -- The events by type and state key.
  abbrev pub StateMap : Type 0
  StateMap = BTreeMap (BTreeMap (Event J))

pub record Room (J : Json) : Type 0 where
  pub room_id : Str
  pub state : StateMap J
  pub members : BTreeMap Member

-- `unwrap_or`.
unfoldable pub unwrap_or {ℓ} : {A : Type ℓ} → A → Option A → A
unwrap_or d none = d
unwrap_or d (some a) = a

-- The level of a moderator.
unfoldable pub is_moderator_level : Option ℕ → Bool
is_moderator_level none = false
is_moderator_level (some level) = leb 50 level

-- The type that `update_from_sync` looks for.
abbrev pub member_type : Str
member_type = codes "m.room_member"

module _ (J : Json) where
  -- The loop over the power levels.
  unfoldable pub collect_mods : BTreeSet → List (Str × J.Value) → BTreeSet
  unfolding is_moderator_level
  collect_mods mods [] = mods
  collect_mods mods ((user_id, level_val) ∷ users) =
      collect_mods
        (if is_moderator_level (J.as_u64 level_val) then BTreeMap.insert user_id tt mods else mods)
        users

module _ {J : Json} where
  -- `entry(etype).or_insert_with(BTreeMap::new).insert(state_key, ev)`.
  unfoldable pub store_event : StateMap J → Str → Event J → StateMap J
  unfolding unwrap_or
  store_event state state_key ev =
      BTreeMap.insert ev.etype
        (BTreeMap.insert state_key ev (unwrap_or [] (BTreeMap.get ev.etype state))) state

  -- The loop over the state events; one with no state key is a panic (`expect`).
  unfoldable pub store_state_events : StateMap J → List (Event J) → Outcome (StateMap J)
  unfolding store_event
  store_state_events state [] = returns state
  store_state_events state (ev ∷ evs) = elim ev.state_key [
    | none ↦ panics
    | some key ↦ store_state_events (store_event state key ev) evs
  ]

  -- The loop over the timeline: events with no state key are passed over.
  unfoldable pub store_timeline_events : StateMap J → List (Event J) → StateMap J
  unfolding store_event
  store_timeline_events state [] = state
  store_timeline_events state (ev ∷ evs) =
      store_timeline_events
        (elim ev.state_key [ none ↦ state | some key ↦ store_event state key ev ]) evs

  unfoldable pub get_state : Room J → Str → Str → Option J.Value
  get_state room etype state_key =
      Option.map (λ (ev : Event J). ev.content)
        (Option.bind (BTreeMap.get etype room.state) (BTreeMap.get state_key))

  unfoldable pub get_state_content_key : Room J → Str → Str → Str → Option Str
  unfolding get_state
  get_state_content_key room etype state_key content_key =
      Option.bind
        (Option.bind (Option.bind (get_state room etype state_key) J.as_object)
          (BTreeMap.get content_key))
        J.as_str

  unfoldable pub get_name : Room J → Option Str
  unfolding get_state_content_key
  get_name room = get_state_content_key room (codes "m.room.name") [] (codes "name")

  unfoldable pub get_topic : Room J → Option Str
  unfolding get_state_content_key
  get_topic room = get_state_content_key room (codes "m.room.topic") [] (codes "topic")

  -- The users with a power level of 50 or more.
  unfoldable pub moderators : Room J → BTreeSet
  unfolding collect_mods get_state
  moderators room =
      let users =
        Option.bind
          (Option.bind (get_state room (codes "m.room.power_levels") [])
            (λ c. J.get c (codes "users")))
          J.as_object in
      elim users [ none ↦ [] | some u ↦ collect_mods J [] u ]

  -- A text in the content of an event, or the empty text.
  unfoldable pub content_text : Event J → Str → Str
  unfolding unwrap_or
  content_text ev key = unwrap_or [] (Option.bind (J.get ev.content key) J.as_str)

  unfoldable pub add_member : BTreeSet → BTreeMap Member → Str → Event J → BTreeMap Member
  unfolding content_text
  add_member mods members user_id ev =
      if same (content_text ev (codes "membership")) (codes "join")
      then BTreeMap.insert user_id
          (record {
            user_id = user_id;
            display_name = content_text ev (codes "displayname");
            moderator = contains_key user_id mods;
          })
          members
      else members

  -- The loop over the member events.
  unfoldable pub add_members : BTreeSet → BTreeMap Member → List (Str × Event J) → BTreeMap Member
  unfolding add_member
  add_members mods members [] = members
  add_members mods members ((user_id, ev) ∷ rest) =
      add_members mods (add_member mods members user_id ev) rest

  -- Members are only ever added: the map is not cleared first.
  unfoldable pub recalculate_members : Room J → Room J
  unfolding moderators add_members
  recalculate_members room = elim (BTreeMap.get (codes "m.room.member") room.state) [
    | none ↦ room
    | some member_state ↦ record room {
      members = add_members (moderators room) room.members member_state;
    }
  ]

  unfoldable pub from_sync : Str → JoinedRoomSyncResponse J → Outcome (Room J)
  unfolding store_state_events store_timeline_events recalculate_members
  from_sync room_id resp = store_state_events [] resp.state.events >>= λ state_map. returns (
      recalculate_members (record {
        room_id = room_id;
        state = store_timeline_events state_map resp.timeline.events;
        members = [];
      }))

  -- `contained_member_event` behind the loop over the state events.
  unfoldable pub has_member_type : List (Event J) → Bool
  has_member_type [] = false
  has_member_type (ev ∷ evs) = same ev.etype member_type || has_member_type evs

  -- The same of the timeline, where only state events count.
  unfoldable pub has_member_state : List (Event J) → Bool
  has_member_state [] = false
  has_member_state (ev ∷ evs) =
      elim ev.state_key [ none ↦ false | some _ ↦ same ev.etype member_type ]
      || has_member_state evs

  unfoldable pub update_from_sync : Room J → JoinedRoomSyncResponse J → Outcome (Room J)
  unfolding store_state_events store_timeline_events has_member_type has_member_state
      recalculate_members
  update_from_sync room resp = store_state_events room.state resp.state.events >>= λ state.
      let room' = record room { state = store_timeline_events state resp.timeline.events } in
      returns (
        if has_member_type resp.state.events || has_member_state resp.timeline.events
        then recalculate_members room'
        else room')
