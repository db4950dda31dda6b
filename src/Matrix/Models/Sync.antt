-- ===== src/Matrix/Models/Sync.antt =====
-- The state of a room behind a sync response: of each type and state key, the last event wins.
use matrix_ircd.Prelude.{
  or_else, ◌≡◌, refl, ap, ◌∙◌, Bool, true, false, ◌&&◌, ◌||◌, inl, inr, Option, none, some, List,
  [], ◌∷◌, arith, if◌then◌else◌, Option-cases,
}
use matrix_ircd.Prelude.{returns, panics}
use matrix_ircd.Text.{Str, codes, same, same_iff}
use matrix_ircd.BTreeMap
use matrix_ircd.BTreeMap.{BTreeMap, get, contains_key}
use matrix_ircd.BTreeMap.Laws.{get-insert}
use matrix_ircd.Matrix.Protocol.{Json, Event, JoinedRoomSyncResponse}
use matrix_ircd.Matrix.Models.{
  Room, StateMap, unwrap_or, store_event, store_state_events, store_timeline_events,
  recalculate_members, from_sync, update_from_sync, has_member_type, has_member_state,
}

module _ {J : Json} where
  unfoldable look_in : Option (BTreeMap (Event J)) → Str → Option (Event J)
  unfolding get
  look_in none key = none
  look_in (some events) key = get key events

  -- The event of a type and a state key.
  unfoldable pub lookup : StateMap J → Str → Str → Option (Event J)
  unfolding look_in
  lookup state etype key = look_in (get etype state) key

  -- The last event of a type and a state key.
  unfoldable pub latest : Str → Str → List (Event J) → Option (Event J)
  latest etype key [] = none
  latest etype key (ev ∷ evs) = or_else (latest etype key evs) (elim ev.state_key [
    | none ↦ none
    | some k ↦ if same ev.etype etype && same k key then some ev else none
  ])

  -- Every event has a state key.
  unfoldable pub are_keyed : List (Event J) → Bool
  are_keyed [] = true
  are_keyed (ev ∷ evs) = elim ev.state_key [ none ↦ false | some _ ↦ are_keyed evs ]

  look_in_lem :
      (o : Option (BTreeMap (Event J))) (key : Str) → get key (unwrap_or [] o) ≡ look_in o key
  unfolding look_in unwrap_or get
  look_in_lem none key = refl
  look_in_lem (some m) key = refl

  look_in_if :
      (b : Bool) (m : BTreeMap (Event J)) (o : Option (BTreeMap (Event J))) (key : Str)
      → look_in (if b then some m else o) key ≡ (if b then get key m else look_in o key)
  unfolding look_in
  look_in_if true m o key = refl
  look_in_if false m o key = refl

  lookup-insert :
      (t : Str) (m : BTreeMap (Event J)) (state : StateMap J) (etype key : Str)
      → lookup (BTreeMap.insert t m state) etype key
        ≡ (if same t etype then get key m else lookup state etype key)
  unfolding lookup
  lookup-insert t m state etype key =
      ap (λ o. look_in o key) (get-insert t etype m state)
      ∙ look_in_if (same t etype) m (get etype state) key

  lookup-store_event :
      (state : StateMap J) (k : Str) (ev : Event J) (etype key : Str)
      → lookup (store_event state k ev) etype key
        ≡ (if same ev.etype etype && same k key then some ev else lookup state etype key)
  unfolding store_event
  lookup-store_event state k ev etype key =
      let old = unwrap_or [] (get ev.etype state) in
      let before : get key old ≡ lookup state ev.etype key =
        unfold lookup in look_in_lem (get ev.etype state) key in
      let here = lookup-insert ev.etype (BTreeMap.insert k ev old) state etype key in
      ground (arith, here, get-insert k key ev old, same_iff ev.etype etype, before)

  pub lookup-store_timeline_events :
      (evs : List (Event J)) (state : StateMap J) (etype key : Str)
      → lookup (store_timeline_events state evs) etype key
        ≡ or_else (latest etype key evs) (lookup state etype key)
  unfolding store_timeline_events latest
  lookup-store_timeline_events [] state etype key = refl
  lookup-store_timeline_events (ev ∷ evs) state etype key = elim (Option-cases ev.state_key) [
    | inl e ↦ ground (arith, e, lookup-store_timeline_events evs state etype key)
    | inr (k, e) ↦ ground (
      arith,
      e,
      lookup-store_event state k ev etype key,
      lookup-store_timeline_events evs (store_event state k ev) etype key,
    )
  ]

  pub store_state_events_lem :
      (evs : List (Event J)) (state : StateMap J)
      → store_state_events state evs
        ≡ (if are_keyed evs then returns (store_timeline_events state evs) else panics)
  unfolding store_state_events are_keyed store_timeline_events
  store_state_events_lem [] state = refl
  store_state_events_lem (ev ∷ evs) state = elim (Option-cases ev.state_key) [
    | inl e ↦ ground (arith, e)
    | inr (k, e) ↦ ground (arith, e, store_state_events_lem evs (store_event state k ev))
  ]

  pub recalculate_members-state : (room : Room J) → (recalculate_members room).state ≡ room.state
  unfolding recalculate_members
  recalculate_members-state room = elim (Option-cases (get (codes "m.room.member") room.state)) [
    | inl e ↦ rw (recalculate_members, e) refl
    | inr (m, e) ↦ rw (recalculate_members, e) refl
  ]

  -- What the state says behind both loops.
  both_loops :
      (first second : List (Event J)) (state : StateMap J) (etype key : Str)
      → lookup (store_timeline_events (store_timeline_events state first) second) etype key
        ≡ or_else
            (latest etype key second)
            (or_else (latest etype key first) (lookup state etype key))
  both_loops first second state etype key =
      lookup-store_timeline_events second (store_timeline_events state first) etype key
      ∙ ap (or_else (latest etype key second)) (lookup-store_timeline_events first state etype key)

  pub keyed_returns :
      (evs : List (Event J)) (state : StateMap J)
      → are_keyed evs ≡ true
      → store_state_events state evs ≡ returns (store_timeline_events state evs)
  keyed_returns evs state h = rw (store_state_events_lem, h) refl

  unkeyed_fails :
      (evs : List (Event J)) (state : StateMap J)
      → are_keyed evs ≡ false
      → store_state_events state evs ≡ panics
  unkeyed_fails evs state h = rw (store_state_events_lem, h) refl

  -- Whether or not the members are looked at again, the state is the same.
  if_state :
      (b : Bool) (room : Room J) → (if b then recalculate_members room else room).state ≡ room.state
  if_state true room = recalculate_members-state room
  if_state false room = refl

  or_else-none : (o : Option (Event J)) → or_else o none ≡ o
  or_else-none none = refl
  or_else-none (some ev) = refl

  -- If every state event has a state key, then a room comes of the first sync response, and its
  -- state at a type and a state key is the last event of the timeline with these, or else the last
  -- of the state events.
  pub from_sync_state :
      (room_id : Str) (resp : JoinedRoomSyncResponse J)
      → are_keyed resp.state.events ≡ true
      → (room : Room J) × (from_sync room_id resp ≡ returns room)
        × ((etype key : Str)
            → lookup room.state etype key
              ≡ or_else
                  (latest etype key resp.timeline.events)
                  (latest etype key resp.state.events))
  unfolding from_sync
  from_sync_state room_id resp h =
      let state = store_timeline_events [] resp.state.events in
      let room : Room J = record {
        room_id = room_id;
        state = store_timeline_events state resp.timeline.events;
        members = [];
      } in
      let at_end : (etype key : Str)
          → or_else (latest etype key resp.state.events) (lookup [] etype key)
            ≡ latest etype key resp.state.events =
        λ etype key. unfold lookup get in or_else-none (latest etype key resp.state.events) in
      (
        recalculate_members room,
        rw (keyed_returns resp.state.events [] h) refl,
        λ etype key.
            ap (λ (m : StateMap J). lookup m etype key) (recalculate_members-state room)
            ∙ both_loops resp.state.events resp.timeline.events [] etype key
            ∙ ap (or_else (latest etype key resp.timeline.events)) (at_end etype key),
      )

  -- If every state event has a state key, then a room takes in a sync response, and its state at a
  -- type and a state key is the last event of the timeline with these, or else the last of the
  -- state events, or else what it was.
  pub update_from_sync_state :
      (room : Room J) (resp : JoinedRoomSyncResponse J)
      → are_keyed resp.state.events ≡ true
      → (room' : Room J) × (update_from_sync room resp ≡ returns room')
        × ((etype key : Str)
            → lookup room'.state etype key
              ≡ or_else
                  (latest etype key resp.timeline.events)
                  (or_else (latest etype key resp.state.events) (lookup room.state etype key)))
  unfolding update_from_sync
  update_from_sync_state room resp h =
      let state = store_timeline_events room.state resp.state.events in
      let new_state = record room { state = store_timeline_events state resp.timeline.events } in
      let again = has_member_type resp.state.events || has_member_state resp.timeline.events in
      (
        (if again then recalculate_members new_state else new_state),
        rw (keyed_returns resp.state.events room.state h) refl,
        λ etype key.
            ap (λ (m : StateMap J). lookup m etype key) (if_state again new_state)
            ∙ both_loops resp.state.events resp.timeline.events room.state etype key,
      )

  -- If some state event has no state key, then `from_sync` and `update_from_sync` panic.
  pub unkeyed_panics :
      (room_id : Str) (room : Room J) (resp : JoinedRoomSyncResponse J)
      → are_keyed resp.state.events ≡ false
      → (from_sync room_id resp ≡ panics) × (update_from_sync room resp ≡ panics)
  unfolding from_sync update_from_sync
  unkeyed_panics room_id room resp h = (
    rw (unkeyed_fails resp.state.events [] h) refl,
    rw (unkeyed_fails resp.state.events room.state h) refl,
  )
