-- ===== src/Matrix/Models/Unnoticed.antt =====
-- src/matrix/models.rs: `update_from_sync` of member events.
use matrix_ircd.Prelude.{sym, subst, or_else, ◌≡◌, refl, ◌∙◌, true, false, List, [], ◌∷◌, arith}
use matrix_ircd.Prelude.{returns, returns_injective}
use matrix_ircd.Text.{Str, codes, same}
use matrix_ircd.Matrix.Protocol.{Json, Event, JoinedRoomSyncResponse}
use matrix_ircd.Matrix.Models.{
  Room, update_from_sync, has_member_type, has_member_state, store_timeline_events, member_type,
}
use matrix_ircd.Matrix.Models.Sync.{
  are_keyed, keyed_returns, lookup, latest, update_from_sync_state,
}

no_member_type : (etype : Str) → etype ≡ codes "m.room.member" → same etype member_type ≡ false
unfolding same
no_member_type etype e = rw e refl

module _ {J : Json} where
  unchanged :
      (room : Room J) (resp : JoinedRoomSyncResponse J)
      → are_keyed resp.state.events ≡ true
      → has_member_type resp.state.events ≡ false
      → has_member_state resp.timeline.events ≡ false
      → (room' : Room J) × (update_from_sync room resp ≡ returns room')
        × (room'.members ≡ room.members)
  unfolding update_from_sync
  unchanged room resp keyed no_state no_timeline =
      let state = store_timeline_events room.state resp.state.events in
      let new_state : Room J = record room {
        state = store_timeline_events state resp.timeline.events;
      } in
      (
        new_state,
        rw
            (
              update_from_sync,
              keyed_returns resp.state.events room.state keyed,
              no_state,
              no_timeline,
            )
            refl,
        refl,
      )

  -- Every event is about a member.
  pub data AreMemberEvents : List (Event J) → Type 0 where
    no_more : AreMemberEvents []
    and_more :
        {ev : Event J} {evs : List (Event J)}
        → ev.etype ≡ codes "m.room.member"
        → AreMemberEvents evs
        → AreMemberEvents (ev ∷ evs)

  no_member_types : {evs : List (Event J)} → AreMemberEvents evs → has_member_type evs ≡ false
  unfolding has_member_type
  no_member_types no_more = refl
  no_member_types (and_more {ev = ev} e h) =
      ground (arith, no_member_type ev.etype e, no_member_types h)

  no_member_states : {evs : List (Event J)} → AreMemberEvents evs → has_member_state evs ≡ false
  unfolding has_member_state
  no_member_states no_more = refl
  no_member_states (and_more {ev = ev} e h) =
      ground (arith, no_member_type ev.etype e, no_member_states h)

  -- If every event of a sync response is an `m.room.member` event, the state events with state
  -- keys, then a room takes the response in and has the last of these events of each user in its
  -- state, but its members stay as they are, whoever joined or left.
  pub update_from_sync_members :
      (room : Room J) (resp : JoinedRoomSyncResponse J)
      → are_keyed resp.state.events ≡ true
      → AreMemberEvents resp.state.events
      → AreMemberEvents resp.timeline.events
      → (room' : Room J) × (update_from_sync room resp ≡ returns room')
        × (room'.members ≡ room.members)
        × ((user_id : Str)
            → lookup room'.state (codes "m.room.member") user_id
              ≡ or_else (latest (codes "m.room.member") user_id resp.timeline.events) (
                  or_else
                    (latest (codes "m.room.member") user_id resp.state.events)
                    (lookup room.state (codes "m.room.member") user_id)))
  update_from_sync_members room resp keyed s t =
      let (room', e, same_members) =
        unchanged room resp keyed (no_member_types s) (no_member_states t) in
      let (room'', e', finds) = update_from_sync_state room resp keyed in
      let is_it : room'' ≡ room' = returns_injective (sym e' ∙ e) in
      (
        room',
        e,
        same_members,
        λ user_id.
            subst
              (λ (r : Room J).
                lookup r.state (codes "m.room.member") user_id
                ≡ or_else (latest (codes "m.room.member") user_id resp.timeline.events) (
                    or_else (latest (codes "m.room.member") user_id resp.state.events)
                      (lookup room.state (codes "m.room.member") user_id)))
              is_it (finds (codes "m.room.member") user_id),
      )
