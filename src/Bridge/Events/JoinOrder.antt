-- ===== src/Bridge/Events/JoinOrder.antt =====
-- src/bridge/mod.rs: the response to a join and the sync of its room, in either order.
use matrix_ircd.Prelude.{◌≡◌, refl, sym, ap, ◌∙◌, Bool, ◌⊎◌, inl, inr, none, some, List}
use matrix_ircd.Prelude.{returns, panics}
use matrix_ircd.Text.{same_refl, Str}
use matrix_ircd.BTreeMap.{BTreeMap, get}
use matrix_ircd.Bridge.MappingStore.{Sides, create_or_get_channel_name_from_matrix}
use matrix_ircd.Bridge.MappingStore.Channels.{IsMapped, create_or_get_channel_lem}
use matrix_ircd.Matrix.Client.{JsonPostError, get_room}
use matrix_ircd.Matrix.Models.{Room}
use matrix_ircd.Matrix.Protocol.{Json, JoinedRoomSyncResponse}
use matrix_ircd.Matrix.Services.{Services}
use matrix_ircd.Bridge.Events.{
  Bridge, redirect, handle_events, redirect_attempt, answer_join, sync_known, handle_room_sync,
}
use matrix_ircd.Matrix.Protocol.{RoomJoinResponse}
use matrix_ircd.Irc.User.{IrcUserConnection}
use matrix_ircd.Irc.User.Writes.{write_all}
use matrix_ircd.Bridge.Events.Written.{with_conn, handle_events-EventsWrite}
use matrix_ircd.BTreeMap
use matrix_ircd.BTreeMap.Laws.{get-insert_self, get-remove}
use matrix_ircd.Bridge.Events.{note_join, joined_room}
use matrix_ircd.Bridge.MappingStore.{room_id_to_channel}

-- The response to a join of a room.
abbrev pub in_room : Str → JsonPostError ⊎ RoomJoinResponse
in_room room_id = inr (record { room_id = room_id })

module _ {J : Json} (S : Services J) where
  -- The response of a room that has no channel yet.
  waits_for_sync :
      (b : Bridge S) (channel room_id : Str)
      → get room_id b.mappings.room_id_to_channel ≡ none
      → joined_room S b channel (in_room room_id)
        ≡ record b { joining_map = BTreeMap.insert room_id channel b.joining_map }
  unfolding joined_room note_join room_id_to_channel
  waits_for_sync b channel room_id e = rw e refl

  -- The response of a room that has one.
  finds_channel :
      (b : Bridge S) (channel room_id mapped : Str)
      → get room_id b.mappings.room_id_to_channel ≡ some mapped
      → joined_room S b channel (in_room room_id)
        ≡ record b { irc_conn = redirect S b.irc_conn channel mapped }
  unfolding joined_room note_join room_id_to_channel
  finds_channel b channel room_id mapped e = rw e refl

  -- The sync of a room comes to its events.
  sync_is_events :
      (b : Bridge S) (room_id : Str) (sync : JoinedRoomSyncResponse J) (room : Room J)
      (r : Sides × Str × Bool)
      → get_room S b.matrix_client room_id ≡ some room
      → create_or_get_channel_name_from_matrix (b.mappings, b.irc_conn) room ≡ returns r
      → handle_room_sync S b room_id sync
        ≡ handle_events S
            (answer_join S (record b { mappings = r.0.0; irc_conn = r.0.1 }) room_id r.1)
            r.1
            sync.timeline.events
  unfolding handle_room_sync sync_known
  sync_is_events b room_id sync room r e q = rw (e, q) refl

  -- The two orders end alike: `b₁` is the bridge behind the sync, before the response to the join,
  -- and `b₂` the one behind both, with the sync last.
  pub record EndAlike (b : Bridge S) (channel room_id : Str) (sync : JoinedRoomSyncResponse J)
      (room : Room J) : Type 0 where
    pub b₁ : Bridge S
    pub b₂ : Bridge S
    pub conn : IrcUserConnection
    pub mapped : Str
    pub is_new : Bool
    pub lines : List Str
    pub sync_first : handle_room_sync S b room_id sync ≡ returns b₁
    pub join_first :
        handle_room_sync S (joined_room S b channel (in_room room_id)) room_id sync ≡ returns b₂
    pub has_channel :
        create_or_get_channel_name_from_matrix (b.mappings, b.irc_conn) room
        ≡ returns ((b₂.mappings, conn), mapped, is_new)
    pub is_mapped : get room_id b₂.mappings.room_id_to_channel ≡ some mapped
    pub same_mappings : (joined_room S b₁ channel (in_room room_id)).mappings ≡ b₂.mappings
    pub redirect_last :
        (joined_room S b₁ channel (in_room room_id)).irc_conn
        ≡ redirect S (write_all conn lines) channel mapped
    pub redirect_first : b₂.irc_conn ≡ write_all (redirect S conn channel mapped) lines
    pub none_waits : get room_id (joined_room S b₁ channel (in_room room_id)).joining_map ≡ none
    pub none_waits_either : get room_id b₂.joining_map ≡ none

  -- Let a room that has no channel, and no join that waits for it, be known to the Matrix client,
  -- and store and IRC side fit each other (`IsMapped`). Then its sync and the response to a join of
  -- it end alike in either order (`EndAlike`), or the sync panics in both. They end with the same
  -- mappings, in which the room has a channel, and with no join that waits for the room. The client
  -- is sent the same lines for the events of the sync, and the same redirect from the channel it
  -- asked for to the room's (none if they are the same), which comes before these lines or after
  -- them.
  pub join_order :
      (b : Bridge S) (channel room_id : Str) (sync : JoinedRoomSyncResponse J) (room : Room J)
      → IsMapped (b.mappings, b.irc_conn)
      → get_room S b.matrix_client room_id ≡ some room
      → room.room_id ≡ room_id
      → get room_id b.mappings.room_id_to_channel ≡ none
      → get room_id b.joining_map ≡ none
      → EndAlike b channel room_id sync room
        ⊎ ((handle_room_sync S b room_id sync ≡ panics)
            × (handle_room_sync S (joined_room S b channel (in_room room_id)) room_id sync
                ≡ panics))
  unfolding answer_join redirect_attempt
  join_order b channel room_id sync room h e same_id unmapped no_join =
      let (r, q, gives, _) = create_or_get_channel_lem (b.mappings, b.irc_conn) room h in
      let waiting = record b { joining_map = BTreeMap.insert room_id channel b.joining_map } in
      let base = record b { mappings = r.0.0; irc_conn = r.0.1 } in
      let rest = BTreeMap.remove room_id b.joining_map in
      let rest' = BTreeMap.remove room_id (BTreeMap.insert room_id channel b.joining_map) in
      let has : get room_id r.0.0.room_id_to_channel ≡ some r.1 =
        ap (λ (i : Str). get i r.0.0.room_id_to_channel) (sym same_id) ∙ gives.has_channel in
      let gone : (m : BTreeMap Str) → get room_id (BTreeMap.remove room_id m) ≡ none =
        λ m. get-remove room_id room_id m ∙ rw (same_refl room_id) refl in
      let first : handle_room_sync S b room_id sync
          ≡ handle_events S (with_conn S base r.0.1 rest) r.1 sync.timeline.events =
        sync_is_events b room_id sync room r e q
        ∙ ap
            (λ o.
              handle_events S (with_conn S base (redirect_attempt S r.0.1 o r.1) rest) r.1
                sync.timeline.events)
            no_join in
      let second : handle_room_sync S (joined_room S b channel (in_room room_id)) room_id sync
          ≡ handle_events S (with_conn S base (redirect S r.0.1 channel r.1) rest') r.1
              sync.timeline.events =
        ap (λ x. handle_room_sync S x room_id sync) (waits_for_sync b channel room_id unmapped)
        ∙ sync_is_events waiting room_id sync room r e q
        ∙ ap
            (λ o.
              handle_events S (with_conn S base (redirect_attempt S r.0.1 o r.1) rest') r.1
                sync.timeline.events)
            (get-insert_self room_id channel b.joining_map) in
      elim (handle_events-EventsWrite S sync.timeline.events base r.1) [
        | inr p ↦ inr (first ∙ p r.0.1 rest, second ∙ p (redirect S r.0.1 channel r.1) rest')
        | inl (lines, w) ↦
            let b₁ = with_conn S base (write_all r.0.1 lines) rest in
            let found = finds_channel b₁ channel room_id r.1 has in
            inl (record {
              b₁ = b₁;
              b₂ = with_conn S base (write_all (redirect S r.0.1 channel r.1) lines) rest';
              conn = r.0.1;
              mapped = r.1;
              is_new = r.2;
              lines = lines;
              sync_first = first ∙ w r.0.1 rest;
              join_first = second ∙ w (redirect S r.0.1 channel r.1) rest';
              has_channel = q;
              is_mapped = has;
              same_mappings = ap (λ (x : Bridge S). x.mappings) found;
              redirect_last = ap (λ (x : Bridge S). x.irc_conn) found;
              redirect_first = refl;
              none_waits =
                  ap (λ (x : Bridge S). get room_id x.joining_map) found ∙ gone b.joining_map;
              none_waits_either = gone (BTreeMap.insert room_id channel b.joining_map);
            })
      ]
