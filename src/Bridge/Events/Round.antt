-- ===== src/Bridge/Events/Round.antt =====
-- A sync response on its way from the Matrix client to the bridge.
use matrix_ircd.Prelude.{◌≡◌, sym, subst, false, some, ◌⊎◌, inl, inr, List, [], ◌∷◌}
use matrix_ircd.Prelude.{returns, panics}
use matrix_ircd.Text.{Str}
use matrix_ircd.BTreeMap.{get}
use matrix_ircd.Bridge.MappingStore.Channels.{IsMapped}
use matrix_ircd.Matrix.Client.{MatrixClient, get_room, media_url}
use matrix_ircd.Matrix.Models.{Room}
use matrix_ircd.Matrix.Protocol.{Json, JoinedRoomSyncResponse, SyncResponse}
use matrix_ircd.Matrix.Services.{Services}
use matrix_ircd.Bridge.Events.{Bridge, handle_sync_response}
use matrix_ircd.Http.Client.{OneshotPoll}
use matrix_ircd.Irc.Socket.{ready}
use matrix_ircd.Matrix.Client
use matrix_ircd.Matrix.Client.Rooms.{NoEchoes, AreSynced, poll-AreSynced}
use matrix_ircd.Bridge.Events.Mapped.{
  Keeps, HasChannel, HaveChannels, BringLinkless, handle_sync_response-Keeps,
}

module _ {J : Json} (S : Services J) where
  -- Every room of the list is known to the client, has a channel and brings no echoes.
  abbrev pub AreBridged : Bridge S → List (Str × JoinedRoomSyncResponse J) → Type 0
  AreBridged b [] = Unit
  AreBridged b ((room_id, sync) ∷ joins) =
      ((room : Room J) × (channel : Str) × (get_room S b.matrix_client room_id ≡ some room)
        × (get room.room_id b.mappings.room_id_to_channel ≡ some channel))
      × NoEchoes sync.timeline.events
      × AreBridged b joins

  has_channel :
      (b : Bridge S) (room_id : Str) (room : Room J)
      → get_room S b.matrix_client room_id ≡ some room
      → HasChannel S b (get_room S b.matrix_client room_id)
      → (channel : Str) × (get room.room_id b.mappings.room_id_to_channel ≡ some channel)
  has_channel b room_id room e h = subst (HasChannel S b) e h

  are_bridged :
      (joins : List (Str × JoinedRoomSyncResponse J)) (b : Bridge S)
      → AreSynced b.matrix_client.rooms joins
      → HaveChannels S b joins
      → AreBridged b joins
  unfolding get_room
  are_bridged [] b synced have = tt
  are_bridged ((room_id, sync) ∷ joins) b ((room, e), quiet, synced) (has, have) =
      let (channel, e') = has_channel b room_id room e has in
      ((room, channel, e, e'), quiet, are_bridged joins b synced have)

  -- If the Matrix client's poll gives a sync response, and store and IRC side fit each other
  -- (`IsMapped`), then the bridge handles the response. Afterwards every room of the response is
  -- known to the client and has a channel, and none has an event that this program sent; rooms and
  -- users keep their channels and nicks, store and IRC side fit again, the client and the waiting
  -- tasks are as they were, and the first sync is over. The only other end is a panic, where some
  -- room of the response has a message of an image, a file, a video or audio for whose URL
  -- `media_url` panics.
  pub sync_round :
      (b : Bridge S) (polls rest : List OneshotPoll) (client : MatrixClient S) (r : SyncResponse J)
      → Client.poll S polls b.matrix_client ≡ returns (ready (some r), client, rest)
      → IsMapped (b.mappings, b.irc_conn)
      → ((b' : Bridge S) × (handle_sync_response S (record b { matrix_client = client }) r
            ≡ returns b')
          × Keeps S (record b { matrix_client = client }) b'
          × AreBridged b' r.rooms.join
          × (b'.is_first_sync ≡ false))
        ⊎ ((handle_sync_response S (record b { matrix_client = client }) r ≡ panics)
            × BringLinkless S client r.rooms.join)
  sync_round b polls rest client r polled h =
      elim (handle_sync_response-Keeps S (record b { matrix_client = client }) r h) [
        | inr fails ↦ inr fails
        | inl (b', e, k, have, first) ↦
            let synced = poll-AreSynced S polls rest b.matrix_client client r polled in
            inl (
              b',
              e,
              k,
              are_bridged r.rooms.join b'
                  (subst (λ (c : MatrixClient S). AreSynced c.rooms r.rooms.join)
                    (sym k.same_client) synced)
                  have,
              first,
            )
      ]
