-- ===== src/Bridge/Events/Mapped.antt =====
-- src/bridge/mod.rs: sync responses, and the two sides of the store.
use matrix_ircd.Prelude.{
  ◌≡◌, refl, sym, subst, ◌∙◌, false, ◌⊎◌, inl, inr, Option, none, some, List, [], ◌∷◌, Bool-cases,
}
use matrix_ircd.Prelude.{returns, panics}
use matrix_ircd.Text.{Str, same}
use matrix_ircd.BTreeMap.{get}
use matrix_ircd.Bridge.MappingStore.Channels.{IsMapped, create_or_get_channel_lem}
use matrix_ircd.Irc.User.{IrcUserConnection, write_redirect_join, welcome, send_ping}
use matrix_ircd.Matrix.Client.{MatrixClient, get_room}
use matrix_ircd.Matrix.Models.{Room}
use matrix_ircd.Matrix.Protocol.{Json, JoinedRoomSyncResponse, SyncResponse}
use matrix_ircd.Matrix.Services.{Services}
use matrix_ircd.Bridge.Events.{
  Bridge, redirect, redirect_attempt, answer_join, sync_known, handle_room_sync, handle_room_syncs,
  greet, handle_sync_response,
}
use matrix_ircd.Bridge.Events.Lines.{
  SameModel, IsMapped-SameModel, HasLinkless, handle_events-Writes,
}

module _ {J : Json} (S : Services J) where
  -- What a room sync, or several, keep: store and IRC side fit each other, rooms and users keep their
  -- channels and nicks, and the Matrix client and the tasks are as they were.
  pub record Keeps (b b' : Bridge S) : Type 0 where
    pub mapped : IsMapped (b'.mappings, b'.irc_conn)
    pub keeps_channels :
        (room_id channel : Str)
        → get room_id b.mappings.room_id_to_channel ≡ some channel
        → get room_id b'.mappings.room_id_to_channel ≡ some channel
    pub keeps_nicks :
        (user_id nick : Str)
        → get user_id b.mappings.matrix_uid_to_nick ≡ some nick
        → get user_id b'.mappings.matrix_uid_to_nick ≡ some nick
    pub same_client : b'.matrix_client ≡ b.matrix_client
    pub same_sends : b'.sends ≡ b.sends
    pub same_joins : b'.joins ≡ b.joins

  Keeps-refl : (b : Bridge S) → IsMapped (b.mappings, b.irc_conn) → Keeps b b
  Keeps-refl b h = record {
    mapped = h;
    keeps_channels = λ room_id channel e. e;
    keeps_nicks = λ user_id nick e. e;
    same_client = refl;
    same_sends = refl;
    same_joins = refl;
  }

  Keeps-trans : (a b c : Bridge S) → Keeps a b → Keeps b c → Keeps a c
  Keeps-trans a b c p q = record {
    mapped = q.mapped;
    keeps_channels =
        λ room_id channel e. q.keeps_channels room_id channel (p.keeps_channels room_id channel e);
    keeps_nicks = λ user_id nick e. q.keeps_nicks user_id nick (p.keeps_nicks user_id nick e);
    same_client = q.same_client ∙ p.same_client;
    same_sends = q.same_sends ∙ p.same_sends;
    same_joins = q.same_joins ∙ p.same_joins;
  }

  redirect_attempt-SameModel :
      (c : IrcUserConnection) (attempt : Option Str) (channel : Str)
      → SameModel c (redirect_attempt S c attempt channel)
  unfolding redirect_attempt redirect write_redirect_join SameModel
  redirect_attempt-SameModel c none channel = refl
  redirect_attempt-SameModel c (some attempt) channel = elim (Bool-cases (same attempt channel)) [
    | inl e ↦ rw e refl
    | inr e ↦ rw e refl
  ]

  -- The channel of the room, if the Matrix client knows it.
  abbrev pub HasChannel : Bridge S → Option (Room J) → Type 0
  HasChannel b none = Unit
  HasChannel b (some room) =
      (channel : Str) × (get room.room_id b.mappings.room_id_to_channel ≡ some channel)

  sync_known-Keeps :
      (b : Bridge S) (room_id : Str) (sync : JoinedRoomSyncResponse J) (room : Option (Room J))
      → IsMapped (b.mappings, b.irc_conn)
      → ((b' : Bridge S) × (sync_known S b room_id sync room ≡ returns b')
          × Keeps b b'
          × HasChannel b' room)
        ⊎ ((sync_known S b room_id sync room ≡ panics)
            × HasLinkless S b.matrix_client sync.timeline.events)
  unfolding sync_known answer_join SameModel
  sync_known-Keeps b room_id sync none h = inl (b, refl, Keeps-refl b h, tt)
  sync_known-Keeps b room_id sync (some room) h =
      let (((mappings, irc_conn), channel, is_new), e, gives, _) =
        create_or_get_channel_lem (b.mappings, b.irc_conn) room h in
      let b₁ : Bridge S = record b { mappings = mappings; irc_conn = irc_conn } in
      let b₂ = answer_join S b₁ room_id channel in
      let k = redirect_attempt-SameModel irc_conn (get room_id b.joining_map) channel in
      elim (handle_events-Writes S sync.timeline.events b₂ channel) [
        | inl (c', e', k') ↦ inl (
          record b₂ { irc_conn = c' },
          rw (e, e') refl,
          record {
            mapped = IsMapped-SameModel mappings irc_conn c' (k' ∙ k) gives.mapped;
            keeps_channels = gives.keeps_channels;
            keeps_nicks = gives.keeps_nicks;
            same_client = refl;
            same_sends = refl;
            same_joins = refl;
          },
          (channel, gives.has_channel),
        )
        | inr (e', why) ↦ inr (rw (e, e') refl, why)
      ]

  -- Every room of the list that the Matrix client knows has a channel.
  abbrev pub HaveChannels : Bridge S → List (Str × JoinedRoomSyncResponse J) → Type 0
  HaveChannels b [] = Unit
  HaveChannels b ((room_id, _) ∷ joins) =
      HasChannel b (get_room S b.matrix_client room_id) × HaveChannels b joins

  HasChannel-Keeps :
      (a b : Bridge S) (room : Option (Room J)) → Keeps a b → HasChannel a room → HasChannel b room
  HasChannel-Keeps a b none k h = tt
  HasChannel-Keeps a b (some room) k (channel, e) =
      (channel, k.keeps_channels room.room_id channel e)

  -- Some room of the list has a message for which the link to its media cannot be made.
  abbrev pub BringLinkless : MatrixClient S → List (Str × JoinedRoomSyncResponse J) → Type 0
  BringLinkless c [] = ⊥
  BringLinkless c ((_, sync) ∷ joins) = HasLinkless S c sync.timeline.events ⊎ BringLinkless c joins

  handle_room_syncs-Keeps :
      (joins : List (Str × JoinedRoomSyncResponse J)) (b : Bridge S)
      → IsMapped (b.mappings, b.irc_conn)
      → ((b' : Bridge S) × (handle_room_syncs S b joins ≡ returns b')
          × Keeps b b'
          × HaveChannels b' joins)
        ⊎ ((handle_room_syncs S b joins ≡ panics) × BringLinkless b.matrix_client joins)
  unfolding handle_room_syncs handle_room_sync
  handle_room_syncs-Keeps [] b h = inl (b, refl, Keeps-refl b h, tt)
  handle_room_syncs-Keeps ((room_id, sync) ∷ joins) b h =
      elim (sync_known-Keeps b room_id sync (get_room S b.matrix_client room_id) h) [
        | inr (e, why) ↦ inr (rw e refl, inl why)
        | inl (b', e, k, has) ↦ elim (handle_room_syncs-Keeps joins b' k.mapped) [
          | inr (e', why) ↦
              inr (rw (e, e') refl, inr (subst (λ c. BringLinkless c joins) k.same_client why))
          | inl (b'', e', k', all) ↦
              let kk = Keeps-trans b b' b'' k k' in
              inl (
                b'',
                rw (e, e') refl,
                kk,
                (
                  subst (λ c. HasChannel b'' (get_room S c room_id)) (sym kk.same_client)
                      (HasChannel-Keeps b' b'' (get_room S b.matrix_client room_id) k' has),
                  all,
                ),
              )
        ]
      ]

  HasChannel-done :
      (b : Bridge S) (room : Option (Room J))
      → HasChannel b room
      → HasChannel (record b { is_first_sync = false }) room
  HasChannel-done b none h = h
  HasChannel-done b (some room) h = h

  HaveChannels-done :
      (joins : List (Str × JoinedRoomSyncResponse J)) (b : Bridge S)
      → HaveChannels b joins
      → HaveChannels (record b { is_first_sync = false }) joins
  HaveChannels-done [] b h = tt
  HaveChannels-done ((room_id, _) ∷ joins) b (h, hs) =
      (HasChannel-done b (get_room S b.matrix_client room_id) h, HaveChannels-done joins b hs)

  greet-SameModel : (b : Bridge S) → SameModel b.irc_conn (greet S b).irc_conn
  unfolding greet SameModel welcome send_ping
  greet-SameModel b = elim (Bool-cases b.is_first_sync) [ inl e ↦ rw e refl | inr e ↦ rw e refl ]

  pub handle_sync_response-Keeps :
      (b : Bridge S) (r : SyncResponse J)
      → IsMapped (b.mappings, b.irc_conn)
      → ((b' : Bridge S) × (handle_sync_response S b r ≡ returns b')
          × Keeps b b'
          × HaveChannels b' r.rooms.join
          × (b'.is_first_sync ≡ false))
        ⊎ ((handle_sync_response S b r ≡ panics) × BringLinkless b.matrix_client r.rooms.join)
  unfolding handle_sync_response greet
  handle_sync_response-Keeps b r h =
      let greeted =
        IsMapped-SameModel b.mappings b.irc_conn (greet S b).irc_conn (greet-SameModel b) h in
      elim (handle_room_syncs-Keeps r.rooms.join (greet S b) greeted) [
        | inr (e, why) ↦ inr (rw e refl, why)
        | inl (b', e, k, all) ↦ inl (
          record b' { is_first_sync = false },
          rw e refl,
          record {
            mapped = k.mapped;
            keeps_channels = k.keeps_channels;
            keeps_nicks = k.keeps_nicks;
            same_client = k.same_client;
            same_sends = k.same_sends;
            same_joins = k.same_joins;
          },
          HaveChannels-done r.rooms.join b' all,
          refl,
        )
      ]
