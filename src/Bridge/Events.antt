-- ===== src/Bridge/Events.antt =====
-- src/bridge/mod.rs: `Bridge`, which passes on IRC commands and sync responses. A task that has been
-- spawned is the oneshot that it waits for: a message that was sent, whose response is only logged,
-- or a join with its channel. Nothing is logged, and the bridge does not stop by itself: `closed`
-- says that it is to.
pub mod Lines
pub mod Mapped
pub mod Written
pub mod JoinOrder
pub mod Round
pub mod Joins
use matrix_ircd.Prelude.{
  ℕ, zero, suc, ◌+◌, ◌-◌, ◌*◌, ◌/◌, ◌%◌, ◌<◌, ◌≤◌, ◌≡◌, refl, sym, ap, ap₂, subst, ◌∙◌, ◌≡⟨◌⟩◌, ◌∎,
  Bool, true, false, ◌&&◌, ◌||◌, not, ◌≢◌, ◌↔◌, ◌⊎◌, inl, inr, Option, none, some, List, [], ◌∷◌,
  ◌++◌, map, append-nil, append_assoc, arith, leb, ltb, ◌==◌, if◌then◌else◌, Bool-cases,
  Option-cases, length, length-append, get_elem?, take, drop, String, ==_iff,
}
use matrix_ircd.Prelude.{Outcome, returns, panics, ◌>>=◌, >>=-eq-returns}
use mathlib.Core.Option
use matrix_ircd.Text.{Str, codes, same, is_empty}
use matrix_ircd.BTreeMap
use matrix_ircd.BTreeMap.{BTreeMap}
use matrix_ircd.Bridge.Action.{handle_privmsg_action}
use matrix_ircd.Bridge.MappingStore.{
  MappingStore, default, insert_nick, create_or_get_channel_name_from_matrix, channel_to_room_id,
  room_id_to_channel, get_nick_from_matrix,
}
use matrix_ircd.Http.Client.{OneshotPoll, Shared}
use matrix_ircd.Http.Parser.{Response}
use matrix_ircd.Irc.Protocol.IrcCommand.{IrcCommand}
use matrix_ircd.Irc.Socket.{IoError, Poll, ready, not_ready, failed}
use matrix_ircd.Irc.User
use matrix_ircd.Irc.User.{
  IrcUserConnection, commands_left, send_message, send_action, write_redirect_join, welcome,
  send_ping, away, unaway, write_invalid_password,
}
use matrix_ircd.Matrix.Client
use matrix_ircd.Matrix.Client.{
  MatrixClient, LoginError, io, invalid_password, JsonPostError, send_text_message, join_room,
  get_room, media_url, json_response, into_io_error,
}
use matrix_ircd.Matrix.Models.{Room}
use matrix_ircd.Matrix.Protocol.{
  Json, Event, JoinedRoomSyncResponse, SyncResponse, RoomJoinResponse,
}
use matrix_ircd.Matrix.Services.{Services}
use matrix_ircd.Matrix.SyncClient.{io_error}

module _ {J : Json} (S : Services J) where
  pub record Bridge : Type 0 where
    pub irc_conn : IrcUserConnection
    pub matrix_client : MatrixClient S
    pub closed : Bool
    pub mappings : MappingStore
    pub is_first_sync : Bool
    pub joining_map : BTreeMap Str
    pub sends : List ℕ
    pub joins : List (ℕ × Str)

  -- The end of `create`: the bridge of a connection and a client that has logged in.
  unfoldable pub start : IrcUserConnection → MatrixClient S → Bridge
  unfolding insert_nick
  start irc_conn matrix_client =
      let (mappings, irc_conn') =
        insert_nick (default, irc_conn) irc_conn.nick matrix_client.user_id in
      record {
        irc_conn = irc_conn';
        matrix_client = matrix_client;
        closed = false;
        mappings = mappings;
        is_first_sync = true;
        joining_map = [];
        sends = [];
        joins = [];
      }

  -- What `create` does with the result of the login on Matrix.
  pub data Created : Type 0 where
    bridged : Bridge → Created
    not_created : IoError → IrcUserConnection → Created

  unfoldable pub create : IrcUserConnection → LoginError ⊎ MatrixClient S → Created
  unfolding start
  create irc_conn (inr matrix_client) = bridged (start irc_conn matrix_client)
  create irc_conn (inl invalid_password) =
      not_created (io_error (codes "Invalid password")) (write_invalid_password irc_conn)
  create irc_conn (inl (io e)) = not_created e irc_conn

  -- The arm of `PrivMsg`.
  unfoldable pub send_to : Bridge → Str → Option Str → Outcome Bridge
  send_to b text none = returns b
  send_to b text (some room_id) =
      let (msgtype, body) = handle_privmsg_action text in
      send_text_message S b.matrix_client room_id body msgtype >>= λ (future, matrix_client).
      returns (record b { matrix_client = matrix_client; sends = b.sends ++ future ∷ [] })

  unfoldable pub handle_irc_cmd : Bridge → IrcCommand → Outcome Bridge
  unfolding send_to
  handle_irc_cmd b (IrcCommand.priv_msg channel text) =
      send_to b text (channel_to_room_id b.mappings channel)
  handle_irc_cmd b (IrcCommand.join channel) =
      join_room S b.matrix_client channel >>= λ (future, matrix_client).
      returns
        (record b { matrix_client = matrix_client; joins = b.joins ++ (future, channel) ∷ [] })
  handle_irc_cmd b (IrcCommand.away message) =
      returns
        (record b { irc_conn = if is_empty message then unaway b.irc_conn else away b.irc_conn })
  handle_irc_cmd b c = returns b

  -- A redirect, unless the channel is the one that was asked for.
  unfoldable pub redirect : IrcUserConnection → Str → Str → IrcUserConnection
  redirect irc_conn attempt channel =
      if same attempt channel then irc_conn else write_redirect_join irc_conn attempt channel

  note_join : Bridge → Str → Str → Option Str → Bridge
  unfolding redirect
  note_join b channel room_id (some mapped_channel) = record b {
    irc_conn = redirect b.irc_conn channel mapped_channel;
  }
  note_join b channel room_id none = record b {
    joining_map = BTreeMap.insert room_id channel b.joining_map;
  }

  -- What follows the response to a join; a join that fails is an error of the task.
  unfoldable pub joined_room : Bridge → Str → JsonPostError ⊎ RoomJoinResponse → Bridge
  unfolding note_join
  joined_room b channel (inl e) = b
  joined_room b channel (inr response) =
      note_join b channel response.room_id (room_id_to_channel b.mappings response.room_id)

  -- The end of a task that waits for a join.
  unfoldable pub finish_join : Bridge → Str → Response → Bridge
  unfolding joined_room
  finish_join b channel response = joined_room b channel (json_response S.read_join response)

  pub string_at : Event J → Str → Option Str
  string_at ev key = Option.bind (J.get ev.content key) J.as_str

  pub is_media : Str → Bool
  is_media msgtype =
      same msgtype (codes "m.image")
      || same msgtype (codes "m.file")
      || same msgtype (codes "m.video")
      || same msgtype (codes "m.audio")

  send_media : Bridge → Str → Str → Option Str → Outcome IrcUserConnection
  send_media b channel nick none = returns b.irc_conn
  send_media b channel nick (some url) = media_url S b.matrix_client url >>= λ link.
      returns (send_message b.irc_conn channel nick link)

  -- The match on the message type.
  send_event : Bridge → Str → Str → Event J → Str → Str → Outcome IrcUserConnection
  unfolding string_at is_media send_media
  send_event b channel nick ev body msgtype =
      if same msgtype (codes "m.text")
      then returns (send_message b.irc_conn channel nick body)
      else if same msgtype (codes "m.emote")
      then returns (send_action b.irc_conn channel nick body)
      else if is_media msgtype
      then send_media b channel nick (string_at ev (codes "url"))
      else returns (send_message b.irc_conn channel nick body)

  -- With a sender, a body and a type, or else nothing.
  event_line :
      Bridge → Str → Event J → Option Str → Option Str → Option Str → Outcome IrcUserConnection
  unfolding send_event
  event_line b channel ev (some nick) (some body) (some msgtype) =
      send_event b channel nick ev body msgtype
  event_line b channel ev _ _ _ = returns b.irc_conn

  -- One event of the timeline.
  unfoldable pub handle_event : Bridge → Str → Event J → Outcome Bridge
  unfolding event_line string_at
  handle_event b channel ev =
      if same ev.etype (codes "m.room.message")
      then (event_line b channel ev (get_nick_from_matrix b.mappings ev.sender)
            (string_at ev (codes "body")) (string_at ev (codes "msgtype"))
          >>= λ irc_conn. returns (record b { irc_conn = irc_conn }))
      else returns b

  unfoldable pub handle_events : Bridge → Str → List (Event J) → Outcome Bridge
  unfolding handle_event
  handle_events b channel [] = returns b
  handle_events b channel (ev ∷ events) =
      handle_event b channel ev >>= λ b'. handle_events b' channel events

  redirect_attempt : IrcUserConnection → Option Str → Str → IrcUserConnection
  unfolding redirect
  redirect_attempt irc_conn none channel = irc_conn
  redirect_attempt irc_conn (some attempt) channel = redirect irc_conn attempt channel

  -- The join that waits for the room, if one does, is answered.
  unfoldable pub answer_join : Bridge → Str → Str → Bridge
  unfolding redirect_attempt
  answer_join b room_id channel = record b {
    irc_conn = redirect_attempt b.irc_conn (BTreeMap.get room_id b.joining_map) channel;
    joining_map = BTreeMap.remove room_id b.joining_map;
  }

  sync_known : Bridge → Str → JoinedRoomSyncResponse J → Option (Room J) → Outcome Bridge
  unfolding answer_join handle_events
  sync_known b room_id sync none = returns b
  sync_known b room_id sync (some room) =
      create_or_get_channel_name_from_matrix (b.mappings, b.irc_conn) room
      >>= λ ((mappings, irc_conn), channel, _).
          handle_events
            (answer_join (record b { mappings = mappings; irc_conn = irc_conn }) room_id channel)
            channel sync.timeline.events

  unfoldable pub handle_room_sync : Bridge → Str → JoinedRoomSyncResponse J → Outcome Bridge
  unfolding sync_known
  handle_room_sync b room_id sync = sync_known b room_id sync (get_room S b.matrix_client room_id)

  unfoldable pub handle_room_syncs : Bridge → List (Str × JoinedRoomSyncResponse J) → Outcome Bridge
  unfolding handle_room_sync
  handle_room_syncs b [] = returns b
  handle_room_syncs b ((room_id, sync) ∷ joins) =
      handle_room_sync b room_id sync >>= λ b'. handle_room_syncs b' joins

  greet : Bridge → Bridge
  greet b = record b {
    irc_conn =
        if b.is_first_sync then send_ping (welcome b.irc_conn) (codes "HELLO") else b.irc_conn;
  }

  unfoldable pub handle_sync_response : Bridge → SyncResponse J → Outcome Bridge
  unfolding greet handle_room_syncs
  handle_sync_response b sync_response =
      handle_room_syncs (greet b) sync_response.rooms.join >>= λ b'.
      returns (record b' { is_first_sync = false })
