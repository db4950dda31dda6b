-- ===== src/Matrix/Client.antt =====
-- src/matrix/mod.rs: `MatrixClient`. A request that is sent gives the number of its oneshot; what the
-- future does with the response is a function of its own.
pub mod Rooms
pub mod Shorter
use matrix_ircd.Prelude.{
  ℕ, zero, suc, ◌+◌, ◌-◌, ◌*◌, ◌/◌, ◌%◌, ◌<◌, ◌≤◌, ◌≡◌, refl, sym, ap, ap₂, subst, ◌∙◌, ◌≡⟨◌⟩◌, ◌∎,
  Bool, true, false, ◌&&◌, ◌||◌, not, ◌≢◌, ◌↔◌, ◌⊎◌, inl, inr, Option, none, some, List, [], ◌∷◌,
  ◌++◌, map, append-nil, append_assoc, arith, leb, ltb, ◌==◌, if◌then◌else◌, Bool-cases,
  Option-cases, length, length-append, get_elem?, take, drop, String, ==_iff,
}
use matrix_ircd.Prelude.{Outcome, returns, panics, ◌>>=◌, >>=-eq-returns}
use mathlib.Core.Option
use matrix_ircd.Text.{Str, codes, starts_with}
use matrix_ircd.Text.Decimal.{decimal}
use matrix_ircd.Text.Utf8.{Bytes, as_bytes}
use matrix_ircd.BTreeMap
use matrix_ircd.BTreeMap.{BTreeMap}
use matrix_ircd.Irc.Socket.{IoError, invalid_data, Poll, ready, not_ready, failed}
use matrix_ircd.Http.Client
use matrix_ircd.Http.Client.{Request, Shared, new_shared, send_request, OneshotPoll}
use matrix_ircd.Http.Parser.{Response}
use matrix_ircd.Matrix.Models.{Room, from_sync, update_from_sync}
use matrix_ircd.Matrix.Protocol.{
  Json, Event, JoinedRoomSyncResponse, SyncResponse, LoginPasswordInput, LoginResponse,
  RoomJoinInput, RoomJoinResponse, RoomSendInput, RoomSendResponse,
}
use matrix_ircd.Matrix.Services.{Services}
use matrix_ircd.Matrix.SyncClient
use matrix_ircd.Matrix.SyncClient.{
  MatrixSyncClient, Server, server_of, joined, path_and_query, io_error, poll_sync,
}

pub data JsonPostError : Type 0 where
  io : IoError → JsonPostError
  error_response : ℕ → JsonPostError

unfoldable pub into_io_error : JsonPostError → IoError
into_io_error (io e) = e
into_io_error (error_response code) =
    io_error (codes "Received " ++ (decimal code ++ codes " response"))

pub data LoginError : Type 0 where
  io : IoError → LoginError
  invalid_password : LoginError

-- The `map_err` of `login`.
unfoldable pub login_error : JsonPostError → LoginError
login_error (JsonPostError.io e) = LoginError.io e
login_error (error_response code) =
    if code == 401 || code == 403
    then invalid_password
    else LoginError.io (io_error (codes "Got " ++ (decimal code ++ codes " response")))

json_read : {O : Type 0} → Str ⊎ O → JsonPostError ⊎ O
json_read (inl e) = inl (
    JsonPostError.io
      (record { kind = invalid_data; message = codes "invalid json response: " ++ e }))
json_read (inr output) = inr output

-- The `and_then` of `do_json_post`, by the reader of the body.
unfoldable pub json_response : {O : Type 0} → (Bytes → Str ⊎ O) → Response → JsonPostError ⊎ O
unfolding json_read
json_response read resp =
    if resp.code == 200 then json_read (read resp.body) else inl (error_response resp.code)

module _ {J : Json} (S : Services J) where
  pub record MatrixClient : Type 0 where
    pub url : S.Url
    pub user_id : Str
    pub access_token : Str
    pub sync_client : MatrixSyncClient S
    pub rooms : BTreeMap (Room J)
    pub http_stream : Shared

  unfoldable pub new : Shared → S.Url → Str → Str → Outcome MatrixClient
  new http_stream base_url user_id access_token =
      SyncClient.new S base_url access_token >>= λ (sync_client, _). returns (record {
        url = base_url;
        user_id = user_id;
        access_token = access_token;
        sync_client = sync_client;
        rooms = [];
        http_stream = http_stream;
      })

  -- The request of `do_json_post`.
  unfoldable pub do_json_post : Str → S.Url → Bytes → Shared → ℕ × Shared
  do_json_post method url input stream =
      send_request
        (record {
          method = method;
          path = path_and_query S url;
          headers = (codes "Content-Type", codes "application/json") ∷ [];
          body = input;
        })
        stream

  abbrev pub password_login : Str
  password_login = codes "m.login.password"

  -- The request of `login`, on a new client of the server of the URL.
  unfoldable pub login : S.Url → Str → Str → Outcome (ℕ × Shared × Server)
  unfolding do_json_post
  login base_url user password = server_of S base_url >>= λ server.
      joined S base_url (codes "/_matrix/client/r0/login") >>= λ url.
      let input : LoginPasswordInput = record {
        user = user;
        password = password;
        login_type = password_login;
      } in
      let (future, stream) = do_json_post (codes "POST") url (S.write_login input) new_shared in
      returns (future, stream, server)

  -- The `map` of `login`.
  logged_in : S.Url → Shared → JsonPostError ⊎ LoginResponse → Outcome (LoginError ⊎ MatrixClient)
  unfolding new login_error
  logged_in base_url stream (inl e) = returns (inl (login_error e))
  logged_in base_url stream (inr response) =
      new stream base_url response.user_id response.access_token >>= λ client. returns (inr client)

  -- What the future of `login` does with the response.
  unfoldable pub login_response : S.Url → Shared → Response → Outcome (LoginError ⊎ MatrixClient)
  unfolding logged_in json_response
  login_response base_url stream resp = logged_in base_url stream (json_response S.read_login resp)

  access : MatrixClient → S.Url → S.Url
  access c url = S.with_query ((codes "access_token", c.access_token) ∷ []) url

  unfoldable pub send_text_message : MatrixClient → Str → Str → Str → Outcome (ℕ × MatrixClient)
  unfolding do_json_post access
  send_text_message c room_id body msgtype =
      let msg_id = S.transaction c.http_stream.oneshots in
      joined S c.url (
        codes "/_matrix/client/r0/rooms/"
        ++ (room_id ++ (codes "/send/m.room.message/mircd-" ++ decimal msg_id)))
      >>= λ url.
          let input : RoomSendInput = record { msgtype = msgtype; body = body } in
          let (future, stream) =
            do_json_post (codes "PUT") (access c url) (S.write_send input) c.http_stream in
          returns (future, record c { http_stream = stream })

  unfoldable pub join_room : MatrixClient → Str → Outcome (ℕ × MatrixClient)
  unfolding do_json_post access
  join_room c room_id =
      joined S c.url (codes "/_matrix/client/r0/join/" ++ S.percent_encode room_id) >>= λ url.
      let (future, stream) =
        do_json_post (codes "POST") (access c url) (S.write_join (record {})) c.http_stream in
      returns (future, record c { http_stream = stream })

  unfoldable pub get_room : MatrixClient → Str → Option (Room J)
  get_room c room_id = BTreeMap.get room_id c.rooms

  media_path : MatrixClient → Str → Option Str → Outcome Str
  media_path c url none = returns url
  media_path c url (some mxc) = joined S c.url (codes "/_matrix/media/v1/download/") >>= λ base.
      joined S base mxc >>= λ media. returns (S.into_string media)

  unfoldable pub media_url : MatrixClient → Str → Outcome Str
  unfolding media_path
  media_url c url = media_path c url (S.mxc_path url)

-- The transaction is one of this program.
is_own_transaction : Option Str → Bool
is_own_transaction none = false
is_own_transaction (some txn_id) = starts_with (codes "mircd-") txn_id

module _ {J : Json} where
  unfoldable pub is_own : Event J → Bool
  unfolding is_own_transaction
  is_own ev = is_own_transaction ev.unsigned.transaction_id

  -- `retain` of the events that are not our own.
  unfoldable pub retain_others : List (Event J) → List (Event J)
  retain_others [] = []
  retain_others (ev ∷ events) =
      if is_own ev then retain_others events else ev ∷ retain_others events

  unfoldable pub without_echoes : JoinedRoomSyncResponse J → JoinedRoomSyncResponse J
  unfolding retain_others
  without_echoes sync = record sync {
    timeline = record sync.timeline { events = retain_others sync.timeline.events };
  }

  -- The room of the id, updated or new.
  unfoldable pub synced_room : Str → JoinedRoomSyncResponse J → Option (Room J) → Outcome (Room J)
  synced_room room_id sync (some room) = update_from_sync room sync
  synced_room room_id sync none = from_sync room_id sync

  -- The loop over the rooms, in the order of their map.
  unfoldable pub sync_rooms :
      BTreeMap (Room J)
      → List (Str × JoinedRoomSyncResponse J)
      → Outcome (BTreeMap (Room J) × List (Str × JoinedRoomSyncResponse J))
  unfolding synced_room without_echoes
  sync_rooms rooms [] = returns (rooms, [])
  sync_rooms rooms ((room_id, sync) ∷ joins) =
      synced_room room_id (without_echoes sync) (BTreeMap.get room_id rooms) >>= λ room.
      sync_rooms (BTreeMap.insert room_id room rooms) joins >>= λ (rooms', joins').
      returns (rooms', (room_id, without_echoes sync) ∷ joins')

module _ {J : Json} (S : Services J) where
  abbrev pub PollResult : Type 0
  PollResult = Outcome (Poll (Option (SyncResponse J)) × MatrixClient S × List OneshotPoll)

  after_sync : Poll (SyncResponse J) → MatrixClient S → List OneshotPoll → PollResult
  unfolding sync_rooms
  after_sync not_ready c polls = returns (not_ready, c, polls)
  after_sync (failed e) c polls = returns (failed e, c, polls)
  after_sync (ready resp) c polls = sync_rooms c.rooms resp.rooms.join >>= λ (rooms, join).
      returns (
        ready (some (record resp { rooms = record { join = join } })),
        record c { rooms = rooms },
        polls,
      )

  -- `poll`, which is `poll_sync`; the stream of sync responses never ends.
  unfoldable pub poll : List OneshotPoll → MatrixClient S → PollResult
  unfolding after_sync
  poll polls c =
      let (p, sync_client, rest) = poll_sync S polls c.sync_client in
      after_sync p (record c { sync_client = sync_client }) rest
