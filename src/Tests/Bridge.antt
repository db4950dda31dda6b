-- ===== src/Tests/Bridge.antt =====
-- The theorems on src/bridge/mod.rs, src/matrix/mod.rs and src/matrix/sync.rs at a sync response.
use matrix_ircd.Prelude.{
  ◌≡◌, ◌⊎◌, refl, true, false, inl, inr, Option, none, some, List, [], ◌∷◌, ◌++◌,
}
use matrix_ircd.Prelude.{Outcome, returns, panics}
use matrix_ircd.Text.{Str, codes, same, starts_with}
use matrix_ircd.BTreeMap
use matrix_ircd.BTreeMap.{get, contains_key}
use matrix_ircd.Bridge.MappingStore
use matrix_ircd.Irc.User
use matrix_ircd.Irc.Socket.{Poll, ready, not_ready, arrives}
use matrix_ircd.Irc.Models
use matrix_ircd.Irc.Transport
use matrix_ircd.Irc.User.{IrcUserConnection}
use matrix_ircd.Http.Client.{
  new_shared, OneshotPoll, poll_response, sent, unsent, answered, gave_up,
}
use matrix_ircd.Matrix.Client
use matrix_ircd.Matrix.Client.{MatrixClient, get_room, media_url}
use mathlib.Core.Option
use matrix_ircd.Matrix.Models.{Room, from_sync, get_name, get_state_content_key}
use matrix_ircd.Matrix.Protocol.{Json, Event, JoinedRoomSyncResponse, SyncResponse}
use matrix_ircd.Matrix.Services.{Services}
use matrix_ircd.Matrix.SyncClient
use matrix_ircd.Matrix.SyncClient.{MatrixSyncClient, poll_sync}
use matrix_ircd.Matrix.SyncClient.Since.{AsksFor, next_request, Polled, poll_sync-Polled}
use matrix_ircd.Bridge.MappingStore.Channels.{IsMapped, first_sides-IsMapped}
use matrix_ircd.Bridge.Events.{Bridge, start, handle_room_sync, handle_sync_response, joined_room}
use matrix_ircd.Bridge.Polls.{poll_irc, poll_matrix}
use matrix_ircd.Bridge.Polls.Runs.{IrcRuns, MatrixRuns, tasks_lem}
use matrix_ircd.Bridge.Polls.Reachable.{started, matrix_polled, IsGood, Reachable-IsGood}
use matrix_ircd.Bridge.Events.Mapped.{Keeps, BringLinkless}
use matrix_ircd.Bridge.Events.Round.{AreBridged, sync_round}
use matrix_ircd.Bridge.Events.JoinOrder.{in_room, EndAlike, join_order}

-- Values that are texts and have a body at each key.
abbrev texts : Json
texts = record {
  Value = Str;
  get = λ v k. some v;
  as_object = λ v. none;
  as_str = λ v. some v;
  as_u64 = λ v. none;
}

abbrev message : Event texts
message = record {
  sender = codes "@ann:hs";
  event_id = codes "$1";
  etype = codes "m.room.message";
  state_key = none;
  content = codes "hi";
  unsigned = record { transaction_id = none };
}

abbrev echo : Event texts
echo = record message { unsigned = record { transaction_id = some (codes "mircd-7") } }

abbrev sync : JoinedRoomSyncResponse texts
sync = record {
  timeline = record { limited = false; prev_batch = []; events = echo ∷ message ∷ [] };
  state = record { events = [] };
}

abbrev response : SyncResponse texts
response = record { next_batch = codes "b1"; rooms = record { join = (codes "!r", sync) ∷ [] } }

-- URLs that are texts, and a server that always gives this response.
abbrev services : Services texts
services = record {
  Url = Str;
  host_str = λ url. some url;
  port_or_known_default = λ url. some 443;
  scheme = λ url. codes "https";
  join = λ url path. some (url ++ path);
  path = λ url. url;
  query = λ url. none;
  with_query = λ pairs url. url;
  into_string = λ url. url;
  percent_encode = λ s. s;
  mxc_path = λ s. none;
  transaction = λ n. n;
  write_login = λ input. [];
  write_join = λ input. [];
  write_send = λ input. [];
  read_login = λ body. inl [];
  read_join = λ body. inl [];
  read_send = λ body. inl [];
  read_sync = λ body. inr response;
}

abbrev sync_client : MatrixSyncClient services
sync_client = record {
  url = codes "u";
  access_token = codes "t";
  next_token = some (codes "b0");
  http_stream = new_shared;
  current_sync = none;
}

abbrev good : OneshotPoll
good = sent (answered (record { code = 200; content_type = none; body = [] }))

-- A request that fails, one that is answered, and one that is not.
abbrev polls : List OneshotPoll
polls = sent (gave_up (SyncClient.io_error [])) ∷ good ∷ unsent ∷ []

poll_sync-Polled_example :
    AsksFor services
      (λ ps old url. refl)
      sync_client
      (next_request services (λ ps old url. refl) sync_client)
    × Polled services (λ ps old url. refl) sync_client (poll_sync services polls sync_client)
poll_sync-Polled_example = poll_sync-Polled services (λ ps old url. refl) polls sync_client

abbrev client : MatrixClient services
client = record {
  url = codes "u";
  user_id = codes "@ann:hs";
  access_token = codes "t";
  sync_client = sync_client;
  rooms = [];
  http_stream = new_shared;
}

abbrev irc_conn : IrcUserConnection
irc_conn = record {
  conn = Transport.new (record { reads = []; writes = []; flushes = []; sent = [] }) (codes "s");
  user = codes "ann";
  nick = codes "ann";
  real_name = codes "ann";
  password = codes "p";
  server_name = codes "s";
  user_prefix = codes "ann!ann@s";
  server_model = Models.new;
}

abbrev bridge : Bridge services
bridge = start services irc_conn client

bridge-IsMapped : IsMapped (bridge.mappings, bridge.irc_conn)
unfolding start
bridge-IsMapped = first_sides-IsMapped irc_conn (codes "ann") (codes "@ann:hs") refl

abbrev Round : Type 0
Round = Poll (Option (SyncResponse texts)) × MatrixClient services × List OneshotPoll

abbrev round_of : Outcome Round → Round
round_of (returns r) = r
round_of panics = (ready none, client, [])

abbrev round : Round
round = round_of (Client.poll services polls bridge.matrix_client)

-- The response without the echo.
abbrev bridged : SyncResponse texts
bridged = record response {
  rooms = record {
    join =
        (codes "!r", record sync { timeline = record sync.timeline { events = message ∷ [] } })
        ∷ [];
  };
}

polled_round :
    Client.poll services polls bridge.matrix_client
    ≡ returns (ready (some bridged), round.1, round.2)
unfolding Client.poll poll_sync poll_response get start from_sync Client.is_own starts_with
polled_round = refl

sync_round_example :
    ((b' : Bridge services) × (handle_sync_response services
          (record bridge { matrix_client = round.1 })
          bridged
        ≡ returns b')
      × Keeps services (record bridge { matrix_client = round.1 }) b'
      × AreBridged services b' bridged.rooms.join
      × (b'.is_first_sync ≡ false))
    ⊎ ((handle_sync_response services (record bridge { matrix_client = round.1 }) bridged ≡ panics)
        × BringLinkless services round.1 bridged.rooms.join)
sync_round_example =
    sync_round services bridge polls round.2 round.1 bridged polled_round bridge-IsMapped

-- A room that has not come yet.
abbrev room : Room texts
room = record { room_id = codes "!r"; state = []; members = [] }

abbrev knowing : Bridge services
knowing = record bridge { matrix_client = record client { rooms = (codes "!r", room) ∷ [] } }

join_order_example :
    EndAlike services knowing (codes "#a") (codes "!r") sync room
    ⊎ ((handle_room_sync services knowing (codes "!r") sync ≡ panics)
        × (handle_room_sync services
              (joined_room services knowing (codes "#a") (in_room (codes "!r")))
              (codes "!r")
              sync
            ≡ panics))
unfolding get_room get same start
join_order_example =
    join_order services knowing (codes "#a") (codes "!r") sync room bridge-IsMapped refl refl refl
      refl

abbrev SyncRun : Type 0
SyncRun = Poll (Unit {0}) × Bridge services × List OneshotPoll

abbrev run_of : Outcome SyncRun → SyncRun
run_of (returns r) = r
run_of panics = (ready tt, bridge, [])

abbrev synced : SyncRun
synced = run_of (poll_matrix services polls bridge)

synced_run : poll_matrix services polls bridge ≡ returns (synced.0, synced.1, synced.2)
unfolding poll_matrix Client.poll poll_sync poll_response get start from_sync get_room
    BTreeMap.insert BTreeMap.remove same MappingStore.create_or_get_channel_name_from_matrix
    User.add_channel User.channel_exists Models.channel_exists Models.add_channel contains_key
    MappingStore.nicks_of_members MappingStore.new_channel Client.is_own starts_with User.send_ping
    User.welcome User.create_user Models.create_user MappingStore.wanted_channel
    get_state_content_key Option.bind get_name User.attempt_to_write_join_response
    Models.get_members BTreeMap.collect Models.room_entries MappingStore.get_nick_from_matrix
synced_run = refl

Reachable-IsGood_example : IsGood services synced.1
Reachable-IsGood_example =
    Reachable-IsGood services (matrix_polled polls (started irc_conn client refl) synced_run)

-- A bridge behind the first sync, with a message of the client on its way.
abbrev busy : Bridge services
busy = record bridge {
  is_first_sync = false;
  irc_conn = record irc_conn {
    conn =
        Transport.new
          (record {
            reads = arrives (codes "PRIVMSG #a :hi\n") ∷ [];
            writes = [];
            flushes = [];
            sent = [];
          })
          (codes "s");
  };
}

tasks_lem_example :
    (((busy.is_first_sync ≡ true) × (poll_irc services busy ≡ returns (not_ready, busy)))
      ⊎ ((busy.is_first_sync ≡ false) × IrcRuns services busy (poll_irc services busy)))
    × MatrixRuns services busy polls (poll_matrix services polls busy)
tasks_lem_example = tasks_lem services polls busy
