-- ===== src/Tests/Server.antt =====
-- The theorems on src/irc/models.rs and src/irc/mod.rs at a concrete client.
use matrix_ircd.Prelude.{◌≡◌, refl, Bool, true, false, some, List, [], ◌∷◌, arith}
use matrix_ircd.Prelude.{returns}
use matrix_ircd.Text.{Str, codes}
use matrix_ircd.BTreeMap
use matrix_ircd.BTreeMap.{get, contains_key}
use matrix_ircd.BTreeMap.Laws.{get-insert_self}
use matrix_ircd.Irc.Transport
use matrix_ircd.Irc.Transport.{IrcServerConnection}
use matrix_ircd.Irc.Models
use matrix_ircd.Irc.Models.{
  ServerModel, Channel, User, UserRoomEntry, add_channel, new_channel, create_user, get_members,
}
use matrix_ircd.Irc.Models.Members.{lists}
use matrix_ircd.Irc.Models.Invariant.{
  IsConsistent, AreMembers, new-IsConsistent, create_user-IsConsistent, add_channel-IsConsistent,
  get_members_lem, added, added-IsConsistent,
}
use matrix_ircd.Irc.User
use matrix_ircd.Irc.User.{IrcUserConnection, join_response, attempt_to_write_join_response}
use matrix_ircd.Irc.User.Join.{attempt_absent, add_channel_new, join_lines, Writes-join_response}
use matrix_ircd.Irc.Socket.{arrives}
use matrix_ircd.Irc.User.Runs.{Runs, poll-Runs}
use matrix_ircd.Irc.Transport.Lines.{Writes}

abbrev ann : Str
ann = codes "ann"

abbrev room : Str
room = codes "#room"

abbrev one_user : ServerModel
one_user = record { channels = []; users = (ann, Models.new_user ann (codes "@ann:hs")) ∷ [] }

abbrev members : List (Str × Bool)
members = (ann, true) ∷ []

create_user-IsConsistent_example : IsConsistent (create_user Models.new ann (codes "@ann:hs"))
unfolding Models.nick_exists contains_key get
create_user-IsConsistent_example =
    create_user-IsConsistent Models.new ann (codes "@ann:hs") refl new-IsConsistent

one_user-IsConsistent : IsConsistent one_user
unfolding create_user BTreeMap.insert Models.nick_exists contains_key get
one_user-IsConsistent =
    create_user-IsConsistent Models.new ann (codes "@ann:hs") refl new-IsConsistent

members_are_users :
    (nick : Str) → lists members nick ≡ true → Models.nick_exists one_user nick ≡ true
unfolding lists Models.nick_exists contains_key get
members_are_users nick h = ground arith

add_channel-IsConsistent_example :
    (s' : ServerModel) × (add_channel one_user room [] members
      ≡ returns (s', new_channel room [] members))
    × (get room s'.channels ≡ some (new_channel room [] members))
    × IsConsistent s'
unfolding Models.channel_exists contains_key get
add_channel-IsConsistent_example =
    add_channel-IsConsistent one_user room [] members refl members_are_users one_user-IsConsistent

abbrev with_room : ServerModel
with_room = added one_user room [] members

with_room-IsConsistent : IsConsistent with_room
unfolding Models.channel_exists contains_key get
with_room-IsConsistent =
    added-IsConsistent one_user room [] members refl members_are_users one_user-IsConsistent

with_room_has_room : get room with_room.channels ≡ some (new_channel room [] members)
with_room_has_room = get-insert_self room (new_channel room [] members) []

get_members_lem_example :
    (l : List (User × UserRoomEntry)) × (get_members with_room room ≡ returns (some l))
    × AreMembers with_room.users (new_channel room [] members).users l
get_members_lem_example =
    get_members_lem with_room room (new_channel room [] members) with_room-IsConsistent
      with_room_has_room

abbrev client : IrcUserConnection
client = record {
  conn = Transport.new (record { reads = []; writes = []; flushes = []; sent = [] }) (codes "s");
  user = ann;
  nick = ann;
  real_name = ann;
  password = codes "p";
  server_name = codes "s";
  user_prefix = codes "ann!ann@s";
  server_model = one_user;
}

attempt_absent_example : attempt_to_write_join_response client room ≡ returns (client, false)
unfolding User.channel_exists Models.channel_exists contains_key get
attempt_absent_example = attempt_absent client room refl

add_channel_new_example :
    (model : ServerModel) × (conn : IrcServerConnection) × (l : List (User × UserRoomEntry))
    × (User.add_channel client room [] members
        ≡ returns (record client { conn = conn; server_model = model }))
    × IsConsistent model
    × (get room model.channels ≡ some (new_channel room [] members))
    × AreMembers model.users (new_channel room [] members).users l
    × Writes client.conn (join_lines client room (new_channel room [] members) l) conn
unfolding User.channel_exists Models.channel_exists User.nick_exists contains_key get Transport.new
add_channel_new_example =
    add_channel_new client room [] members refl members_are_users one_user-IsConsistent
      (omega arith)

-- Ann, who is an operator, and Bob.
abbrev two_members : List (User × UserRoomEntry)
two_members =
    (Models.new_user ann (codes "@ann:hs"), record { operator = true; voice = false })
    ∷ (Models.new_user (codes "bob") (codes "@bob:hs"), record { operator = false; voice = false })
    ∷ []

Writes-join_response_example :
    Writes client.conn
      (join_lines client room (new_channel room [] members) two_members)
      (join_response client room (new_channel room [] members) two_members)
unfolding Transport.new
Writes-join_response_example =
    Writes-join_response client room (new_channel room [] members) two_members (omega arith)

-- A client with a PING on its way.
abbrev pinging : IrcUserConnection
pinging = record client {
  conn =
      Transport.new
        (record { reads = arrives (codes "PING a\n") ∷ []; writes = []; flushes = []; sent = [] })
        (codes "s");
}

poll-Runs_example : Runs pinging (User.poll pinging)
poll-Runs_example = poll-Runs pinging
