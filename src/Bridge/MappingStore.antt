-- ===== src/Bridge/MappingStore.antt =====
-- src/bridge/mod.rs: `MappingStore`, which maps Matrix rooms and users to IRC channels and nicks.
pub mod Nicks
pub mod Channels
use matrix_ircd.Prelude.{
  ℕ, zero, suc, ◌+◌, ◌-◌, ◌*◌, ◌/◌, ◌%◌, ◌<◌, ◌≤◌, ◌≡◌, refl, sym, ap, ap₂, subst, ◌∙◌, ◌≡⟨◌⟩◌, ◌∎,
  Bool, true, false, ◌&&◌, ◌||◌, not, ◌≢◌, ◌↔◌, ◌⊎◌, inl, inr, Option, none, some, List, [], ◌∷◌,
  ◌++◌, map, append-nil, append_assoc, arith, leb, ltb, ◌==◌, if◌then◌else◌, Bool-cases,
  Option-cases, length, length-append, get_elem?, take, drop, String, ==_iff,
}
use matrix_ircd.Prelude.{Outcome, returns, panics, ◌>>=◌}
use matrix_ircd.Text.{Str, codes, byte_len, is_empty}
use matrix_ircd.BTreeMap
use matrix_ircd.BTreeMap.{BTreeMap}
use matrix_ircd.Irc.User
use matrix_ircd.Irc.User.{IrcUserConnection}
use matrix_ircd.Matrix.Protocol.{Json}
use matrix_ircd.Matrix.Models.{Room, Member, get_state_content_key, get_name, get_topic, unwrap_or}
use matrix_ircd.Bridge.UniqueName.{unique_name}

pub record MappingStore : Type 0 where
  pub channel_to_room_id : BTreeMap Str
  pub room_id_to_channel : BTreeMap Str
  pub matrix_uid_to_nick : BTreeMap Str
  pub nick_matrix_uid : BTreeMap Str

abbrev pub default : MappingStore
default = record {
  channel_to_room_id = [];
  room_id_to_channel = [];
  matrix_uid_to_nick = [];
  nick_matrix_uid = [];
}

-- The store and the IRC side, both of which the operations change.
abbrev pub Sides : Type 0
Sides = MappingStore × IrcUserConnection

unfoldable pub insert_nick : Sides → Str → Str → Sides
insert_nick (store, irc_server) nick user_id = (
  record store {
    matrix_uid_to_nick = BTreeMap.insert user_id nick store.matrix_uid_to_nick;
    nick_matrix_uid = BTreeMap.insert nick user_id store.nick_matrix_uid;
  },
  User.create_user irc_server nick user_id,
)

unfoldable pub channel_to_room_id : MappingStore → Str → Option Str
channel_to_room_id store channel = BTreeMap.get channel store.channel_to_room_id

unfoldable pub room_id_to_channel : MappingStore → Str → Option Str
room_id_to_channel store room_id = BTreeMap.get room_id store.room_id_to_channel

unfoldable pub get_nick_from_matrix : MappingStore → Str → Option Str
get_nick_from_matrix store user_id = BTreeMap.get user_id store.matrix_uid_to_nick

-- The characters that the filters drop.
unfoldable pub is_dropped : ℕ → Bool
is_dropped c = leb c 0x20 || c == b'@' || c == b'"' || c == b'+' || c == b'#' || c == 0x7F

unfoldable pub strip : Str → Str
unfolding is_dropped
strip [] = []
strip (c ∷ s) = if is_dropped c then strip s else c ∷ strip s

-- The nick that is wanted: of the display name, or of the user id if that leaves too little.
unfoldable pub wanted_nick : Str → Str → Str
unfolding strip byte_len
wanted_nick user_id display_name =
    if ltb (byte_len (strip display_name)) 3 then strip user_id else strip display_name

-- A nick for a user that has none yet. The last three steps are those of `insert_nick`.
new_nick : Sides → Str → Str → Sides × Str
unfolding insert_nick wanted_nick unique_name
new_nick (store, irc_server) user_id display_name =
    let nick = unique_name irc_server.server_model.users (wanted_nick user_id display_name) in
    (insert_nick (store, irc_server) nick user_id, nick)

unfoldable pub create_or_get_nick_from_matrix : Sides → Str → Str → Sides × Str
unfolding new_nick
create_or_get_nick_from_matrix s user_id display_name =
    elim (BTreeMap.get user_id s.0.matrix_uid_to_nick) [
      | some nick ↦ (s, nick)
      | none ↦ new_nick s user_id display_name
    ]

-- The loop over the members of a room, in the order of their map.
unfoldable pub nicks_of_members : Sides → List (Str × Member) → Sides × List (Str × Bool)
unfolding create_or_get_nick_from_matrix
nicks_of_members s [] = (s, [])
nicks_of_members s ((key, member) ∷ members) =
    let (s', nick) = create_or_get_nick_from_matrix s member.user_id member.display_name in
    let (s'', rest) = nicks_of_members s' members in (s'', (nick, member.moderator) ∷ rest)

-- `#` before the name, or before the room id if the filter leaves nothing of the name.
name_or_id : Str → Option Str → Str
unfolding strip is_empty
name_or_id room_id none = b'#' ∷ room_id
name_or_id room_id (some name) = if is_empty (strip name) then b'#' ∷ room_id else b'#' ∷ strip name

-- The two insertions that map the room to its channel.
abbrev pub map_room : MappingStore → Str → Str → MappingStore
map_room store room_id channel = record store {
  room_id_to_channel = BTreeMap.insert room_id channel store.room_id_to_channel;
  channel_to_room_id = BTreeMap.insert channel room_id store.channel_to_room_id;
}

module _ {J : Json} where
  unfoldable pub wanted_channel : Room J → Str
  unfolding name_or_id
  wanted_channel room =
      elim (get_state_content_key room (codes "m.room.canonical_alias") [] (codes "alias")) [
        | some alias ↦ alias
        | none ↦ name_or_id room.room_id (get_name room)
      ]

  -- A channel for a room that has none yet.
  unfoldable pub new_channel : Sides → Room J → Outcome (Sides × Str × Bool)
  new_channel (store, irc_server) room =
      let channel = unique_name irc_server.server_model.channels (wanted_channel room) in
      let ((store', irc_server'), members) =
        nicks_of_members (map_room store room.room_id channel, irc_server) room.members in
      User.add_channel irc_server' channel (unwrap_or [] (get_topic room)) members
      >>= λ irc_server''. returns ((store', irc_server''), channel, true)

  unfoldable pub create_or_get_channel_name_from_matrix :
      Sides → Room J → Outcome (Sides × Str × Bool)
  unfolding new_channel
  create_or_get_channel_name_from_matrix s room =
      elim (BTreeMap.get room.room_id s.0.room_id_to_channel) [
        | some channel ↦ returns (s, channel, false)
        | none ↦ new_channel s room
      ]
