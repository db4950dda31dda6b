-- ===== src/Irc/User/Join.antt =====
-- src/irc/mod.rs: channels that are added, and the response to a join.
use matrix_ircd.Prelude.{
  ◌≡◌, refl, sym, ap, ap₂, subst, ◌∙◌, map, append_assoc, if◌then◌else◌, Bool, true, false, some,
  List, [], ◌∷◌, ◌++◌, arith, length,
}
use matrix_ircd.Prelude.{returns}
use matrix_ircd.Text.{Str, codes, trim}
use matrix_ircd.BTreeMap.{get, contains_key}
use matrix_ircd.BTreeMap.Laws.{get-insert_self}
use matrix_ircd.Irc.Models
use matrix_ircd.Irc.Models.{Channel, User, UserRoomEntry, ServerModel, get_channel, get_members}
use matrix_ircd.Irc.Models.Invariant.{
  IsConsistent, AreMembers, added, add_channel_lem, added-IsConsistent, get_members_lem,
}
use matrix_ircd.Irc.Models.Members.{lists}
use matrix_ircd.Irc.Protocol.Numeric.{rpl_namreply, rpl_channelmodeis, rpl_topic, rpl_endofnames}
use matrix_ircd.Irc.Transport.{
  IrcServerConnection, name_list, numeric_line, chunks, write_join, write_topic,
}
use matrix_ircd.Irc.Transport.Writing.{IsWritable}
use matrix_ircd.Irc.Transport.Lines.{
  Writes, Writes-then, Writes-then_numeric, Writes-write_join, Writes-write_topic,
  Writes-write_names, name_lines,
}
use matrix_ircd.Irc.User.{
  IrcUserConnection, nick_exists, channel_exists, names_of, join_response,
  attempt_to_write_join_response, add_channel,
}

-- For a channel of a consistent model, the attempt to answer a join does not panic and succeeds,
-- and the client is sent the join response with the channel's members.
pub attempt_present :
    (c : IrcUserConnection) (name : Str) (channel : Channel)
    → IsConsistent c.server_model
    → get name c.server_model.channels ≡ some channel
    → (l : List (User × UserRoomEntry)) × AreMembers c.server_model.users channel.users l
      × (attempt_to_write_join_response c name
          ≡ returns (record c { conn = join_response c name channel l }, true))
unfolding attempt_to_write_join_response get_channel
attempt_present c name channel h found =
    let (l, e, a) = get_members_lem c.server_model name channel h found in (l, a, ground arith)

-- One that it does not have changes nothing.
pub attempt_absent :
    (c : IrcUserConnection) (name : Str)
    → channel_exists c name ≡ false
    → attempt_to_write_join_response c name ≡ returns (c, false)
unfolding attempt_to_write_join_response get_channel get_members channel_exists
    Models.channel_exists contains_key
attempt_absent c name h = ground arith

pub add_channel_returns :
    (c : IrcUserConnection) (name topic : Str) (members : List (Str × Bool))
    → channel_exists c name ≡ false
    → ((nick : Str) → lists members nick ≡ true → nick_exists c nick ≡ true)
    → IsConsistent c.server_model
    → (l : List (User × UserRoomEntry)) × AreMembers
        (added c.server_model name topic members).users
        (Models.new_channel name topic members).users
        l
      × (add_channel c name topic members
          ≡ returns (record c {
            conn = join_response c name (Models.new_channel name topic members) l;
            server_model = added c.server_model name topic members;
          }))
unfolding add_channel
add_channel_returns c name topic members fresh known h =
    let model = added c.server_model name topic members in
    let channel = Models.new_channel name topic members in
    let absent : Models.channel_exists c.server_model name ≡ false =
      unfold channel_exists in fresh in
    let kept : IsConsistent model =
      added-IsConsistent c.server_model name topic members absent (unfold nick_exists in known) h in
    let found : get name model.channels ≡ some channel =
      get-insert_self name channel c.server_model.channels in
    let (l, a, e) = attempt_present (record c { server_model = model }) name channel kept found in
    let told : join_response (record c { server_model = model }) name channel l
        ≡ join_response c name channel l =
      unfold join_response in refl in
    (l, a, ground (arith, add_channel_lem c.server_model name topic members))

-- The nick of each member, and whether it is an operator.
abbrev pub nicks : List (User × UserRoomEntry) → List (Str × Bool)
nicks members = map (λ (u, entry). (u.nick, entry.operator)) members

-- A nick, behind `@` for an operator and before a space.
abbrev pub shown : Str × Bool → Str
shown (nick, operator) = (if operator then b'@' ∷ [] else []) ++ (nick ++ b' ' ∷ [])

abbrev pub concat : List Str → Str
concat [] = []
concat (s ∷ ss) = s ++ concat ss

-- One line for the names of a part of the members.
abbrev pub names_line : Str → Str → Str → List (Str × Bool) → Str
names_line server nick channel names =
    numeric_line server rpl_namreply nick
      (trim (codes "@ " ++ (channel ++ (codes " :" ++ concat (map shown names)))))

name_list-concat : (names : List (Str × Bool)) → name_list names ≡ concat (map shown names)
unfolding name_list
name_list-concat [] = refl
name_list-concat ((nick, operator) ∷ names) =
    let mark : Str = if operator then b'@' ∷ [] else [] in
    ap (λ t. mark ++ (nick ++ b' ' ∷ t)) (name_list-concat names)
    ∙ sym (
        append_assoc mark (nick ++ b' ' ∷ []) (concat (map shown names))
        ∙ ap (λ t. mark ++ t) (append_assoc nick (b' ' ∷ []) (concat (map shown names))))

name_lines-map :
    (server nick channel : Str) (parts : List (List (Str × Bool)))
    → name_lines server nick channel parts ≡ map (names_line server nick channel) parts
name_lines-map server nick channel [] = refl
name_lines-map server nick channel (names ∷ parts) =
    ap₂ (λ (x : Str) (xs : List Str). x ∷ xs)
      (ap
        (λ t.
          numeric_line server rpl_namreply nick
            (trim (codes "@ " ++ (channel ++ (codes " :" ++ t)))))
        (name_list-concat names))
      (name_lines-map server nick channel parts)

names_of-nicks : (members : List (User × UserRoomEntry)) → names_of members ≡ nicks members
unfolding names_of
names_of-nicks [] = refl
names_of-nicks ((u, entry) ∷ members) =
    ap (λ (l : List (Str × Bool)). (u.nick, entry.operator) ∷ l) (names_of-nicks members)

-- The lines of a join response, with these for the names.
abbrev pub lines_around : IrcUserConnection → Str → Channel → List Str → List Str
lines_around c name channel lines =
    let server = c.conn.server_name in
    (b':' ∷ (c.user_prefix ++ (codes " JOIN " ++ channel.name)))
    ∷ numeric_line server rpl_topic c.server_name (channel.name ++ (codes " :" ++ channel.topic))
    ∷ ((lines ++ numeric_line server rpl_endofnames c.nick (name ++ codes " :End of /NAMES") ∷ [])
        ++ numeric_line server rpl_channelmodeis c.nick (channel.name ++ codes " +n") ∷ [])

-- The lines of a join response.
abbrev pub join_lines : IrcUserConnection → Str → Channel → List (User × UserRoomEntry) → List Str
join_lines c name channel members = lines_around c name channel (
    map (names_line c.conn.server_name c.nick name)
      (chunks (length (nicks members)) 10 (nicks members)))

Writes-around :
    (c : IrcUserConnection) (name : Str) (channel : Channel) (members : List (User × UserRoomEntry))
    → IsWritable c.conn
    → Writes c.conn
        (lines_around c name channel (
          name_lines c.conn.server_name c.nick name
            (chunks (length (names_of members)) 10 (names_of members))))
        (join_response c name channel members)
unfolding join_response
Writes-around c name channel members h =
    let conn₁ = write_join c.conn c.user_prefix channel.name in
    let conn₂ = write_topic conn₁ c.server_name channel.name channel.topic in
    let names = names_of members in
    Writes-then_numeric c.conn _ _ rpl_channelmodeis c.nick (channel.name ++ codes " +n") (
      Writes-then
        (λ server.
          name_lines server c.nick name (chunks (length names) 10 names)
          ++ numeric_line server rpl_endofnames c.nick (name ++ codes " :End of /NAMES") ∷ [])
        (Writes-then
          (λ server.
            numeric_line server rpl_topic c.server_name
              (channel.name ++ (codes " :" ++ channel.topic))
            ∷ [])
          (Writes-write_join c.conn c.user_prefix channel.name h)
          (λ k. Writes-write_topic conn₁ c.server_name channel.name channel.topic k))
        (λ k. Writes-write_names conn₂ c.nick name names k))

-- If the write position is within the buffer, a join response puts its lines behind the bytes sent
-- or waiting to be sent: the JOIN, the topic, the nicks of the members by tens, with `@` before an
-- operator's, their end, and the modes. The read side stays as it is.
pub Writes-join_response :
    (c : IrcUserConnection) (name : Str) (channel : Channel) (members : List (User × UserRoomEntry))
    → IsWritable c.conn
    → Writes c.conn (join_lines c name channel members) (join_response c name channel members)
Writes-join_response c name channel members h =
    let server = c.conn.server_name in
    let names = nicks members in
    subst
      (λ lines.
        Writes c.conn (lines_around c name channel lines) (join_response c name channel members))
      (ap (λ l. name_lines server c.nick name (chunks (length l) 10 l)) (names_of-nicks members)
        ∙ name_lines-map server c.nick name (chunks (length names) 10 names))
      (Writes-around c name channel members h)

-- On a consistent model, with the write position within the buffer, a new channel whose members are
-- users is added without a panic. The model is then consistent and has the channel, and behind the
-- bytes sent or waiting to be sent are the lines of the join response, with the users and entries
-- of the channel as its members, in order. Nothing else of the connection changes.
pub add_channel_new :
    (c : IrcUserConnection) (name topic : Str) (members : List (Str × Bool))
    → channel_exists c name ≡ false
    → ((nick : Str) → lists members nick ≡ true → nick_exists c nick ≡ true)
    → IsConsistent c.server_model
    → IsWritable c.conn
    → (model : ServerModel) × (conn : IrcServerConnection) × (l : List (User × UserRoomEntry))
      × (add_channel c name topic members
          ≡ returns (record c { conn = conn; server_model = model }))
      × IsConsistent model
      × (get name model.channels ≡ some (Models.new_channel name topic members))
      × AreMembers model.users (Models.new_channel name topic members).users l
      × Writes c.conn (join_lines c name (Models.new_channel name topic members) l) conn
add_channel_new c name topic members fresh known h w =
    let channel = Models.new_channel name topic members in
    let (l, a, e) = add_channel_returns c name topic members fresh known h in
    (
      added c.server_model name topic members,
      join_response c name channel l,
      l,
      e,
      added-IsConsistent c.server_model name topic members (unfold channel_exists in fresh)
          (unfold nick_exists in known) h,
      get-insert_self name channel c.server_model.channels,
      a,
      Writes-join_response c name channel l w,
    )
