-- ===== src/Bridge/MappingStore/Channels.antt =====
-- src/bridge/mod.rs: the channels of the mapping store.
use matrix_ircd.Prelude.{
  ◌≡◌, refl, sym, ap, Bool, true, false, not, inl, inr, none, some, List, [], arith, Option-cases,
}
use matrix_ircd.Prelude.{returns, ◌>>=◌}
use matrix_ircd.Text.{Str, same_iff}
use matrix_ircd.BTreeMap
use matrix_ircd.BTreeMap.{BTreeMap, get, contains_key}
use matrix_ircd.BTreeMap.Laws.{
  get-insert, get-insert_self, contains_key-insert, contains_key_of_get, contains_key_of_none,
}
use matrix_ircd.BTreeMap.Inverse.{AreInverse, insert-AreInverse, AreInverse-nil}
use matrix_ircd.Irc.Models
use matrix_ircd.Irc.Models.{Channel}
use matrix_ircd.Irc.Models.Invariant.{new-IsConsistent, added, added-IsConsistent}
use matrix_ircd.Irc.Models.Members.{contains_key-enter_all}
use matrix_ircd.Irc.User
use matrix_ircd.Irc.User.{IrcUserConnection, nick_exists, channel_exists}
use matrix_ircd.Irc.User.Join.{add_channel_returns}
use matrix_ircd.Matrix.Protocol.{Json}
use matrix_ircd.Matrix.Models.{Room, get_topic, unwrap_or}
use matrix_ircd.Bridge.UniqueName.{unique_name, unique_name_new}
use matrix_ircd.Bridge.MappingStore.{
  Sides, default, insert_nick, map_room, wanted_channel, nicks_of_members, new_channel,
  create_or_get_channel_name_from_matrix,
}
use matrix_ircd.Bridge.MappingStore.Nicks.{
  NicksFit, GivesNicks, insert_nick-NicksFit, nicks_of_members_lem,
}

-- The invariant of the store and the IRC side.
pub record IsMapped (s : Sides) : Type 0 where
  pub nicks : NicksFit s
  pub rooms : AreInverse s.0.channel_to_room_id s.0.room_id_to_channel
  pub known :
      (channel room_id : Str)
      → get channel s.0.channel_to_room_id ≡ some room_id
      → channel_exists s.1 channel ≡ true

-- What the operation gives: the channel of the room, in sides that fit; other rooms keep theirs.
pub record GivesChannel (s : Sides) (room_id : Str) (r : Sides × Str × Bool) : Type 0 where
  pub mapped : IsMapped r.0
  pub has_channel : get room_id r.0.0.room_id_to_channel ≡ some r.1
  pub keeps_channels :
      (other channel : Str)
      → get other s.0.room_id_to_channel ≡ some channel
      → get other r.0.0.room_id_to_channel ≡ some channel
  pub keeps_nicks :
      (user_id nick : Str)
      → get user_id s.0.matrix_uid_to_nick ≡ some nick
      → get user_id r.0.0.matrix_uid_to_nick ≡ some nick

module _ (s : Sides) (room_id channel topic : Str) (fit : IsMapped s)
    (no_channel : get room_id s.0.room_id_to_channel ≡ none)
    (free : channel_exists s.1 channel ≡ false) where
  channel_is_unmapped : get channel s.0.channel_to_room_id ≡ none
  channel_is_unmapped = elim (Option-cases (get channel s.0.channel_to_room_id)) [
    | inl e ↦ e
    | inr (r, e) ↦ absurd (cc (fit.known channel r e))
  ]

  -- The two insertions touch nothing of the nicks.
  map_room-NicksFit : NicksFit (map_room s.0 room_id channel, s.1)
  map_room-NicksFit = record {
    inverse = fit.nicks.inverse;
    known = fit.nicks.known;
    consistent = fit.nicks.consistent;
  }

  map_room-AreInverse :
      AreInverse
        (map_room s.0 room_id channel).channel_to_room_id
        (map_room s.0 room_id channel).room_id_to_channel
  map_room-AreInverse =
      insert-AreInverse s.0.channel_to_room_id s.0.room_id_to_channel channel room_id
        channel_is_unmapped no_channel fit.rooms

  -- `t` is the sides behind the nicks of the members.
  module _ (t : Sides) (members : List (Str × Bool))
      (given : GivesNicks (map_room s.0 room_id channel, s.1) (t, members)) where
    still_free : channel_exists t.1 channel ≡ false
    unfolding channel_exists Models.channel_exists
    still_free = rw given.extends.same_channels free

  -- The sides when the channel has been added.
  module _ (t : Sides) (members : List (Str × Bool)) (c : IrcUserConnection)
      (given : GivesNicks (map_room s.0 room_id channel, s.1) (t, members))
      (has_model : c.server_model ≡ added t.1.server_model channel topic members) where
    added_known : (ch r : Str) → get ch t.0.channel_to_room_id ≡ some r → channel_exists c ch ≡ true
    unfolding channel_exists Models.channel_exists
    added_known ch r e =
        let before = s.0.channel_to_room_id in
        let e' : get ch (BTreeMap.insert channel room_id before) ≡ some r =
          rw given.extends.same_channel_to_room_id at e in
        rw (has_model, contains_key-insert, given.extends.same_channels)
          (ground
            (arith, same_iff channel ch, get-insert channel ch room_id before, fit.known ch r))

    added-NicksFit : NicksFit (t.0, c)
    unfolding nick_exists Models.nick_exists
    added-NicksFit = record {
      inverse = given.fits.inverse;
      known = λ n u e. rw (has_model, contains_key-enter_all) (given.fits.known n u e);
      consistent = rw has_model (
          added-IsConsistent t.1.server_model channel topic members
            (unfold channel_exists in still_free t members given) given.are_users
            given.fits.consistent);
    }

    added-GivesChannel : GivesChannel s room_id ((t.0, c), channel, true)
    added-GivesChannel = record {
      mapped = record {
        nicks = added-NicksFit;
        rooms =
            rw (given.extends.same_channel_to_room_id, given.extends.same_room_id_to_channel)
              map_room-AreInverse;
        known = added_known;
      };
      has_channel = rw (given.extends.same_room_id_to_channel, get-insert_self);
      keeps_channels = λ other ch e. rw given.extends.same_room_id_to_channel (
          ground (
            arith,
            get-insert room_id other channel s.0.room_id_to_channel,
            same_iff room_id other,
          ));
      keeps_nicks = given.extends.keeps_nicks;
    }

  -- The step that adds the channel.
  add_channel_gives :
      (u : Sides × List (Str × Bool))
      → GivesNicks (map_room s.0 room_id channel, s.1) u
      → (r : Sides × Str × Bool) × ((User.add_channel u.0.1 channel topic u.1 >>= λ c.
            returns ((u.0.0, c), channel, true))
          ≡ returns r)
        × GivesChannel s room_id r
        × (r.2 ≡ true)
  add_channel_gives (t, members) given =
      let absent = still_free t members given in
      let (l, _, e) =
        add_channel_returns t.1 channel topic members absent given.are_users
          given.fits.consistent in
      let c = record t.1 {
        conn = User.join_response t.1 channel (Models.new_channel channel topic members) l;
        server_model = added t.1.server_model channel topic members;
      } in
      (((t.0, c), channel, true), rw e refl, added-GivesChannel t members c given refl, refl)

module _ {J : Json} where
  new_channel_lem :
      (s : Sides) (room : Room J)
      → IsMapped s
      → get room.room_id s.0.room_id_to_channel ≡ none
      → (r : Sides × Str × Bool) × (new_channel s room ≡ returns r)
        × GivesChannel s room.room_id r
        × (r.2 ≡ true)
  unfolding new_channel channel_exists Models.channel_exists
  new_channel_lem s room fit no_channel =
      let channels = s.1.server_model.channels in
      let channel = unique_name channels (wanted_channel room) in
      let topic = unwrap_or [] (get_topic room) in
      let free = unique_name_new channels (wanted_channel room) in
      let mapped = map_room s.0 room.room_id channel in
      let fits = map_room-NicksFit s room.room_id channel topic fit no_channel free in
      add_channel_gives s room.room_id channel topic fit no_channel free
        (nicks_of_members (mapped, s.1) room.members)
        (nicks_of_members_lem (mapped, s.1) room.members fits)

  -- On a store and an IRC side that fit each other (`IsMapped`),
  -- `create_or_get_channel_name_from_matrix` does not panic. The room then has the channel that is
  -- returned, the flag says that it is new just when the room had no channel before, rooms and
  -- users keep the channels and nicks they had, and store and IRC side fit each other again: rooms
  -- and channels are inverse to each other, as are users and nicks, and every mapped channel is one
  -- of the server.
  pub create_or_get_channel_lem :
      (s : Sides) (room : Room J)
      → IsMapped s
      → (r : Sides × Str × Bool) × (create_or_get_channel_name_from_matrix s room ≡ returns r)
        × GivesChannel s room.room_id r
        × (r.2 ≡ not (contains_key room.room_id s.0.room_id_to_channel))
  unfolding create_or_get_channel_name_from_matrix
  create_or_get_channel_lem s room fit =
      let rooms = s.0.room_id_to_channel in
      elim (Option-cases (get room.room_id rooms)) [
        | inl no_channel ↦
            let (r, e, gives, is_new) = new_channel_lem s room fit no_channel in
            (
              r,
              rw (create_or_get_channel_name_from_matrix, no_channel) e,
              gives,
              ground (arith, contains_key_of_none room.room_id rooms),
            )
        | inr (channel, e) ↦ (
          (s, channel, false),
          rw (create_or_get_channel_name_from_matrix, e) refl,
          record {
            mapped = fit;
            has_channel = e;
            keeps_channels = λ _ _ h. h;
            keeps_nicks = λ _ _ h. h;
          },
          sym (ap not (contains_key_of_get room.room_id rooms e)),
        )
      ]

nothing_mapped :
    (c : IrcUserConnection) (nick user_id : Str)
    → c.server_model ≡ Models.new
    → NicksFit (default, c)
unfolding get
nothing_mapped c nick user_id h = record {
  inverse = AreInverse-nil;
  known = λ n u e. absurd cc;
  consistent = rw h new-IsConsistent;
}

-- With a new model, no room mapped and the user's own nick inserted, store and IRC side fit each
-- other (`IsMapped`).
pub first_sides-IsMapped :
    (c : IrcUserConnection) (nick user_id : Str)
    → c.server_model ≡ Models.new
    → IsMapped (insert_nick (default, c) nick user_id)
first_sides-IsMapped c nick user_id h = record {
  nicks =
      insert_nick-NicksFit (default, c) nick user_id (nothing_mapped c nick user_id h)
        (unfold get in refl) (unfold nick_exists Models.nick_exists contains_key get in rw h refl);
  rooms = unfold insert_nick in AreInverse-nil;
  known = unfold insert_nick get in (λ channel room_id e. absurd cc);
}
