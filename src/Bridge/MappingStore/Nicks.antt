-- ===== src/Bridge/MappingStore/Nicks.antt =====
-- src/bridge/mod.rs: the nicks of the mapping store.
use matrix_ircd.Prelude.{
  ◌≡◌, refl, ◌∙◌, Bool, true, false, ◌||◌, inl, inr, none, some, List, [], ◌∷◌, arith, Option-cases,
}
use matrix_ircd.Text.{Str, same, same_iff, same_refl}
use matrix_ircd.BTreeMap.{get}
use matrix_ircd.BTreeMap.Laws.{get-insert, get-insert_self, contains_key-insert}
use matrix_ircd.BTreeMap.Inverse.{AreInverse, insert-AreInverse}
use matrix_ircd.Irc.Models
use matrix_ircd.Irc.Models.{new_user}
use matrix_ircd.Irc.Models.Invariant.{IsConsistent, create_user-IsConsistent}
use matrix_ircd.Irc.Models.Members.{lists}
use matrix_ircd.Irc.User
use matrix_ircd.Irc.User.{IrcUserConnection, nick_exists}
use matrix_ircd.Matrix.Models.{Member}
use matrix_ircd.Bridge.UniqueName.{unique_name, unique_name_new}
use matrix_ircd.Bridge.MappingStore.{
  Sides, insert_nick, wanted_nick, new_nick, create_or_get_nick_from_matrix, nicks_of_members,
}

pub record NicksFit (s : Sides) : Type 0 where
  pub inverse : AreInverse s.0.matrix_uid_to_nick s.0.nick_matrix_uid
  pub known :
      (nick user_id : Str)
      → get nick s.0.nick_matrix_uid ≡ some user_id
      → nick_exists s.1 nick ≡ true
  pub consistent : IsConsistent s.1.server_model

-- `s'` is `s` with more nicks and users: the rest is as it was.
pub record Extends (s s' : Sides) : Type 0 where
  pub same_channels : s'.1.server_model.channels ≡ s.1.server_model.channels
  pub same_channel_to_room_id : s'.0.channel_to_room_id ≡ s.0.channel_to_room_id
  pub same_room_id_to_channel : s'.0.room_id_to_channel ≡ s.0.room_id_to_channel
  pub same_conn : s'.1.conn ≡ s.1.conn
  pub keeps_users : (nick : Str) → nick_exists s.1 nick ≡ true → nick_exists s'.1 nick ≡ true
  pub keeps_nicks :
      (user_id nick : Str)
      → get user_id s.0.matrix_uid_to_nick ≡ some nick
      → get user_id s'.0.matrix_uid_to_nick ≡ some nick

pub Extends-refl : (s : Sides) → Extends s s
Extends-refl s = record {
  same_channels = refl;
  same_channel_to_room_id = refl;
  same_room_id_to_channel = refl;
  same_conn = refl;
  keeps_users = λ nick h. h;
  keeps_nicks = λ user_id nick h. h;
}

pub Extends-trans : {a b c : Sides} → Extends a b → Extends b c → Extends a c
Extends-trans p q = record {
  same_channels = q.same_channels ∙ p.same_channels;
  same_channel_to_room_id = q.same_channel_to_room_id ∙ p.same_channel_to_room_id;
  same_room_id_to_channel = q.same_room_id_to_channel ∙ p.same_room_id_to_channel;
  same_conn = q.same_conn ∙ p.same_conn;
  keeps_users = λ nick h. q.keeps_users nick (p.keeps_users nick h);
  keeps_nicks = λ user_id nick h. q.keeps_nicks user_id nick (p.keeps_nicks user_id nick h);
}

nick_exists-create_user :
    (c : IrcUserConnection) (nick user n : Str)
    → nick_exists (User.create_user c nick user) n ≡ (same nick n || nick_exists c n)
unfolding nick_exists User.create_user Models.nick_exists Models.create_user
nick_exists-create_user c nick user n =
    contains_key-insert nick n (new_user nick user) c.server_model.users

-- A nick for a user who has none, which nobody has.
module _ (s : Sides) (nick user_id : Str) (fit : NicksFit s)
    (no_nick : get user_id s.0.matrix_uid_to_nick ≡ none)
    (free : nick_exists s.1 nick ≡ false) where
  nick_is_unmapped : get nick s.0.nick_matrix_uid ≡ none
  nick_is_unmapped = elim (Option-cases (get nick s.0.nick_matrix_uid)) [
    | inl e ↦ e
    | inr (u, e) ↦ absurd (cc (fit.known nick u e))
  ]

  pub insert_nick-NicksFit : NicksFit (insert_nick s nick user_id)
  unfolding insert_nick
  insert_nick-NicksFit = record {
    inverse =
        insert-AreInverse s.0.matrix_uid_to_nick s.0.nick_matrix_uid user_id nick no_nick
          nick_is_unmapped fit.inverse;
    known = λ n u e. ground (
      arith,
      nick_exists-create_user s.1 nick user_id n,
      get-insert nick n user_id s.0.nick_matrix_uid,
      fit.known n u,
    );
    consistent =
        unfold User.create_user in
        create_user-IsConsistent s.1.server_model nick user_id (unfold nick_exists in free)
          fit.consistent;
  }

  pub Extends-insert_nick : Extends s (insert_nick s nick user_id)
  unfolding insert_nick
  Extends-insert_nick = record {
    same_channels = unfold User.create_user Models.create_user in refl;
    same_channel_to_room_id = refl;
    same_room_id_to_channel = refl;
    same_conn = unfold User.create_user in refl;
    keeps_users = λ n h. ground (arith, nick_exists-create_user s.1 nick user_id n);
    keeps_nicks = λ u n h.
        ground (arith, get-insert user_id u nick s.0.matrix_uid_to_nick, same_iff user_id u);
  }

-- What the operation gives: a nick that the store has for the user, in a store that fits.
pub record GivesNick (s : Sides) (user_id : Str) (r : Sides × Str) : Type 0 where
  pub fits : NicksFit r.0
  pub extends : Extends s r.0
  pub has_nick : get user_id r.0.0.matrix_uid_to_nick ≡ some r.1
  pub is_user : nick_exists r.0.1 r.1 ≡ true

new_nick_lem :
    (s : Sides) (user_id display_name : Str)
    → NicksFit s
    → get user_id s.0.matrix_uid_to_nick ≡ none
    → GivesNick s user_id (new_nick s user_id display_name)
unfolding new_nick
new_nick_lem s user_id display_name fit no_nick =
    let users = s.1.server_model.users in
    let nick = unique_name users (wanted_nick user_id display_name) in
    let free : nick_exists s.1 nick ≡ false =
      unfold nick_exists Models.nick_exists in
      unique_name_new users (wanted_nick user_id display_name) in
    record {
      fits = insert_nick-NicksFit s nick user_id fit no_nick free;
      extends = Extends-insert_nick s nick user_id fit no_nick free;
      has_nick = unfold insert_nick in get-insert_self user_id nick s.0.matrix_uid_to_nick;
      is_user =
          unfold insert_nick in
          (ground (arith, nick_exists-create_user s.1 nick user_id nick, same_refl nick));
    }

-- If the nicks fit the IRC side (`NicksFit`), `create_or_get_nick_from_matrix` gives the user a
-- nick, which is a user of the server; users keep the nicks they had, channels and connection stay
-- as they are, and the nicks fit again, so no two users share one.
pub create_or_get_nick_lem :
    (s : Sides) (user_id display_name : Str)
    → NicksFit s
    → GivesNick s user_id (create_or_get_nick_from_matrix s user_id display_name)
unfolding create_or_get_nick_from_matrix
create_or_get_nick_lem s user_id display_name fit =
    elim (Option-cases (get user_id s.0.matrix_uid_to_nick)) [
      | inl e ↦ rw (e, create_or_get_nick_from_matrix) (new_nick_lem s user_id display_name fit e)
      | inr (nick, e) ↦
          rw (e, create_or_get_nick_from_matrix)
            (record {
              fits = fit;
              extends = Extends-refl s;
              has_nick = e;
              is_user = fit.known nick user_id (fit.inverse.forth user_id nick e);
            })
    ]

-- The members of a room all get nicks, and those are users of the server.
pub record GivesNicks (s : Sides) (r : Sides × List (Str × Bool)) : Type 0 where
  pub fits : NicksFit r.0
  pub extends : Extends s r.0
  pub are_users : (nick : Str) → lists r.1 nick ≡ true → nick_exists r.0.1 nick ≡ true

-- If the nicks fit the IRC side (`NicksFit`), the loop over the members of a room gives nicks that
-- are users of the server; users keep the nicks they had, channels and connection stay as they are,
-- and the nicks fit again.
pub nicks_of_members_lem :
    (s : Sides) (members : List (Str × Member))
    → NicksFit s
    → GivesNicks s (nicks_of_members s members)
unfolding nicks_of_members lists
nicks_of_members_lem s [] fit = record {
  fits = fit;
  extends = Extends-refl s;
  are_users = λ nick h. cc;
}
nicks_of_members_lem s ((key, member) ∷ members) fit =
    let one = create_or_get_nick_lem s member.user_id member.display_name fit in
    let (s', nick) = create_or_get_nick_from_matrix s member.user_id member.display_name in
    let rest = nicks_of_members_lem s' members one.fits in
    record {
      fits = rest.fits;
      extends = Extends-trans one.extends rest.extends;
      are_users = λ n h.
          ground
            (arith, same_iff nick n, rest.extends.keeps_users n, one.is_user, rest.are_users n);
    }
