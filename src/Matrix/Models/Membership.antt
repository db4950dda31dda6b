-- ===== src/Matrix/Models/Membership.antt =====
-- src/matrix/models.rs: the members of a room, when they are looked at again.
use matrix_ircd.Prelude.{
  or_else, ◌≡◌, refl, Bool, ◌&&◌, Option, none, some, List, [], ◌∷◌, arith, if◌then◌else◌,
}
use matrix_ircd.Text.{Str, codes, same}
use matrix_ircd.BTreeMap
use matrix_ircd.BTreeMap.{BTreeMap, get, contains_key}
use matrix_ircd.BTreeMap.Laws.{get-insert}
use matrix_ircd.Irc.Models.{BTreeSet}
use matrix_ircd.Matrix.Protocol.{Json, Event}
use matrix_ircd.Matrix.Models.{
  Room, Member, moderators, content_text, add_member, add_members, recalculate_members,
}

insert_if :
    (b : Bool) (u : Str) (m : Member) (members : BTreeMap Member) (user_id : Str)
    → get user_id (if b then BTreeMap.insert u m members else members)
      ≡ (if same u user_id && b then some m else get user_id members)
insert_if b u m members user_id = ground (arith, get-insert u user_id m members)

module _ {J : Json} where
  -- The event says that its user has joined.
  unfoldable pub is_join : Event J → Bool
  is_join ev = same (content_text ev (codes "membership")) (codes "join")

  -- What a join event makes of a user.
  unfoldable pub joined_as : BTreeSet → Str → Event J → Member
  joined_as mods user_id ev = record {
    user_id = user_id;
    display_name = content_text ev (codes "displayname");
    moderator = contains_key user_id mods;
  }

  -- The last join event of the user, as a member.
  unfoldable pub last_join : BTreeSet → Str → List (Str × Event J) → Option Member
  unfolding is_join joined_as
  last_join mods user_id [] = none
  last_join mods user_id ((u, ev) ∷ events) =
      or_else (last_join mods user_id events)
        (if same u user_id && is_join ev then some (joined_as mods u ev) else none)

  add_member_lem :
      (mods : BTreeSet) (members : BTreeMap Member) (u : Str) (ev : Event J) (user_id : Str)
      → get user_id (add_member mods members u ev)
        ≡ (if same u user_id && is_join ev then some (joined_as mods u ev) else get user_id members)
  unfolding add_member is_join joined_as
  add_member_lem mods members u ev user_id =
      insert_if (is_join ev) u (joined_as mods u ev) members user_id

  pub add_members_lem :
      (events : List (Str × Event J)) (mods : BTreeSet) (members : BTreeMap Member) (user_id : Str)
      → get user_id (add_members mods members events)
        ≡ or_else (last_join mods user_id events) (get user_id members)
  unfolding add_members last_join
  add_members_lem [] mods members user_id = refl
  add_members_lem ((u, ev) ∷ events) mods members user_id = ground (
    arith,
    add_members_lem events mods (add_member mods members u ev) user_id,
    add_member_lem mods members u ev user_id,
  )

  -- When the members are looked at again and the state has member events, a user with a join event
  -- among them is the member that the last of these says, and every other user is the member, or
  -- not, that it was: nobody is taken out.
  pub recalculate_members_lem :
      (room : Room J) (events : List (Str × Event J)) (user_id : Str)
      → get (codes "m.room.member") room.state ≡ some events
      → get user_id (recalculate_members room).members
        ≡ or_else (last_join (moderators room) user_id events) (get user_id room.members)
  unfolding recalculate_members
  recalculate_members_lem room events user_id h =
      rw (recalculate_members, h) (add_members_lem events (moderators room) room.members user_id)
