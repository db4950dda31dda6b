-- ===== src/Irc/Models/Invariant.antt =====
-- src/irc/models.rs: the invariant of `ServerModel`.
use matrix_ircd.Prelude.{
  ◌≡◌, refl, Bool, true, false, none, some, List, [], ◌∷◌, arith, if◌then◌else◌,
}
use matrix_ircd.Prelude.{returns, panics}
use matrix_ircd.Text.{Str, same, same_iff, same_refl}
use matrix_ircd.BTreeMap
use matrix_ircd.BTreeMap.{BTreeMap, get, contains_key, collect}
use matrix_ircd.BTreeMap.Laws.{get-insert, get-insert_self, get_of_contains_key}
use matrix_ircd.Irc.Models.{
  Channel, User, UserRoomEntry, ServerModel, new, new_user, nick_exists, channel_exists,
  create_user, add_channel, new_channel, enter_all, members_of, get_members,
}
use matrix_ircd.Irc.Models.Members.{
  lists, in_channels, contains_key-collect, contains_key-enter_all, in_channels-enter_all,
}

-- The channel lists the nick.
unfoldable pub is_member : BTreeMap Channel → Str → Str → Bool
is_member channels channel nick = elim (get channel channels) [
  | none ↦ false
  | some c ↦ contains_key nick c.users
]

pub record IsConsistent (s : ServerModel) : Type 0 where
  pub members_are_users :
      (channel nick : Str)
      → is_member s.channels channel nick ≡ true
      → contains_key nick s.users ≡ true
  pub channels_agree :
      (channel nick : Str) → in_channels s.users nick channel ≡ is_member s.channels channel nick

pub new-IsConsistent : IsConsistent new
unfolding is_member in_channels get
new-IsConsistent = record {
  members_are_users = λ channel nick h. cc;
  channels_agree = λ channel nick. refl;
}

-- Creating a user whose nick is not in use keeps a model consistent.
pub create_user-IsConsistent :
    (s : ServerModel) (nick user : Str)
    → nick_exists s nick ≡ false
    → IsConsistent s
    → IsConsistent (create_user s nick user)
unfolding create_user nick_exists in_channels contains_key get
create_user-IsConsistent s nick user fresh h = record {
  members_are_users = λ channel n p.
      ground (arith, get-insert nick n (new_user nick user) s.users, h.members_are_users channel n);
  channels_agree = λ channel n. ground (
    arith,
    same_iff nick n,
    get-insert nick n (new_user nick user) s.users,
    h.members_are_users channel n,
    h.channels_agree channel n,
  );
}

module _ (s : ServerModel) (name topic : Str) (members : List (Str × Bool)) where
  -- The state that `add_channel` leaves.
  abbrev pub added : ServerModel
  added = record {
    channels = BTreeMap.insert name (new_channel name topic members) s.channels;
    users = enter_all name members s.users;
  }

  -- A new channel is added and returned; one that is there already is a panic.
  pub add_channel_lem :
      add_channel s name topic members
      ≡ (if channel_exists s name then panics else returns (added, new_channel name topic members))
  unfolding add_channel channel_exists
  add_channel_lem = ground (arith, get-insert_self name (new_channel name topic members) s.channels)

  is_member-added :
      (channel nick : Str)
      → is_member added.channels channel nick
        ≡ (if same name channel then lists members nick else is_member s.channels channel nick)
  unfolding is_member
  is_member-added channel nick = ground (
    arith,
    get-insert name channel (new_channel name topic members) s.channels,
    contains_key-collect nick members,
  )

  is_member_of_absent :
      (nick : Str) → channel_exists s name ≡ false → is_member s.channels name nick ≡ false
  unfolding is_member channel_exists contains_key
  is_member_of_absent nick h = ground arith

  -- A new channel whose members are users keeps the model consistent.
  pub added-IsConsistent :
      channel_exists s name ≡ false
      → ((nick : Str) → lists members nick ≡ true → nick_exists s nick ≡ true)
      → IsConsistent s
      → IsConsistent added
  unfolding nick_exists
  added-IsConsistent fresh known h = record {
    members_are_users = λ channel n p. ground (
      arith,
      contains_key-enter_all name members s.users n,
      is_member-added channel n,
      known n,
      h.members_are_users channel n,
    );
    channels_agree = λ channel n. ground (
      arith,
      same_iff name channel,
      in_channels-enter_all name members s.users n channel,
      is_member-added channel n,
      is_member_of_absent n fresh,
      known n,
      h.channels_agree channel n,
    );
  }

-- Adding a channel that is not there, whose members are users, to a consistent model returns that
-- channel, which the model then has, and the model is consistent again: the members of channels are
-- users, and the channels of users are those that list them.
pub add_channel-IsConsistent :
    (s : ServerModel) (name topic : Str) (members : List (Str × Bool))
    → channel_exists s name ≡ false
    → ((nick : Str) → lists members nick ≡ true → nick_exists s nick ≡ true)
    → IsConsistent s
    → (s' : ServerModel) × (add_channel s name topic members
        ≡ returns (s', new_channel name topic members))
      × (get name s'.channels ≡ some (new_channel name topic members))
      × IsConsistent s'
add_channel-IsConsistent s name topic members fresh known h = (
  added s name topic members,
  rw (add_channel_lem, fresh) refl,
  get-insert_self name (new_channel name topic members) s.channels,
  added-IsConsistent s name topic members fresh known h,
)

-- `get_members` finds a user for every entry, in the order of the entries.
abbrev pub AreMembers :
    BTreeMap User → BTreeMap UserRoomEntry → List (User × UserRoomEntry) → Type 0
AreMembers users [] [] = Unit
AreMembers users ((nick, entry) ∷ rest) ((u, e) ∷ l) =
    (get nick users ≡ some u) × (e ≡ entry) × AreMembers users rest l
AreMembers users _ _ = ⊥

members_of_lem :
    (users : BTreeMap User) (entries : BTreeMap UserRoomEntry)
    → ((nick : Str) → contains_key nick entries ≡ true → contains_key nick users ≡ true)
    → (l : List (User × UserRoomEntry)) × (members_of users entries ≡ returns l)
      × AreMembers users entries l
unfolding members_of
members_of_lem users [] h = ([], refl, tt)
members_of_lem users ((nick, entry) ∷ rest) h =
    let (l, e, a) =
      members_of_lem users rest (λ n p. h n (unfold contains_key get in ground arith)) in
    let (u, found) =
      get_of_contains_key nick users
        (h nick (unfold contains_key get in ground (arith, same_refl nick))) in
    ((u, entry) ∷ l, ground arith, (found, refl, a))

-- For a channel of a consistent model, `get_members` does not panic and gives the user and the
-- entry of each member in the order of the map.
pub get_members_lem :
    (s : ServerModel) (channel : Str) (c : Channel)
    → IsConsistent s
    → get channel s.channels ≡ some c
    → (l : List (User × UserRoomEntry)) × (get_members s channel ≡ returns (some l))
      × AreMembers s.users c.users l
unfolding get_members
get_members_lem s channel c h found =
    let (l, e, a) =
      members_of_lem s.users c.users
        (λ n p. h.members_are_users channel n (unfold is_member in ground arith)) in
    (l, ground arith, a)
