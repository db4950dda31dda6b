-- ===== src/Irc/Models.antt =====
-- src/irc/models.rs: the users and channels that the IRC client has been told of.
pub mod Members
pub mod Invariant
use matrix_ircd.Prelude.{
  ℕ, zero, suc, ◌+◌, ◌-◌, ◌*◌, ◌/◌, ◌%◌, ◌<◌, ◌≤◌, ◌≡◌, refl, sym, ap, ap₂, subst, ◌∙◌, ◌≡⟨◌⟩◌, ◌∎,
  Bool, true, false, ◌&&◌, ◌||◌, not, ◌≢◌, ◌↔◌, ◌⊎◌, inl, inr, Option, none, some, List, [], ◌∷◌,
  ◌++◌, map, append-nil, append_assoc, arith, leb, ltb, ◌==◌, if◌then◌else◌, Bool-cases,
  Option-cases, length, length-append, get_elem?, take, drop, String, ==_iff,
}
use matrix_ircd.Prelude.{Outcome, returns, panics, ◌>>=◌}
use matrix_ircd.Text.{Str, codes}
use matrix_ircd.Text.Utf8.{Bytes, as_bytes}
use matrix_ircd.BTreeMap
use matrix_ircd.BTreeMap.{BTreeMap, get, contains_key}

-- A `BTreeSet` of strings.
abbrev pub BTreeSet : Type 0
BTreeSet = BTreeMap (Unit {0})

pub record UserRoomEntry : Type 0 where
  pub operator : Bool
  pub voice : Bool

pub record Channel : Type 0 where
  pub name : Str
  pub topic : Str
  pub modes : Bytes
  pub users : BTreeMap UserRoomEntry

pub record User : Type 0 where
  pub nick : Str
  pub user : Str
  pub mask : Str
  pub channels : BTreeSet

pub record ServerModel : Type 0 where
  pub channels : BTreeMap Channel
  pub users : BTreeMap User

abbrev pub new : ServerModel
new = record { channels = []; users = [] }

unfoldable pub nick_exists : ServerModel → Str → Bool
nick_exists s nick = contains_key nick s.users

unfoldable pub channel_exists : ServerModel → Str → Bool
channel_exists s channel = contains_key channel s.channels

abbrev pub new_user : Str → Str → User
new_user nick user = record { nick = nick; user = user; mask = codes "/matrix/user"; channels = [] }

unfoldable pub create_user : ServerModel → Str → Str → ServerModel
create_user s nick user = record s { users = BTreeMap.insert nick (new_user nick user) s.users }

-- The `map` of the `collect` that fills `Channel::users`.
unfoldable pub room_entries : List (Str × Bool) → List (Str × UserRoomEntry)
room_entries [] = []
room_entries ((nick, is_operator) ∷ members) =
    (nick, record { operator = is_operator; voice = false }) ∷ room_entries members

-- `get_mut` and the insertion into `user.channels`.
unfoldable pub enter_channel : Str → Str → BTreeMap User → BTreeMap User
enter_channel name member users = elim (get member users) [
  | none ↦ users
  | some u ↦
      BTreeMap.insert member (record u { channels = BTreeMap.insert name tt u.channels }) users
]

-- The `for` loop over the members.
unfoldable pub enter_all : Str → List (Str × Bool) → BTreeMap User → BTreeMap User
unfolding enter_channel
enter_all name [] users = users
enter_all name ((member, op) ∷ members) users =
    enter_all name members (enter_channel name member users)

-- `&self.channels[&name]`.
index : Str → BTreeMap Channel → Outcome Channel
index name channels = elim (get name channels) [ none ↦ panics | some c ↦ returns c ]

abbrev pub new_channel : Str → Str → List (Str × Bool) → Channel
new_channel name topic members = record {
  name = name;
  topic = topic;
  modes = as_bytes (codes "+n");
  users = BTreeMap.collect (room_entries members);
}

unfoldable pub add_channel :
    ServerModel → Str → Str → List (Str × Bool) → Outcome (ServerModel × Channel)
unfolding index
add_channel s name topic members =
    if contains_key name s.channels
    then panics
    else let s' : ServerModel = record {
      channels = BTreeMap.insert name (new_channel name topic members) s.channels;
      users = enter_all name members s.users;
    } in
      index name s'.channels >>= λ c. returns (s', c)

unfoldable pub get_channel : ServerModel → Str → Option Channel
get_channel s channel = get channel s.channels

-- The `map` and `collect` of `get_members`; a member who is no user is a panic (`expect`).
unfoldable pub members_of :
    BTreeMap User → BTreeMap UserRoomEntry → Outcome (List (User × UserRoomEntry))
members_of users [] = returns []
members_of users ((nick, entry) ∷ rest) =
    let others = members_of users rest in
    elim (get nick users) [ none ↦ panics | some u ↦ others >>= λ l. returns ((u, entry) ∷ l) ]

unfoldable pub get_members : ServerModel → Str → Outcome (Option (List (User × UserRoomEntry)))
unfolding members_of
get_members s channel = elim (get channel s.channels) [
  | none ↦ returns none
  | some c ↦ members_of s.users c.users >>= λ l. returns (some l)
]
