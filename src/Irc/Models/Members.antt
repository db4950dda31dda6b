-- ===== src/Irc/Models/Members.antt =====
-- Who the members of a channel are, and which users a change of the model leaves.
use matrix_ircd.Prelude.{
  ◌≡◌, refl, ◌∙◌, Bool, false, ◌&&◌, ◌||◌, inl, inr, none, some, List, [], ◌∷◌, arith, Option-cases,
}
use matrix_ircd.Text.{Str, same, same_iff}
use matrix_ircd.BTreeMap
use matrix_ircd.BTreeMap.{BTreeMap, get, contains_key, collect, collect_onto}
use matrix_ircd.BTreeMap.Laws.{get-insert, contains_key-insert}
use matrix_ircd.Irc.Models.{User, UserRoomEntry, room_entries, enter_channel, enter_all}

-- `nick` stands in a list of members.
unfoldable pub lists : List (Str × Bool) → Str → Bool
lists [] nick = false
lists ((n, op) ∷ members) nick = same n nick || lists members nick

contains_key-collect_onto :
    (nick : Str) (members : List (Str × Bool)) (m : BTreeMap UserRoomEntry)
    → contains_key nick (collect_onto m (room_entries members))
      ≡ (lists members nick || contains_key nick m)
unfolding collect_onto room_entries lists
contains_key-collect_onto nick [] m = refl
contains_key-collect_onto nick ((n, op) ∷ members) m =
    let e : UserRoomEntry = record { operator = op; voice = false } in
    ground (
      arith,
      contains_key-collect_onto nick members (BTreeMap.insert n e m),
      contains_key-insert n nick e m,
    )

-- The members of a new channel are those listed.
pub contains_key-collect :
    (nick : Str) (members : List (Str × Bool))
    → contains_key nick (collect (room_entries members)) ≡ lists members nick
unfolding collect lists contains_key get
contains_key-collect nick members = ground (arith, contains_key-collect_onto nick members [])

-- The channels that a user is in, by the user's own record.
unfoldable pub in_channels : BTreeMap User → Str → Str → Bool
in_channels users nick channel = elim (get nick users) [
  | none ↦ false
  | some u ↦ contains_key channel u.channels
]

module _ (name member : Str) (users : BTreeMap User) (nick : Str) where
  contains_key-enter_channel :
      contains_key nick (enter_channel name member users) ≡ contains_key nick users
  unfolding enter_channel contains_key
  contains_key-enter_channel = elim (Option-cases (get member users)) [
    | inl e ↦ rw (e, enter_channel)
    | inr (u, e) ↦ ground (
      arith,
      same_iff member nick,
      get-insert member nick (record u { channels = BTreeMap.insert name tt u.channels }) users,
    )
  ]

  in_channels-enter_channel :
      (channel : Str)
      → in_channels (enter_channel name member users) nick channel ≡ (
          in_channels users nick channel
          || (same member nick && same name channel && contains_key nick users))
  unfolding enter_channel in_channels contains_key
  in_channels-enter_channel channel = elim (Option-cases (get member users)) [
    | inl e ↦ ground (arith, same_iff member nick)
    | inr (u, e) ↦ ground (
      arith,
      same_iff member nick,
      get-insert member nick (record u { channels = BTreeMap.insert name tt u.channels }) users,
      get-insert name channel tt u.channels,
    )
  ]

pub contains_key-enter_all :
    (name : Str) (members : List (Str × Bool)) (users : BTreeMap User) (nick : Str)
    → contains_key nick (enter_all name members users) ≡ contains_key nick users
unfolding enter_all
contains_key-enter_all name [] users nick = refl
contains_key-enter_all name ((m, op) ∷ members) users nick =
    contains_key-enter_all name members (enter_channel name m users) nick
    ∙ contains_key-enter_channel name m users nick

-- The loop adds the channel to the users listed, and to no others.
pub in_channels-enter_all :
    (name : Str) (members : List (Str × Bool)) (users : BTreeMap User) (nick channel : Str)
    → in_channels (enter_all name members users) nick channel ≡ (
        in_channels users nick channel
        || (lists members nick && same name channel && contains_key nick users))
unfolding enter_all lists
in_channels-enter_all name [] users nick channel = ground arith
in_channels-enter_all name ((m, op) ∷ members) users nick channel = ground (
  arith,
  in_channels-enter_all name members (enter_channel name m users) nick channel,
  in_channels-enter_channel name m users nick channel,
  contains_key-enter_channel name m users nick,
)
