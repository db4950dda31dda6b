-- ===== src/Tests/Room.antt =====
-- The theorems on src/matrix/models.rs at a concrete room, and what they come to there.
use matrix_ircd.Prelude.{
  or_else, ℕ, ◌≡◌, ◌↔◌, refl, true, false, Option, none, some, List, [], ◌∷◌, if◌then◌else◌,
}
use mathlib.Core.Option
use matrix_ircd.Prelude.{returns, panics}
use matrix_ircd.Text.{Str, codes, same}
use matrix_ircd.BTreeMap
use matrix_ircd.BTreeMap.{BTreeMap, get, contains_key}
use matrix_ircd.Matrix.Protocol.{Json, Event, JoinedRoomSyncResponse}
use matrix_ircd.Matrix.Models.{Room, from_sync, update_from_sync, recalculate_members, moderators}
use matrix_ircd.Matrix.Models.Sync.{
  lookup, latest, are_keyed, update_from_sync_state, unkeyed_panics,
}
use matrix_ircd.Matrix.Models.Membership.{last_join, recalculate_members_lem}
use matrix_ircd.Matrix.Models.Moderators.{Moderates, HasLevels, moderators_lem}
use matrix_ircd.Matrix.Models.Unnoticed.{no_more, and_more, update_from_sync_members}

-- Values of three levels: of a content, of the levels of users, and of a level or a text.
data Value : Type 0 where
  level : ℕ → Value
  text : Str → Value
  levels : BTreeMap ℕ → Value
  content : BTreeMap ℕ → BTreeMap Str → Value

values_of : BTreeMap ℕ → BTreeMap Value
values_of [] = []
values_of ((k, n) ∷ m) = (k, level n) ∷ values_of m

value_get : Value → Str → Option Value
unfolding same BTreeMap.get
value_get (content users texts) key =
    if same key (codes "users")
    then some (levels users)
    else Option.map text (BTreeMap.get key texts)
value_get _ key = none

value_as_object : Value → Option (BTreeMap Value)
unfolding values_of
value_as_object (levels users) = some (values_of users)
value_as_object _ = none

value_as_str : Value → Option Str
value_as_str (text t) = some t
value_as_str _ = none

value_as_u64 : Value → Option ℕ
value_as_u64 (level n) = some n
value_as_u64 _ = none

abbrev json : Json
json = record {
  Value = Value;
  get = value_get;
  as_object = value_as_object;
  as_str = value_as_str;
  as_u64 = value_as_u64;
}

abbrev event : Str → Option Str → Value → Event json
event etype state_key value = record {
  sender = codes "@ann:hs";
  event_id = codes "$e";
  etype = etype;
  state_key = state_key;
  content = value;
  unsigned = record { transaction_id = none };
}

abbrev join_content : Value
join_content =
    content [] ((codes "displayname", codes "Ann") ∷ (codes "membership", codes "join") ∷ [])

-- Ann has joined.
abbrev ann_joins : Event json
ann_joins = event (codes "m.room.member") (some (codes "@ann:hs")) join_content

abbrev ann_moderates : Event json
ann_moderates =
    event (codes "m.room.power_levels") (some []) (content ((codes "@ann:hs", 50) ∷ []) [])

abbrev response : List (Event json) → List (Event json) → JoinedRoomSyncResponse json
response state timeline = record {
  timeline = record { limited = false; prev_batch = []; events = timeline };
  state = record { events = state };
}

abbrev empty_room : Room json
empty_room = record { room_id = codes "!r:hs"; state = []; members = [] }

abbrev moderated : Room json
moderated = record empty_room {
  state =
      (codes "m.room.member", (codes "@ann:hs", ann_joins) ∷ [])
      ∷ (codes "m.room.power_levels", ([], ann_moderates) ∷ [])
      ∷ [];
}

update_from_sync_state_example :
    (room' : Room json) × (update_from_sync empty_room
        (response (ann_joins ∷ []) (ann_moderates ∷ []))
      ≡ returns room')
    × ((etype key : Str)
        → lookup room'.state etype key
          ≡ or_else
              (latest etype key (ann_moderates ∷ []))
              (or_else (latest etype key (ann_joins ∷ [])) (lookup empty_room.state etype key)))
unfolding are_keyed
update_from_sync_state_example =
    update_from_sync_state empty_room (response (ann_joins ∷ []) (ann_moderates ∷ [])) refl

unkeyed_panics_example :
    (from_sync (codes "!r:hs") (response (event (codes "m.room.name") none (text []) ∷ []) [])
      ≡ panics)
    × (update_from_sync empty_room (response (event (codes "m.room.name") none (text []) ∷ []) [])
        ≡ panics)
unfolding are_keyed
unkeyed_panics_example =
    unkeyed_panics (codes "!r:hs") empty_room
      (response (event (codes "m.room.name") none (text []) ∷ []) []) refl

moderated-HasLevels : HasLevels moderated ((codes "@ann:hs", level 50) ∷ [])
unfolding get same value_get value_as_object
moderated-HasLevels = record {
  events = ([], ann_moderates) ∷ [];
  event = ann_moderates;
  value = levels ((codes "@ann:hs", 50) ∷ []);
  has_events = refl;
  has_event = refl;
  has_users = refl;
  are_users = refl;
}

moderators_lem_example :
    (contains_key (codes "@ann:hs") (moderators moderated) ≡ true)
    ↔ Moderates json (codes "@ann:hs") ((codes "@ann:hs", level 50) ∷ [])
moderators_lem_example =
    moderators_lem moderated ((codes "@ann:hs", level 50) ∷ []) (codes "@ann:hs")
      moderated-HasLevels

recalculate_members_lem_example :
    get (codes "@ann:hs") (recalculate_members moderated).members
    ≡ or_else
        (last_join (moderators moderated) (codes "@ann:hs") ((codes "@ann:hs", ann_joins) ∷ []))
        none
unfolding get
recalculate_members_lem_example =
    recalculate_members_lem moderated ((codes "@ann:hs", ann_joins) ∷ []) (codes "@ann:hs")
      (unfold get same in refl)

-- Ann joins, and is not a member.
update_from_sync_members_example :
    (room' : Room json) × (update_from_sync empty_room (response [] (ann_joins ∷ []))
      ≡ returns room')
    × (room'.members ≡ [])
    × ((user_id : Str)
        → lookup room'.state (codes "m.room.member") user_id
          ≡ or_else (latest (codes "m.room.member") user_id (ann_joins ∷ [])) (
              or_else
                (latest (codes "m.room.member") user_id [])
                (lookup empty_room.state (codes "m.room.member") user_id)))
unfolding are_keyed
update_from_sync_members_example =
    update_from_sync_members empty_room (response [] (ann_joins ∷ [])) refl no_more
      (and_more refl no_more)
