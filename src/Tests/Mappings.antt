-- ===== src/Tests/Mappings.antt =====
-- The theorems on `MappingStore` of src/bridge/mod.rs at a concrete store.
use matrix_ircd.Prelude.{◌++◌, ◌≢◌}
use matrix_ircd.Prelude.{◌≡◌, refl, Bool, true, false, not, ◌⊎◌, none, some, [], ◌∷◌}
use matrix_ircd.Prelude.{returns}
use matrix_ircd.Text.{strip_prefix, strip_suffix, Str, codes}
use matrix_ircd.BTreeMap.{contains_key}
use matrix_ircd.Irc.Models
use matrix_ircd.Irc.Transport
use matrix_ircd.Irc.User.{IrcUserConnection}
use matrix_ircd.Matrix.Protocol.{Json}
use matrix_ircd.Matrix.Models.{Room, Member}
use mathlib.Core.Option
use matrix_ircd.Bridge.Action.{
  action_prefix, emote, plain_text, handle_privmsg_action, handle_privmsg_action_lem,
}
use matrix_ircd.Bridge.UniqueName.{unique_name, unique_name_lem, IsFirstSuffix}
use matrix_ircd.Bridge.MappingStore.{
  Sides, default, insert_nick, create_or_get_nick_from_matrix,
  create_or_get_channel_name_from_matrix,
}
use matrix_ircd.Bridge.MappingStore.Nicks.{GivesNick, create_or_get_nick_lem}
use matrix_ircd.Bridge.MappingStore.Channels.{
  IsMapped, GivesChannel, create_or_get_channel_lem, first_sides-IsMapped,
}

unique_name_lem_example :
    ((contains_key (codes "a") ((codes "a", tt {0}) ∷ []) ≡ false)
      × (unique_name ((codes "a", tt {0}) ∷ []) (codes "a") ≡ codes "a"))
    ⊎ ((contains_key (codes "a") ((codes "a", tt {0}) ∷ []) ≡ true)
        × IsFirstSuffix
            ((codes "a", tt {0}) ∷ [])
            (codes "a")
            (unique_name ((codes "a", tt {0}) ∷ []) (codes "a")))
unique_name_lem_example = unique_name_lem ((codes "a", tt {0}) ∷ []) (codes "a")

abbrev client : IrcUserConnection
client = record {
  conn = Transport.new (record { reads = []; writes = []; flushes = []; sent = [] }) (codes "s");
  user = codes "ann";
  nick = codes "ann";
  real_name = codes "ann";
  password = codes "p";
  server_name = codes "s";
  user_prefix = codes "ann!ann@s";
  server_model = Models.new;
}

abbrev sides : Sides
sides = insert_nick (default, client) (codes "ann") (codes "@ann:hs")

sides-IsMapped : IsMapped sides
sides-IsMapped = first_sides-IsMapped client (codes "ann") (codes "@ann:hs") refl

create_or_get_nick_lem_example :
    GivesNick sides
      (codes "@bob:hs")
      (create_or_get_nick_from_matrix sides (codes "@bob:hs") (codes "ann"))
create_or_get_nick_lem_example =
    create_or_get_nick_lem sides (codes "@bob:hs") (codes "ann") sides-IsMapped.nicks

abbrev bob : Member
bob = record { user_id = codes "@bob:hs"; display_name = codes "ann"; moderator = true }

-- Values that are texts and nothing else.
abbrev texts : Json
texts = record {
  Value = Str;
  get = λ v k. none;
  as_object = λ v. none;
  as_str = λ v. some v;
  as_u64 = λ v. none;
}

abbrev room : Room texts
room = record { room_id = codes "!r:hs"; state = []; members = (codes "@bob:hs", bob) ∷ [] }

create_or_get_channel_lem_example :
    (r : Sides × Str × Bool) × (create_or_get_channel_name_from_matrix sides room ≡ returns r)
    × GivesChannel sides room.room_id r
    × (r.2 ≡ not (contains_key room.room_id sides.0.room_id_to_channel))
create_or_get_channel_lem_example = create_or_get_channel_lem sides room sides-IsMapped

abbrev foo_action : Str
foo_action = 1 ∷ (codes "ACTION foo" ++ 1 ∷ [])

-- The example of the source: the space in front of the body stays.
handle_privmsg_action_lem_example :
    ((body : Str) × (foo_action ≡ action_prefix ++ (body ++ 1 ∷ []))
      × (handle_privmsg_action foo_action ≡ (emote, body)))
    ⊎ (((body : Str) → foo_action ≢ action_prefix ++ (body ++ 1 ∷ []))
        × (handle_privmsg_action foo_action ≡ (plain_text, foo_action)))
handle_privmsg_action_lem_example = handle_privmsg_action_lem foo_action

emote_keeps_space : handle_privmsg_action foo_action ≡ (emote, codes " foo")
unfolding handle_privmsg_action Option.bind strip_prefix strip_suffix
emote_keeps_space = refl
