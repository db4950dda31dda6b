-- ===== src/Bridge/Events/Lines.antt =====
-- src/bridge/mod.rs: the events of a room, as lines for the IRC client.
use matrix_ircd.Prelude.{
  ◌≡◌, refl, ◌∙◌, true, ◌⊎◌, inl, inr, Option, none, some, List, [], ◌∷◌, Bool-cases,
}
use matrix_ircd.Prelude.{Outcome, returns, panics}
use matrix_ircd.Text.{Str, codes, same, same_iff}
use matrix_ircd.Bridge.MappingStore.{MappingStore, get_nick_from_matrix}
use matrix_ircd.Bridge.MappingStore.Channels.{IsMapped}
use matrix_ircd.Irc.Models
use matrix_ircd.Irc.User.{IrcUserConnection, send_message, nick_exists, channel_exists}
use matrix_ircd.Irc.User.Writes.{send_message-server_model, send_action-server_model}
use matrix_ircd.Matrix.Client.{MatrixClient, media_url}
use matrix_ircd.Matrix.Protocol.{Json, Event}
use matrix_ircd.Matrix.Services.{Services}
use matrix_ircd.Bridge.Events.{
  Bridge, is_media, send_media, send_event, event_line, string_at, handle_event, handle_events,
}

unfoldable pub SameModel : IrcUserConnection → IrcUserConnection → Type 0
SameModel c c' = c'.server_model ≡ c.server_model

-- Only the model of the IRC side matters.
pub IsMapped-SameModel :
    (store : MappingStore) (c c' : IrcUserConnection)
    → SameModel c c'
    → IsMapped (store, c)
    → IsMapped (store, c')
unfolding SameModel nick_exists channel_exists Models.nick_exists Models.channel_exists
IsMapped-SameModel store c c' e h = record {
  nicks = record {
    inverse = h.nicks.inverse;
    known = λ nick user_id k. rw e (h.nicks.known nick user_id k);
    consistent = rw e h.nicks.consistent;
  };
  rooms = h.rooms;
  known = λ channel room_id k. rw e (h.known channel room_id k);
}

module _ {J : Json} (S : Services J) where
  -- A message for which the client cannot make the link to its media, since `media_url` panics.
  pub record IsLinkless (c : MatrixClient S) (ev : Event J) : Type 0 where
    pub url : Str
    pub msgtype : Str
    pub is_message : ev.etype ≡ codes "m.room.message"
    pub has_msgtype : string_at S ev (codes "msgtype") ≡ some msgtype
    pub of_media : is_media S msgtype ≡ true
    pub has_url : string_at S ev (codes "url") ≡ some url
    pub fails : media_url S c url ≡ panics

  -- Some event is one.
  abbrev pub HasLinkless : MatrixClient S → List (Event J) → Type 0
  HasLinkless c [] = ⊥
  HasLinkless c (ev ∷ events) = IsLinkless c ev ⊎ HasLinkless c events

  -- It returns a connection with the same model, or panics for this reason.
  abbrev Writes : IrcUserConnection → Outcome IrcUserConnection → Type 0 → Type 0
  Writes c m Reason =
      ((c' : IrcUserConnection) × (m ≡ returns c') × SameModel c c') ⊎ ((m ≡ panics) × Reason)

  pub outcome_cases : {A : Type 0} (m : Outcome A) → ((a : A) × (m ≡ returns a)) ⊎ (m ≡ panics)
  outcome_cases (returns a) = inl (a, refl)
  outcome_cases panics = inr refl

  module _ (b : Bridge S) (channel : Str) where
    send_media-Writes :
        (nick : Str) (o : Option Str)
        → Writes b.irc_conn
            (send_media S b channel nick o)
            ((url : Str) × (o ≡ some url) × (media_url S b.matrix_client url ≡ panics))
    unfolding send_media SameModel
    send_media-Writes nick none = inl (_, refl, refl)
    send_media-Writes nick (some url) = elim (outcome_cases (media_url S b.matrix_client url)) [
      | inl (link, e) ↦ inl (
        send_message b.irc_conn channel nick link,
        rw e refl,
        send_message-server_model b.irc_conn channel nick link,
      )
      | inr e ↦ inr (rw e refl, (url, refl, e))
    ]

    abbrev LinkFails : Event J → Str → Type 0
    LinkFails ev msgtype =
        (is_media S msgtype ≡ true)
        × ((url : Str) × (string_at S ev (codes "url") ≡ some url)
            × (media_url S b.matrix_client url ≡ panics))

    send_event-Writes :
        (nick : Str) (ev : Event J) (body msgtype : Str)
        → Writes b.irc_conn (send_event S b channel nick ev body msgtype) (LinkFails ev msgtype)
    unfolding send_event SameModel
    send_event-Writes nick ev body msgtype = elim (Bool-cases (same msgtype (codes "m.text"))) [
      | inl e ↦ inl (rw e (_, refl, send_message-server_model b.irc_conn channel nick body))
      | inr e ↦ elim (Bool-cases (same msgtype (codes "m.emote"))) [
        | inl e' ↦ inl (rw (e, e') (_, refl, send_action-server_model b.irc_conn channel nick body))
        | inr e' ↦ elim (Bool-cases (is_media S msgtype)) [
          | inl e'' ↦ elim (send_media-Writes nick (string_at S ev (codes "url"))) [
            | inl w ↦ inl (rw (e, e', e'') w)
            | inr (q, why) ↦ inr (rw (e, e', e'') q, (e'', why))
          ]
          | inr e'' ↦
              inl
                (rw (e, e', e'') (_, refl, send_message-server_model b.irc_conn channel nick body))
        ]
      ]
    ]

    event_line-Writes :
        (ev : Event J) (nick body msgtype : Option Str)
        → Writes b.irc_conn
            (event_line S b channel ev nick body msgtype)
            ((t : Str) × (msgtype ≡ some t) × LinkFails ev t)
    unfolding event_line SameModel
    event_line-Writes ev (some nick) (some body) (some msgtype) =
        elim (send_event-Writes nick ev body msgtype) [
          | inl w ↦ inl w
          | inr (q, why) ↦ inr (q, (msgtype, refl, why))
        ]
    event_line-Writes ev (some nick) (some body) none = inl (_, refl, refl)
    event_line-Writes ev (some nick) none msgtype = inl (_, refl, refl)
    event_line-Writes ev none body msgtype = inl (_, refl, refl)

    -- An event changes nothing but the connection, or panics for want of a link.
    handle_event-Writes :
        (ev : Event J)
        → ((c' : IrcUserConnection) × (handle_event S b channel ev
              ≡ returns (record b { irc_conn = c' }))
            × SameModel b.irc_conn c')
          ⊎ ((handle_event S b channel ev ≡ panics) × IsLinkless b.matrix_client ev)
    unfolding handle_event SameModel
    handle_event-Writes ev = elim (Bool-cases (same ev.etype (codes "m.room.message"))) [
      | inl e ↦
          elim (event_line-Writes ev (get_nick_from_matrix b.mappings ev.sender)
            (string_at S ev (codes "body")) (string_at S ev (codes "msgtype"))) [
              | inl (c', q, k) ↦ inl (c', rw (e, q) refl, k)
              | inr (q, (msgtype, has_type, (media, (url, has_url, fails)))) ↦ inr (
                rw (e, q) refl,
                record {
                  url = url;
                  msgtype = msgtype;
                  is_message = (same_iff ev.etype (codes "m.room.message")).0 e;
                  has_msgtype = has_type;
                  of_media = media;
                  has_url = has_url;
                  fails = fails;
                },
              )
            ]
      | inr e ↦ inl (b.irc_conn, rw e refl, refl)
    ]

  pub handle_events-Writes :
      (events : List (Event J)) (b : Bridge S) (channel : Str)
      → ((c' : IrcUserConnection) × (handle_events S b channel events
            ≡ returns (record b { irc_conn = c' }))
          × SameModel b.irc_conn c')
        ⊎ ((handle_events S b channel events ≡ panics) × HasLinkless b.matrix_client events)
  unfolding handle_events SameModel
  handle_events-Writes [] b channel = inl (b.irc_conn, refl, refl)
  handle_events-Writes (ev ∷ events) b channel = elim (handle_event-Writes b channel ev) [
    | inl (c', e, k) ↦ elim (handle_events-Writes events (record b { irc_conn = c' }) channel) [
      | inl (c'', e', k') ↦ inl (c'', rw (e, e') refl, k' ∙ k)
      | inr (e', why) ↦ inr (rw (e, e') refl, inr why)
    ]
    | inr (e, why) ↦ inr (rw e refl, inl why)
  ]
