-- ===== src/Bridge/Events/Written.antt =====
-- src/bridge/mod.rs: the lines that the events of a room become for the IRC client.
use matrix_ircd.Prelude.{
  ◌≡◌, refl, ◌⊎◌, ◌∙◌, ap, sym, inl, inr, Option, none, some, List, [], ◌∷◌, ◌++◌, map, Bool-cases,
}
use matrix_ircd.Prelude.{Outcome, returns, panics}
use matrix_ircd.Text.{Str, codes, same, split}
use matrix_ircd.BTreeMap.{BTreeMap}
use matrix_ircd.Bridge.MappingStore.{get_nick_from_matrix}
use matrix_ircd.Irc.User.{IrcUserConnection, message_line, action_line}
use matrix_ircd.Irc.User.Writes.{write_all, write_all-append, message_written, action_written}
use matrix_ircd.Matrix.Client.{media_url}
use matrix_ircd.Matrix.Protocol.{Json, Event}
use matrix_ircd.Matrix.Services.{Services}
use matrix_ircd.Bridge.Events.Lines.{outcome_cases}
use matrix_ircd.Bridge.Events.{
  Bridge, is_media, send_media, send_event, event_line, string_at, handle_event, handle_events,
}

-- Whatever the connection and the joins that wait, the same lines are written, or it panics.
abbrev WritesSame : (IrcUserConnection → BTreeMap Str → Outcome IrcUserConnection) → Type 0
WritesSame f =
    ((lines : List Str) × ((c : IrcUserConnection) (joining : BTreeMap Str)
        → f c joining ≡ returns (write_all c lines)))
    ⊎ ((c : IrcUserConnection) (joining : BTreeMap Str) → f c joining ≡ panics)

module _ {J : Json} (S : Services J) where
  -- The bridge with this connection and these joins that wait.
  abbrev pub with_conn : Bridge S → IrcUserConnection → BTreeMap Str → Bridge S
  with_conn b c joining = record b { irc_conn = c; joining_map = joining }

  module _ (b : Bridge S) (channel : Str) where
    send_media-WritesSame :
        (nick : Str) (url : Option Str)
        → WritesSame (λ c joining. send_media S (with_conn b c joining) channel nick url)
    unfolding send_media write_all
    send_media-WritesSame nick none = inl ([], λ c joining. refl)
    send_media-WritesSame nick (some url) =
        elim (outcome_cases S (media_url S b.matrix_client url)) [
          | inl (link, e) ↦ inl (
            map (message_line channel nick) (split b'\n' link),
            λ c joining. rw e (ap returns (message_written channel nick link c)),
          )
          | inr e ↦ inr (λ c joining. rw e refl)
        ]

    send_event-WritesSame :
        (nick : Str) (ev : Event J) (body msgtype : Str)
        → WritesSame
            (λ c joining. send_event S (with_conn b c joining) channel nick ev body msgtype)
    unfolding send_event
    send_event-WritesSame nick ev body msgtype = elim (Bool-cases (same msgtype (codes "m.text"))) [
      | inl e ↦ inl (
        map (message_line channel nick) (split b'\n' body),
        λ c joining. rw e (ap returns (message_written channel nick body c)),
      )
      | inr e ↦ elim (Bool-cases (same msgtype (codes "m.emote"))) [
        | inl e' ↦ inl (
          map (action_line channel nick) (split b'\n' body),
          λ c joining. rw (e, e') (ap returns (action_written channel nick body c)),
        )
        | inr e' ↦ elim (Bool-cases (is_media S msgtype)) [
          | inl e'' ↦ elim (send_media-WritesSame nick (string_at S ev (codes "url"))) [
            | inl (lines, w) ↦ inl (lines, λ c joining. rw (e, e', e'') (w c joining))
            | inr p ↦ inr (λ c joining. rw (e, e', e'') (p c joining))
          ]
          | inr e'' ↦ inl (
            map (message_line channel nick) (split b'\n' body),
            λ c joining. rw (e, e', e'') (ap returns (message_written channel nick body c)),
          )
        ]
      ]
    ]

    event_line-WritesSame :
        (ev : Event J) (nick body msgtype : Option Str)
        → WritesSame
            (λ c joining. event_line S (with_conn b c joining) channel ev nick body msgtype)
    unfolding event_line write_all
    event_line-WritesSame ev (some nick) (some body) (some msgtype) =
        send_event-WritesSame nick ev body msgtype
    event_line-WritesSame ev (some nick) (some body) none = inl ([], λ c joining. refl)
    event_line-WritesSame ev (some nick) none msgtype = inl ([], λ c joining. refl)
    event_line-WritesSame ev none body msgtype = inl ([], λ c joining. refl)

  -- The same of a step of the bridge.
  abbrev pub EventsWrite : Bridge S → (Bridge S → Outcome (Bridge S)) → Type 0
  EventsWrite b f =
      ((lines : List Str) × ((c : IrcUserConnection) (joining : BTreeMap Str)
          → f (with_conn b c joining) ≡ returns (with_conn b (write_all c lines) joining)))
      ⊎ ((c : IrcUserConnection) (joining : BTreeMap Str) → f (with_conn b c joining) ≡ panics)

  handle_event-EventsWrite :
      (b : Bridge S) (channel : Str) (ev : Event J)
      → EventsWrite b (λ x. handle_event S x channel ev)
  unfolding handle_event write_all
  handle_event-EventsWrite b channel ev =
      elim (Bool-cases (same ev.etype (codes "m.room.message"))) [
        | inl e ↦
            elim (event_line-WritesSame b channel ev (get_nick_from_matrix b.mappings ev.sender)
              (string_at S ev (codes "body")) (string_at S ev (codes "msgtype"))) [
                | inl (lines, w) ↦ inl (lines, λ c joining. rw (e, w c joining) refl)
                | inr p ↦ inr (λ c joining. rw (e, p c joining) refl)
              ]
        | inr e ↦ inl ([], λ c joining. rw e refl)
      ]

  pub handle_events-EventsWrite :
      (events : List (Event J)) (b : Bridge S) (channel : Str)
      → EventsWrite b (λ x. handle_events S x channel events)
  unfolding handle_events
  handle_events-EventsWrite [] b channel = inl ([], λ c joining. unfold write_all in refl)
  handle_events-EventsWrite (ev ∷ events) b channel = elim (handle_event-EventsWrite b channel ev) [
    | inr p ↦ inr (λ c joining. rw (p c joining) refl)
    | inl (xs, w) ↦ elim (handle_events-EventsWrite events b channel) [
      | inr p ↦ inr (λ c joining. rw (w c joining) (p (write_all c xs) joining))
      | inl (ys, v) ↦ inl (
        xs ++ ys,
        λ c joining. rw (w c joining) (
            v (write_all c xs) joining
            ∙ ap (λ x. returns (with_conn b x joining)) (sym (write_all-append xs ys c))),
      )
    ]
  ]
