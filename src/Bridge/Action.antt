-- ===== src/Bridge/Action.antt =====
-- src/bridge/mod.rs: `handle_privmsg_action`, which tells an emote from a text.
use mathlib.Core.Option
use matrix_ircd.Prelude.{
  ◌≡◌, ◌≢◌, sym, ap, ◌∙◌, ◌⊎◌, inl, inr, Option, none, some, [], ◌∷◌, ◌++◌, arith, Option-cases,
}
use matrix_ircd.Text.{Str, codes, strip_prefix, strip_suffix}
use matrix_ircd.Text.Affixes.{
  strip_prefix-append, strip_prefix-eq-some, strip_suffix-append, strip_suffix-eq-some,
}

-- `\x01ACTION`.
abbrev pub action_prefix : Str
action_prefix = 1 ∷ codes "ACTION"

abbrev pub emote : Str
emote = codes "m.emote"

abbrev pub plain_text : Str
plain_text = codes "m.text"

-- What stands between the prefix and the closing character.
unfoldable pub emote_content : Str → Option Str
emote_content text = Option.bind (strip_prefix action_prefix text) (strip_suffix (1 ∷ []))

message_of : Str → Option Str → Str × Str
message_of text (some value) = (emote, value)
message_of text none = (plain_text, text)

-- The message type and the body.
unfoldable pub handle_privmsg_action : Str → Str × Str
unfolding message_of emote_content
handle_privmsg_action text = message_of text (emote_content text)

emote_content-action : (body : Str) → emote_content (action_prefix ++ (body ++ 1 ∷ [])) ≡ some body
unfolding emote_content Option.bind
emote_content-action body =
    ap (λ o. Option.bind o (strip_suffix (1 ∷ [])))
      (strip_prefix-append action_prefix (body ++ 1 ∷ []))
    ∙ strip_suffix-append (1 ∷ []) body

emote_content-eq-some :
    (text body : Str) → emote_content text ≡ some body → text ≡ action_prefix ++ (body ++ 1 ∷ [])
unfolding emote_content Option.bind
emote_content-eq-some text body h = elim (Option-cases (strip_prefix action_prefix text)) [
  | inl e ↦ absurd (ground arith)
  | inr (rest, e) ↦
      let h' : strip_suffix (1 ∷ []) rest ≡ some body =
        sym (ap (λ o. Option.bind o (strip_suffix (1 ∷ []))) e) ∙ h in
      strip_prefix-eq-some action_prefix text rest e
      ∙ ap (λ (t : Str). action_prefix ++ t) (strip_suffix-eq-some (1 ∷ []) rest body h')
]

not_both : (text body : Str) → emote_content text ≡ none → text ≢ action_prefix ++ (body ++ 1 ∷ [])
not_both text body e h = cc (emote_content-action body, ap emote_content h, e)

-- Either a text is some body between `\x01ACTION` and `\x01` and it is an emote with this body, or
-- it is no such text and it is a plain one, sent as it is.
pub handle_privmsg_action_lem :
    (text : Str)
    → ((body : Str) × (text ≡ action_prefix ++ (body ++ 1 ∷ []))
        × (handle_privmsg_action text ≡ (emote, body)))
      ⊎ (((body : Str) → text ≢ action_prefix ++ (body ++ 1 ∷ []))
          × (handle_privmsg_action text ≡ (plain_text, text)))
unfolding handle_privmsg_action message_of
handle_privmsg_action_lem text = elim (Option-cases (emote_content text)) [
  | inl e ↦ inr ((λ body h. not_both text body e h), ap (message_of text) e)
  | inr (body, e) ↦ inl (body, emote_content-eq-some text body e, ap (message_of text) e)
]
