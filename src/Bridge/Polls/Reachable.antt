-- ===== src/Bridge/Polls/Reachable.antt =====
-- src/bridge/mod.rs: the states that a bridge reaches.
use matrix_ircd.Prelude.{
  ℕ, zero, suc, ◌≡◌, refl, sym, ap, subst, ◌∙◌, true, false, inl, inr, Option, none, some, List, [],
  ◌∷◌, ◌++◌, if◌then◌else◌, Bool-cases, length,
}
use matrix_ircd.Prelude.{returns, panics, ◌>>=◌}
use matrix_ircd.Text.{Str}
use matrix_ircd.Http.Client.{OneshotPoll}
use matrix_ircd.Http.Parser.{Response}
use matrix_ircd.Irc.Socket.{Poll, ready, not_ready, failed}
use matrix_ircd.Irc.User.{IrcUserConnection, commands_left}
use matrix_ircd.Matrix.Client
use matrix_ircd.Matrix.Client.{MatrixClient, send_text_message, join_room}
use matrix_ircd.Matrix.Protocol.{Json, SyncResponse}
use matrix_ircd.Matrix.Services.{Services}
use matrix_ircd.Bridge.Events.{Bridge}
use matrix_ircd.Bridge.Polls.{
  PollResult, SyncPollResult, irc_loop, poll_irc, after_matrix, matrix_loop, poll_matrix,
}
use matrix_ircd.Irc.Models
use matrix_ircd.Bridge.MappingStore.Channels.{IsMapped, first_sides-IsMapped}
use matrix_ircd.Bridge.Events.{start, finish_join}
use matrix_ircd.Bridge.Events.Mapped.{handle_sync_response-Keeps}
use matrix_ircd.Bridge.Events.Joins.{finish_join-JoinKeeps}
use matrix_ircd.Bridge.Polls.Synced.{PollsSynced, irc_loop-PollsSynced}

module _ {J : Json} (S : Services J) where
  -- Nothing of the client has been handled.
  pub record IsUnheard (b : Bridge S) : Type 0 where
    pub no_sends : b.sends ≡ []
    pub no_joins : b.joins ≡ []
    pub none_joining : b.joining_map ≡ []

  -- Store and IRC side fit each other, and nothing is handled before the first sync.
  pub record IsGood (b : Bridge S) : Type 0 where
    pub mapped : IsMapped (b.mappings, b.irc_conn)
    pub unheard : b.is_first_sync ≡ true → IsUnheard b

  -- Behind the first sync, only the first of these is asked for.
  synced : (b : Bridge S) → IsMapped (b.mappings, b.irc_conn) → b.is_first_sync ≡ false → IsGood b
  synced b h e = record { mapped = h; unheard = λ e'. absurd cc }

  with_client :
      (b : Bridge S) (c : MatrixClient S) → IsGood b → IsGood (record b { matrix_client = c })
  with_client b c h = record {
    mapped = h.mapped;
    unheard = λ e.
        let u = h.unheard e in
        record { no_sends = u.no_sends; no_joins = u.no_joins; none_joining = u.none_joining };
  }

  to_close : (b : Bridge S) → IsGood b → IsGood (record b { closed = true })
  to_close b h = record {
    mapped = h.mapped;
    unheard = λ e.
        let u = h.unheard e in
        record { no_sends = u.no_sends; no_joins = u.no_joins; none_joining = u.none_joining };
  }

  abbrev PollsGood : SyncPollResult S → Type 0
  PollsGood (returns (p, b, rest)) = IsGood b
  PollsGood panics = Unit

  after_matrix-PollsGood :
      (again : Bridge S → List OneshotPoll → SyncPollResult S) (p : Poll (Option (SyncResponse J)))
      (b : Bridge S) (polls : List OneshotPoll)
      → ((b' : Bridge S) (polls' : List OneshotPoll) → IsGood b' → PollsGood (again b' polls'))
      → IsGood b
      → PollsGood (after_matrix S again p b polls)
  unfolding after_matrix
  after_matrix-PollsGood again (failed e) b polls ih h = h
  after_matrix-PollsGood again not_ready b polls ih h = h
  after_matrix-PollsGood again (ready none) b polls ih h = to_close b h
  after_matrix-PollsGood again (ready (some r)) b polls ih h =
      elim (handle_sync_response-Keeps S b r h.mapped) [
        | inl (b', e, k, _, first) ↦ rw e (ih b' polls (synced b' k.mapped first))
        | inr (e, _) ↦ rw e tt
      ]

  bind-PollsGood :
      (m : Client.PollResult S)
      (f : Poll (Option (SyncResponse J)) → MatrixClient S → List OneshotPoll → SyncPollResult S)
      → ((p : Poll (Option (SyncResponse J))) (c : MatrixClient S) (rest : List OneshotPoll)
          → PollsGood (f p c rest))
      → PollsGood (m >>= λ (p, c, rest). f p c rest)
  bind-PollsGood (returns (p, c, rest)) f h = h p c rest
  bind-PollsGood panics f h = tt

  matrix_loop-PollsGood :
      (fuel : ℕ) (b : Bridge S) (polls : List OneshotPoll)
      → IsGood b
      → PollsGood (matrix_loop S fuel b polls)
  unfolding matrix_loop
  matrix_loop-PollsGood zero b polls h = h
  matrix_loop-PollsGood (suc fuel) b polls h =
      bind-PollsGood (Client.poll S polls b.matrix_client)
        (λ p c rest. after_matrix S (matrix_loop S fuel) p (record b { matrix_client = c }) rest)
        (λ p c rest.
          after_matrix-PollsGood (matrix_loop S fuel) p (record b { matrix_client = c }) rest
            (λ b' polls' g. matrix_loop-PollsGood fuel b' polls' g) (with_client b c h))

  -- What a poll for the client leads to.
  abbrev IrcGood : PollResult S → Type 0
  IrcGood (returns (p, b)) = IsGood b
  IrcGood panics = Unit

  synced-IrcGood : (r : PollResult S) → PollsSynced S r → IrcGood r
  synced-IrcGood (returns (p, b)) (h, e) = synced b h e
  synced-IrcGood panics h = tt

  poll_irc-IrcGood : (b : Bridge S) → IsGood b → IrcGood (poll_irc S b)
  unfolding poll_irc
  poll_irc-IrcGood b h = elim (Bool-cases b.is_first_sync) [
    | inl e ↦
        subst IrcGood
          (ap
            (λ t.
              if t
              then returns (not_ready, b)
              else irc_loop S (suc (commands_left b.irc_conn.conn)) b)
            (sym e))
          h
    | inr e ↦
        subst IrcGood
          (ap
            (λ t.
              if t
              then returns (not_ready, b)
              else irc_loop S (suc (commands_left b.irc_conn.conn)) b)
            (sym e))
          (synced-IrcGood _
            (irc_loop-PollsSynced S (suc (commands_left b.irc_conn.conn)) b (h.mapped, e)))
  ]

  -- A bridge starts with both logins done. Its tasks are polled, and those that wait for a join end
  -- with a response.
  pub data Reachable : Bridge S → Type 0 where
    started :
        (irc_conn : IrcUserConnection) (client : MatrixClient S)
        → irc_conn.server_model ≡ Models.new
        → Reachable (start S irc_conn client)
    irc_polled :
        {b b' : Bridge S} {p : Poll (Unit {0})}
        → Reachable b
        → poll_irc S b ≡ returns (p, b')
        → Reachable b'
    matrix_polled :
        {b b' : Bridge S} {p : Poll (Unit {0})} (polls : List OneshotPoll) {rest : List OneshotPoll}
        → Reachable b
        → poll_matrix S polls b ≡ returns (p, b', rest)
        → Reachable b'
    join_ended :
        {b : Bridge S} (before after : List (ℕ × Str)) (future : ℕ) (channel : Str)
        (response : Response)
        → Reachable b
        → b.joins ≡ before ++ (future, channel) ∷ after
        → Reachable (finish_join S (record b { joins = before ++ after }) channel response)

  not_empty : {A : Type 0} (xs ys : List A) (x : A) → ¬ (xs ++ x ∷ ys ≡ [])
  not_empty [] ys x h = cc
  not_empty (y ∷ xs) ys x h = cc

  join_ended-IsGood :
      (b : Bridge S) (before after : List (ℕ × Str)) (future : ℕ) (channel : Str)
      (response : Response)
      → IsGood b
      → b.joins ≡ before ++ (future, channel) ∷ after
      → IsGood (finish_join S (record b { joins = before ++ after }) channel response)
  join_ended-IsGood b before after future channel response h e =
      let (mapped, first) =
        finish_join-JoinKeeps S (record b { joins = before ++ after }) channel response h.mapped in
      record {
        mapped = mapped;
        unheard = λ e'. absurd (
            not_empty before after (future, channel)
              (sym e ∙ (h.unheard (sym first ∙ e')).no_joins));
      }

  -- In every state that a bridge reaches (`Reachable`: from both logins with a new server model, by
  -- polls of `poll_irc` and of `poll_matrix` and by responses to joins that wait), store and IRC
  -- side fit each other (`IsMapped`), and as long as no sync has been handled no message has been
  -- sent, no join waits for a response and none for a sync.
  pub Reachable-IsGood : {b : Bridge S} → Reachable b → IsGood b
  unfolding start poll_matrix
  Reachable-IsGood (started c client e) = record {
    mapped = first_sides-IsMapped c c.nick client.user_id e;
    unheard = λ _. record { no_sends = refl; no_joins = refl; none_joining = refl };
  }
  Reachable-IsGood (irc_polled {b = b} r e) =
      subst IrcGood e (poll_irc-IrcGood b (Reachable-IsGood r))
  Reachable-IsGood (matrix_polled {b = b} polls r e) =
      subst PollsGood e (matrix_loop-PollsGood (suc (length polls)) b polls (Reachable-IsGood r))
  Reachable-IsGood (join_ended {b = b} before after future channel response r e) =
      join_ended-IsGood b before after future channel response (Reachable-IsGood r) e
