-- ===== src/Http/Client/Fifo.antt =====
-- A poll of the client's task serves the oneshots that wait, in their order.
use matrix_ircd.Prelude.{
  ℕ, zero, suc, ◌≡◌, refl, sym, ap, subst, ◌∙◌, true, List, [], ◌∷◌, ◌++◌, append-nil,
}
use matrix_ircd.Prelude.{returns, panics, ◌>>=◌}
use matrix_ircd.Text.{Str}
use matrix_ircd.Irc.Socket.{IoError, Poll, ready, not_ready, failed}
use matrix_ircd.Http.Parser.{Httparse}
use matrix_ircd.Http.Client.{
  Shared, HttpClientHandler, new_handler, take_requests, flush_requests, PollResult, after_write,
  begin, poll_inner_loop, poll_inner, give_up, after_poll, poll_handler, ConnectEvent, connects,
  connect_blocks, connect_fails, ConnectionState, connected, connecting, ReconnectResult,
  unless_over, reconnect, poll_reconnecting,
}
use matrix_ircd.Http.Client.Oneshots.{
  queued, Serves, Serves-refl, Serves-trans, PollServes, PollServes-trans, PollServes-bind,
  after_response-PollServes, requests-take_requests, requests-flush_requests, replied-give_up,
}

module _ (H : Httparse) where
  after_write-PollServes :
      (again : HttpClientHandler → Shared → PollResult) (p : Poll (Unit {0}))
      (h : HttpClientHandler) (s : Shared)
      → s.inner.task ≡ true
      → ((h' : HttpClientHandler) (s' : Shared)
          → s'.inner.task ≡ true
          → PollServes h'.requests s' (again h' s'))
      → PollServes h.requests s (after_write H again p h s)
  unfolding after_write
  after_write-PollServes again (failed e) h s task ih = (Serves-refl h.requests s, task, tt)
  after_write-PollServes again not_ready h s task ih =
      PollServes-bind h.requests s _ _
        (λ (p, reader, reads). after_response-PollServes again p _ s task ih)
  after_write-PollServes again (ready _) h s task ih =
      PollServes-bind h.requests s _ _
        (λ (p, reader, reads). after_response-PollServes again p _ s task ih)

  -- The start of a round moves the new requests behind those of the handler.
  begin-Serves :
      (h : HttpClientHandler) (s : Shared)
      → Serves h.requests s (flush_requests (take_requests s.inner.requests h)).1.requests (begin s)
  unfolding begin
  begin-Serves h s = (
    [],
    sym (append-nil s.replies),
    append-nil _
        ∙ requests-flush_requests (take_requests s.inner.requests h)
        ∙ requests-take_requests s.inner.requests h,
    refl,
    refl,
  )

  round-PollServes :
      (fuel : ℕ) (h : HttpClientHandler) (s : Shared)
      → ((h' : HttpClientHandler) (s' : Shared)
          → s'.inner.task ≡ true
          → PollServes h'.requests s' (poll_inner_loop H fuel h' s'))
      → PollServes h.requests s (poll_inner_loop H (suc fuel) h s)
  unfolding poll_inner_loop begin
  round-PollServes fuel h s ih =
      let (written, h') = flush_requests (take_requests s.inner.requests h) in
      PollServes-trans h.requests h'.requests s (begin s) _ (begin-Serves h s)
        (after_write-PollServes (poll_inner_loop H fuel) written h' (begin s) refl ih)

  poll_inner_loop-PollServes :
      (fuel : ℕ) (h : HttpClientHandler) (s : Shared)
      → s.inner.task ≡ true
      → PollServes h.requests s (poll_inner_loop H fuel h s)
  unfolding poll_inner_loop
  poll_inner_loop-PollServes zero h s task = (Serves-refl h.requests s, task, tt)
  poll_inner_loop-PollServes (suc fuel) h s task =
      round-PollServes fuel h s (poll_inner_loop-PollServes fuel)

  poll_inner-PollServes :
      (h : HttpClientHandler) (s : Shared) → PollServes h.requests s (poll_inner H h s)
  unfolding poll_inner
  poll_inner-PollServes h s = round-PollServes _ h s (poll_inner_loop-PollServes _)

  -- The same for a poll that answers everything when it fails.
  abbrev pub HandlerServes : List ℕ → Shared → PollResult → Type 0
  HandlerServes pending s (returns (failed e, h, s')) =
      PollServes pending s (returns (failed e, h, s')) × (h.requests ≡ [])
  HandlerServes pending s (returns (ready t, h, s')) =
      PollServes pending s (returns (ready t, h, s'))
  HandlerServes pending s (returns (not_ready, h, s')) =
      PollServes pending s (returns (not_ready, h, s'))
  HandlerServes pending s panics = Unit

  give_up-Serves :
      (e : IoError) (pending : List ℕ) (s : Shared)
      → Serves pending s [] (record s { replies = s.replies ++ give_up e pending })
  give_up-Serves e pending s = (
    give_up e pending,
    refl,
    ap (λ x. x ++ queued s.inner.requests) (replied-give_up e pending),
    refl,
    refl,
  )

  after_poll-HandlerServes :
      (pending : List ℕ) (s : Shared) (res : PollResult)
      → PollServes pending s res
      → HandlerServes pending s (res >>= λ (p, h', s'). after_poll p h' s')
  unfolding after_poll
  after_poll-HandlerServes pending s (returns (failed e, h, s')) (served, task, _) = (
    (
      Serves-trans pending h.requests [] s s'
          (record s' { replies = s'.replies ++ give_up e h.requests }) served
          (give_up-Serves e h.requests s'),
      task,
      tt,
    ),
    refl,
  )
  after_poll-HandlerServes pending s (returns (ready t, h, s')) served = served
  after_poll-HandlerServes pending s (returns (not_ready, h, s')) served = served
  after_poll-HandlerServes pending s panics served = tt

  poll_handler-HandlerServes :
      (h : HttpClientHandler) (s : Shared) → HandlerServes h.requests s (poll_handler H h s)
  unfolding poll_handler
  poll_handler-HandlerServes h s =
      after_poll-HandlerServes h.requests s (poll_inner H h s) (poll_inner-PollServes h s)

  unfoldable pub pending_of : ConnectionState → List ℕ
  pending_of (connected h) = h.requests
  pending_of connecting = []

  -- What the task's poll does for the oneshots, and that a connection that it leaves has registered
  -- the task.
  abbrev pub ReconnectServes : List ℕ → Shared → ReconnectResult → Type 0
  ReconnectServes pending s (returns (connected h, s', _)) =
      Serves pending s h.requests s' × (s'.inner.task ≡ true)
  ReconnectServes pending s (returns (connecting, s', _)) = Serves pending s [] s'
  ReconnectServes pending s panics = Unit

  ReconnectServes-trans :
      (a b : List ℕ) (s t : Shared) (res : ReconnectResult)
      → Serves a s b t
      → ReconnectServes b t res
      → ReconnectServes a s res
  ReconnectServes-trans a b s t (returns (connected h, u, es)) k (l, task) =
      (Serves-trans a b h.requests s t u k l, task)
  ReconnectServes-trans a b s t (returns (connecting, u, es)) k l = Serves-trans a b [] s t u k l
  ReconnectServes-trans a b s t panics k l = tt

  -- A handler never ends with `Ready`.
  after_handler :
      (again : Shared → ReconnectResult) (events : List ConnectEvent) (pending : List ℕ)
      (s : Shared) (res : PollResult)
      → ((s' : Shared) → ReconnectServes [] s' (again s'))
      → HandlerServes pending s res
      → ReconnectServes pending s (res >>= λ (p, h, s'). unless_over again events p h s')
  unfolding unless_over
  after_handler again events pending s (returns (not_ready, h, s')) ih (served, task, _) =
      (served, task)
  after_handler again events pending s (returns (failed e, h, s')) ih ((served, _, _), e') =
      ReconnectServes-trans pending [] s s' (again s')
        (subst (λ x. Serves pending s x s') e' served) (ih s')
  after_handler again events pending s (returns (ready t, h, s')) ih (served, task, never) =
      absurd never
  after_handler again events pending s panics ih served = tt

  reconnect-ReconnectServes :
      (host : Str) (events : List ConnectEvent) (s : Shared)
      → ReconnectServes [] s (reconnect H host events s)
  unfolding reconnect new_handler
  reconnect-ReconnectServes host [] s = Serves-refl [] s
  reconnect-ReconnectServes host (connect_blocks ∷ events) s = Serves-refl [] s
  reconnect-ReconnectServes host (connect_fails e ∷ events) s =
      reconnect-ReconnectServes host events s
  reconnect-ReconnectServes host (connects stream ∷ events) s =
      after_handler (reconnect H host events) events [] s
        (poll_handler H (new_handler host stream) s) (reconnect-ReconnectServes host events)
        (poll_handler-HandlerServes (new_handler host stream) s)

  pub poll_reconnecting-ReconnectServes :
      (host : Str) (events : List ConnectEvent) (state : ConnectionState) (s : Shared)
      → ReconnectServes (pending_of state) s (poll_reconnecting H host events state s)
  unfolding poll_reconnecting pending_of
  poll_reconnecting-ReconnectServes host events connecting s =
      reconnect-ReconnectServes host events s
  poll_reconnecting-ReconnectServes host events (connected h) s =
      after_handler (reconnect H host events) events h.requests s (poll_handler H h s)
        (reconnect-ReconnectServes host events) (poll_handler-HandlerServes h s)
