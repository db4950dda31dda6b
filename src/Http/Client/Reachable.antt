-- ===== src/Http/Client/Reachable.antt =====
-- Every request is answered once, in the order in which they were sent.
use matrix_ircd.Prelude.{ℕ, ◌≡◌, refl, subst, Bool, true, ◌||◌, List, arith}
use matrix_ircd.Prelude.{returns}
use matrix_ircd.Text.{Str}
use matrix_ircd.Http.Parser.{Httparse}
use matrix_ircd.Http.Client.{
  Request, Shared, new_shared, send_request, HttpClientHandler, ConnectEvent, ConnectionState,
  connected, connecting, poll_reconnecting,
}
use matrix_ircd.Http.Client.Oneshots.{send_request-InOrder, Serves, InOrder, Serves-InOrder}
use matrix_ircd.Http.Client.Fifo.{pending_of, ReconnectServes, poll_reconnecting-ReconnectServes}

or_true : (b : Bool) → (b || true) ≡ true
or_true b = ground arith

module _ (H : Httparse) where
  -- The client's states: a task that connects, requests that are sent, and polls of the task.
  pub data Reachable (host : Str) : ConnectionState → Shared → Type 0 where
    spawned : Reachable host connecting new_shared
    requested :
        {state : ConnectionState} {s : Shared} (r : Request)
        → Reachable host state s
        → Reachable host state (send_request r s).1
    polled :
        {state state' : ConnectionState} {s s' : Shared} (events : List ConnectEvent)
        {rest : List ConnectEvent}
        → Reachable host state s
        → poll_reconnecting H host events state s ≡ returns (state', s', rest)
        → Reachable host state' s'

  abbrev pub IsListening : ConnectionState → Shared → Type 0
  IsListening (connected h) s = s.inner.task ≡ true
  IsListening connecting s = Unit

  polled-Serves :
      (pending : List ℕ) (s : Shared) (state' : ConnectionState) (s' : Shared)
      (rest : List ConnectEvent)
      → ReconnectServes H pending s (returns (state', s', rest))
      → Serves pending s (pending_of H state') s' × IsListening state' s'
  unfolding pending_of
  polled-Serves pending s (connected h) s' rest served = served
  polled-Serves pending s connecting s' rest served = (served, tt)

  requested-IsListening :
      (state : ConnectionState) (r : Request) (s : Shared)
      → IsListening state s
      → IsListening state (send_request r s).1
  unfolding send_request
  requested-IsListening (connected h) r s listening = listening
  requested-IsListening connecting r s listening = tt

  -- In every state that is reached by sending requests and polling the client's task, the oneshots
  -- answered so far, those of the requests sent on the connection and those of the requests in the
  -- queue, in this order, are all oneshots given out, in the order of their numbers: each is
  -- answered at most once, and in turn. If there is a connection, the task is registered.
  pub Reachable-InOrder :
      {host : Str} {state : ConnectionState} {s : Shared}
      → Reachable host state s
      → InOrder (pending_of H state) s × IsListening state s
  unfolding pending_of
  Reachable-InOrder spawned = (refl, tt)
  Reachable-InOrder (requested {state = state} {s = s} r h) =
      let (order, listening) = Reachable-InOrder h in
      (
        send_request-InOrder r (pending_of H state) s order,
        requested-IsListening state r s listening,
      )
  Reachable-InOrder {host}
        (polled {state = c} {state' = c'} {s = s} {s' = s'} es {rest = rest} h e) =
      let (order, _) = Reachable-InOrder h in
      let (served, listening) = polled-Serves (pending_of H c) s c' s' rest (
        subst (ReconnectServes H (pending_of H c) s) e
          (poll_reconnecting-ReconnectServes H host es c s)) in
      (Serves-InOrder (pending_of H c) (pending_of H c') s s' served order, listening)

  -- In every state that is reached with a connection, sending a request notifies the task.
  pub send_request_wakes :
      {host : Str} {h : HttpClientHandler} {s : Shared} (r : Request)
      → Reachable host (connected h) s
      → (send_request r s).1.notified ≡ true
  unfolding send_request
  send_request_wakes {s = s} r reachable =
      let (_, listening) = Reachable-InOrder reachable in rw listening (or_true s.notified)
