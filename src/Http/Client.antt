-- ===== src/Http/Client.antt =====
-- src/http.rs: the client. A oneshot is a number, given out in order; what is sent on one goes to
-- the end of `replies`. The requests of `HttpClientInner` and the replies are shared by the parts,
-- so they are passed along; the lock is never held across an operation and is left out.
pub mod Oneshots
pub mod Fifo
pub mod Runs
pub mod Reachable
use matrix_ircd.Prelude.{
  ℕ, zero, suc, ◌+◌, ◌-◌, ◌*◌, ◌/◌, ◌%◌, ◌<◌, ◌≤◌, ◌≡◌, refl, sym, ap, ap₂, subst, ◌∙◌, ◌≡⟨◌⟩◌, ◌∎,
  Bool, true, false, ◌&&◌, ◌||◌, not, ◌≢◌, ◌↔◌, ◌⊎◌, inl, inr, Option, none, some, List, [], ◌∷◌,
  ◌++◌, map, append-nil, append_assoc, arith, leb, ltb, ◌==◌, if◌then◌else◌, Bool-cases,
  Option-cases, length, length-append, get_elem?, take, drop, String, ==_iff,
}
use matrix_ircd.Prelude.{Outcome, returns, panics, ◌>>=◌, >>=-eq-returns}
use matrix_ircd.Prelude.{◌^◌}
use matrix_ircd.Text.{Str, codes}
use matrix_ircd.Text.Decimal.{decimal}
use matrix_ircd.Text.Utf8.{Bytes, as_bytes}
use matrix_ircd.Irc.Socket.{
  IoError, invalid_data, would_block, other, Poll, ready, not_ready, failed, ReadEvent, WriteEvent,
  room_for, write_blocks, write_fails,
}
use matrix_ircd.Http.Parser
use matrix_ircd.Http.Parser.{Response, Httparse, HttpParser, poll_for_response}

pub record Request : Type 0 where
  pub method : Str
  pub path : Str
  pub headers : List (Str × Str)
  pub body : Bytes

-- `Result<Response, io::Error>`.
pub data Reply : Type 0 where
  answered : Response → Reply
  gave_up : IoError → Reply

-- `task` says that a task is registered.
pub record HttpClientInner : Type 0 where
  pub requests : List (Request × ℕ)
  pub task : Bool

abbrev pub new_inner : HttpClientInner
new_inner = record { requests = []; task = false }

-- What the parts share: the requests, the oneshots given out and what was sent on them, and whether
-- the task has been notified.
pub record Shared : Type 0 where
  pub inner : HttpClientInner
  pub oneshots : ℕ
  pub replies : List (ℕ × Reply)
  pub notified : Bool

abbrev pub new_shared : Shared
new_shared = record {
  inner = record { requests = []; task = false };
  oneshots = 0;
  replies = [];
  notified = false;
}

unfoldable pub send_request : Request → Shared → ℕ × Shared
send_request request s = (
  s.oneshots,
  record s {
    inner = record s.inner { requests = s.inner.requests ++ (request, s.oneshots) ∷ [] };
    oneshots = suc s.oneshots;
    notified = s.notified || s.inner.task;
  },
)

-- The poll of a oneshot: what was sent, nothing yet, or its sender is gone.
pub data OneshotPoll : Type 0 where
  sent : Reply → OneshotPoll
  unsent canceled : OneshotPoll

-- `HttpResponseFuture::poll`.
unfoldable pub poll_response : OneshotPoll → Poll Response
poll_response (sent (answered response)) = ready response
poll_response (sent (gave_up e)) = failed e
poll_response unsent = not_ready
poll_response canceled = failed (record { kind = other; message = codes "stream went away" })

-- The stream, as what its calls are going to give and the bytes that it has taken.
pub record Stream : Type 0 where
  pub reads : List ReadEvent
  pub writes : List WriteEvent
  pub taken : Bytes

pub record HttpClientHandler : Type 0 where
  pub write_buffer : Bytes
  pub requests : List ℕ
  pub stream : Stream
  pub host : Str
  pub client_reader : HttpParser

unfoldable pub new_handler : Str → Stream → HttpClientHandler
new_handler host stream = record {
  write_buffer = [];
  requests = [];
  stream = stream;
  host = host;
  client_reader = Parser.new;
}

-- The message of an error is that of the error inside, or empty if there is none.
unfoldable pub clone_io_error : IoError → IoError
clone_io_error err = record { kind = err.kind; message = err.message }

header_lines : List (Str × Str) → Str
header_lines [] = []
header_lines ((name, value) ∷ headers) =
    name ++ codes ": " ++ value ++ codes "\r\n" ++ header_lines headers

unfoldable pub head_of : Str → Request → Str
unfolding header_lines
head_of host r =
    r.method
    ++ codes " "
    ++ r.path
    ++ codes " HTTP/1.1\r\n"
    ++ codes "Host: "
    ++ host
    ++ codes "\r\n"
    ++ codes "Connection: keep-alive\r\n"
    ++ codes "Content-Length: "
    ++ decimal (length r.body)
    ++ codes "\r\n"
    ++ header_lines r.headers
    ++ codes "\r\n"

unfoldable pub write_request : Request → HttpClientHandler → HttpClientHandler
unfolding head_of
write_request r h = record h {
  write_buffer = h.write_buffer ++ as_bytes (head_of h.host r) ++ r.body;
}

-- The loop over the new requests.
unfoldable pub take_requests : List (Request × ℕ) → HttpClientHandler → HttpClientHandler
unfolding write_request
take_requests [] h = h
take_requests ((req, future) ∷ new_requests) h =
    let h' = write_request req h in
    take_requests new_requests (record h' { requests = h'.requests ++ future ∷ [] })

-- `write_to`, one write of the buffer. A write that would block is an error too.
abbrev blocked : IoError
blocked = record { kind = would_block; message = [] }

unfoldable pub write_to : HttpClientHandler → List WriteEvent → Poll (Unit {0}) × HttpClientHandler
write_to h [] = (failed blocked, h)
write_to h (write_blocks ∷ ws) =
    (failed blocked, record h { stream = record h.stream { writes = ws } })
write_to h (write_fails e ∷ ws) = (failed e, record h { stream = record h.stream { writes = ws } })
write_to h (room_for n ∷ ws) = (
  ready tt,
  record h {
    write_buffer = drop n h.write_buffer;
    stream = record h.stream { writes = ws; taken = h.stream.taken ++ take n h.write_buffer };
  },
)

-- The write, if there is something to write.
unfoldable pub flush_requests : HttpClientHandler → Poll (Unit {0}) × HttpClientHandler
unfolding write_to
flush_requests h = elim h.write_buffer [ [] ↦ (ready tt, h) | _ ∷ _ ↦ write_to h h.stream.writes ]

abbrev pub PollResult : Type 0
PollResult = Outcome (Poll (Unit {0}) × HttpClientHandler × Shared)

abbrev no_request : IoError
no_request = record { kind = invalid_data; message = codes "Response without request" }

-- A response goes to the request that waits longest.
unfoldable pub hand_out :
    (HttpClientHandler → Shared → PollResult)
    → Response
    → List ℕ
    → HttpClientHandler
    → Shared
    → PollResult
hand_out again resp [] h s = returns (failed no_request, h, s)
hand_out again resp (future ∷ rest) h s =
    again (record h { requests = rest })
      (record s { replies = s.replies ++ (future, answered resp) ∷ [] })

-- What follows the poll of the reader.
pub after_response :
    (HttpClientHandler → Shared → PollResult)
    → Poll Response
    → HttpClientHandler
    → Shared
    → PollResult
unfolding hand_out
after_response again (ready resp) h s = hand_out again resp h.requests h s
after_response again not_ready h s = returns (not_ready, h, s)
after_response again (failed e) h s = returns (failed e, h, s)

-- The start of a round: the task is registered and the new requests are taken.
unfoldable pub begin : Shared → Shared
begin s = record s { inner = record { requests = []; task = true } }

-- The error is sent to every request that waits.
unfoldable pub give_up : IoError → List ℕ → List (ℕ × Reply)
give_up e [] = []
give_up e (future ∷ futures) = (future, gave_up (clone_io_error e)) ∷ give_up e futures

pub after_poll : Poll (Unit {0}) → HttpClientHandler → Shared → PollResult
unfolding give_up
after_poll (failed e) h s =
    returns (
      failed e,
      record h { requests = [] },
      record s { replies = s.replies ++ give_up e h.requests },
    )
after_poll p h s = returns (p, h, s)

-- What the poll of the future that connects gives.
pub data ConnectEvent : Type 0 where
  connects : Stream → ConnectEvent
  connect_blocks : ConnectEvent
  connect_fails : IoError → ConnectEvent

pub data ConnectionState : Type 0 where
  connected : HttpClientHandler → ConnectionState
  connecting : ConnectionState

abbrev pub ReconnectResult : Type 0
ReconnectResult = Outcome (ConnectionState × Shared × List ConnectEvent)

-- What follows the poll of the handler: if it is over, `reconnect` goes on with a new connection.
pub unless_over :
    (Shared → ReconnectResult)
    → List ConnectEvent
    → Poll (Unit {0})
    → HttpClientHandler
    → Shared
    → ReconnectResult
unless_over reconnect events not_ready h s = returns (connected h, s, events)
unless_over reconnect events (ready _) h s = reconnect s
unless_over reconnect events (failed e) h s = reconnect s

module _ (H : Httparse) where
  -- What follows the write.
  after_write :
      (HttpClientHandler → Shared → PollResult)
      → Poll (Unit {0})
      → HttpClientHandler
      → Shared
      → PollResult
  unfolding after_response
  after_write again (failed e) h s = returns (failed e, h, s)
  after_write again _ h s =
      poll_for_response H h.client_reader h.stream.reads >>= λ (p, reader, reads).
      after_response again p
        (record h { client_reader = reader; stream = record h.stream { reads = reads } }) s

  pub poll_inner_loop : ℕ → HttpClientHandler → Shared → PollResult
  unfolding after_write begin
  poll_inner_loop zero h s = returns (not_ready, h, s)
  poll_inner_loop (suc fuel) h s =
      let (written, h') = flush_requests (take_requests s.inner.requests h) in
      after_write (poll_inner_loop fuel) written h' (begin s)

  -- Each round but the last uses up a request.
  unfoldable pub poll_inner : HttpClientHandler → Shared → PollResult
  unfolding poll_inner_loop
  poll_inner h s = poll_inner_loop (suc (length h.requests + length s.inner.requests)) h s

  -- `HttpClientHandler::poll`.
  unfoldable pub poll_handler : HttpClientHandler → Shared → PollResult
  unfolding after_poll
  poll_handler h s = poll_inner h s >>= λ (p, h', s'). after_poll p h' s'

  -- The loop from a connection that is being made.
  reconnect : Str → List ConnectEvent → Shared → ReconnectResult
  unfolding unless_over
  reconnect host [] s = returns (connecting, s, [])
  reconnect host (connect_blocks ∷ events) s = returns (connecting, s, events)
  reconnect host (connect_fails e ∷ events) s = reconnect host events s
  reconnect host (connects stream ∷ events) s =
      poll_handler (new_handler host stream) s >>= λ (p, h, s').
      unless_over (reconnect host events) events p h s'

  -- `ReconnectingStream::poll`, which is never over.
  unfoldable pub poll_reconnecting :
      Str → List ConnectEvent → ConnectionState → Shared → ReconnectResult
  unfolding reconnect
  poll_reconnecting host events connecting s = reconnect host events s
  poll_reconnecting host events (connected handler) s =
      poll_handler handler s >>= λ (p, h, s'). unless_over (reconnect host events) events p h s'
