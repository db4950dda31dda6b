-- ===== src/Http/Client/Runs.antt =====
-- src/http.rs: the loop of `poll_inner` as a run, response by response.
use matrix_ircd.Prelude.{
  ℕ, zero, suc, ◌+◌, ◌<◌, ◌≡◌, refl, ap, ◌∙◌, List, [], ◌∷◌, ◌++◌, arith, length, length-append,
}
use matrix_ircd.Prelude.{Outcome, returns, panics, ◌>>=◌}
use matrix_ircd.Irc.Socket.{IoError, invalid_data, ReadEvent, Poll, ready, not_ready, failed}
use matrix_ircd.Http.Parser.{Response, HttpParser, Httparse, poll_for_response}
use matrix_ircd.Http.Client.{
  Request, Shared, answered, HttpClientHandler, take_requests, flush_requests, PollResult, hand_out,
  after_response, after_write, begin, poll_inner_loop, poll_inner,
}
use matrix_ircd.Http.Client.Oneshots.{
  queued, requests-take_requests, requests-flush_requests, length-queued,
}
use matrix_ircd.Text.{codes}

-- The requests of a handler behind the start of a round.
length_begun :
    (h : HttpClientHandler) (s : Shared)
    → length (flush_requests (take_requests s.inner.requests h)).1.requests
      ≡ length h.requests + length s.inner.requests
length_begun h s =
    ap (λ (x : List ℕ). length x)
      (requests-flush_requests (take_requests s.inner.requests h)
        ∙ requests-take_requests s.inner.requests h)
    ∙ length-append h.requests (queued s.inner.requests)
    ∙ ap (◌+◌ (length h.requests)) (length-queued s.inner.requests)

-- A write that did not fail.
pub data IsWritten : Poll (Unit {0}) → Type 0 where
  is_done : (u : Unit {0}) → IsWritten (ready u)
  is_late : IsWritten not_ready

-- The error of a response that nobody asked for.
abbrev pub unasked : IoError
unasked = record { kind = invalid_data; message = codes "Response without request" }

-- The start of a round: the new requests are taken, and what is to be written is.
abbrev pub starts : HttpClientHandler → Shared → Poll (Unit {0}) × HttpClientHandler
starts h s = flush_requests (take_requests s.inner.requests h)

-- The handler behind the poll of its reader.
abbrev pub has_read : HttpClientHandler → HttpParser → List ReadEvent → HttpClientHandler
has_read h reader reads = record h {
  client_reader = reader;
  stream = record h.stream { reads = reads };
}

module _ (H : Httparse) where
  -- Each response that the reader gives goes to the request that waits longest, and the next round
  -- starts, up to an end: the write fails, the reader waits, fails or panics, or a response comes
  -- that nobody asked for.
  pub data Runs : HttpClientHandler → Shared → PollResult → Type 0 where
    write_fails :
        {h h' : HttpClientHandler} {s : Shared} {e : IoError}
        → starts h s ≡ (failed e, h')
        → Runs h s (returns (failed e, h', begin s))
    waits :
        {h h' : HttpClientHandler} {s : Shared} {w : Poll (Unit {0})} {reader : HttpParser}
        {reads : List ReadEvent}
        → starts h s ≡ (w, h')
        → IsWritten w
        → poll_for_response H h'.client_reader h'.stream.reads ≡ returns (not_ready, reader, reads)
        → Runs h s (returns (not_ready, has_read h' reader reads, begin s))
    read_fails :
        {h h' : HttpClientHandler} {s : Shared} {w : Poll (Unit {0})} {reader : HttpParser}
        {reads : List ReadEvent} {e : IoError}
        → starts h s ≡ (w, h')
        → IsWritten w
        → poll_for_response H h'.client_reader h'.stream.reads ≡ returns (failed e, reader, reads)
        → Runs h s (returns (failed e, has_read h' reader reads, begin s))
    read_panics :
        {h h' : HttpClientHandler} {s : Shared} {w : Poll (Unit {0})}
        → starts h s ≡ (w, h')
        → IsWritten w
        → poll_for_response H h'.client_reader h'.stream.reads ≡ panics
        → Runs h s panics
    nobody_asked :
        {h h' : HttpClientHandler} {s : Shared} {w : Poll (Unit {0})} {reader : HttpParser}
        {reads : List ReadEvent} {resp : Response}
        → starts h s ≡ (w, h')
        → IsWritten w
        → poll_for_response H h'.client_reader h'.stream.reads ≡ returns (ready resp, reader, reads)
        → h'.requests ≡ []
        → Runs h s (returns (failed unasked, has_read h' reader reads, begin s))
    answers :
        {h h' : HttpClientHandler} {s : Shared} {w : Poll (Unit {0})} {reader : HttpParser}
        {reads : List ReadEvent} {resp : Response} {future : ℕ} {rest : List ℕ} {res : PollResult}
        → starts h s ≡ (w, h')
        → IsWritten w
        → poll_for_response H h'.client_reader h'.stream.reads ≡ returns (ready resp, reader, reads)
        → h'.requests ≡ future ∷ rest
        → Runs
            (record (has_read h' reader reads) { requests = rest })
            (record (begin s) { replies = s.replies ++ (future, answered resp) ∷ [] })
            res
        → Runs h s res

  module _ (again : HttpClientHandler → Shared → PollResult) (h h' : HttpClientHandler) (s : Shared)
      (w : Poll (Unit {0})) (started : starts h s ≡ (w, h')) (written : IsWritten w)
      (ih : (x : HttpClientHandler) (y : Shared)
        → length x.requests < length h'.requests
        → y.inner.requests ≡ []
        → Runs x y (again x y)) where
    hand_out-Runs :
        (resp : Response) (reader : HttpParser) (reads : List ReadEvent) (pending : List ℕ)
        → poll_for_response H h'.client_reader h'.stream.reads ≡ returns (ready resp, reader, reads)
        → h'.requests ≡ pending
        → Runs h s (hand_out again resp pending (has_read h' reader reads) (begin s))
    unfolding hand_out begin
    hand_out-Runs resp reader reads [] q e = nobody_asked started written q e
    hand_out-Runs resp reader reads (future ∷ rest) q e =
        answers started written q e (ih _ _ (omega (arith, ap (λ (x : List ℕ). length x) e)) refl)

    read-Runs :
        (m : Outcome (Poll Response × HttpParser × List ReadEvent))
        → poll_for_response H h'.client_reader h'.stream.reads ≡ m
        → Runs h s (
            m >>= λ (p, reader, reads). after_response again p (has_read h' reader reads) (begin s))
    unfolding after_response
    read-Runs (returns (ready resp, reader, reads)) q =
        hand_out-Runs resp reader reads h'.requests q refl
    read-Runs (returns (not_ready, reader, reads)) q = waits started written q
    read-Runs (returns (failed e, reader, reads)) q = read_fails started written q
    read-Runs panics q = read_panics started written q

  after_write-Runs :
      (again : HttpClientHandler → Shared → PollResult) (h h' : HttpClientHandler) (s : Shared)
      (w : Poll (Unit {0}))
      → starts h s ≡ (w, h')
      → ((x : HttpClientHandler) (y : Shared)
          → length x.requests < length h'.requests
          → y.inner.requests ≡ []
          → Runs x y (again x y))
      → Runs h s (after_write H again w h' (begin s))
  unfolding after_write
  after_write-Runs again h h' s (failed e) q ih = write_fails q
  after_write-Runs again h h' s not_ready q ih =
      read-Runs again h h' s not_ready q is_late ih _ refl
  after_write-Runs again h h' s (ready u) q ih =
      read-Runs again h h' s (ready u) q (is_done u) ih _ refl

  loop-Runs :
      (n : ℕ) (h : HttpClientHandler) (s : Shared)
      → length h.requests + length s.inner.requests < n
      → Runs h s (poll_inner_loop H n h s)
  unfolding poll_inner_loop
  loop-Runs zero h s lt = absurd (omega arith)
  loop-Runs (suc n) h s lt =
      let len = length_begun h s in
      after_write-Runs (poll_inner_loop H n) h (starts h s).1 s (starts h s).0 refl
        (λ x y less e. loop-Runs n x y (omega (arith, ap (λ (l : List (Request × ℕ)). length l) e)))

  -- `poll_inner` goes through the responses (`Runs`). In each round the requests that are new are
  -- taken and written, and the reader is polled; a response is sent to the request that has waited
  -- longest, and the next round starts. It is over where the write fails, where the reader waits,
  -- fails or panics, or with an error at a response that nobody asked for.
  pub poll_inner-Runs : (h : HttpClientHandler) (s : Shared) → Runs h s (poll_inner H h s)
  unfolding poll_inner
  poll_inner-Runs h s =
      loop-Runs (suc (length h.requests + length s.inner.requests)) h s (omega arith)
