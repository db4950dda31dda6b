-- ===== src/Tests/Http.antt =====
-- The theorems on src/http.rs at concrete responses and requests.
use matrix_ircd.Prelude.{
  ℕ, zero, suc, ◌-◌, ◌%◌, ◌<◌, ◌≤◌, ◌≡◌, refl, true, ◌↔◌, Option, none, some, List, [], ◌∷◌, ◌++◌,
  arith, length,
}
use matrix_ircd.Prelude.{returns, panics}
use matrix_ircd.Prelude.{◌^◌}
use mathlib.Core.Option
use matrix_ircd.Text.Decimal.{parse_below, decimal}
use matrix_ircd.Http.Client
use matrix_ircd.Text.{Str, codes, same, starts_with}
use matrix_ircd.Text.Utf8.{as_bytes, Bytes, from_utf8}
use matrix_ircd.Irc.Socket.{
  ReadEvent, read_measure, arrives, read_blocks, ready, arriving, room_for,
}
use matrix_ircd.Http.Parser
use matrix_ircd.Http.Parser.{
  Response, Parsed, complete, partial, malformed, ChunkSize, sized, unfinished, invalid, Httparse,
  HttpParser, HttpStreamState, headers, raw_data, chunked_data, default_response, poll_for_response,
  turn,
}
use matrix_ircd.Http.Parser.Ahead.{Laws}
use matrix_ircd.Http.Parser.Whole.{Agrees, poll_for_response-Agrees}
use matrix_ircd.Http.Parser.Faults.{
  deliveries, joined, in_unsized_body, unsized_body_stays, HugeChunk, turn-panics,
}
use matrix_ircd.Http.Client.{
  Request, Shared, new_shared, Stream, HttpClientHandler, new_handler, send_request, poll_inner,
  poll_inner_loop, ConnectEvent, connects, ConnectionState, connected, connecting, ReconnectResult,
  poll_reconnecting,
}
use matrix_ircd.Http.Client.Oneshots.{InOrder}
use matrix_ircd.Http.Client.Fifo.{pending_of}
use matrix_ircd.Http.Client.Runs.{Runs, poll_inner-Runs}
use matrix_ircd.Http.Client.Reachable.{
  Reachable, spawned, requested, polled, IsListening, Reachable-InOrder, send_request_wakes,
}

-- A format in place of HTTP: a byte is the head, and a byte the size of a chunk.
abbrev the_code : ℕ → ℕ
the_code n = n

tiny_parse : Bytes → Parsed
tiny_parse [] = partial
tiny_parse (zero ∷ _) = complete 1 (some 200) []
tiny_parse (suc zero ∷ _) = complete 1 (some 200) ((codes "content-length", codes "2") ∷ [])
tiny_parse (suc (suc zero) ∷ _) =
    complete 1 (some 200) ((codes "transfer-encoding", codes "chunked") ∷ [])
tiny_parse (suc (suc (suc n)) ∷ _) = malformed

tiny_size : Bytes → ChunkSize
tiny_size [] = unfinished
tiny_size (n ∷ _) = sized 1 (n % 2 ^ 64)

abbrev tiny : Httparse
tiny = record { parse = tiny_parse; parse_chunk_size = tiny_size; to_lowercase = λ s. s }

tiny-Laws : Laws tiny
unfolding tiny_parse tiny_size
tiny-Laws = record {
  complete_stays = stays;
  complete_bytes = bytes;
  complete_code = code;
  malformed_stays = bad;
  sized_stays = size_stays;
  sized_bytes = size_bytes;
  invalid_stays = bad_size;
}
  where
    stays :
        (b : Bytes) (n : ℕ) (c : Option ℕ) (hs : List (Str × Bytes))
        → tiny_parse b ≡ complete n c hs
        → (more : Bytes) → tiny_parse (b ++ more) ≡ complete n c hs
    stays [] n c hs e more = cc
    stays (zero ∷ b) n c hs e more = e
    stays (suc zero ∷ b) n c hs e more = e
    stays (suc (suc zero) ∷ b) n c hs e more = e
    stays (suc (suc (suc k)) ∷ b) n c hs e more = e

    bytes :
        (b : Bytes) (n : ℕ) (c : Option ℕ) (hs : List (Str × Bytes))
        → tiny_parse b ≡ complete n c hs
        → (0 < n) × (n ≤ length b)
    bytes [] n c hs e = cc
    bytes (zero ∷ b) n c hs e = let q : 1 ≡ n = cc in (omega arith, omega arith)
    bytes (suc zero ∷ b) n c hs e = let q : 1 ≡ n = cc in (omega arith, omega arith)
    bytes (suc (suc zero) ∷ b) n c hs e = let q : 1 ≡ n = cc in (omega arith, omega arith)
    bytes (suc (suc (suc k)) ∷ b) n c hs e = cc

    code : (b : Bytes) (n : ℕ) (hs : List (Str × Bytes)) → ¬ (tiny_parse b ≡ complete n none hs)
    code [] n hs e = cc
    code (zero ∷ b) n hs e = let q : some (the_code 200) ≡ none = cc in cc
    code (suc zero ∷ b) n hs e = let q : some (the_code 200) ≡ none = cc in cc
    code (suc (suc zero) ∷ b) n hs e = let q : some (the_code 200) ≡ none = cc in cc
    code (suc (suc (suc k)) ∷ b) n hs e = cc

    bad : (b more : Bytes) → tiny_parse b ≡ malformed → tiny_parse (b ++ more) ≡ malformed
    bad [] more e = cc
    bad (zero ∷ b) more e = e
    bad (suc zero ∷ b) more e = e
    bad (suc (suc zero) ∷ b) more e = e
    bad (suc (suc (suc k)) ∷ b) more e = e

    size_stays :
        (b : Bytes) (n k : ℕ)
        → tiny_size b ≡ sized n k
        → (more : Bytes) → tiny_size (b ++ more) ≡ sized n k
    size_stays [] n k e more = cc
    size_stays (x ∷ b) n k e more = e

    size_bytes :
        (b : Bytes) (n k : ℕ) → tiny_size b ≡ sized n k → (0 < n) × (n ≤ length b) × (k < 2 ^ 64)
    size_bytes [] n k e = cc
    size_bytes (x ∷ b) n k e =
        let q : 1 ≡ n = cc in let r : x % 2 ^ 64 ≡ k = cc in (omega arith, omega arith, omega arith)

    bad_size : (b more : Bytes) → tiny_size b ≡ invalid → tiny_size (b ++ more) ≡ invalid
    bad_size [] more e = cc
    bad_size (x ∷ b) more e = e

-- A response in chunks that comes in pieces, and the start of the next.
abbrev pieces : List ReadEvent
pieces =
    arrives (2 ∷ 1 ∷ [])
    ∷ arrives (72 ∷ 13 ∷ 10 ∷ 0 ∷ [])
    ∷ arrives (13 ∷ 10 ∷ 1 ∷ [])
    ∷ read_blocks
    ∷ []

pieces_response :
    poll_for_response tiny Parser.new pieces
    ≡ returns (
      ready (record { code = 200; content_type = none; body = 72 ∷ [] }),
      record {
        response_buffer = 1 ∷ [];
        curr_state = headers;
        partial_response = default_response;
      },
      read_blocks ∷ [],
    )
unfolding poll_for_response Parser.new read_measure tiny_parse same from_utf8 starts_with tiny_size
pieces_response = refl

poll_for_response-Agrees_example :
    Agrees tiny Parser.new pieces (poll_for_response tiny Parser.new pieces)
unfolding arriving Parser.new
poll_for_response-Agrees_example =
    poll_for_response-Agrees tiny tiny-Laws Parser.new pieces (omega arith) tt

abbrev in_huge_chunk : HttpParser
in_huge_chunk = record {
  response_buffer = (2 ^ 64 - 2) ∷ 7 ∷ [];
  curr_state = chunked_data;
  partial_response = default_response;
}

turn-panics_example :
    (turn tiny in_huge_chunk ≡ panics)
    ↔ HugeChunk tiny tiny-Laws in_huge_chunk (omega arith) chunked_data
turn-panics_example = turn-panics tiny tiny-Laws in_huge_chunk (omega arith)

unsized_body_stays_example :
    poll_for_response tiny
      (in_unsized_body tiny [] default_response)
      (deliveries ((72, []) ∷ []) ++ arrives [] ∷ [])
    ≡ returns (
      ready default_response,
      record {
        response_buffer = joined ((72, []) ∷ []);
        curr_state = headers;
        partial_response = default_response;
      },
      [],
    )
unsized_body_stays_example = unsized_body_stays tiny ((72, []) ∷ []) [] default_response []

abbrev request : Request
request = record { method = codes "GET"; path = codes "/"; headers = []; body = [] }

abbrev result_of : ReconnectResult → ConnectionState × Shared × List ConnectEvent
result_of (returns r) = r
result_of panics = (connecting, new_shared, [])

-- Two requests, and a connection that answers the first of them.
abbrev asked : Shared
asked = (send_request request (send_request request new_shared).1).1

abbrev answering : List ConnectEvent
answering =
    connects
      (record { reads = arrives (1 ∷ 79 ∷ 75 ∷ []) ∷ []; writes = room_for 1000 ∷ []; taken = [] })
    ∷ []

abbrev behind : ConnectionState × Shared × List ConnectEvent
behind = result_of (poll_reconnecting tiny (codes "hs") answering connecting asked)

answering_run :
    poll_reconnecting tiny (codes "hs") answering connecting asked
    ≡ returns (behind.0, behind.1, behind.2)
unfolding poll_reconnecting Client.poll_handler poll_inner Client.flush_requests
    Client.take_requests send_request new_handler as_bytes poll_for_response Parser.new read_measure
    tiny_parse same Option.bind from_utf8 parse_below decimal
answering_run = refl

answered_once : Reachable tiny (codes "hs") behind.0 behind.1
answered_once = polled answering (requested request (requested request spawned)) answering_run

Reachable-InOrder_example :
    InOrder (pending_of tiny behind.0) behind.1 × IsListening tiny behind.0 behind.1
Reachable-InOrder_example = Reachable-InOrder tiny answered_once

send_request_wakes_example : (send_request request behind.1).1.notified ≡ true
unfolding poll_reconnecting Client.poll_handler poll_inner Client.flush_requests
    Client.take_requests send_request new_handler as_bytes poll_for_response Parser.new read_measure
    tiny_parse same Option.bind from_utf8 parse_below decimal
send_request_wakes_example = send_request_wakes tiny request answered_once

-- A handler whose one response has come, and a request that waits for it.
abbrev answered_soon : HttpClientHandler
answered_soon =
    record (new_handler (codes "hs")
      (record { reads = arrives (1 ∷ 7 ∷ 8 ∷ []) ∷ []; writes = []; taken = [] })) {
        requests = 0 ∷ [];
      }

poll_inner-Runs_example :
    Runs tiny answered_soon new_shared (poll_inner tiny answered_soon new_shared)
poll_inner-Runs_example = poll_inner-Runs tiny answered_soon new_shared
