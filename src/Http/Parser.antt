-- ===== src/Http/Parser.antt =====
-- src/http.rs: `HttpParser`, which reads responses off a stream. What httparse finds in a buffer is a
-- parameter, and so is `str::to_lowercase`, a table of Unicode. `data` of a response is `body` here. A `netbuf::Buf` is its bytes, and
-- `read_from` adds what one call of `read` gives.
pub mod Ahead
pub mod Whole
pub mod Faults
use matrix_ircd.Prelude.{
  ℕ, zero, suc, ◌+◌, ◌-◌, ◌*◌, ◌/◌, ◌%◌, ◌<◌, ◌≤◌, ◌≡◌, refl, sym, ap, ap₂, subst, ◌∙◌, ◌≡⟨◌⟩◌, ◌∎,
  Bool, true, false, ◌&&◌, ◌||◌, not, ◌≢◌, ◌↔◌, ◌⊎◌, inl, inr, Option, none, some, List, [], ◌∷◌,
  ◌++◌, map, append-nil, append_assoc, arith, leb, ltb, ◌==◌, if◌then◌else◌, Bool-cases,
  Option-cases, length, length-append, get_elem?, take, drop, String, ==_iff,
}
use matrix_ircd.Prelude.{◌^◌}
use matrix_ircd.Prelude.{Outcome, returns, panics, ◌>>=◌, >>=-eq-returns}
use mathlib.Core.Option
use matrix_ircd.Text.{Str, codes, same, starts_with}
use matrix_ircd.Text.Decimal.{parse_below}
use matrix_ircd.Text.Utf8.{Bytes, from_utf8}
use matrix_ircd.Irc.Socket.{
  IoError, invalid_data, unexpected_eof, Poll, ready, not_ready, failed, ReadEvent, arrives,
  read_blocks, read_fails, read_measure,
}

pub record Response : Type 0 where
  pub code : ℕ
  pub content_type : Option Str
  pub body : Bytes

-- `Response::default()`.
abbrev pub default_response : Response
default_response = record { code = 0; content_type = none; body = [] }

-- `httparse::Response::parse`: the bytes of the head, the code and the headers.
pub data Parsed : Type 0 where
  complete : ℕ → Option ℕ → List (Str × Bytes) → Parsed
  partial malformed : Parsed

-- `httparse::parse_chunk_size`: the bytes of the line, and the size that it gives.
pub data ChunkSize : Type 0 where
  sized : ℕ → ℕ → ChunkSize
  unfinished invalid : ChunkSize

pub record Httparse : Type 0 where
  pub parse : Bytes → Parsed
  pub parse_chunk_size : Bytes → ChunkSize
  pub to_lowercase : Str → Str

pub data HttpStreamState : Type 0 where
  headers : HttpStreamState
  raw_data : Option ℕ → HttpStreamState
  chunked_data : HttpStreamState

pub record HttpParser : Type 0 where
  pub response_buffer : Bytes
  pub curr_state : HttpStreamState
  pub partial_response : Response

unfoldable pub new : HttpParser
new = record { response_buffer = []; curr_state = headers; partial_response = default_response }

-- What follows a round without a read: a response, an error, the next round, or a read; and what
-- the end of the stream then means, an error or the end of the response.
pub data AtEnd : Type 0 where
  eof_error : IoError → AtEnd
  eof_response : AtEnd

pub data Turn : Type 0 where
  responds : Response → HttpParser → Turn
  fails : IoError → HttpParser → Turn
  goes_on : HttpParser → Turn
  reads_on : AtEnd → HttpParser → Turn

abbrev eof : Str → IoError
eof message = record { kind = unexpected_eof; message = message }

abbrev invalid_error : Str → IoError
invalid_error message = record { kind = invalid_data; message = message }

-- The response that is handed over, and the parser for the next.
abbrev hand_over : HttpParser → Bytes → Turn
hand_over p rest =
    responds p.partial_response
      (record { response_buffer = rest; curr_state = headers; partial_response = default_response })

abbrev usize_bound : ℕ
usize_bound = 2 ^ 64

module _ (H : Httparse) where
  -- The arm of `transfer-encoding`.
  transfer_encoding : HttpStreamState → Option Str → HttpStreamState
  transfer_encoding state none = state
  transfer_encoding state (some s) =
      if starts_with (codes "chunked") (H.to_lowercase s) then chunked_data else state

  -- The arm of `content-length`.
  content_length : HttpStreamState → Option ℕ → HttpStreamState
  content_length state none = state
  content_length state (some len) = raw_data (some len)

  -- One header, by its name in lower case.
  unfoldable pub note_header :
      Str → Bytes → HttpStreamState × Option Str → HttpStreamState × Option Str
  unfolding transfer_encoding content_length
  note_header name value (state, content_type) =
      if same name (codes "content-type")
      then (state, from_utf8 value)
      else if same name (codes "content-length")
      then (
        content_length state (Option.bind (from_utf8 value) (parse_below usize_bound)),
        content_type,
      )
      else if same name (codes "transfer-encoding")
      then (transfer_encoding state (from_utf8 value), content_type)
      else (state, content_type)

  -- The loop over the headers.
  unfoldable pub note_headers :
      List (Str × Bytes) → HttpStreamState × Option Str → HttpStreamState × Option Str
  unfolding note_header
  note_headers [] noted = noted
  note_headers ((name, value) ∷ rest) noted =
      note_headers rest (note_header (H.to_lowercase name) value noted)

  -- A head of a response that is complete; `bytes_read` of the buffer are used up.
  head_read : HttpParser → ℕ → Option ℕ → List (Str × Bytes) → Outcome Turn
  unfolding note_headers
  head_read p bytes_read none hs = panics
  head_read p bytes_read (some code) hs =
      let (state, content_type) = note_headers hs (raw_data none, none) in
      returns (
        goes_on (record {
          response_buffer = drop bytes_read p.response_buffer;
          curr_state = state;
          partial_response = record { code = code; content_type = content_type; body = [] };
        }))

  -- The match on what httparse finds, behind the reset of the response.
  head_turn : HttpParser → Parsed → Outcome Turn
  unfolding head_read
  head_turn p (complete bytes_read code hs) = head_read p bytes_read code hs
  head_turn p partial = returns (
      reads_on (eof_error (eof (codes "Unexpected EOF parsing headers")))
        (record p { partial_response = default_response }))
  head_turn p malformed = returns (
      fails (invalid_error (codes "HTTP parse error"))
        (record p { partial_response = default_response }))

  -- With nothing in the buffer the round begins with a read; the parse behind it is the next round.
  headers_turn : HttpParser → Bytes → Outcome Turn
  unfolding head_turn
  headers_turn p [] =
      returns (reads_on (eof_error (eof (codes "EOF while waiting for new response"))) p)
  headers_turn p (b ∷ bs) = head_turn p (H.parse (b ∷ bs))

  -- A body of a known length, or up to the end of the stream.
  raw_turn : HttpParser → Option ℕ → Turn
  raw_turn p none = reads_on eof_response p
  raw_turn p (some len) =
      if leb len (length p.response_buffer)
      then hand_over
          (record p {
            partial_response = record p.partial_response { body = take len p.response_buffer };
          })
          (drop len p.response_buffer)
      else reads_on (eof_error (eof (codes "Unexpected EOF parsing body"))) p

  abbrev chunk_eof : AtEnd
  chunk_eof = eof_error (eof (codes "Unexpected EOF parsing chunked body"))

  -- A chunk, its size line and the line break behind it, in sums of `usize`. A slice that does not
  -- lie in the buffer is a panic.
  chunk_of : HttpParser → ℕ → ℕ → Outcome Turn
  chunk_of p bytes_read chunk_len =
      let buffer = p.response_buffer in
      let chunk_end = (bytes_read + chunk_len) % usize_bound in
      let line_end = (bytes_read + chunk_len + 2) % usize_bound in
      if leb line_end (length buffer)
      then (if leb bytes_read chunk_end && leb chunk_end (length buffer)
          then returns (
              goes_on (record p {
                partial_response = record p.partial_response {
                  body =
                      p.partial_response.body
                      ++ take (chunk_end - bytes_read) (drop bytes_read buffer);
                };
                response_buffer = drop line_end buffer;
              }))
          else panics)
      else returns (reads_on chunk_eof p)

  -- The last chunk, of no bytes.
  last_chunk : HttpParser → ℕ → Turn
  last_chunk p bytes_read =
      if leb (bytes_read + 2) (length p.response_buffer)
      then hand_over p (drop (bytes_read + 2) p.response_buffer)
      else reads_on chunk_eof p

  chunk_turn : HttpParser → ChunkSize → Outcome Turn
  unfolding last_chunk chunk_of
  chunk_turn p (sized bytes_read zero) = returns (last_chunk p bytes_read)
  chunk_turn p (sized bytes_read (suc n)) = chunk_of p bytes_read (suc n)
  chunk_turn p unfinished = returns (reads_on chunk_eof p)
  chunk_turn p invalid = returns (fails (invalid_error (codes "HTTP invalid chunked body")) p)

  -- A round of the loop up to the read.
  pub turn_in : HttpParser → HttpStreamState → Outcome Turn
  unfolding headers_turn raw_turn chunk_turn
  turn_in p headers = headers_turn p p.response_buffer
  turn_in p (raw_data len_opt) = returns (raw_turn p len_opt)
  turn_in p chunked_data = chunk_turn p (H.parse_chunk_size p.response_buffer)

  unfoldable pub turn : HttpParser → Outcome Turn
  unfolding turn_in
  turn p = turn_in p p.curr_state

  abbrev pub ResponseResult : Type 0
  ResponseResult = Outcome (Poll Response × HttpParser × List ReadEvent)

  -- The end of the stream.
  at_eof : AtEnd → HttpParser → List ReadEvent → ResponseResult
  at_eof (eof_error e) p rs = returns (failed e, p, rs)
  at_eof eof_response p rs = returns (
    ready p.partial_response,
    record p { curr_state = headers; partial_response = default_response },
    rs,
  )

  -- A read, into the buffer; `again` is the next round.
  read_turn :
      (HttpParser → List ReadEvent → ResponseResult)
      → AtEnd
      → HttpParser
      → List ReadEvent
      → ResponseResult
  unfolding at_eof
  read_turn again e p [] = returns (not_ready, p, [])
  read_turn again e p (read_blocks ∷ rs) = returns (not_ready, p, rs)
  read_turn again e p (read_fails x ∷ rs) = returns (failed x, p, rs)
  read_turn again e p (arrives [] ∷ rs) = at_eof e p rs
  read_turn again e p (arrives (b ∷ bs) ∷ rs) =
      again (record p { response_buffer = p.response_buffer ++ b ∷ bs }) rs

  after_turn :
      (HttpParser → List ReadEvent → ResponseResult) → List ReadEvent → Turn → ResponseResult
  unfolding read_turn
  after_turn again rs (responds r p) = returns (ready r, p, rs)
  after_turn again rs (fails e p) = returns (failed e, p, rs)
  after_turn again rs (goes_on p) = again p rs
  after_turn again rs (reads_on e p) = read_turn again e p rs

  -- The loop of `poll_for_response`, for at most `fuel` rounds.
  response_loop : ℕ → HttpParser → List ReadEvent → ResponseResult
  unfolding turn after_turn
  response_loop zero p rs = returns (not_ready, p, rs)
  response_loop (suc fuel) p rs = turn p >>= after_turn (response_loop fuel) rs

  -- Each round reads, or uses up a byte, or is the last.
  unfoldable pub poll_for_response : HttpParser → List ReadEvent → ResponseResult
  unfolding response_loop
  poll_for_response p rs = response_loop (suc (length p.response_buffer + read_measure rs)) p rs
