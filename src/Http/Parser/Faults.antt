-- ===== src/Http/Parser/Faults.antt =====
-- Where the parser does not do what it is meant to: bodies without a length, and sizes of chunks
-- near the bound of `usize`.
use matrix_ircd.Prelude.{
  ℕ, zero, suc, ◌+◌, ◌%◌, ◌<◌, ◌≤◌, ◌≡◌, refl, sym, ap, ◌∙◌, false, ◌↔◌, inl, inr, none, some, List,
  [], ◌∷◌, ◌++◌, map, append-nil, append_assoc, arith, leb, ltb, Bool-cases, length,
}
use matrix_ircd.Prelude.{returns, panics}
use matrix_ircd.Prelude.{◌^◌}
use matrix_ircd.Text.Utf8.{Bytes}
use matrix_ircd.Irc.Socket.{ready, ReadEvent, arrives, read_measure}
use matrix_ircd.Http.Parser.{
  Response, Httparse, Parsed, complete, partial, malformed, ChunkSize, sized, unfinished, invalid,
  HttpStreamState, headers, raw_data, chunked_data, HttpParser, Turn, default_response, raw_turn,
  turn_in, turn, read_turn, after_turn, response_loop, poll_for_response, chunk_of, chunk_turn,
  head_turn, head_read, headers_turn, at_eof,
}
use matrix_ircd.Http.Parser.Ahead.{Laws, within, within-true}

-- Deliveries of at least one byte each.
abbrev pub deliveries : List (ℕ × Bytes) → List ReadEvent
deliveries pieces = map (λ piece. arrives (piece.0 ∷ piece.1)) pieces

abbrev pub joined : List (ℕ × Bytes) → Bytes
joined [] = []
joined ((b, bs) ∷ pieces) = b ∷ bs ++ joined pieces

-- The end of a chunk of `k` bytes behind `n` is beyond `usize`, and wraps to one within the buffer.
abbrev pub Overflows : ℕ → ℕ → ℕ → Type 0
Overflows n k len = (2 ^ 64 ≤ n + k + 2) × (n + k + 2 ≤ 2 ^ 64 + len)

no_panic : {t : Turn} → ¬ (returns t ≡ panics)
no_panic h = cc

within-else : (n e len : ℕ) → within n e len ≡ false → n ≤ e → e ≤ len → ⊥
within-else n e len h n_le e_le = ground arith

chunked_only :
    (s : HttpStreamState) {A : Type 0} → ¬ (s ≡ chunked_data) → ¬ ((s ≡ chunked_data) × A)
chunked_only s h (e, a) = h e

module _ (H : Httparse) where
  -- A parser in the body of a response that has no length.
  abbrev pub in_unsized_body : Bytes → Response → HttpParser
  in_unsized_body buffer r = record {
    response_buffer = buffer;
    curr_state = raw_data none;
    partial_response = r;
  }

  unsized_loop :
      (pieces : List (ℕ × Bytes)) (fuel : ℕ) (buffer : Bytes) (r : Response) (rs : List ReadEvent)
      → length pieces < fuel
      → response_loop H fuel (in_unsized_body buffer r) (deliveries pieces ++ arrives [] ∷ rs)
        ≡ returns (
          ready r,
          record {
            response_buffer = buffer ++ joined pieces;
            curr_state = headers;
            partial_response = default_response;
          },
          rs,
        )
  unfolding response_loop turn turn_in raw_turn after_turn read_turn at_eof
  unsized_loop pieces zero buffer r rs lt = absurd (omega arith)
  unsized_loop [] (suc fuel) buffer r rs lt = rw append-nil refl
  unsized_loop ((b, bs) ∷ pieces) (suc fuel) buffer r rs lt =
      unsized_loop pieces fuel (buffer ++ b ∷ bs) r rs (omega arith) ∙ rw (append_assoc) refl

  pieces_measure :
      (pieces : List (ℕ × Bytes)) (rs : List ReadEvent)
      → length pieces ≤ read_measure (deliveries pieces ++ rs)
  unfolding read_measure
  pieces_measure [] rs = omega arith
  pieces_measure ((b, bs) ∷ pieces) rs = omega (arith, pieces_measure pieces rs)

  -- In the body of a response that has no length, whatever bytes arrive before the end of the
  -- stream, the response then returned is the one of before these bytes, and they stay in the
  -- buffer, before which the next response is expected.
  pub unsized_body_stays :
      (pieces : List (ℕ × Bytes)) (buffer : Bytes) (r : Response) (rs : List ReadEvent)
      → poll_for_response H (in_unsized_body buffer r) (deliveries pieces ++ arrives [] ∷ rs)
        ≡ returns (
          ready r,
          record {
            response_buffer = buffer ++ joined pieces;
            curr_state = headers;
            partial_response = default_response;
          },
          rs,
        )
  unfolding poll_for_response
  unsized_body_stays pieces buffer r rs =
      let rounds = length buffer + read_measure (deliveries pieces ++ arrives [] ∷ rs) in
      unsized_loop pieces (suc rounds) buffer r rs
        (omega (arith, pieces_measure pieces (arrives [] ∷ rs)))

  chunk_of-panics :
      (p : HttpParser) (n k : ℕ)
      → n ≤ length p.response_buffer
      → k < 2 ^ 64
      → length p.response_buffer < 2 ^ 63
      → (chunk_of H p n k ≡ panics) ↔ Overflows n k (length p.response_buffer)
  unfolding chunk_of
  chunk_of-panics p n k n_le k_lt fits =
      elim (Bool-cases (leb ((n + k + 2) % 2 ^ 64) (length p.response_buffer))) [
        | inl a ↦
            let le : (n + k + 2) % 2 ^ 64 ≤ length p.response_buffer = ground arith in
            elim (Bool-cases (within n ((n + k) % 2 ^ 64) (length p.response_buffer))) [
              | inl b ↦
                  let (n_end, end_len) =
                    within-true n ((n + k) % 2 ^ 64) (length p.response_buffer) b in
                  rw (a, b) (λ h. absurd (no_panic h), λ (h, h'). absurd (omega arith))
              | inr b ↦
                  rw (a, b)
                    (
                      λ _. elim (Bool-cases (ltb (n + k + 2) (2 ^ 64))) [
                        | inl c ↦
                            let small : n + k + 2 < 2 ^ 64 = ground arith in
                            absurd (
                              within-else n ((n + k) % 2 ^ 64) (length p.response_buffer) b
                                (omega arith) (omega arith))
                        | inr c ↦ let big : 2 ^ 64 ≤ n + k + 2 = ground arith in (big, omega arith)
                      ],
                      λ _. refl,
                    )
            ]
        | inr a ↦
            let lt : length p.response_buffer < (n + k + 2) % 2 ^ 64 = ground arith in
            rw a (λ h. absurd (no_panic h), λ (h, h'). absurd (omega arith))
      ]

module _ (H : Httparse) (laws : Laws H) (p : HttpParser)
    (fits : length p.response_buffer < 2 ^ 63) where
  abbrev pub HugeChunk : HttpStreamState → Type 0
  HugeChunk s =
      (s ≡ chunked_data)
      × ((n : ℕ) × (k : ℕ) × (H.parse_chunk_size p.response_buffer ≡ sized n (suc k))
          × Overflows n (suc k) (length p.response_buffer))

  chunk_turn-panics :
      (size : ChunkSize)
      → H.parse_chunk_size p.response_buffer ≡ size
      → (chunk_turn H p size ≡ panics) ↔ HugeChunk chunked_data
  unfolding chunk_turn
  chunk_turn-panics (sized n zero) e = (
    λ h. absurd (no_panic h),
    λ (_, (m, k, e', _)). absurd (let q : sized n 0 ≡ sized m (suc k) = sym e ∙ e' in cc),
  )
  chunk_turn-panics (sized n (suc k)) e =
      let (_, n_le, k_lt) = laws.sized_bytes p.response_buffer n (suc k) e in
      let (to, back) = chunk_of-panics H p n (suc k) n_le k_lt fits in
      (
        λ h. (refl, (n, k, e, to h)),
        λ (_, (m, l, e', o)).
            let q : sized n (suc k) ≡ sized m (suc l) = sym e ∙ e' in
            let same_n : n ≡ m = cc in let same_k : k ≡ l = cc in back (omega arith, omega arith),
      )
  chunk_turn-panics unfinished e = (
    λ h. absurd (no_panic h),
    λ (_, (m, k, e', _)). absurd (let q : unfinished ≡ sized m (suc k) = sym e ∙ e' in cc),
  )
  chunk_turn-panics invalid e = (
    λ h. absurd (no_panic h),
    λ (_, (m, k, e', _)). absurd (let q : invalid ≡ sized m (suc k) = sym e ∙ e' in cc),
  )

  head_turn-panics :
      (parsed : Parsed) → H.parse p.response_buffer ≡ parsed → ¬ (head_turn H p parsed ≡ panics)
  unfolding head_turn head_read
  head_turn-panics (complete n (some c) hs) e h = no_panic h
  head_turn-panics (complete n none hs) e h = laws.complete_code p.response_buffer n hs e
  head_turn-panics partial e h = no_panic h
  head_turn-panics malformed e h = no_panic h

  headers_turn-panics : (buf : Bytes) → p.response_buffer ≡ buf → ¬ (headers_turn H p buf ≡ panics)
  unfolding headers_turn
  headers_turn-panics [] q h = no_panic h
  headers_turn-panics (b ∷ bs) q h = head_turn-panics (H.parse (b ∷ bs)) (ap H.parse q) h

  turn_in-panics : (s : HttpStreamState) → (turn_in H p s ≡ panics) ↔ HugeChunk s
  unfolding turn_in
  turn_in-panics headers =
      (λ h. absurd (headers_turn-panics p.response_buffer refl h), λ (e, _). absurd (cc))
  turn_in-panics (raw_data len_opt) = (λ h. absurd (no_panic h), λ (e, _). absurd (cc))
  turn_in-panics chunked_data = chunk_turn-panics (H.parse_chunk_size p.response_buffer) refl

  -- If httparse keeps its laws and the buffer fits into memory, a round of the parser panics just
  -- when it is in a body of chunks and the end of the next chunk, which is not the last one, is
  -- beyond `usize` and wraps to a place in the buffer.
  pub turn-panics : (turn H p ≡ panics) ↔ HugeChunk p.curr_state
  unfolding turn
  turn-panics = turn_in-panics p.curr_state
