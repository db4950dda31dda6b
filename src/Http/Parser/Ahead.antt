-- ===== src/Http/Parser/Ahead.antt =====
-- Bytes behind those in the buffer do not change what the parser makes of these.
use matrix_ircd.Prelude.{
  ℕ, zero, suc, ◌+◌, ◌-◌, ◌%◌, ◌<◌, ◌≤◌, ◌≡◌, refl, ap, ◌∙◌, Bool, true, false, ◌&&◌, inl, inr,
  Option, none, some, List, [], ◌∷◌, ◌++◌, arith, leb, Bool-cases, length, length-append, take,
  drop,
}
use matrix_ircd.Prelude.{Outcome, returns, panics}
use matrix_ircd.Prelude.{◌^◌}
use matrix_ircd.Prelude.{length-drop}
use matrix_ircd.Text.{Str}
use matrix_ircd.Text.Utf8.{Bytes}
use matrix_ircd.Http.Parser.{
  Parsed, complete, partial, malformed, ChunkSize, sized, unfinished, invalid, Httparse,
  HttpStreamState, headers, raw_data, chunked_data, HttpParser, Turn, responds, fails, goes_on,
  reads_on, head_read, head_turn, headers_turn, raw_turn, chunk_of, last_chunk, chunk_turn, turn_in,
  turn,
}

-- What httparse documents: what it finds at the start of a buffer it finds however the buffer goes
-- on, it takes at least one byte and none that is not there, a complete head has a code, and the
-- size of a chunk is a `u64`.
pub record Laws (H : Httparse) : Type 0 where
  pub complete_stays :
      (b : Bytes) (n : ℕ) (c : Option ℕ) (hs : List (Str × Bytes))
      → H.parse b ≡ complete n c hs
      → (more : Bytes) → H.parse (b ++ more) ≡ complete n c hs
  pub complete_bytes :
      (b : Bytes) (n : ℕ) (c : Option ℕ) (hs : List (Str × Bytes))
      → H.parse b ≡ complete n c hs
      → (0 < n) × (n ≤ length b)
  pub complete_code :
      (b : Bytes) (n : ℕ) (hs : List (Str × Bytes)) → ¬ (H.parse b ≡ complete n none hs)
  pub malformed_stays : (b more : Bytes) → H.parse b ≡ malformed → H.parse (b ++ more) ≡ malformed
  pub sized_stays :
      (b : Bytes) (n k : ℕ)
      → H.parse_chunk_size b ≡ sized n k
      → (more : Bytes) → H.parse_chunk_size (b ++ more) ≡ sized n k
  pub sized_bytes :
      (b : Bytes) (n k : ℕ)
      → H.parse_chunk_size b ≡ sized n k
      → (0 < n) × (n ≤ length b) × (k < 2 ^ 64)
  pub invalid_stays :
      (b more : Bytes) → H.parse_chunk_size b ≡ invalid → H.parse_chunk_size (b ++ more) ≡ invalid

-- The parser with more bytes behind those in its buffer.
abbrev pub ahead : HttpParser → Bytes → HttpParser
ahead p more = record p { response_buffer = p.response_buffer ++ more }

take-prefix : (n : ℕ) (xs ys : Bytes) → n ≤ length xs → take n (xs ++ ys) ≡ take n xs
take-prefix zero xs ys h = refl
take-prefix (suc n) [] ys h = absurd (omega arith)
take-prefix (suc n) (x ∷ xs) ys h = ap (◌∷◌ x) (take-prefix n xs ys (omega arith))

drop-prefix : (n : ℕ) (xs ys : Bytes) → n ≤ length xs → drop n (xs ++ ys) ≡ drop n xs ++ ys
drop-prefix zero xs ys h = refl
drop-prefix (suc n) [] ys h = absurd (omega arith)
drop-prefix (suc n) (x ∷ xs) ys h = drop-prefix n xs ys (omega arith)

length-drop-lt : (n : ℕ) (xs : Bytes) → 0 < n → n ≤ length xs → length (drop n xs) < length xs
length-drop-lt n xs h k = omega (arith, length-drop n xs)

leb-true : (a b : ℕ) → a ≤ b → leb a b ≡ true
leb-true a b h = ground arith

leb-false : (a b : ℕ) → b < a → leb a b ≡ false
leb-false a b h = ground arith

-- In a buffer that fits into memory, the sums of `usize` differ by the line break.
pub line_break : (x l : ℕ) → l < 2 ^ 63 → x % 2 ^ 64 ≤ l → (x + 2) % 2 ^ 64 ≡ x % 2 ^ 64 + 2
line_break x l h k = omega arith

-- A slice within the buffer.
abbrev pub within : ℕ → ℕ → ℕ → Bool
within n e len = leb n e && leb e len

pub within-true : (n e len : ℕ) → within n e len ≡ true → (n ≤ e) × (e ≤ len)
within-true n e len h = ground arith

within-stays : (n e len more : ℕ) → within n e len ≡ true → within n e (len + more) ≡ true
within-stays n e len more h = ground arith

within-false :
    (n e len more : ℕ)
    → within n e len ≡ false
    → (e ≤ len + more → e ≤ len)
    → within n e (len + more) ≡ false
within-false n e len more h k = elim (Bool-cases (leb e (len + more))) [
  | inl a ↦ let le = k (ground arith) in ground arith
  | inr a ↦ ground arith
]

slice-prefix :
    (n e : ℕ) (xs ys : Bytes)
    → n ≤ e
    → e ≤ length xs
    → take (e - n) (drop n (xs ++ ys)) ≡ take (e - n) (drop n xs)
slice-prefix n e xs ys h k =
    ap (take (e - n)) (drop-prefix n xs ys (omega arith))
    ∙ take-prefix (e - n) (drop n xs) ys (omega (arith, length-drop n xs))

module _ (H : Httparse) (laws : Laws H) (p : HttpParser) (more : Bytes) where
  -- What a round makes of the parser with more bytes, by what it makes of the parser.
  abbrev pub Extends : HttpStreamState → Outcome Turn → Type 0
  Extends s (returns (responds r p')) =
      turn_in H (ahead p more) s ≡ returns (responds r (ahead p' more))
  Extends s (returns (fails e p')) = turn_in H (ahead p more) s ≡ returns (fails e (ahead p' more))
  Extends s (returns (goes_on p')) =
      (turn_in H (ahead p more) s ≡ returns (goes_on (ahead p' more)))
      × (length p'.response_buffer < length p.response_buffer)
  Extends s (returns (reads_on e p')) =
      (turn_in H (ahead p more) s ≡ turn_in H (ahead p' more) s)
      × (p'.curr_state ≡ p.curr_state)
      × (p'.response_buffer ≡ p.response_buffer)
  Extends s panics = turn_in H (ahead p more) s ≡ panics

  head_turn-Extends :
      (b : ℕ) (bs : Bytes) (parsed : Parsed)
      → p.response_buffer ≡ b ∷ bs
      → H.parse (b ∷ bs) ≡ parsed
      → Extends headers (head_turn H p parsed)
  unfolding head_turn head_read turn_in headers_turn
  head_turn-Extends b bs (complete n (some c) hs) q e =
      let (pos, le) = laws.complete_bytes (b ∷ bs) n (some c) hs e in
      rw (q) (
        rw (laws.complete_stays (b ∷ bs) n (some c) hs e more, drop-prefix n (b ∷ bs) more le) refl,
        length-drop-lt n (b ∷ bs) pos le,
      )
  head_turn-Extends b bs (complete n none hs) q e = absurd (laws.complete_code (b ∷ bs) n hs e)
  head_turn-Extends b bs partial q e = (rw q refl, refl, refl)
  head_turn-Extends b bs malformed q e = rw (q) (rw (laws.malformed_stays (b ∷ bs) more e) refl)

  headers_turn-Extends :
      (buf : Bytes)
      → p.response_buffer ≡ buf
      → p.curr_state ≡ headers
      → Extends headers (headers_turn H p buf)
  unfolding headers_turn
  headers_turn-Extends [] q s = (refl, refl, refl)
  headers_turn-Extends (b ∷ bs) q s = head_turn-Extends b bs (H.parse (b ∷ bs)) q refl

  raw_turn-Extends :
      (len_opt : Option ℕ) → Extends (raw_data len_opt) (returns (raw_turn H p len_opt))
  unfolding raw_turn turn_in
  raw_turn-Extends none = (refl, refl, refl)
  raw_turn-Extends (some len) = elim (Bool-cases (leb len (length p.response_buffer))) [
    | inl e ↦
        let le : len ≤ length p.response_buffer = ground arith in
        rw
          (
            e,
            leb-true len (length (p.response_buffer ++ more))
                (omega (arith, length-append p.response_buffer more)),
            take-prefix len p.response_buffer more le,
            drop-prefix len p.response_buffer more le,
          )
          refl
    | inr e ↦ rw e (refl, refl, refl)
  ]

  chunk_of-Extends :
      (n k : ℕ)
      → H.parse_chunk_size p.response_buffer ≡ sized n (suc k)
      → length p.response_buffer + length more < 2 ^ 63
      → Extends chunked_data (chunk_of H p n (suc k))
  unfolding chunk_of turn_in chunk_turn
  chunk_of-Extends n k e fits =
      let buf = p.response_buffer in
      let e_size = laws.sized_stays buf n (suc k) e more in
      let e_len = length-append buf more in
      elim (Bool-cases (leb ((n + suc k + 2) % 2 ^ 64) (length buf))) [
        | inl a ↦
            let le : (n + suc k + 2) % 2 ^ 64 ≤ length buf = ground arith in
            let e_end =
              leb-true ((n + suc k + 2) % 2 ^ 64) (length buf + length more) (omega arith) in
            elim (Bool-cases (within n ((n + suc k) % 2 ^ 64) (length buf))) [
              | inl b ↦
                  let (n_le, e_le) = within-true n ((n + suc k) % 2 ^ 64) (length buf) b in
                  let e_in = within-stays n ((n + suc k) % 2 ^ 64) (length buf) (length more) b in
                  let e_body = slice-prefix n ((n + suc k) % 2 ^ 64) buf more n_le e_le in
                  let e_rest = drop-prefix ((n + suc k + 2) % 2 ^ 64) buf more le in
                  let (pos, _, _) = laws.sized_bytes buf n (suc k) e in
                  let bound = line_break (n + suc k) (length buf) (omega arith) e_le in
                  rw (a, b, e_size, e_len, e_end, e_in, e_body, e_rest)
                    (refl, length-drop-lt _ buf (omega arith) le)
              | inr b ↦
                  let e_out =
                    within-false n ((n + suc k) % 2 ^ 64) (length buf) (length more) b (λ h.
                      let bound = line_break (n + suc k) (length buf + length more) fits h in
                      omega arith) in
                  rw (a, b, e_size, e_len, e_end, e_out) refl
            ]
        | inr a ↦ rw a (refl, refl, refl)
      ]

  last_chunk-Extends :
      (n : ℕ)
      → H.parse_chunk_size p.response_buffer ≡ sized n 0
      → Extends chunked_data (returns (last_chunk H p n))
  unfolding last_chunk turn_in chunk_turn
  last_chunk-Extends n e =
      let buf = p.response_buffer in
      elim (Bool-cases (leb (n + 2) (length buf))) [
        | inl a ↦
            let le : n + 2 ≤ length buf = ground arith in
            let e_end = leb-true (n + 2) (length buf + length more) (omega arith) in
            rw
              (
                a,
                laws.sized_stays buf n 0 e more,
                length-append buf more,
                e_end,
                drop-prefix (n + 2) buf more le,
              )
              refl
        | inr a ↦ rw a (refl, refl, refl)
      ]

  chunk_turn-Extends :
      (size : ChunkSize)
      → H.parse_chunk_size p.response_buffer ≡ size
      → length p.response_buffer + length more < 2 ^ 63
      → Extends chunked_data (chunk_turn H p size)
  unfolding chunk_turn turn_in
  chunk_turn-Extends (sized n zero) e fits = last_chunk-Extends n e
  chunk_turn-Extends (sized n (suc k)) e fits = chunk_of-Extends n k e fits
  chunk_turn-Extends unfinished e fits = (refl, refl, refl)
  chunk_turn-Extends invalid e fits = rw (laws.invalid_stays p.response_buffer more e) refl

  turn_in-Extends :
      (s : HttpStreamState)
      → p.curr_state ≡ s
      → length p.response_buffer + length more < 2 ^ 63
      → Extends s (turn_in H p s)
  unfolding turn_in
  turn_in-Extends headers e fits = headers_turn-Extends p.response_buffer refl e
  turn_in-Extends (raw_data len_opt) e fits = raw_turn-Extends len_opt
  turn_in-Extends chunked_data e fits =
      chunk_turn-Extends (H.parse_chunk_size p.response_buffer) refl fits

  -- A round in a buffer that fits into memory.
  pub turn-Extends :
      length p.response_buffer + length more < 2 ^ 63 → Extends p.curr_state (turn H p)
  unfolding turn
  turn-Extends fits = turn_in-Extends p.curr_state refl fits
