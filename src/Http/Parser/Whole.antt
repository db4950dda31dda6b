-- ===== src/Http/Parser/Whole.antt =====
-- The responses do not depend on the pieces in which the bytes arrive.
use matrix_ircd.Prelude.{
  ℕ, zero, suc, ◌+◌, ◌-◌, ◌<◌, ◌≤◌, ◌≡◌, refl, sym, ap, subst, ◌∙◌, ◌⊎◌, inl, inr, List, [], ◌∷◌,
  ◌++◌, append-nil, append_assoc, arith, length, length-append,
}
use matrix_ircd.Prelude.{Outcome, returns, panics, ◌>>=◌}
use matrix_ircd.Prelude.{◌^◌}
use matrix_ircd.Text.Utf8.{Bytes}
use matrix_ircd.Irc.Socket.{
  IoError, ready, not_ready, failed, ReadEvent, arrives, read_blocks, read_fails, read_measure,
  arriving,
}
use matrix_ircd.Http.Parser.{
  Httparse, HttpParser, AtEnd, Turn, responds, fails, goes_on, reads_on, turn_in, turn,
  ResponseResult, read_turn, after_turn, response_loop, poll_for_response,
}
use matrix_ircd.Http.Parser.Ahead.{Laws, ahead, Extends, turn-Extends}

-- One of the reads fails with this error.
abbrev pub FailsIn : IoError → List ReadEvent → Type 0
FailsIn e [] = ⊥
FailsIn e (read_fails x ∷ rs) = (x ≡ e) ⊎ FailsIn e rs
FailsIn e (arrives bs ∷ rs) = FailsIn e rs
FailsIn e (read_blocks ∷ rs) = FailsIn e rs

-- No read gives the end of the stream.
abbrev pub NoEof : List ReadEvent → Type 0
NoEof [] = Unit
NoEof (arrives [] ∷ rs) = ⊥
NoEof (arrives (b ∷ bs) ∷ rs) = NoEof rs
NoEof (read_blocks ∷ rs) = NoEof rs
NoEof (read_fails e ∷ rs) = NoEof rs

module _ (H : Httparse) where
  -- What the bytes in the buffer come to on their own, in at most `rounds` rounds and one more.
  go_on : (HttpParser → Outcome Turn) → Turn → Outcome Turn
  go_on again (goes_on p) = again p
  go_on again t = returns t

  parsed : ℕ → HttpParser → Outcome Turn
  unfolding go_on
  parsed zero p = turn H p
  parsed (suc rounds) p = turn H p >>= go_on (parsed rounds)

  unfoldable pub first_response : HttpParser → Outcome Turn
  unfolding parsed
  first_response p = parsed (length p.response_buffer) p

  -- The same with all that is still to arrive.
  abbrev pub whole : HttpParser → List ReadEvent → Outcome Turn
  whole p rs = first_response (ahead p (arriving rs))

  abbrev pub Fits : HttpParser → List ReadEvent → Type 0
  Fits p rs = length p.response_buffer + length (arriving rs) < 2 ^ 63

  -- What a poll comes to, by the response at the start of all bytes.
  abbrev pub Agrees : HttpParser → List ReadEvent → ResponseResult H → Type 0
  Agrees p rs (returns (ready r, p', rs')) =
      whole p rs ≡ returns (responds r (ahead p' (arriving rs')))
  Agrees p rs (returns (not_ready, p', rs')) =
      (whole p rs ≡ whole p' rs')
      × ((e : AtEnd) × (q : HttpParser) × (turn H p' ≡ returns (reads_on e q)))
  Agrees p rs (returns (failed e, p', rs')) =
      (whole p rs ≡ returns (fails e (ahead p' (arriving rs'))))
      ⊎ ((whole p rs ≡ whole p' rs') × FailsIn e rs)
  Agrees p rs panics = whole p rs ≡ panics

  Agrees-trans :
      (p q : HttpParser) (rs rs₂ : List ReadEvent) (res : ResponseResult H)
      → whole p rs ≡ whole q rs₂
      → ((e : IoError) → FailsIn e rs₂ → FailsIn e rs)
      → Agrees q rs₂ res
      → Agrees p rs res
  Agrees-trans p q rs rs₂ (returns (ready r, p', rs')) e m h = e ∙ h
  Agrees-trans p q rs rs₂ (returns (not_ready, p', rs')) e m (h, k) = (e ∙ h, k)
  Agrees-trans p q rs rs₂ (returns (failed x, p', rs')) e m (inl h) = inl (e ∙ h)
  Agrees-trans p q rs rs₂ (returns (failed x, p', rs')) e m (inr (h, k)) = inr (e ∙ h, m x k)
  Agrees-trans p q rs rs₂ panics e m h = e ∙ h

module _ (H : Httparse) (laws : Laws H) where
  extends :
      (p : HttpParser) (more : Bytes) (t : Outcome Turn)
      → length p.response_buffer + length more < 2 ^ 63
      → turn H p ≡ t
      → Extends H laws p more p.curr_state t
  extends p more t fits e =
      subst (Extends H laws p more p.curr_state) e (turn-Extends H laws p more fits)

  goes_on-shorter :
      (p p' : HttpParser)
      → length p.response_buffer < 2 ^ 63
      → turn H p ≡ returns (goes_on p')
      → length p'.response_buffer < length p.response_buffer
  goes_on-shorter p p' fits e = (extends p [] _ (omega arith) e).1

  same_turn :
      (f g : HttpParser → Outcome Turn) (p : HttpParser) (t : Outcome Turn)
      → turn H p ≡ t
      → ((p' : HttpParser) → turn H p ≡ returns (goes_on p') → f p' ≡ g p')
      → (t >>= go_on H f) ≡ (t >>= go_on H g)
  unfolding go_on
  same_turn f g p (returns (goes_on p')) e h = h p' e
  same_turn f g p (returns (responds r p')) e h = refl
  same_turn f g p (returns (fails r p')) e h = refl
  same_turn f g p (returns (reads_on r p')) e h = refl
  same_turn f g p panics e h = refl

  return_turn :
      (p : HttpParser) (t : Outcome Turn)
      → turn H p ≡ t
      → ((p' : HttpParser) → ¬ (turn H p ≡ returns (goes_on p')))
      → (t >>= go_on H (turn H)) ≡ t
  unfolding go_on
  return_turn p (returns (goes_on p')) e h = absurd (h p' e)
  return_turn p (returns (responds r p')) e h = refl
  return_turn p (returns (fails r p')) e h = refl
  return_turn p (returns (reads_on r p')) e h = refl
  return_turn p panics e h = refl

  parsed-suc :
      (n : ℕ) (p : HttpParser)
      → length p.response_buffer < 2 ^ 63
      → length p.response_buffer ≤ n
      → parsed H (suc n) p ≡ parsed H n p
  unfolding parsed
  parsed-suc zero p fits h =
      return_turn p (turn H p) refl (λ p' e. let lt = goes_on-shorter p p' fits e in omega arith)
  parsed-suc (suc n) p fits h =
      same_turn (parsed H (suc n)) (parsed H n) p (turn H p) refl (λ p' e.
        let lt = goes_on-shorter p p' fits e in parsed-suc n p' (omega arith) (omega arith))

  add_suc : (d n : ℕ) → suc d + n ≡ suc (d + n)
  add_suc d n = omega arith

  parsed-add :
      (d : ℕ) (p : HttpParser)
      → length p.response_buffer < 2 ^ 63
      → parsed H (d + length p.response_buffer) p ≡ first_response H p
  unfolding first_response
  parsed-add zero p fits = ap (λ m. parsed H m p) (omega arith)
  parsed-add (suc d) p fits =
      ap (λ m. parsed H m p) (add_suc d (length p.response_buffer))
      ∙ parsed-suc (d + length p.response_buffer) p fits (omega arith)
      ∙ parsed-add d p fits

  -- As many rounds as there are bytes are enough.
  parsed_lem :
      (n : ℕ) (p : HttpParser)
      → length p.response_buffer < 2 ^ 63
      → length p.response_buffer ≤ n
      → parsed H n p ≡ first_response H p
  parsed_lem n p fits h =
      ap (λ m. parsed H m p) (omega arith) ∙ parsed-add (n - length p.response_buffer) p fits

  first_response-turn :
      (p : HttpParser)
      → length p.response_buffer < 2 ^ 63
      → first_response H p ≡ (turn H p >>= go_on H (first_response H))
  unfolding parsed
  first_response-turn p fits =
      sym (parsed_lem (suc (length p.response_buffer)) p fits (omega arith))
      ∙ same_turn (parsed H (length p.response_buffer)) (first_response H) p (turn H p) refl
          (λ p' e.
            let lt = goes_on-shorter p p' fits e in
            parsed_lem (length p.response_buffer) p' (omega arith) (omega arith))

  same_start :
      (p q : HttpParser)
      → length p.response_buffer < 2 ^ 63
      → length q.response_buffer < 2 ^ 63
      → turn H p ≡ turn H q
      → first_response H p ≡ first_response H q
  same_start p q fits fits' e =
      first_response-turn p fits
      ∙ ap (λ t. t >>= go_on H (first_response H)) e
      ∙ sym (first_response-turn q fits')

  -- A buffer that fits into memory with more bytes behind it.
  fits_ahead :
      (p : HttpParser) (more : Bytes)
      → length p.response_buffer + length more < 2 ^ 63
      → length (p.response_buffer ++ more) < 2 ^ 63
  fits_ahead p more fits = omega (arith, length-append p.response_buffer more)

  -- The rounds, by what they make of the bytes in the buffer.
  whole-turn :
      (p : HttpParser) (more : Bytes) (t : Outcome Turn)
      → length p.response_buffer + length more < 2 ^ 63
      → turn H (ahead p more) ≡ t
      → first_response H (ahead p more) ≡ (t >>= go_on H (first_response H))
  whole-turn p more t fits e =
      first_response-turn (ahead p more) (fits_ahead p more fits)
      ∙ ap (λ (u : Outcome Turn). u >>= go_on H (first_response H)) e

  -- A read in front.
  read-turn :
      (p p' : HttpParser) (e : AtEnd) (more : Bytes)
      → length p.response_buffer + length more < 2 ^ 63
      → turn H p ≡ returns (reads_on e p')
      → (turn H (ahead p more) ≡ turn H (ahead p' more)) × (p'.response_buffer ≡ p.response_buffer)
  unfolding turn
  read-turn p p' e more fits h =
      let (same, state, buffer) = extends p more (returns (reads_on e p')) fits h in
      (same ∙ ap (turn_in H (ahead p' more)) (sym state), buffer)

  ahead-nil : (p : HttpParser) → ahead p [] ≡ p
  ahead-nil p = ap (λ (b : Bytes). record p { response_buffer = b }) (append-nil p.response_buffer)

  reads-again :
      (p p' : HttpParser) (e : AtEnd)
      → length p.response_buffer < 2 ^ 63
      → turn H p ≡ returns (reads_on e p')
      → turn H p' ≡ returns (reads_on e p')
  reads-again p p' e fits h =
      ap (turn H) (sym (ahead-nil p'))
      ∙ sym ((read-turn p p' e [] (omega arith) h).0)
      ∙ ap (turn H) (ahead-nil p)
      ∙ h

  whole-read :
      (p p' : HttpParser) (e : AtEnd) (more : Bytes)
      → length p.response_buffer + length more < 2 ^ 63
      → turn H p ≡ returns (reads_on e p')
      → first_response H (ahead p more) ≡ first_response H (ahead p' more)
  whole-read p p' e more fits h =
      let (same, buffer) = read-turn p p' e more fits h in
      same_start (ahead p more) (ahead p' more) (fits_ahead p more fits)
        (fits_ahead p' more (omega (arith, ap (λ (b : Bytes). length b) buffer))) same

  -- The rounds behind one, which `again` does.
  abbrev AgainAgrees : (HttpParser → List ReadEvent → ResponseResult H) → ℕ → Type 0
  AgainAgrees again measure =
      (q : HttpParser) (rs : List ReadEvent)
      → length q.response_buffer + read_measure rs < measure
      → Fits H q rs
      → NoEof rs
      → Agrees H q rs (again q rs)

  read_turn-Agrees :
      (again : HttpParser → List ReadEvent → ResponseResult H) (p p' : HttpParser)
      (rs : List ReadEvent) (e : AtEnd)
      → Fits H p rs
      → turn H p ≡ returns (reads_on e p')
      → NoEof rs
      → AgainAgrees again (length p.response_buffer + read_measure rs)
      → Agrees H p rs (read_turn H again e p' rs)
  unfolding read_turn arriving read_measure
  read_turn-Agrees again p p' [] e fits h no_eof ih =
      (whole-read p p' e [] fits h, (e, p', reads-again p p' e (omega arith) h))
  read_turn-Agrees again p p' (read_blocks ∷ rs) e fits h no_eof ih =
      (whole-read p p' e (arriving rs) fits h, (e, p', reads-again p p' e (omega arith) h))
  read_turn-Agrees again p p' (read_fails x ∷ rs) e fits h no_eof ih =
      inr (whole-read p p' e (arriving rs) fits h, inl refl)
  read_turn-Agrees again p p' (arrives [] ∷ rs) e fits h no_eof ih = absurd no_eof
  read_turn-Agrees again p p' (arrives (b ∷ bs) ∷ rs) e fits h no_eof ih =
      let q = ahead p' (b ∷ bs) in
      let (_, buffer) = read-turn p p' e [] (omega arith) h in
      let len = ap (λ (x : Bytes). length x) buffer in
      let len' = length-append p'.response_buffer (b ∷ bs) in
      let len'' = length-append (b ∷ bs) (arriving rs) in
      let same =
        whole-read p p' e (b ∷ bs ++ arriving rs) fits h
        ∙ ap (λ (x : Bytes). first_response H (record p' { response_buffer = x }))
            (sym (append_assoc p'.response_buffer (b ∷ bs) (arriving rs))) in
      Agrees-trans H p q (arrives (b ∷ bs) ∷ rs) rs (again q rs) same (λ x m. m)
        (ih q rs (omega arith) (omega arith) no_eof)

  after_turn-Agrees :
      (again : HttpParser → List ReadEvent → ResponseResult H) (p : HttpParser)
      (rs : List ReadEvent) (t : Outcome Turn)
      → Fits H p rs
      → turn H p ≡ t
      → NoEof rs
      → AgainAgrees again (length p.response_buffer + read_measure rs)
      → Agrees H p rs (t >>= after_turn H again rs)
  unfolding after_turn go_on turn
  after_turn-Agrees again p rs panics fits h no_eof ih =
      whole-turn p (arriving rs) _ fits (extends p (arriving rs) _ fits h)
  after_turn-Agrees again p rs (returns (responds r p')) fits h no_eof ih =
      whole-turn p (arriving rs) _ fits (extends p (arriving rs) _ fits h)
  after_turn-Agrees again p rs (returns (fails e p')) fits h no_eof ih =
      inl (whole-turn p (arriving rs) _ fits (extends p (arriving rs) _ fits h))
  after_turn-Agrees again p rs (returns (goes_on p')) fits h no_eof ih =
      let (same, less) = extends p (arriving rs) _ fits h in
      Agrees-trans H p p' rs rs (again p' rs) (whole-turn p (arriving rs) _ fits same) (λ e m. m)
        (ih p' rs (omega arith) (omega arith) no_eof)
  after_turn-Agrees again p rs (returns (reads_on e p')) fits h no_eof ih =
      read_turn-Agrees again p p' rs e fits h no_eof ih

  loop-Agrees :
      (fuel : ℕ) (p : HttpParser) (rs : List ReadEvent)
      → length p.response_buffer + read_measure rs < fuel
      → Fits H p rs
      → NoEof rs
      → Agrees H p rs (response_loop H fuel p rs)
  unfolding response_loop
  loop-Agrees zero p rs lt fits no_eof = absurd (omega arith)
  loop-Agrees (suc fuel) p rs lt fits no_eof =
      after_turn-Agrees (response_loop H fuel) p rs (turn H p) fits refl no_eof
        (λ q rs₂ less. loop-Agrees fuel q rs₂ (omega arith))

  -- If httparse keeps its laws, the bytes fit into memory and the stream does not end, then
  -- `poll_for_response` agrees with the parse of all bytes, in the buffer and still to arrive, at
  -- once. A response, an error of the parser or a panic is that of all bytes, and what is left is
  -- what follows it. A poll that waits, or that fails as a read did, leaves the parse of all bytes
  -- as it was; and it waits only where a round needs more bytes.
  pub poll_for_response-Agrees :
      (p : HttpParser) (rs : List ReadEvent)
      → Fits H p rs
      → NoEof rs
      → Agrees H p rs (poll_for_response H p rs)
  unfolding poll_for_response
  poll_for_response-Agrees p rs fits no_eof =
      loop-Agrees (suc (length p.response_buffer + read_measure rs)) p rs (omega arith) fits no_eof
