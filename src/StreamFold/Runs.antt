-- ===== src/StreamFold/Runs.antt =====
-- What a fold has seen when it is over, and how many rounds it takes.
use matrix_ircd.Prelude.{
  ℕ, zero, suc, ◌<◌, ◌≡◌, refl, ap, ◌∙◌, Bool, true, false, Option, none, some, List, [], ◌∷◌,
  arith,
}
use matrix_ircd.Prelude.{Outcome, returns}
use matrix_ircd.Irc.Socket.{IoError, Poll, ready, not_ready, failed}
use matrix_ircd.StreamFold.{StreamFoldState, empty, full, after_func, after_stream, fold_loop, poll}

module _ {I S V : Type 0} (poll_stream : S → Outcome (Poll (Option I) × S))
    (func : I → V → Bool × V) where
  -- The items that the stream gives from `stream` on, folded into `value`, none of them the last one,
  -- up to the stream and the value at the end.
  pub data Folds : S → V → List I → S → V → Type 0 where
    start : {stream : S} {value : V} → Folds stream value [] stream value
    item :
        {stream stream' end : S} {value value' value_end : V} {i : I} {items : List I}
        → poll_stream stream ≡ returns (ready (some i), stream')
        → func i value ≡ (false, value')
        → Folds stream' value' items end value_end
        → Folds stream value (i ∷ items) end value_end

  -- The ways for a poll to be over: with the value that the last item finishes, at the end of the
  -- stream, on its error, or waiting with the value so far.
  pub data Ends (stream : S) (value : V)
      : Poll (Option (V × S)) → StreamFoldState S V → Type 0 where
    finished :
        {s s' : S} {v w : V} {i : I} (items : List I)
        → Folds stream value items s v
        → poll_stream s ≡ returns (ready (some i), s')
        → func i v ≡ (true, w)
        → Ends stream value (ready (some (w, s'))) empty
    at_end :
        {s s' : S} {v : V} (items : List I)
        → Folds stream value items s v
        → poll_stream s ≡ returns (ready none, s')
        → Ends stream value (ready none) empty
    broken :
        {s s' : S} {v : V} {e : IoError} (items : List I)
        → Folds stream value items s v
        → poll_stream s ≡ returns (failed e, s')
        → Ends stream value (failed e) empty
    waits :
        {s s' : S} {v : V} (items : List I)
        → Folds stream value items s v
        → poll_stream s ≡ returns (not_ready, s')
        → Ends stream value not_ready (full s' v)

  -- A round in front.
  Ends-item :
      {stream stream' : S} {value value' : V} {i : I} {p : Poll (Option (V × S))}
      {state : StreamFoldState S V}
      → poll_stream stream ≡ returns (ready (some i), stream')
      → func i value ≡ (false, value')
      → Ends stream' value' p state
      → Ends stream value p state
  Ends-item e f (finished items h q g) = finished (_ ∷ items) (item e f h) q g
  Ends-item e f (at_end items h q) = at_end (_ ∷ items) (item e f h) q
  Ends-item e f (broken items h q) = broken (_ ∷ items) (item e f h) q
  Ends-item e f (waits items h q) = waits (_ ∷ items) (item e f h) q

  module _ (measure : S → ℕ) (IsOk : S → Type 0)
      (total : (s : S)
        → IsOk s
        → (p : Poll (Option I)) × (s' : S) × (poll_stream s ≡ returns (p, s')) × IsOk s')
      (shorter : (s s' : S) (i : I)
        → poll_stream s ≡ returns (ready (some i), s')
        → measure s' < measure s) where
    after_func_lem :
        (fuel : ℕ) (stream stream' : S) (value : V) (i : I) (r : Bool × V)
        → poll_stream stream ≡ returns (ready (some i), stream')
        → func i value ≡ r
        → ((v : V)
            → (p : Poll (Option (V × S))) × (state : StreamFoldState S V) × (fold_loop poll_stream
                  func fuel stream' v
                ≡ returns (p, state))
              × Ends stream' v p state)
        → (p : Poll (Option (V × S))) × (state : StreamFoldState S V) × (after_func poll_stream func
              (fold_loop poll_stream func fuel)
              stream'
              r
            ≡ returns (p, state))
          × Ends stream value p state
    unfolding after_func
    after_func_lem fuel stream stream' value i (true, w) e f ih =
        (_, _, refl, finished [] start e f)
    after_func_lem fuel stream stream' value i (false, w) e f ih =
        let (p, state, q, h) = ih w in (p, state, q, Ends-item e f h)

    after_stream_lem :
        (fuel : ℕ) (stream stream' : S) (value : V) (polled : Poll (Option I))
        → poll_stream stream ≡ returns (polled, stream')
        → ((i : I)
            → polled ≡ ready (some i)
            → (v : V)
            → (p : Poll (Option (V × S))) × (state : StreamFoldState S V) × (fold_loop poll_stream
                  func fuel stream' v
                ≡ returns (p, state))
              × Ends stream' v p state)
        → (p : Poll (Option (V × S))) × (state : StreamFoldState S V) × (after_stream poll_stream
              func
              (fold_loop poll_stream func fuel)
              value
              polled
              stream'
            ≡ returns (p, state))
          × Ends stream value p state
    unfolding after_stream
    after_stream_lem fuel stream stream' value (ready (some i)) e ih =
        after_func_lem fuel stream stream' value i (func i value) e refl (ih i refl)
    after_stream_lem fuel stream stream' value (ready none) e ih = (_, _, refl, at_end [] start e)
    after_stream_lem fuel stream stream' value not_ready e ih = (_, _, refl, waits [] start e)
    after_stream_lem fuel stream stream' value (failed x) e ih = (_, _, refl, broken [] start e)

    fold_loop_lem :
        (fuel : ℕ) (stream : S) (value : V)
        → measure stream < fuel
        → IsOk stream
        → (p : Poll (Option (V × S))) × (state : StreamFoldState S V) × (fold_loop poll_stream func
              fuel stream value
            ≡ returns (p, state))
          × Ends stream value p state
    unfolding fold_loop
    fold_loop_lem zero stream value lt ok = absurd (omega arith)
    fold_loop_lem (suc fuel) stream value lt ok =
        let (polled, stream', e, ok') = total stream ok in
        rw e (
          after_stream_lem fuel stream stream' value polled e (λ i same v.
            fold_loop_lem fuel stream' v
              (let le = shorter stream stream' i (e ∙ ap (λ p. returns (p, stream')) same) in
                omega arith)
              ok'))

    -- If polls of the stream return, keep its invariant, and make a measure smaller with each item,
    -- then with more rounds than the measure a poll of a fold that is not over returns: an item
    -- finished it, the stream ended, the stream failed, or it waits; the value is the fold of the
    -- items that the stream gave up to there.
    pub poll_lem :
        (fuel : ℕ) (stream : S) (value : V)
        → measure stream < fuel
        → IsOk stream
        → (p : Poll (Option (V × S))) × (state : StreamFoldState S V) × (poll poll_stream func fuel
              (full stream value)
            ≡ returns (p, state))
          × Ends stream value p state
    unfolding poll
    poll_lem fuel stream value lt ok = fold_loop_lem fuel stream value lt ok
