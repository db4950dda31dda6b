-- ===== src/StreamFold.antt =====
-- src/stream_fold.rs: `StreamFold`, a future that folds the start of a stream and gives the result
-- with the stream. The stream and the function are parameters.
pub mod Runs
use matrix_ircd.Prelude.{
  ℕ, zero, suc, ◌+◌, ◌-◌, ◌*◌, ◌/◌, ◌%◌, ◌<◌, ◌≤◌, ◌≡◌, refl, sym, ap, ap₂, subst, ◌∙◌, ◌≡⟨◌⟩◌, ◌∎,
  Bool, true, false, ◌&&◌, ◌||◌, not, ◌≢◌, ◌↔◌, ◌⊎◌, inl, inr, Option, none, some, List, [], ◌∷◌,
  ◌++◌, map, append-nil, append_assoc, arith, leb, ltb, ◌==◌, if◌then◌else◌, Bool-cases,
  Option-cases, length, length-append, get_elem?, take, drop, String, ==_iff,
}
use matrix_ircd.Prelude.{Outcome, returns, panics, ◌>>=◌, >>=-eq-returns}
use matrix_ircd.Irc.Socket.{Poll, ready, not_ready, failed}

-- `empty` is a future that is over.
pub data StreamFoldState (S V : Type 0) : Type 0 where
  empty : StreamFoldState S V
  full : (stream : S) (value : V) → StreamFoldState S V

unfoldable pub new : {S V : Type 0} → S → V → StreamFoldState S V
new stream value = full stream value

-- `poll_stream` is the stream's `poll`, `func` the function that is folded.
module _ {I S V : Type 0} (poll_stream : S → Outcome (Poll (Option I) × S))
    (func : I → V → Bool × V) where
  abbrev pub FoldResult : Type 0
  FoldResult = Outcome (Poll (Option (V × S)) × StreamFoldState S V)

  -- What follows an item; `again` is the next round.
  after_func : (S → V → FoldResult) → S → Bool × V → FoldResult
  after_func again stream (true, value) = returns (ready (some (value, stream)), empty)
  after_func again stream (false, value) = again stream value

  -- What follows the poll of the stream. On an error and at the end the state stays empty.
  after_stream : (S → V → FoldResult) → V → Poll (Option I) → S → FoldResult
  unfolding after_func
  after_stream again value (ready (some item)) stream = after_func again stream (func item value)
  after_stream again value (ready none) stream = returns (ready none, empty)
  after_stream again value not_ready stream = returns (not_ready, full stream value)
  after_stream again value (failed e) stream = returns (failed e, empty)

  -- The loop, for at most `fuel` items.
  fold_loop : ℕ → S → V → FoldResult
  unfolding after_stream
  fold_loop zero stream value = returns (not_ready, full stream value)
  fold_loop (suc fuel) stream value =
      poll_stream stream >>= λ r. after_stream (fold_loop fuel) value r.0 r.1

  -- `poll`; a future that is over panics.
  unfoldable pub poll : ℕ → StreamFoldState S V → FoldResult
  unfolding fold_loop
  poll fuel empty = panics
  poll fuel (full stream value) = fold_loop fuel stream value
