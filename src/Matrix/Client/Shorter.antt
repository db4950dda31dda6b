-- ===== src/Matrix/Client/Shorter.antt =====
-- src/matrix/mod.rs: `poll_sync` of the client, and the polls that it uses up.
use matrix_ircd.Prelude.{ℕ, ◌<◌, none, some, List, length}
use matrix_ircd.Prelude.{Outcome, returns, panics, ◌>>=◌}
use matrix_ircd.Irc.Socket.{Poll, ready, not_ready, failed}
use matrix_ircd.Http.Client.{OneshotPoll}
use matrix_ircd.Matrix.Protocol.{Json, SyncResponse}
use matrix_ircd.Matrix.Services.{Services}
use matrix_ircd.Matrix.SyncClient
use matrix_ircd.Matrix.SyncClient.{poll_sync}
use matrix_ircd.Matrix.SyncClient.Shorter
use matrix_ircd.Matrix.SyncClient.Shorter.{poll_sync-Shorter}
use matrix_ircd.Matrix.Client.{MatrixClient, sync_rooms, after_sync, poll, PollResult}

module _ {J : Json} (S : Services J) where
  -- If it gives a response, fewer polls than `n` are left.
  abbrev pub PollShorter : ℕ → PollResult S → Type 0
  PollShorter n (returns (ready (some r), c, rest)) = length rest < n
  PollShorter n (returns (ready none, c, rest)) = Unit
  PollShorter n (returns (not_ready, c, rest)) = Unit
  PollShorter n (returns (failed e, c, rest)) = Unit
  PollShorter n panics = Unit

  bind-PollShorter :
      {A : Type 0} (n : ℕ) (rest : List OneshotPoll) (m : Outcome A) (r : A → SyncResponse J)
      (c : A → MatrixClient S)
      → length rest < n
      → PollShorter n (m >>= λ a. returns (ready (some (r a)), c a, rest))
  bind-PollShorter n rest (returns a) r c lt = lt
  bind-PollShorter n rest panics r c lt = tt

  after_sync-PollShorter :
      (n : ℕ) (p : Poll (SyncResponse J)) (d : SyncClient.MatrixSyncClient S) (c : MatrixClient S)
      (rest : List OneshotPoll)
      → Shorter.Shorter S n (p, d, rest)
      → PollShorter n (after_sync S p c rest)
  unfolding after_sync
  after_sync-PollShorter n not_ready d c rest h = tt
  after_sync-PollShorter n (failed e) d c rest h = tt
  after_sync-PollShorter n (ready resp) d c rest h =
      bind-PollShorter n rest (sync_rooms c.rooms resp.rooms.join)
        (λ (rooms, join). record resp { rooms = record { join = join } })
        (λ (rooms, join). record c { rooms = rooms }) h

  pub poll-PollShorter :
      (polls : List OneshotPoll) (c : MatrixClient S) → PollShorter (length polls) (poll S polls c)
  unfolding poll
  poll-PollShorter polls c =
      let (p, d, rest) = poll_sync S polls c.sync_client in
      after_sync-PollShorter (length polls) p d (record c { sync_client = d }) rest
        (poll_sync-Shorter S polls c.sync_client)
