-- ===== src/Matrix/SyncClient/Shorter.antt =====
-- src/matrix/sync.rs: `poll_sync`, and the polls that it uses up.
use matrix_ircd.Prelude.{ℕ, suc, ◌<◌, none, List, [], ◌∷◌, arith, length}
use matrix_ircd.Irc.Socket.{Poll, ready, not_ready, failed}
use matrix_ircd.Http.Client.{OneshotPoll, poll_response}
use matrix_ircd.Http.Parser.{Response}
use matrix_ircd.Matrix.Protocol.{Json, SyncResponse}
use matrix_ircd.Matrix.Services.{Services}
use matrix_ircd.Matrix.SyncClient.{
  MatrixSyncClient, ask, SyncResult, read_response, after_poll, poll_sync,
}

module _ {J : Json} (S : Services J) where
  -- If it is ready, fewer polls than `n` are left.
  abbrev pub Shorter : ℕ → SyncResult S → Type 0
  Shorter n (ready r, c, rest) = length rest < n
  Shorter n (not_ready, c, rest) = Unit
  Shorter n (failed e, c, rest) = Unit

  Shorter-suc : (n : ℕ) (res : SyncResult S) → Shorter n res → Shorter (suc n) res
  Shorter-suc n (ready r, c, rest) h = omega arith
  Shorter-suc n (not_ready, c, rest) h = tt
  Shorter-suc n (failed e, c, rest) h = tt

  Shorter-taken :
      (p : Poll (SyncResponse J)) (c : MatrixSyncClient S) (rest : List OneshotPoll)
      → Shorter (suc (length rest)) (p, c, rest)
  Shorter-taken (ready r) c rest = omega arith
  Shorter-taken not_ready c rest = tt
  Shorter-taken (failed e) c rest = tt

  after_poll-Shorter :
      (again : MatrixSyncClient S → SyncResult S) (rest : List OneshotPoll) (c : MatrixSyncClient S)
      (p : Poll Response)
      → ((d : MatrixSyncClient S) → Shorter (length rest) (again d))
      → Shorter (suc (length rest)) (after_poll S again rest c p)
  unfolding after_poll
  after_poll-Shorter again rest c (ready response) h =
      let taken = record c { current_sync = none } in
      Shorter-taken (read_response S response taken).0 (read_response S response taken).1 rest
  after_poll-Shorter again rest c not_ready h = tt
  after_poll-Shorter again rest c (failed e) h =
      let taken = record c { current_sync = none } in
      Shorter-suc (length rest) (again taken) (h taken)

  pub poll_sync-Shorter :
      (polls : List OneshotPoll) (c : MatrixSyncClient S)
      → Shorter (length polls) (poll_sync S polls c)
  unfolding poll_sync
  poll_sync-Shorter [] c = tt
  poll_sync-Shorter (p ∷ polls) c =
      after_poll-Shorter (poll_sync S polls) polls (ask S c).1 (poll_response p)
        (poll_sync-Shorter polls)
