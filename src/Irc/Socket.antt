-- ===== src/Irc/Socket.antt =====
-- The stream `S: AsyncRead + AsyncWrite` that src/irc/transport.rs reads and writes, and `Poll`.
-- The environment chooses what the calls of `read`, `write` and `flush` give: the three lists hold
-- their results in turn, and where a list has ended the call would block.
use matrix_ircd.Prelude.{ℕ, suc, ◌+◌, List, [], ◌∷◌, ◌++◌, length, take, drop}
use matrix_ircd.Text.{Str}
use matrix_ircd.Text.Utf8.{Bytes}

pub data ErrorKind : Type 0 where
  invalid_data unexpected_eof would_block other : ErrorKind

pub record IoError : Type 0 where
  pub kind : ErrorKind
  pub message : Str

-- `Poll<T, io::Error>`: `Ok(Async::Ready(t))`, `Ok(Async::NotReady)` or `Err(e)`.
pub data Poll {ℓ} (A : Type ℓ) : Type ℓ where
  ready : A → Poll A
  not_ready : Poll A
  failed : IoError → Poll A

-- `arrives` with no bytes is the end of the stream.
pub data ReadEvent : Type 0 where
  arrives : Bytes → ReadEvent
  read_blocks : ReadEvent
  read_fails : IoError → ReadEvent

-- The stream takes as many bytes as it has room for, at most those offered.
pub data WriteEvent : Type 0 where
  room_for : ℕ → WriteEvent
  write_blocks : WriteEvent
  write_fails : IoError → WriteEvent

pub data FlushEvent : Type 0 where
  flushed : FlushEvent
  flush_blocks : FlushEvent
  flush_fails : IoError → FlushEvent

-- `sent` holds the bytes that the stream has taken so far.
pub record Socket : Type 0 where
  pub reads : List ReadEvent
  pub writes : List WriteEvent
  pub flushes : List FlushEvent
  pub sent : Bytes

-- `flush()`.
unfoldable pub flush : Socket → FlushEvent × Socket
flush s = elim s.flushes [ [] ↦ (flush_blocks, s) | f ∷ fs ↦ (f, record s { flushes = fs }) ]

-- What the environment has yet to deliver, in bytes and in calls.
unfoldable pub arriving : List ReadEvent → Bytes
arriving [] = []
arriving (arrives bs ∷ rs) = bs ++ arriving rs
arriving (read_blocks ∷ rs) = arriving rs
arriving (read_fails e ∷ rs) = arriving rs

unfoldable pub read_measure : List ReadEvent → ℕ
read_measure [] = 0
read_measure (arrives bs ∷ rs) = suc (length bs + read_measure rs)
read_measure (read_blocks ∷ rs) = suc (read_measure rs)
read_measure (read_fails e ∷ rs) = suc (read_measure rs)

-- What is left of a delivery that is larger than the buffer it is read into.
unfoldable pub push_back : Bytes → List ReadEvent → List ReadEvent
push_back [] rs = rs
push_back (b ∷ bs) rs = arrives (b ∷ bs) ∷ rs

-- `read` into a buffer of `room` bytes: the result, and the results still to come.
unfoldable pub next_read : ℕ → List ReadEvent → ReadEvent × List ReadEvent
unfolding push_back
next_read room [] = (read_blocks, [])
next_read room (arrives bs ∷ rs) = (arrives (take room bs), push_back (drop room bs) rs)
next_read room (read_blocks ∷ rs) = (read_blocks, rs)
next_read room (read_fails e ∷ rs) = (read_fails e, rs)

unfoldable pub read : ℕ → Socket → ReadEvent × Socket
unfolding next_read
read room s = let (event, rs) = next_read room s.reads in (event, record s { reads = rs })
