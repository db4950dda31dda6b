-- ===== src/Tests/Login.antt =====
-- The theorems on `await_login` of src/irc/mod.rs and on src/stream_fold.rs at a login.
use matrix_ircd.Prelude.{
  ℕ, zero, suc, ◌+◌, ◌<◌, ◌≡◌, refl, Bool, false, Option, none, some, [], ◌∷◌, arith, ◌==◌,
}
use matrix_ircd.Prelude.{Outcome, returns}
use matrix_ircd.Text.{codes}
use matrix_ircd.StreamFold
use matrix_ircd.StreamFold.{StreamFoldState, full, FoldResult}
use matrix_ircd.StreamFold.Runs.{Ends, poll_lem}
use matrix_ircd.Irc.Socket.{Poll, ready, arrives}
use matrix_ircd.Irc.Transport.{IrcServerConnection}
use matrix_ircd.Irc.Login.{Login, LoginState, default, poll_login}
use matrix_ircd.Irc.Login.Ends.{Logins, poll_login_lem}

-- A client that says who it is, in two parts.
abbrev connection : IrcServerConnection
connection = record {
  conn = record {
    reads = arrives (codes "PASS p\nNICK ann\nUS") ∷ arrives (codes "ER ann 0 * :Ann\n") ∷ [];
    writes = [];
    flushes = [];
    sent = [];
  };
  read_buffer = [];
  write_buffer = [];
  position = 0;
  write_notify = false;
  closed = false;
  server_name = codes "s";
}

poll_login_lem_example :
    (r : Login) × (state : LoginState) × (poll_login (codes "s") (full connection default)
      ≡ returns (r, state))
    × Logins (codes "s") connection default r state
poll_login_lem_example = poll_login_lem (codes "s") connection default (omega arith)

-- A stream of the numbers below its state, and a fold that ends with the first zero.
count_down : ℕ → Outcome (Poll (Option ℕ) × ℕ)
count_down zero = returns (ready none, zero)
count_down (suc n) = returns (ready (some n), n)

abbrev add : ℕ → ℕ → Bool × ℕ
add i total = (i == 0, i + total)

count_down-total :
    (n : ℕ)
    → Unit {0}
    → (p : Poll (Option ℕ)) × (m : ℕ) × (count_down n ≡ returns (p, m)) × Unit {0}
unfolding count_down
count_down-total zero h = (_, _, refl, tt)
count_down-total (suc n) h = (_, _, refl, tt)

count_down-shorter : (n m i : ℕ) → count_down n ≡ returns (ready (some i), m) → m < n
unfolding count_down
count_down-shorter zero m i h = cc
count_down-shorter (suc n) m i h = let e : n ≡ m = cc in omega arith

poll_lem_example :
    (p : Poll (Option (ℕ × ℕ))) × (state : StreamFoldState ℕ ℕ) × (StreamFold.poll count_down add 4
        (full 3 0)
      ≡ returns (p, state))
    × Ends count_down add 3 0 p state
poll_lem_example =
    poll_lem count_down add (λ n. n) (λ n. Unit) count_down-total count_down-shorter 4 3 0
      (omega arith) tt
