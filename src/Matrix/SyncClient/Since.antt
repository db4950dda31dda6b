-- ===== src/Matrix/SyncClient/Since.antt =====
-- src/matrix/sync.rs: what the sync client asks for.
use matrix_ircd.Prelude.{
  ℕ, ◌≡◌, refl, sym, ap, subst, ◌∙◌, ◌⊎◌, inl, inr, Option, none, some, List, [], ◌∷◌, ◌++◌, map,
  append-nil, append_assoc, ◌==◌, Bool-cases, Option-cases,
}
use mathlib.Core.List.{map-append}
use matrix_ircd.Text.{Str, codes, same}
use matrix_ircd.BTreeMap.{get}
use matrix_ircd.Matrix.Models.{unwrap_or}
use matrix_ircd.Irc.Socket.{Poll, ready, not_ready, failed}
use matrix_ircd.Http.Client.{Request, send_request, OneshotPoll, poll_response}
use matrix_ircd.Http.Parser.{Response}
use matrix_ircd.Matrix.Protocol.{Json, SyncResponse}
use matrix_ircd.Matrix.Services.{Services}
use matrix_ircd.Matrix.SyncClient.{
  MatrixSyncClient, sync_pairs, sync_request, ask, SyncResult, read_body, read_response, after_poll,
  poll_sync, path_and_query,
}

module _ {J : Json} (S : Services J)
    -- `clear()` drops the pairs that are there.
    (clears : (pairs old : List (Str × Str)) (url : S.Url)
      → S.with_query pairs (S.with_query old url) ≡ S.with_query pairs url) where
  -- The request for what follows the last batch.
  unfoldable pub next_request : MatrixSyncClient S → Request
  next_request c = sync_request S (S.with_query (sync_pairs S c.access_token c.next_token) c.url)

  abbrev pub requests_of : MatrixSyncClient S → List (Request × ℕ)
  requests_of c = c.http_stream.inner.requests

  -- The client has sent a number of requests for what follows the last batch of `c`, and has the
  -- last batch `token` and the request `current` now.
  pub record Asked (c c' : MatrixSyncClient S) (token : Option Str) : Type 0 where
    pub futures : List ℕ
    pub has_asked :
        requests_of c' ≡ requests_of c ++ map (λ future. (next_request c, future)) futures
    pub has_token : c'.next_token ≡ token

  abbrev pub Polled : MatrixSyncClient S → SyncResult S → Type 0
  Polled c (ready sync_response, c', rest) =
      Asked c c' (some sync_response.next_batch) × (c'.current_sync ≡ none)
  Polled c (not_ready, c', rest) =
      Asked c c' c.next_token × ((future : ℕ) × (c'.current_sync ≡ some future))
  Polled c (failed e, c', rest) = Asked c c' c.next_token × (c'.current_sync ≡ none)

  -- What a request that may have been sent leaves.
  record Asks (c d : MatrixSyncClient S) : Type 0 where
    asked : Asked c d c.next_token
    out : (future : ℕ) × (d.current_sync ≡ some future)
    same_next : next_request d ≡ next_request c

  ask-Asks : (c : MatrixSyncClient S) → Asks c (ask S c).1
  unfolding next_request send_request ask
  ask-Asks c = elim (Option-cases c.current_sync) [
    | inl e ↦
        rw (ask, e)
          (record {
            asked = record {
              futures = c.http_stream.oneshots ∷ [];
              has_asked = refl;
              has_token = refl;
            };
            out = (_, refl);
            same_next = ap (sync_request S) (
                clears (sync_pairs S c.access_token c.next_token)
                  (sync_pairs S c.access_token c.next_token) c.url);
          })
    | inr (future, e) ↦
        rw (ask, e)
          (record {
            asked = record {
              futures = [];
              has_asked = sym (append-nil (requests_of c));
              has_token = refl;
            };
            out = (future, e);
            same_next = refl;
          })
  ]

  taken-Asked :
      (c d : MatrixSyncClient S)
      → Asked c d c.next_token
      → Asked c (record d { current_sync = none }) c.next_token
  taken-Asked c d a = record {
    futures = a.futures;
    has_asked = a.has_asked;
    has_token = a.has_token;
  }

  Asked-trans :
      (c d c' : MatrixSyncClient S) (token token' : Option Str)
      → Asked c d token
      → next_request d ≡ next_request c
      → Asked d c' token'
      → Asked c c' token'
  Asked-trans c d c' token token' a e b =
      let ask_for : Request → ℕ → Request × ℕ = λ r future. (r, future) in
      record {
        futures = a.futures ++ b.futures;
        has_asked =
            b.has_asked
            ∙ ap (λ x. x ++ map (ask_for (next_request d)) b.futures) a.has_asked
            ∙ ap
                (λ r.
                  (requests_of c ++ map (ask_for (next_request c)) a.futures)
                  ++ map (ask_for r) b.futures)
                e
            ∙ append_assoc (requests_of c) (map (ask_for (next_request c)) a.futures)
                (map (ask_for (next_request c)) b.futures)
            ∙ ap (◌++◌ (requests_of c))
                (sym (map-append (ask_for (next_request c)) a.futures b.futures));
        has_token = b.has_token;
      }

  Polled-Asks :
      (c d : MatrixSyncClient S) (res : SyncResult S)
      → Asked c d c.next_token
      → next_request d ≡ next_request c
      → Polled d res
      → Polled c res
  Polled-Asks c d (ready r, c', rest) a e (p, q) =
      (Asked-trans c d c' c.next_token (some r.next_batch) a e p, q)
  Polled-Asks c d (not_ready, c', rest) a e (p, q) =
      (Asked-trans c d c' c.next_token c.next_token a e (subst (Asked d c') a.has_token p), q)
  Polled-Asks c d (failed x, c', rest) a e (p, q) =
      (Asked-trans c d c' c.next_token c.next_token a e (subst (Asked d c') a.has_token p), q)

  -- A change that leaves requests and token.
  still :
      (c d : MatrixSyncClient S) (token : Option Str)
      → requests_of d ≡ requests_of c
      → d.next_token ≡ token
      → Asked c d token
  still c d token e e' = record {
    futures = [];
    has_asked = e ∙ sym (append-nil (requests_of c));
    has_token = e';
  }

  read_body-Polled :
      (body : Str ⊎ SyncResponse J) (c : MatrixSyncClient S) (rest : List OneshotPoll)
      → c.current_sync ≡ none
      → Polled c ((read_body S body c).0, (read_body S body c).1, rest)
  unfolding read_body
  read_body-Polled (inl e) c rest h = (still c c c.next_token refl refl, h)
  read_body-Polled (inr r) c rest h = (still c _ (some r.next_batch) refl refl, h)

  read_response-Polled :
      (response : Response) (c : MatrixSyncClient S) (rest : List OneshotPoll)
      → c.current_sync ≡ none
      → Polled c ((read_response S response c).0, (read_response S response c).1, rest)
  unfolding read_response
  read_response-Polled response c rest h = elim (Bool-cases (response.code == 200)) [
    | inl e ↦ rw e (read_body-Polled (S.read_sync response.body) c rest h)
    | inr e ↦ rw e (still c c c.next_token refl refl, h)
  ]

  after_poll-Polled :
      (again : MatrixSyncClient S → SyncResult S) (rest : List OneshotPoll)
      (c d : MatrixSyncClient S) (p : Poll Response)
      → Asks c d
      → ((d' : MatrixSyncClient S) → Polled d' (again d'))
      → Polled c (after_poll S again rest d p)
  unfolding after_poll next_request
  after_poll-Polled again rest c d (ready response) a ih =
      let taken = record d { current_sync = none } in
      Polled-Asks c taken _ (taken-Asked c d a.asked) a.same_next
        (read_response-Polled response taken rest refl)
  after_poll-Polled again rest c d not_ready a ih = (a.asked, a.out)
  after_poll-Polled again rest c d (failed e) a ih =
      let taken = record d { current_sync = none } in
      Polled-Asks c taken (again taken) (taken-Asked c d a.asked) a.same_next (ih taken)

  polls-Polled :
      (polls : List OneshotPoll) (c : MatrixSyncClient S) → Polled c (poll_sync S polls c)
  unfolding poll_sync
  polls-Polled [] c = let a = ask-Asks c in (a.asked, a.out)
  polls-Polled (p ∷ polls) c =
      after_poll-Polled (poll_sync S polls) polls c (ask S c).1 (poll_response p) (ask-Asks c)
        (polls-Polled polls)

  -- The request is a GET of the URL with query pairs in which `since` is this token, or is not
  -- there without one, and `access_token` the client's.
  pub record AsksFor (c : MatrixSyncClient S) (request : Request) : Type 0 where
    pub pairs : List (Str × Str)
    pub since_token : get (codes "since") pairs ≡ c.next_token
    pub own_token : get (codes "access_token") pairs ≡ some c.access_token
    pub is_get : request.method ≡ codes "GET"
    pub has_query :
        request.path
        ≡ S.path (S.with_query pairs c.url)
          ++ (b'?' ∷ unwrap_or [] (S.query (S.with_query pairs c.url)))

  since_of :
      (access : Str) (token : Option Str) → get (codes "since") (sync_pairs S access token) ≡ token
  unfolding sync_pairs get same
  since_of access none = refl
  since_of access (some token) = refl

  access_of :
      (access : Str) (token : Option Str)
      → get (codes "access_token") (sync_pairs S access token) ≡ some access
  unfolding sync_pairs get same
  access_of access token = refl

  next_request-AsksFor : (c : MatrixSyncClient S) → AsksFor c (next_request c)
  unfolding next_request sync_request path_and_query
  next_request-AsksFor c = record {
    pairs = sync_pairs S c.access_token c.next_token;
    since_token = since_of c.access_token c.next_token;
    own_token = access_of c.access_token c.next_token;
    is_get = refl;
    has_query = refl;
  }

  -- If setting the pairs of a query drops those that are there, then, however the polls of its
  -- requests end, a poll of the sync client has sent a number of requests, all a GET whose query
  -- has the token of the last batch it has got as `since`, or no `since` before the first, and its
  -- access token. The last batch changes just when a response is returned, to that one's. With no
  -- result yet a request is out, and otherwise none is.
  pub poll_sync-Polled :
      (polls : List OneshotPoll) (c : MatrixSyncClient S)
      → AsksFor c (next_request c) × Polled c (poll_sync S polls c)
  poll_sync-Polled polls c = (next_request-AsksFor c, polls-Polled polls c)
