-- ===== src/Matrix/SyncClient.antt =====
-- src/matrix/sync.rs: `MatrixSyncClient`. What the polls of its response give is a list.
pub mod Since
pub mod Shorter
use matrix_ircd.Prelude.{
  ℕ, zero, suc, ◌+◌, ◌-◌, ◌*◌, ◌/◌, ◌%◌, ◌<◌, ◌≤◌, ◌≡◌, refl, sym, ap, ap₂, subst, ◌∙◌, ◌≡⟨◌⟩◌, ◌∎,
  Bool, true, false, ◌&&◌, ◌||◌, not, ◌≢◌, ◌↔◌, ◌⊎◌, inl, inr, Option, none, some, List, [], ◌∷◌,
  ◌++◌, map, append-nil, append_assoc, arith, leb, ltb, ◌==◌, if◌then◌else◌, Bool-cases,
  Option-cases, length, length-append, get_elem?, take, drop, String, ==_iff,
}
use matrix_ircd.Prelude.{Outcome, returns, panics, ◌>>=◌, >>=-eq-returns}
use matrix_ircd.Text.{Str, codes, same}
use matrix_ircd.Text.Decimal.{decimal}
use matrix_ircd.Text.Utf8.{Bytes}
use matrix_ircd.Irc.Socket.{IoError, other, Poll, ready, not_ready, failed}
use matrix_ircd.Http.Client
use matrix_ircd.Http.Client.{Request, Shared, new_shared, send_request, OneshotPoll, poll_response}
use matrix_ircd.Http.Parser.{Response}
use matrix_ircd.Matrix.Models.{unwrap_or}
use matrix_ircd.Matrix.Protocol.{Json, SyncResponse}
use matrix_ircd.Matrix.Services.{Services}

-- The host, the port and whether to use TLS.
pub record Server : Type 0 where
  pub host : Str
  pub port : ℕ
  pub tls : Bool

abbrev pub io_error : Str → IoError
io_error message = record { kind = other; message = message }

module _ {J : Json} (S : Services J) where
  pub record MatrixSyncClient : Type 0 where
    pub url : S.Url
    pub access_token : Str
    pub next_token : Option Str
    pub http_stream : Shared
    pub current_sync : Option ℕ

  tls_of : Str → Outcome Bool
  tls_of scheme =
      if same scheme (codes "http")
      then returns false
      else if same scheme (codes "https")
      then returns true
      else panics

  -- The server of a URL; `expect`, `unwrap` and other schemes panic.
  server_at : Option Str → Option ℕ → Str → Outcome Server
  unfolding tls_of
  server_at none port scheme = panics
  server_at (some host) none scheme = panics
  server_at (some host) (some port) scheme =
      tls_of scheme >>= λ tls. returns (record { host = host; port = port; tls = tls })

  unfoldable pub server_of : S.Url → Outcome Server
  unfolding server_at
  server_of url = server_at (S.host_str url) (S.port_or_known_default url) (S.scheme url)

  unwrap : {A : Type 0} → Option A → Outcome A
  unwrap none = panics
  unwrap (some a) = returns a

  unfoldable pub joined : S.Url → Str → Outcome S.Url
  unfolding unwrap
  joined url path = unwrap (S.join url path)

  unfoldable pub new : S.Url → Str → Outcome (MatrixSyncClient × Server)
  unfolding server_of joined
  new base_url access_token = server_of base_url >>= λ server.
      joined base_url (codes "/_matrix/client/r0/sync") >>= λ url. returns (
        record {
          url = url;
          access_token = access_token;
          next_token = none;
          http_stream = new_shared;
          current_sync = none;
        },
        server,
      )

  since : Option Str → List (Str × Str)
  since none = []
  since (some token) = (codes "since", token) ∷ []

  unfoldable pub sync_pairs : Str → Option Str → List (Str × Str)
  unfolding since
  sync_pairs access_token next_token =
      (codes "access_token", access_token)
      ∷ (codes "filter", codes "{\"presence\":{\"not_types\":[\"m.presence\"]}}")
      ∷ (codes "timeout", codes "30000")
      ∷ since next_token

  -- `format!("{}?{}", url.path(), url.query().unwrap_or(""))`.
  unfoldable pub path_and_query : S.Url → Str
  unfolding unwrap_or
  path_and_query url = S.path url ++ (b'?' ∷ unwrap_or [] (S.query url))

  unfoldable pub sync_request : S.Url → Request
  unfolding path_and_query
  sync_request url = record {
    method = codes "GET";
    path = path_and_query url;
    headers = [];
    body = [];
  }

  -- A request, unless one is out.
  unfoldable pub ask : MatrixSyncClient → ℕ × MatrixSyncClient
  unfolding sync_request sync_pairs
  ask c = elim c.current_sync [
    | some current_sync ↦ (current_sync, c)
    | none ↦
        let url = S.with_query (sync_pairs c.access_token c.next_token) c.url in
        let (future, http_stream) = send_request (sync_request url) c.http_stream in
        (future, record c { url = url; http_stream = http_stream; current_sync = some future })
  ]

  abbrev pub SyncResult : Type 0
  SyncResult = Poll (SyncResponse J) × MatrixSyncClient × List OneshotPoll

  read_body : Str ⊎ SyncResponse J → MatrixSyncClient → Poll (SyncResponse J) × MatrixSyncClient
  read_body (inl e) c = (failed (io_error (codes "Sync returned invalid JSON: " ++ e)), c)
  read_body (inr sync_response) c =
      (ready sync_response, record c { next_token = some sync_response.next_batch })

  -- A response that has come; `current_sync` has been taken.
  unfoldable pub read_response :
      Response → MatrixSyncClient → Poll (SyncResponse J) × MatrixSyncClient
  unfolding read_body
  read_response response c =
      if response.code == 200
      then read_body (S.read_sync response.body) c
      else (failed (io_error (codes "Sync returned " ++ decimal response.code)), c)

  -- What follows the poll of the request; `again` is the next round.
  after_poll :
      (MatrixSyncClient → SyncResult)
      → List OneshotPoll
      → MatrixSyncClient
      → Poll Response
      → SyncResult
  unfolding read_response
  after_poll again rest c (ready response) =
      let (p, c') = read_response response (record c { current_sync = none }) in (p, c', rest)
  after_poll again rest c not_ready = (not_ready, c, rest)
  after_poll again rest c (failed e) = again (record c { current_sync = none })

  unfoldable pub poll_sync : List OneshotPoll → MatrixSyncClient → SyncResult
  unfolding ask after_poll
  poll_sync [] c = (not_ready, (ask c).1, [])
  poll_sync (p ∷ polls) c = after_poll (poll_sync polls) polls (ask c).1 (poll_response p)
