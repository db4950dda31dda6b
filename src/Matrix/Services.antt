-- ===== src/Matrix/Services.antt =====
-- What src/matrix/mod.rs and src/matrix/sync.rs call of other libraries: the url, serde_json, rand,
-- regex and percent-encoding crates.
use matrix_ircd.Prelude.{ℕ, Option, List, ◌⊎◌}
use matrix_ircd.Text.{Str}
use matrix_ircd.Text.Utf8.{Bytes}
use matrix_ircd.Matrix.Protocol.{
  Json, SyncResponse, LoginPasswordInput, LoginResponse, RoomJoinInput, RoomJoinResponse,
  RoomSendInput, RoomSendResponse,
}

-- `with_query` is `query_pairs_mut().clear()` and an `append_pair` for each pair. A reader gives the
-- text of its error or a value. `mxc_path` is the group that `^mxc://([^/]+/[^/]+)$` captures, and
-- `transaction` the number that `thread_rng` gives for the request of this oneshot.
pub record Services (J : Json) : Type 1 where
  pub Url : Type 0
  pub host_str : Url → Option Str
  pub port_or_known_default : Url → Option ℕ
  pub scheme : Url → Str
  pub join : Url → Str → Option Url
  pub path : Url → Str
  pub query : Url → Option Str
  pub with_query : List (Str × Str) → Url → Url
  pub into_string : Url → Str
  pub percent_encode : Str → Str
  pub mxc_path : Str → Option Str
  pub transaction : ℕ → ℕ
  pub write_login : LoginPasswordInput → Bytes
  pub write_join : RoomJoinInput → Bytes
  pub write_send : RoomSendInput → Bytes
  pub read_login : Bytes → Str ⊎ LoginResponse
  pub read_join : Bytes → Str ⊎ RoomJoinResponse
  pub read_send : Bytes → Str ⊎ RoomSendResponse
  pub read_sync : Bytes → Str ⊎ SyncResponse J
