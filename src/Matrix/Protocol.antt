-- ===== src/Matrix/Protocol.antt =====
-- src/matrix/protocol.rs: the parts of a sync response. The type of JSON values and what the source
-- calls on it come from serde_json and are a parameter.
use matrix_ircd.Prelude.{ℕ, Bool, Option, List}
use matrix_ircd.Text.{Str}
use matrix_ircd.BTreeMap.{BTreeMap}

-- `serde_json::Value`, with `get` at a key, `as_object`, `as_str` and `as_u64`.
pub record Json : Type 1 where
  pub Value : Type 0
  pub get : Value → Str → Option Value
  pub as_object : Value → Option (BTreeMap Value)
  pub as_str : Value → Option Str
  pub as_u64 : Value → Option ℕ

pub record EventUnsigned : Type 0 where
  pub transaction_id : Option Str

pub record Event (J : Json) : Type 0 where
  pub sender : Str
  pub event_id : Str
  pub etype : Str
  pub state_key : Option Str
  pub content : J.Value
  pub unsigned : EventUnsigned

pub record RoomTimelineSyncResponse (J : Json) : Type 0 where
  pub limited : Bool
  pub prev_batch : Str
  pub events : List (Event J)

pub record RoomStateSyncResponse (J : Json) : Type 0 where
  pub events : List (Event J)

pub record JoinedRoomSyncResponse (J : Json) : Type 0 where
  pub timeline : RoomTimelineSyncResponse J
  pub state : RoomStateSyncResponse J

pub record RoomsSyncResponse (J : Json) : Type 0 where
  pub join : BTreeMap (JoinedRoomSyncResponse J)

pub record SyncResponse (J : Json) : Type 0 where
  pub next_batch : Str
  pub rooms : RoomsSyncResponse J

pub record LoginPasswordInput : Type 0 where
  pub user : Str
  pub password : Str
  pub login_type : Str

pub record LoginResponse : Type 0 where
  pub access_token : Str
  pub device_id : Str
  pub home_server : Str
  pub user_id : Str

pub record RoomJoinInput : Type 0 where

pub record RoomJoinResponse : Type 0 where
  pub room_id : Str

pub record RoomSendInput : Type 0 where
  pub msgtype : Str
  pub body : Str

pub record RoomSendResponse : Type 0 where
  pub event_id : Str
