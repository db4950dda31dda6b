-- ===== src/Bridge/Events/Joins.antt =====
-- src/bridge/mod.rs: the end of a join, and the sides of the store.
use matrix_ircd.Prelude.{Option, none, some, inl, inr, Bool-cases}
use matrix_ircd.Text.{same}
use matrix_ircd.Irc.User.{write_redirect_join, IrcUserConnection}
use matrix_ircd.Prelude.{◌≡◌, refl, ◌⊎◌, inr, none, some}
use matrix_ircd.Text.{Str}
use matrix_ircd.Bridge.MappingStore.Channels.{IsMapped}
use matrix_ircd.Matrix.Client.{JsonPostError}
use matrix_ircd.Matrix.Protocol.{Json}
use matrix_ircd.Matrix.Services.{Services}
use matrix_ircd.Bridge.Events.{Bridge, redirect}
use matrix_ircd.Matrix.Protocol.{RoomJoinResponse}
use matrix_ircd.Bridge.Events.{note_join, joined_room}
use matrix_ircd.Bridge.MappingStore.{room_id_to_channel}
use matrix_ircd.Http.Parser.{Response}
use matrix_ircd.Matrix.Client.{json_response}
use matrix_ircd.Bridge.Events.{finish_join}
use matrix_ircd.Bridge.Events.Lines.{SameModel, IsMapped-SameModel}

module _ {J : Json} (S : Services J) where
  -- The mappings fit the IRC side, and it is the first sync or not as before.
  abbrev pub JoinKeeps : Bridge S → Bridge S → Type 0
  JoinKeeps b b' = IsMapped (b'.mappings, b'.irc_conn) × (b'.is_first_sync ≡ b.is_first_sync)

  redirect-SameModel :
      (c : IrcUserConnection) (attempt channel : Str) → SameModel c (redirect S c attempt channel)
  unfolding redirect write_redirect_join SameModel
  redirect-SameModel c attempt channel = elim (Bool-cases (same attempt channel)) [
    | inl e ↦ rw e refl
    | inr e ↦ rw e refl
  ]

  note_join-JoinKeeps :
      (b : Bridge S) (channel room_id : Str) (mapped : Option Str)
      → IsMapped (b.mappings, b.irc_conn)
      → JoinKeeps b (note_join S b channel room_id mapped)
  unfolding note_join
  note_join-JoinKeeps b channel room_id (some mapped) h = (
    IsMapped-SameModel b.mappings b.irc_conn (redirect S b.irc_conn channel mapped)
        (redirect-SameModel b.irc_conn channel mapped) h,
    refl,
  )
  note_join-JoinKeeps b channel room_id none h = (h, refl)

  joined_room-JoinKeeps :
      (b : Bridge S) (channel : Str) (response : JsonPostError ⊎ RoomJoinResponse)
      → IsMapped (b.mappings, b.irc_conn)
      → JoinKeeps b (joined_room S b channel response)
  unfolding joined_room
  joined_room-JoinKeeps b channel (inl e) h = (h, refl)
  joined_room-JoinKeeps b channel (inr r) h =
      note_join-JoinKeeps b channel r.room_id (room_id_to_channel b.mappings r.room_id) h

  pub finish_join-JoinKeeps :
      (b : Bridge S) (channel : Str) (response : Response)
      → IsMapped (b.mappings, b.irc_conn)
      → JoinKeeps b (finish_join S b channel response)
  unfolding finish_join
  finish_join-JoinKeeps b channel response h =
      joined_room-JoinKeeps b channel (json_response S.read_join response) h
