-- ===== src/Matrix/Client/Rooms.antt =====
-- The rooms of a sync response: each is known to the client afterwards, and none brings back what
-- this program has sent.
use matrix_ircd.Prelude.{
  ◌≡◌, refl, ap, subst, false, inl, inr, Option, none, some, List, [], ◌∷◌, Bool-cases,
}
use matrix_ircd.Prelude.{returns, >>=-eq-returns}
use matrix_ircd.Prelude.{returns_injective}
use matrix_ircd.Text.{Str, same}
use matrix_ircd.BTreeMap.{BTreeMap, get}
use matrix_ircd.BTreeMap
use matrix_ircd.BTreeMap.Laws.{get-insert, get-insert_self}
use matrix_ircd.Irc.Socket.{Poll, ready, not_ready, failed}
use matrix_ircd.Http.Client.{OneshotPoll}
use matrix_ircd.Matrix.Models.{Room}
use matrix_ircd.Matrix.Protocol.{Json, Event, JoinedRoomSyncResponse, SyncResponse}
use matrix_ircd.Matrix.Services.{Services}
use matrix_ircd.Matrix.SyncClient.{poll_sync}
use matrix_ircd.Matrix.Client.{
  MatrixClient, is_own, retain_others, without_echoes, synced_room, sync_rooms, after_sync, poll,
}

module _ {J : Json} where
  -- None of the events is an echo of a message of this program.
  abbrev pub NoEchoes : List (Event J) → Type 0
  NoEchoes [] = Unit
  NoEchoes (ev ∷ events) = (is_own ev ≡ false) × NoEchoes events

  retain_others-NoEchoes : (events : List (Event J)) → NoEchoes (retain_others events)
  unfolding retain_others
  retain_others-NoEchoes [] = tt
  retain_others-NoEchoes (ev ∷ events) = elim (Bool-cases (is_own ev)) [
    | inl e ↦ rw e (retain_others-NoEchoes events)
    | inr e ↦ rw e (e, retain_others-NoEchoes events)
  ]

  -- Every room of the list is one of the map, and has no echoes.
  abbrev pub AreSynced : BTreeMap (Room J) → List (Str × JoinedRoomSyncResponse J) → Type 0
  AreSynced rooms [] = Unit
  AreSynced rooms ((room_id, sync) ∷ joins) =
      ((room : Room J) × (get room_id rooms ≡ some room))
      × NoEchoes sync.timeline.events
      × AreSynced rooms joins

  Grows : BTreeMap (Room J) → BTreeMap (Room J) → Type 0
  Grows rooms rooms' =
      (room_id : Str) (room : Room J)
      → get room_id rooms ≡ some room
      → (room' : Room J) × (get room_id rooms' ≡ some room')

  insert-Grows :
      (room_id : Str) (room : Room J) (rooms : BTreeMap (Room J))
      → Grows rooms (BTreeMap.insert room_id room rooms)
  unfolding Grows
  insert-Grows room_id room rooms other found e = elim (Bool-cases (same room_id other)) [
    | inl q ↦ (room, rw (get-insert, q) refl)
    | inr q ↦ (found, rw (get-insert, q) e)
  ]

  abbrev Synced :
      BTreeMap (Room J) → BTreeMap (Room J) × List (Str × JoinedRoomSyncResponse J) → Type 0
  Synced rooms r = Grows rooms r.0 × AreSynced r.0 r.1

  sync_rooms-Synced :
      (joins : List (Str × JoinedRoomSyncResponse J)) (rooms : BTreeMap (Room J))
      (r : BTreeMap (Room J) × List (Str × JoinedRoomSyncResponse J))
      → sync_rooms rooms joins ≡ returns r
      → Synced rooms r
  unfolding sync_rooms Grows without_echoes
  sync_rooms-Synced [] rooms r h =
      subst (Synced rooms) (returns_injective h) (λ room_id room e. (room, e), tt)
  sync_rooms-Synced ((room_id, sync) ∷ joins) rooms r h =
      let (room, e, h') =
        >>=-eq-returns (synced_room room_id (without_echoes sync) (get room_id rooms)) _ h in
      let later = BTreeMap.insert room_id room rooms in
      let (rest, e', h'') = >>=-eq-returns (sync_rooms later joins) _ h' in
      let (grows, synced) = sync_rooms-Synced joins later rest e' in
      subst (Synced rooms) (returns_injective h'') (
        λ other found k.
            let (found', k') = insert-Grows room_id room rooms other found k in
            grows other found' k',
        (
          grows room_id room (get-insert_self room_id room rooms),
          retain_others-NoEchoes sync.timeline.events,
          synced,
        ),
      )

module _ {J : Json} (S : Services J) where
  abbrev SyncedPoll : Poll (Option (SyncResponse J)) × MatrixClient S × List OneshotPoll → Type 0
  SyncedPoll (ready (some r), c', _) = AreSynced c'.rooms r.rooms.join
  SyncedPoll (ready none, c', _) = Unit
  SyncedPoll (not_ready, c', _) = Unit
  SyncedPoll (failed e, c', _) = Unit

  after_sync-Synced :
      (p : Poll (SyncResponse J)) (c c' : MatrixClient S) (polls rest : List OneshotPoll)
      (r : SyncResponse J)
      → after_sync S p c polls ≡ returns (ready (some r), c', rest)
      → AreSynced c'.rooms r.rooms.join
  unfolding after_sync
  after_sync-Synced not_ready c c' polls rest r h =
      absurd (let p = ap (λ x. x.0) (returns_injective h) in cc)
  after_sync-Synced (failed x) c c' polls rest r h =
      absurd (let p = ap (λ x. x.0) (returns_injective h) in cc)
  after_sync-Synced (ready resp) c c' polls rest r h =
      let (s, e, h') = >>=-eq-returns (sync_rooms c.rooms resp.rooms.join) _ h in
      let (_, synced) = sync_rooms-Synced resp.rooms.join c.rooms s e in
      subst SyncedPoll (returns_injective h') synced

  pub poll-AreSynced :
      (polls rest : List OneshotPoll) (c c' : MatrixClient S) (r : SyncResponse J)
      → poll S polls c ≡ returns (ready (some r), c', rest)
      → AreSynced c'.rooms r.rooms.join
  unfolding poll
  poll-AreSynced polls rest c c' r h =
      let (p, sync_client, left) = poll_sync S polls c.sync_client in
      after_sync-Synced p (record c { sync_client = sync_client }) c' left rest r h
