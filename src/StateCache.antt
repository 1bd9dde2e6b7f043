-- ===== src/StateCache.antt =====
-- src/database/key_value/rooms/state_cache.rs: who is joined to, invited to or has left a room.
pub mod Reading
pub mod Counts
pub mod RealUsers
pub mod Membership
pub mod Mirror
pub mod Listing
use Prim.Native.String.{String}
use matrix_server.Base.{
  ℕ, ◌+◌, Bool, true, false, not, ◌&&◌, Option, none, some, List, [], ◌∷◌, if◌then◌else◌, length,
  ite, is_some,
}
use matrix_server.Base.Bytes.{Bytes, dec_bytes, to_be_bytes, u64_from_bytes}
use matrix_server.Base.Keys.{◌⋄◌, last_part}
use matrix_server.Base.HashSet.{HashSet, contains, insert, remove}
use matrix_server.Base.Effect.{
  Result, ok, err, bad_database, Error, Exec, modify, pure, ◌>>=◌, ◌>>◌,
}
use matrix_server.Storage.{KvTree, Entries}
use matrix_server.Globals.{next_count}
use matrix_server.Json.{RawJson}

-- User ids, room ids and server names are the bytes of their text.
abbrev pub UserId : Type 0
UserId = Bytes

abbrev pub RoomId : Type 0
RoomId = Bytes

abbrev pub ServerName : Type 0
ServerName = Bytes

-- A `HashMap` keyed by rooms.
abbrev pub RoomMap : Type 0 → Type 0
RoomMap A = RoomId → Option A

abbrev pub map_insert : {A : Type 0} → RoomMap A → RoomId → A → RoomMap A
map_insert m room a r = ite (dec_bytes room r) (some a) (m r)

abbrev pub map_remove : {A : Type 0} → RoomMap A → RoomId → RoomMap A
map_remove m room r = ite (dec_bytes room r) none (m r)

pub record MemberDb (T : Type 0) : Type 0 where
  pub global : T
  pub roomuseroncejoinedids : T
  pub userroomid_joined : T
  pub roomuserid_joined : T
  pub userroomid_invitestate : T
  pub roomuserid_invitecount : T
  pub userroomid_leftstate : T
  pub roomuserid_leftcount : T
  pub roomid_joinedcount : T
  pub roomid_invitedcount : T
  pub roomserverids : T
  pub serverroomids : T
  pub our_real_users_cache : RoomMap (HashSet UserId)
  pub appservice_in_room_cache : RoomMap (Bytes → Option Bool)

-- What the component asks of `ruma`, of the users service and of the configuration.
pub record Env : Type 0 where
  pub is_utf8 : Bytes → Bool
  pub is_user_id : Bytes → Bool
  pub is_room_id : Bytes → Bool
  pub is_server_name : Bytes → Bool
  -- `user_id.server_name()`
  pub server_of : UserId → ServerName
  -- `services().globals.server_name()`
  pub our_server : ServerName
  -- `services().users.is_deactivated(&user).unwrap_or(true)`
  pub is_deactivated : UserId → Bool

module _ {T S : Type 0} (kv : KvTree T) (states : RawJson S) (no_state : S) (env : Env) where
  open env use {
    is_utf8, is_user_id, is_room_id, is_server_name, server_of, our_server, is_deactivated,
  }

  abbrev Db : Type 0
  Db = MemberDb T

  unfoldable pub count : Exec Db ℕ
  count s = let (r, global') = next_count kv s.global in (r, record s { global = global' })

  unfoldable pub mark_as_once_joined : UserId → RoomId → Db → Db
  mark_as_once_joined user_id room_id s = record s {
    roomuseroncejoinedids = kv.insert s.roomuseroncejoinedids (user_id ⋄ room_id) [];
  }

  unfoldable pub mark_as_joined : UserId → RoomId → Db → Db
  mark_as_joined user_id room_id s = record s {
    userroomid_joined = kv.insert s.userroomid_joined (user_id ⋄ room_id) [];
    roomuserid_joined = kv.insert s.roomuserid_joined (room_id ⋄ user_id) [];
    userroomid_invitestate = kv.remove s.userroomid_invitestate (user_id ⋄ room_id);
    roomuserid_invitecount = kv.remove s.roomuserid_invitecount (room_id ⋄ user_id);
    userroomid_leftstate = kv.remove s.userroomid_leftstate (user_id ⋄ room_id);
    roomuserid_leftcount = kv.remove s.roomuserid_leftcount (room_id ⋄ user_id);
  }

  abbrev pub unwrap_or : Option S → S
  unwrap_or none = no_state
  unwrap_or (some state) = state

  unfoldable pub mark_as_invited : UserId → RoomId → Option S → Exec Db (Unit {0})
  mark_as_invited user_id room_id last_state = do
    modify (λ s. record s {
      userroomid_invitestate =
          kv.insert s.userroomid_invitestate (user_id ⋄ room_id)
            (states.to_vec (unwrap_or last_state));
    })
    number ← count
    modify (λ s. record s {
      roomuserid_invitecount =
          kv.insert s.roomuserid_invitecount (room_id ⋄ user_id) (to_be_bytes number);
      userroomid_joined = kv.remove s.userroomid_joined (user_id ⋄ room_id);
      roomuserid_joined = kv.remove s.roomuserid_joined (room_id ⋄ user_id);
      userroomid_leftstate = kv.remove s.userroomid_leftstate (user_id ⋄ room_id);
      roomuserid_leftcount = kv.remove s.roomuserid_leftcount (room_id ⋄ user_id);
    })

  unfoldable pub mark_as_left : UserId → RoomId → Exec Db (Unit {0})
  mark_as_left user_id room_id = do
    modify (λ s. record s {
      userroomid_leftstate =
          kv.insert s.userroomid_leftstate (user_id ⋄ room_id) (states.to_vec no_state);
    })
    number ← count
    modify (λ s. record s {
      roomuserid_leftcount =
          kv.insert s.roomuserid_leftcount (room_id ⋄ user_id) (to_be_bytes number);
      userroomid_joined = kv.remove s.userroomid_joined (user_id ⋄ room_id);
      roomuserid_joined = kv.remove s.roomuserid_joined (room_id ⋄ user_id);
      userroomid_invitestate = kv.remove s.userroomid_invitestate (user_id ⋄ room_id);
      roomuserid_invitecount = kv.remove s.roomuserid_invitecount (room_id ⋄ user_id);
    })

  unfoldable pub forget : RoomId → UserId → Db → Db
  forget room_id user_id s = record s {
    userroomid_leftstate = kv.remove s.userroomid_leftstate (user_id ⋄ room_id);
    roomuserid_leftcount = kv.remove s.roomuserid_leftcount (room_id ⋄ user_id);
  }

  unfoldable pub once_joined : UserId → RoomId → Db → Bool
  once_joined user_id room_id s = is_some (kv.get s.roomuseroncejoinedids (user_id ⋄ room_id))

  unfoldable pub is_joined : UserId → RoomId → Db → Bool
  is_joined user_id room_id s = is_some (kv.get s.userroomid_joined (user_id ⋄ room_id))

  unfoldable pub is_invited : UserId → RoomId → Db → Bool
  is_invited user_id room_id s = is_some (kv.get s.userroomid_invitestate (user_id ⋄ room_id))

  unfoldable pub is_left : UserId → RoomId → Db → Bool
  is_left user_id room_id s = is_some (kv.get s.userroomid_leftstate (user_id ⋄ room_id))
