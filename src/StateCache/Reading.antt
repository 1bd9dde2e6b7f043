-- ===== src/StateCache/Reading.antt =====
-- The iterators and counters of src/database/key_value/rooms/state_cache.rs.
use matrix_server.Base.{ℕ, Bool, Option, none, some, List, [], ◌∷◌, if◌then◌else◌, is_some}
use Prim.Native.String.{String}
use matrix_server.Base.Bytes.{Bytes, u64_from_bytes}
use matrix_server.Base.Keys.{◌⋄◌, last_part}
use matrix_server.Base.Effect.{Result, ok, err, bad_database, map_ok, ok_or, and_then}
use matrix_server.Storage.{KvTree, Entries}
use matrix_server.Json.{RawJson}
use matrix_server.StateCache.{UserId, RoomId, ServerName, MemberDb, Env}

-- Parsing the last part of a key, as every iterator of the file does.
abbrev pub parse_last : (Bytes → Bool) → (Bytes → Bool) → String → String → Bytes → Result Bytes
parse_last is_utf8 is_valid not_utf8 invalid key =
    if is_utf8 (last_part key)
    then (if is_valid (last_part key) then ok (last_part key) else err (bad_database invalid))
    else err (bad_database not_utf8)

unfoldable pub parse_keys : (Bytes → Result Bytes) → Entries → List (Result Bytes)
parse_keys parse [] = []
parse_keys parse ((key, _) ∷ rest) = parse key ∷ parse_keys parse rest

-- `filter_map(|r| r.ok())`
unfoldable pub oks : List (Result Bytes) → List Bytes
oks [] = []
oks (ok x ∷ rest) = x ∷ oks rest
oks (err e ∷ rest) = oks rest

module _ {T S : Type 0} (kv : KvTree T) (states : RawJson S) (no_state : S) (env : Env) where
  open env use {is_utf8, is_user_id, is_room_id, is_server_name}

  abbrev Db : Type 0
  Db = MemberDb T

  unfoldable pub room_servers : RoomId → Db → List (Result ServerName)
  unfolding parse_keys
  room_servers room_id s =
      parse_keys
        (parse_last is_utf8 is_server_name "Server name in roomserverids is invalid unicode."
          "Server name in roomserverids is invalid.")
        (kv.scan_prefix s.roomserverids (room_id ⋄ []))

  unfoldable pub server_in_room : ServerName → RoomId → Db → Bool
  server_in_room server room_id s = is_some (kv.get s.serverroomids (server ⋄ room_id))

  unfoldable pub server_rooms : ServerName → Db → List (Result RoomId)
  unfolding parse_keys
  server_rooms server s =
      parse_keys
        (parse_last is_utf8 is_room_id "RoomId in serverroomids is invalid unicode."
          "RoomId in serverroomids is invalid.")
        (kv.scan_prefix s.serverroomids (server ⋄ []))

  unfoldable pub room_members : RoomId → Db → List (Result UserId)
  unfolding parse_keys
  room_members room_id s =
      parse_keys
        (parse_last is_utf8 is_user_id "User ID in roomuserid_joined is invalid unicode."
          "User ID in roomuserid_joined is invalid.")
        (kv.scan_prefix s.roomuserid_joined (room_id ⋄ []))

  unfoldable pub room_useroncejoined : RoomId → Db → List (Result UserId)
  unfolding parse_keys
  room_useroncejoined room_id s =
      parse_keys
        (parse_last is_utf8 is_user_id "User ID in room_useroncejoined is invalid unicode."
          "User ID in room_useroncejoined is invalid.")
        (kv.scan_prefix s.roomuseroncejoinedids (room_id ⋄ []))

  unfoldable pub room_members_invited : RoomId → Db → List (Result UserId)
  unfolding parse_keys
  room_members_invited room_id s =
      parse_keys
        (parse_last is_utf8 is_user_id "User ID in roomuserid_invited is invalid unicode."
          "User ID in roomuserid_invited is invalid.")
        (kv.scan_prefix s.roomuserid_invitecount (room_id ⋄ []))

  -- The prefix is the user id alone, with no separator behind it.
  unfoldable pub rooms_joined : UserId → Db → List (Result RoomId)
  unfolding parse_keys
  rooms_joined user_id s =
      parse_keys
        (parse_last is_utf8 is_room_id "Room ID in userroomid_joined is invalid unicode."
          "Room ID in userroomid_joined is invalid.")
        (kv.scan_prefix s.userroomid_joined user_id)

  unfoldable pub room_joined_count : RoomId → Db → Result (Option ℕ)
  room_joined_count room_id s = elim (kv.get s.roomid_joinedcount room_id) [
    | none ↦ ok none
    | some bytes ↦
        map_ok some (ok_or (u64_from_bytes bytes) (bad_database "Invalid joinedcount in db."))
  ]

  unfoldable pub room_invited_count : RoomId → Db → Result (Option ℕ)
  room_invited_count room_id s = elim (kv.get s.roomid_invitedcount room_id) [
    | none ↦ ok none
    | some bytes ↦
        map_ok some (ok_or (u64_from_bytes bytes) (bad_database "Invalid joinedcount in db."))
  ]

  unfoldable pub get_invite_count : RoomId → UserId → Db → Result (Option ℕ)
  get_invite_count room_id user_id s = elim (kv.get s.roomuserid_invitecount (room_id ⋄ user_id)) [
    | none ↦ ok none
    | some bytes ↦
        map_ok some (ok_or (u64_from_bytes bytes) (bad_database "Invalid invitecount in db."))
  ]

  unfoldable pub get_left_count : RoomId → UserId → Db → Result (Option ℕ)
  get_left_count room_id user_id s = elim (kv.get s.roomuserid_leftcount (room_id ⋄ user_id)) [
    | none ↦ ok none
    | some bytes ↦
        map_ok some (ok_or (u64_from_bytes bytes) (bad_database "Invalid leftcount in db."))
  ]

  abbrev state_of : String → Bytes → Result S
  state_of message bytes = ok_or (states.from_slice bytes) (bad_database message)

  unfoldable pub invite_state : UserId → RoomId → Db → Result (Option S)
  invite_state user_id room_id s = elim (kv.get s.userroomid_invitestate (user_id ⋄ room_id)) [
    | none ↦ ok none
    | some bytes ↦ map_ok some (state_of "Invalid state in userroomid_invitestate." bytes)
  ]

  unfoldable pub left_state : UserId → RoomId → Db → Result (Option S)
  left_state user_id room_id s = elim (kv.get s.userroomid_leftstate (user_id ⋄ room_id)) [
    | none ↦ ok none
    | some bytes ↦ map_ok some (state_of "Invalid state in userroomid_leftstate." bytes)
  ]

  -- The items of `rooms_invited` and `rooms_left`: a room and the state stored for it.
  unfoldable pub parse_states : String → Entries → List (Result (RoomId × S))
  parse_states message [] = []
  parse_states message ((key, bytes) ∷ rest) =
      and_then {B = RoomId × S}
        (parse_last is_utf8 is_room_id "Room ID in userroomid_invited is invalid unicode."
          "Room ID in userroomid_invited is invalid." key)
        (λ room_id. map_ok (λ state. (room_id, state)) (state_of message bytes))
      ∷ parse_states message rest

  unfoldable pub rooms_invited : UserId → Db → List (Result (RoomId × S))
  unfolding parse_states
  rooms_invited user_id s =
      parse_states "Invalid state in userroomid_invitestate."
        (kv.scan_prefix s.userroomid_invitestate (user_id ⋄ []))

  unfoldable pub rooms_left : UserId → Db → List (Result (RoomId × S))
  unfolding parse_states
  rooms_left user_id s =
      parse_states "Invalid state in userroomid_leftstate."
        (kv.scan_prefix s.userroomid_leftstate (user_id ⋄ []))
