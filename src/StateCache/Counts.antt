-- ===== src/StateCache/Counts.antt =====
-- `update_joined_count` of src/database/key_value/rooms/state_cache.rs and the caches that it fills.
use matrix_server.Base.{
  Bool, false, ◌||◌, Option, none, some, List, [], ◌∷◌, if◌then◌else◌, length, ite,
}
use matrix_server.Base.Bytes.{Bytes, dec_bytes, to_be_bytes}
use matrix_server.Base.Keys.{◌⋄◌}
use matrix_server.Base.HashSet.{HashSet, contains, insert, remove}
use matrix_server.Base.Effect.{Result, ok, err, panicked}
use matrix_server.Storage.{KvTree}
use matrix_server.Json.{RawJson}
use matrix_server.StateCache.{
  UserId, RoomId, ServerName, MemberDb, Env, map_insert, map_remove, is_joined,
}
use matrix_server.StateCache.Reading.{oks, room_members, room_members_invited, room_servers}

-- An appservice registration, as far as `appservice_in_room` reads its YAML: the regexes of the
-- user namespaces that compile, if there is a key `namespaces`, and the bridge's user id.
pub record Appservice : Type 0 where
  pub id : Bytes
  pub namespaces : Option (List (UserId → Bool))
  pub bridge_user_id : Option UserId

unfoldable pub any_matches : List (UserId → Bool) → UserId → Bool
any_matches [] user = false
any_matches (p ∷ ps) user = p user || any_matches ps user

unfoldable pub any_member : (UserId → Bool) → List UserId → Bool
any_member p [] = false
any_member p (x ∷ xs) = p x || any_member p xs

module _ {T S : Type 0} (kv : KvTree T) (states : RawJson S) (no_state : S) (env : Env) where
  open env use {server_of, our_server, is_deactivated}

  abbrev Db : Type 0
  Db = MemberDb T

  -- The loop over the joined members: the servers, and the users of this server that are active.
  unfoldable pub joined_servers : List UserId → HashSet ServerName → HashSet ServerName
  joined_servers [] servers = servers
  joined_servers (joined ∷ rest) servers =
      joined_servers rest (insert dec_bytes servers (server_of joined))

  unfoldable pub real_users : List UserId → HashSet UserId → HashSet UserId
  real_users [] users = users
  real_users (joined ∷ rest) users = real_users rest (
      ite (dec_bytes (server_of joined) our_server)
        (if is_deactivated joined then users else insert dec_bytes users joined) users)

  -- The loop over the servers that the database lists: those still joined are taken out of the
  -- set, the others out of the database. The last component is the set that is left.
  unfoldable pub drop_servers :
      RoomId → List ServerName → HashSet ServerName → T → T → T × T × HashSet ServerName
  drop_servers room [] servers roomserverids serverroomids = (roomserverids, serverroomids, servers)
  drop_servers room (old ∷ rest) servers roomserverids serverroomids =
      let joined =
        drop_servers room rest (remove dec_bytes servers old) roomserverids serverroomids in
      let gone =
        drop_servers room rest servers (kv.remove roomserverids (room ⋄ old))
          (kv.remove serverroomids (old ⋄ room)) in
      if contains dec_bytes servers old then joined else gone

  unfoldable pub add_servers : RoomId → List ServerName → T → T → T × T
  add_servers room [] roomserverids serverroomids = (roomserverids, serverroomids)
  add_servers room (server ∷ rest) roomserverids serverroomids =
      add_servers room rest (kv.insert roomserverids (room ⋄ server) [])
        (kv.insert serverroomids (server ⋄ room) [])

  unfoldable pub update_joined_count : RoomId → Db → Db
  unfolding joined_servers real_users drop_servers add_servers
  update_joined_count room_id s =
      let joined = oks (room_members kv states no_state env room_id s) in
      let invited = oks (room_members_invited kv states no_state env room_id s) in
      let old = oks (room_servers kv states no_state env room_id s) in
      let dropped =
        drop_servers room_id old (joined_servers joined []) s.roomserverids s.serverroomids in
      let added = add_servers room_id dropped.2 dropped.0 dropped.1 in
      record s {
        roomid_joinedcount = kv.insert s.roomid_joinedcount room_id (to_be_bytes (length joined));
        roomid_invitedcount =
            kv.insert s.roomid_invitedcount room_id (to_be_bytes (length invited));
        our_real_users_cache = map_insert s.our_real_users_cache room_id (real_users joined []);
        roomserverids = added.0;
        serverroomids = added.1;
        appservice_in_room_cache = map_remove s.appservice_in_room_cache room_id;
      }

  abbrev unwrap_users : Option (HashSet UserId) → Result (HashSet UserId)
  unwrap_users none = err panicked
  unwrap_users (some users) = ok users

  unfoldable pub get_our_real_users : RoomId → Db → Result (HashSet UserId) × Db
  unfolding update_joined_count
  get_our_real_users room_id s = elim (s.our_real_users_cache room_id) [
    | some users ↦ (ok users, s)
    | none ↦
        let s' = update_joined_count room_id s in
        (unwrap_users (s'.our_real_users_cache room_id), s')
  ]

  abbrev joined_bridge : Option UserId → RoomId → Db → Bool
  joined_bridge none room_id s = false
  joined_bridge (some id) room_id s = is_joined kv states no_state env id room_id s

  abbrev cached_answer : Option (Bytes → Option Bool) → Bytes → Option Bool
  cached_answer none id = none
  cached_answer (some answers) id = answers id

  abbrev with_answer : Option (Bytes → Option Bool) → Bytes → Bool → Bytes → Option Bool
  with_answer answers id b j = ite (dec_bytes id j) (some b) (cached_answer answers j)

  unfoldable pub appservice_in_room : RoomId → Appservice → Db → Bool × Db
  unfolding any_matches any_member
  appservice_in_room room_id appservice s =
      elim (cached_answer (s.appservice_in_room_cache room_id) appservice.id) [
        | some b ↦ (b, s)
        | none ↦ elim appservice.namespaces [
          | none ↦ (false, s)
          | some users ↦
              let in_room =
                joined_bridge appservice.bridge_user_id room_id s
                || any_member (any_matches users)
                    (oks (room_members kv states no_state env room_id s)) in
              (
                in_room,
                record s {
                  appservice_in_room_cache =
                      map_insert s.appservice_in_room_cache room_id
                        (with_answer (s.appservice_in_room_cache room_id) appservice.id in_room);
                },
              )
        ]
      ]
