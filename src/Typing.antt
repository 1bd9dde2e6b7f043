-- ===== src/Typing.antt =====
-- src/database/key_value/rooms/edus/typing.rs and src/service/rooms/edus/typing/mod.rs: who is typing in
-- a room, until when.
pub mod Maintaining
use matrix_server.Base.{
  ℕ, Bool, true, false, Option, none, some, List, [], ◌∷◌, if◌then◌else◌, ltb, ite, length, take,
}
use matrix_server.Base.Bytes.{Bytes, dec_bytes, to_be_bytes, u64_from_bytes}
use matrix_server.Base.Keys.{◌⋄◌, split_first}
use matrix_server.Base.HashSet.{HashSet, insert}
use matrix_server.Base.Effect.{
  Result, ok, err, bad_database, panicked, and_then, map_ok, ok_or, Exec, modify, pure, ◌>>=◌, ◌>>◌,
}
use matrix_server.Storage.{KvTree, Entries}
use matrix_server.Globals.{next_count}
use matrix_server.Users.{Names, checked}

pub record TypingDb (T : Type 0) : Type 0 where
  pub global : T
  pub typingid_userid : T
  pub roomid_lasttypingupdate : T

unfoldable pub collect_typing : Names → Entries → HashSet Bytes → Result (HashSet Bytes)
collect_typing names [] user_ids = ok user_ids
collect_typing names ((_, bytes) ∷ rest) user_ids =
    and_then (checked names.is_utf8 "User ID in typingid_userid is invalid unicode." bytes) (λ text.
      and_then (checked names.is_user_id "User ID in typingid_userid is invalid." text)
        (λ user_id. collect_typing names rest (insert dec_bytes user_ids user_id)))

module _ {T : Type 0} (kv : KvTree T) where
  abbrev Db : Type 0
  Db = TypingDb T

  -- `services().globals.next_count()?`
  unfoldable pub draw_number : Exec Db ℕ
  draw_number s = let (r, global') = next_count kv s.global in (r, record s { global = global' })

  unfoldable pub typing_add : Bytes → Bytes → ℕ → Exec Db (Unit {0})
  unfolding draw_number
  typing_add user_id room_id timeout = do
    n ← draw_number
    modify (λ s. record s {
      typingid_userid =
          kv.insert s.typingid_userid (room_id ⋄ to_be_bytes timeout ⋄ to_be_bytes n) user_id;
      roomid_lasttypingupdate = kv.insert s.roomid_lasttypingupdate room_id (to_be_bytes n);
    })

  -- `if found_outdated { .. }`
  unfoldable pub mark_outdated : Bytes → Bool → Exec Db (Unit {0})
  unfolding draw_number
  mark_outdated room_id false = pure tt
  mark_outdated room_id true = do
    n ← draw_number
    modify (λ s. record s {
      roomid_lasttypingupdate = kv.insert s.roomid_lasttypingupdate room_id (to_be_bytes n);
    })

  -- The loop of `typing_remove`: whether an entry of the user was found, and the tree.
  unfoldable pub remove_user : Bytes → Entries → T → Bool × T
  remove_user user_id [] t = (false, t)
  remove_user user_id ((key, v) ∷ rest) t =
      let skipped = remove_user user_id rest t in
      let removed = remove_user user_id rest (kv.remove t key) in
      ite (dec_bytes v user_id) (true, removed.1) skipped

  unfoldable pub typing_remove : Bytes → Bytes → Exec Db (Unit {0})
  unfolding remove_user mark_outdated
  typing_remove user_id room_id s =
      let (found_outdated, t) =
        remove_user user_id (kv.scan_prefix s.typingid_userid (room_id ⋄ [])) s.typingid_userid in
      mark_outdated room_id found_outdated (record s { typingid_userid = t })

  -- The loop of `typings_maintain`. A key whose second part has less than eight bytes makes the
  -- slicing panic; one without a second part would be left out.
  unfoldable pub remove_outdated : ℕ → Entries → T → Result Bool × T
  remove_outdated now [] t = (ok false, t)
  remove_outdated now ((key, _) ∷ rest) t =
      let skipped = remove_outdated now rest t in
      let (r, t') = remove_outdated now rest (kv.remove t key) in
      elim (split_first key).1 [
        | none ↦ skipped
        | some part ↦
            if ltb (length part) 8
            then (err panicked, t)
            else (elim (u64_from_bytes (take 8 part)) [
              | none ↦ skipped
              | some timestamp ↦
                  if ltb timestamp now then (map_ok (λ _. true) r, t') else (ok false, t)
            ])
      ]

  -- `current_timestamp` is the time in milliseconds.
  unfoldable pub typings_maintain : ℕ → Bytes → Exec Db (Unit {0})
  unfolding remove_outdated mark_outdated
  typings_maintain current_timestamp room_id s =
      let (r, t) =
        remove_outdated current_timestamp (kv.scan_prefix s.typingid_userid (room_id ⋄ []))
          s.typingid_userid in
      elim r [
        | err e ↦ (err e, record s { typingid_userid = t })
        | ok found_outdated ↦
            mark_outdated room_id found_outdated (record s { typingid_userid = t })
      ]

  unfoldable pub stored_typing_update : Bytes → Db → Result ℕ
  stored_typing_update room_id s = elim (kv.get s.roomid_lasttypingupdate room_id) [
    | none ↦ ok 0
    | some bytes ↦
        ok_or (u64_from_bytes bytes)
          (bad_database "Count in roomid_lastroomactiveupdate is invalid.")
  ]

  -- The service's `last_typing_update`.
  unfoldable pub last_typing_update : ℕ → Bytes → Exec Db ℕ
  unfolding typings_maintain stored_typing_update
  last_typing_update current_timestamp room_id = do
    typings_maintain current_timestamp room_id
    λ s. (stored_typing_update room_id s, s)

  unfoldable pub typings_all : Names → Bytes → Db → Result (HashSet Bytes)
  unfolding collect_typing
  typings_all names room_id s =
      collect_typing names (kv.scan_prefix s.typingid_userid (room_id ⋄ [])) []
