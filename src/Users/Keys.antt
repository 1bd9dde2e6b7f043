-- ===== src/Users/Keys.antt =====
-- src/database/key_value/users.rs: device keys, cross-signing keys and the list of key changes.
-- `sign_key` and the two functions that call `clean_signatures` edit JSON values; they are not modelled.
pub mod Changes
use matrix_server.Base.{
  ℕ, ◌+◌, Bool, true, false, Option, none, some, List, [], ◌∷◌, if◌then◌else◌, leb, ◌&&◌, ◌-◌, ◌%◌,
}
use matrix_server.Base.Bytes.{Bytes, to_be_bytes, u64_from_bytes, u64_mod, starts_with}
use matrix_server.Base.Keys.{◌⋄◌, split_first}
use matrix_server.Base.Effect.{
  Result, ok, err, bad_database, bad_request, invalid_param, ok_or, map_ok, and_then, Exec, modify,
  pure, lift, ◌>>=◌, ◌>>◌,
}
use matrix_server.Storage.{KvTree, Entries}
use matrix_server.Json.{RawJson}
use matrix_server.Users.{UserDb, Names, draw_count, checked, String}

-- The one key of a cross-signing key, with the messages of its errors; `values` are the values of
-- its map of keys, if it can be read.
unfoldable pub single_key : String → String → String → Option (List Bytes) → Result Bytes
single_key invalid empty more none = err (bad_request invalid_param invalid)
single_key invalid empty more (some []) = err (bad_request invalid_param empty)
single_key invalid empty more (some (k ∷ [])) = ok k
single_key invalid empty more (some (k ∷ l ∷ rest)) = err (bad_request invalid_param more)

abbrev unwrap_or : Option ℕ → ℕ → ℕ
unwrap_or none n = n
unwrap_or (some m) n = m

-- The closure of `take_while`.
unfoldable pub is_change : Bytes → ℕ → Bytes → Bool
is_change prefix to key = starts_with prefix key && (elim (split_first key).1 [
  | none ↦ false
  | some current ↦ elim (u64_from_bytes current) [ none ↦ false | some c ↦ leb c to ]
])

unfoldable pub take_changes : Bytes → ℕ → Entries → Entries
unfolding is_change
take_changes prefix to [] = []
take_changes prefix to ((key, bytes) ∷ rest) =
    let more = take_changes prefix to rest in
    if is_change prefix to key then (key, bytes) ∷ more else []

unfoldable pub parse_changes : Names → Entries → List (Result Bytes)
parse_changes names [] = []
parse_changes names ((_, bytes) ∷ rest) =
    and_then (checked names.is_utf8 "User ID in devicekeychangeid_userid is invalid unicode." bytes)
      (checked names.is_user_id "User ID in devicekeychangeid_userid is invalid.")
    ∷ parse_changes names rest

module _ {T : Type 0} (kv : KvTree T) where
  -- `from + 1` wraps around. Without an end it is `u64::MAX`.
  unfoldable pub changes : Bytes → ℕ → Option ℕ → UserDb T → Entries
  unfolding take_changes
  changes user_or_room_id from to s =
      take_changes (user_or_room_id ⋄ []) (unwrap_or to (u64_mod - 1)) (
        kv.iter_from s.keychangeid_userid (user_or_room_id ⋄ to_be_bytes ((from + 1) % u64_mod))
          false)

  unfoldable pub insert_change : Bytes → Bytes → ℕ → T → T
  insert_change user_id id count t = kv.insert t (id ⋄ to_be_bytes count) user_id

  -- The loop over the rooms; `is_encrypted` looks up the room's state and may fail.
  unfoldable pub mark_rooms : (Bytes → Result Bool) → Bytes → ℕ → List Bytes → Exec T (Unit {0})
  unfolding insert_change
  mark_rooms is_encrypted user_id count [] t = (ok tt, t)
  mark_rooms is_encrypted user_id count (room_id ∷ rooms) t =
      let skipped = mark_rooms is_encrypted user_id count rooms t in
      let marked =
        mark_rooms is_encrypted user_id count rooms (insert_change user_id room_id count t) in
      elim (is_encrypted room_id) [
        | err e ↦ (err e, t)
        | ok encrypted ↦ if encrypted then marked else skipped
      ]

module _ {T K : Type 0} (kv : KvTree T) (names : Names) (keys : RawJson K)
    (values : K → Option (List Bytes)) (rooms_joined : Bytes → List Bytes)
    (is_encrypted : Bytes → Result Bool) where
  abbrev Db : Type 0
  Db = UserDb T

  unfoldable pub keys_changed : Bytes → ℕ → Option ℕ → Db → List (Result Bytes)
  unfolding changes parse_changes
  keys_changed user_or_room_id from to s =
      parse_changes names (changes kv user_or_room_id from to s)

  -- `rooms_joined` gives the rooms whose ids could be read.
  unfoldable pub mark_device_key_update : Bytes → Exec Db (Unit {0})
  unfolding draw_count mark_rooms insert_change
  mark_device_key_update user_id = do
    count ← draw_count kv names
    λ s.
        let (r, t) =
          mark_rooms kv is_encrypted user_id count (rooms_joined user_id) s.keychangeid_userid in
        (r, record s { keychangeid_userid = t })
    modify (λ s. record s {
      keychangeid_userid = insert_change kv user_id user_id count s.keychangeid_userid;
    })

  unfoldable pub add_device_keys : Bytes → Bytes → K → Exec Db (Unit {0})
  unfolding mark_device_key_update
  add_device_keys user_id device_id device_keys = do
    modify (λ s. record s {
      keyid_key = kv.insert s.keyid_key (user_id ⋄ device_id) (keys.to_vec device_keys);
    })
    mark_device_key_update user_id

  unfoldable pub get_device_keys : Bytes → Bytes → Db → Result (Option K)
  get_device_keys user_id device_id s = elim (kv.get s.keyid_key (user_id ⋄ device_id)) [
    | none ↦ ok none
    | some bytes ↦
        map_ok some (ok_or (keys.from_slice bytes) (bad_database "DeviceKeys in db are invalid."))
  ]

  unfoldable pub add_master_key : Bytes → K → Exec Db (Unit {0})
  unfolding single_key
  add_master_key user_id key = do
    id ← lift (
        single_key "Invalid master key" "Master key contained no key."
          "Master key contained more than one key." (values key))
    modify (λ s. record s {
      keyid_key = kv.insert s.keyid_key (user_id ⋄ id) (keys.json_text key);
      userid_masterkeyid = kv.insert s.userid_masterkeyid user_id (user_id ⋄ id);
    })

  unfoldable pub add_self_signing_key : Bytes → Option K → Exec Db (Unit {0})
  unfolding single_key
  add_self_signing_key user_id none = pure tt
  add_self_signing_key user_id (some key) = do
    id ← lift (
        single_key "Invalid self signing key" "Self signing key contained no key."
          "Self signing key contained more than one key." (values key))
    modify (λ s. record s {
      keyid_key = kv.insert s.keyid_key (user_id ⋄ id) (keys.json_text key);
      userid_selfsigningkeyid = kv.insert s.userid_selfsigningkeyid user_id (user_id ⋄ id);
    })

  unfoldable pub add_user_signing_key : Bytes → Option K → Exec Db (Unit {0})
  unfolding single_key
  add_user_signing_key user_id none = pure tt
  add_user_signing_key user_id (some key) = do
    id ← lift (
        single_key "Invalid user signing key" "User signing key contained no key."
          "User signing key contained more than one key." (values key))
    modify (λ s. record s {
      keyid_key = kv.insert s.keyid_key (user_id ⋄ id) (keys.json_text key);
      userid_usersigningkeyid = kv.insert s.userid_usersigningkeyid user_id (user_id ⋄ id);
    })

  unfoldable pub add_cross_signing_keys : Bytes → K → Option K → Option K → Exec Db (Unit {0})
  unfolding add_master_key add_self_signing_key add_user_signing_key mark_device_key_update
  add_cross_signing_keys user_id master_key self_signing_key user_signing_key = do
    add_master_key user_id master_key
    add_self_signing_key user_id self_signing_key
    add_user_signing_key user_id user_signing_key
    mark_device_key_update user_id

  unfoldable pub get_user_signing_key : Bytes → Db → Result (Option K)
  get_user_signing_key user_id s = elim (kv.get s.userid_usersigningkeyid user_id) [
    | none ↦ ok none
    | some key ↦ elim (kv.get s.keyid_key key) [
      | none ↦ ok none
      | some bytes ↦
          map_ok some
            (ok_or (keys.from_slice bytes) (bad_database "CrossSigningKey in db is invalid."))
    ]
  ]
