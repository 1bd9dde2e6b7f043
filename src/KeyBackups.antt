-- ===== src/KeyBackups.antt =====
-- src/database/key_value/key_backups.rs: the server-side backups of room keys.
pub mod Deleting
pub mod Sessions
pub mod Latest
use matrix_server.Base.{
  ℕ, Bool, true, false, Option, none, some, List, [], ◌∷◌, if◌then◌else◌, length, ite, ◌++◌, ◌-◌,
}
use matrix_server.Base.Bytes.{
  Bytes, dec_bytes, to_be_bytes, u64_from_bytes, to_string, starts_with, u64_mod,
}
use matrix_server.Base.Keys.{◌⋄◌, last_part, before_last}
use matrix_server.Base.Effect.{
  Result, ok, err, bad_database, bad_request, not_found, ok_or, and_then, Exec, raise, modify, pure,
  ◌>>=◌, ◌>>◌, Error, map_ok,
}
use matrix_server.Storage.{KvTree, Entries, remove_prefix}
use matrix_server.Globals.{next_count}
use matrix_server.Json.{RawJson}

pub record BackupDb (T : Type 0) : Type 0 where
  pub global : T
  pub backupid_algorithm : T
  pub backupid_etag : T
  pub backupkeyid_backup : T

abbrev pub nonexistent : Error
nonexistent = bad_request not_found "Tried to update nonexistent backup."

-- `BTreeMap<OwnedRoomId, RoomKeyBackup>`, as lists of key and value.
abbrev pub Sessions : Type 0 → Type 0
Sessions K = List (Bytes × K)

-- `map.insert(key, value)`
unfoldable pub map_insert : {K : Type 0} → Bytes → K → Sessions K → Sessions K
map_insert k v [] = (k, v) ∷ []
map_insert k v ((j, w) ∷ m) =
    let rest = map_insert k v m in ite (dec_bytes j k) ((k, v) ∷ m) ((j, w) ∷ rest)

-- `rooms.entry(room_id).or_insert_with(empty).sessions.insert(session_id, key_data)`
unfoldable pub room_insert :
    {K : Type 0} → Bytes → Bytes → K → Sessions (Sessions K) → Sessions (Sessions K)
unfolding map_insert
room_insert room sid v [] = (room, (sid, v) ∷ []) ∷ []
room_insert room sid v ((j, m) ∷ rooms) =
    let rest = room_insert room sid v rooms in
    ite (dec_bytes j room) ((j, map_insert sid v m) ∷ rooms) ((j, m) ∷ rest)

module _ {T A K : Type 0} (kv : KvTree T) (algorithms : RawJson A) (keys : RawJson K)
    (is_utf8 is_room_id : Bytes → Bool) where
  abbrev Db : Type 0
  Db = BackupDb T

  -- `services().globals.next_count()?`
  unfoldable pub count : Exec Db ℕ
  count s = let (r, global') = next_count kv s.global in (r, record s { global = global' })

  -- `self.backupid_etag.insert(&key, &services().globals.next_count()?.to_be_bytes())?`
  unfoldable pub new_etag : Bytes → Exec Db (Unit {0})
  unfolding count
  new_etag key = do
    etag ← count
    modify (λ s. record s { backupid_etag = kv.insert s.backupid_etag key (to_be_bytes etag) })

  unfoldable pub create_backup : Bytes → A → Exec Db Bytes
  create_backup user_id backup_metadata = do
    number ← count
    let version = to_string number
    modify (λ s. record s {
      backupid_algorithm =
          kv.insert s.backupid_algorithm (user_id ⋄ version) (algorithms.to_vec backup_metadata);
    })
    new_etag (user_id ⋄ version)
    pure version

  -- The `take_while` and `next` of the two functions below.
  unfoldable pub first_below : Bytes → Entries → Option (Bytes × Bytes)
  first_below prefix [] = none
  first_below prefix ((key, value) ∷ rest) =
      if starts_with prefix key then some (key, value) else none

  unfoldable pub latest_entry : Bytes → Db → Option (Bytes × Bytes)
  unfolding first_below
  latest_entry user_id s =
      first_below (user_id ⋄ [])
        (kv.iter_from s.backupid_algorithm ((user_id ⋄ []) ++ to_be_bytes (u64_mod - 1)) true)

  unfoldable pub get_latest_backup_version : Bytes → Db → Result (Option Bytes)
  unfolding latest_entry
  get_latest_backup_version user_id s = elim (latest_entry user_id s) [
    | none ↦ ok none
    | some (key, _) ↦
        if is_utf8 (last_part key)
        then ok (some (last_part key))
        else err (bad_database "backupid_algorithm key is invalid.")
  ]

  unfoldable pub get_latest_backup : Bytes → Db → Result (Option (Bytes × A))
  unfolding latest_entry
  get_latest_backup user_id s = elim (latest_entry user_id s) [
    | none ↦ ok none
    | some (key, value) ↦
        if is_utf8 (last_part key)
        then map_ok (λ a. some (last_part key, a))
            (ok_or (algorithms.from_slice value)
              (bad_database "Algorithm in backupid_algorithm is invalid."))
        else err (bad_database "backupid_algorithm key is invalid.")
  ]

  unfoldable pub delete_backup : Bytes → Bytes → Db → Db
  unfolding remove_prefix
  delete_backup user_id version s = record s {
    backupid_algorithm = kv.remove s.backupid_algorithm (user_id ⋄ version);
    backupid_etag = kv.remove s.backupid_etag (user_id ⋄ version);
    backupkeyid_backup = remove_prefix kv s.backupkeyid_backup (user_id ⋄ version ⋄ []);
  }

  unfoldable pub update_backup : Bytes → Bytes → A → Exec Db Bytes
  update_backup user_id version backup_metadata s =
      elim (kv.get s.backupid_algorithm (user_id ⋄ version)) [
        | none ↦ (err nonexistent, s)
        | some _ ↦
            (do
              modify (λ t. record t {
                backupid_algorithm =
                    kv.insert t.backupid_algorithm (user_id ⋄ version)
                      (algorithms.json_text backup_metadata);
              })
              new_etag (user_id ⋄ version)
              pure version)
              s
      ]

  unfoldable pub get_backup : Bytes → Bytes → Db → Result (Option A)
  get_backup user_id version s = elim (kv.get s.backupid_algorithm (user_id ⋄ version)) [
    | none ↦ ok none
    | some bytes ↦
        ok_or (algorithms.from_slice_option bytes)
          (bad_database "Algorithm in backupid_algorithm is invalid.")
  ]

  unfoldable pub add_key : Bytes → Bytes → Bytes → Bytes → K → Exec Db (Unit {0})
  add_key user_id version room_id session_id key_data s =
      elim (kv.get s.backupid_algorithm (user_id ⋄ version)) [
        | none ↦ (err nonexistent, s)
        | some _ ↦
            (do
              new_etag (user_id ⋄ version)
              modify (λ t. record t {
                backupkeyid_backup =
                    kv.insert t.backupkeyid_backup (user_id ⋄ version ⋄ room_id ⋄ session_id)
                      (keys.json_text key_data);
              }))
              s
      ]

  -- The prefix has no separator behind the version.
  unfoldable pub count_keys : Bytes → Bytes → Db → ℕ
  count_keys user_id version s = length (kv.scan_prefix s.backupkeyid_backup (user_id ⋄ version))

  unfoldable pub get_etag : Bytes → Bytes → Db → Result Bytes
  unfolding to_string
  get_etag user_id version s = map_ok to_string (
      and_then
        (ok_or (kv.get s.backupid_etag (user_id ⋄ version)) (bad_database "Backup has no etag."))
        (λ bytes. ok_or (u64_from_bytes bytes) (bad_database "etag in backupid_etag invalid.")))

  abbrev utf8 : Bytes → Error → Result Bytes
  utf8 bytes e = if is_utf8 bytes then ok bytes else err e

  abbrev key_data_of : Bytes → Result K
  key_data_of value =
      ok_or (keys.from_slice value) (bad_database "KeyBackupData in backupkeyid_backup is invalid.")

  abbrev session_id_of : Bytes → Result Bytes
  session_id_of key =
      utf8 (last_part key) (bad_database "backupkeyid_backup session_id is invalid.")

  abbrev room_id_of : Bytes → Result Bytes
  room_id_of key =
      and_then (ok_or (before_last key) (bad_database "backupkeyid_backup key is invalid."))
        (λ rest.
          and_then (utf8 (last_part rest) (bad_database "backupkeyid_backup room_id is invalid."))
            (λ room_id.
              if is_room_id room_id
              then ok room_id
              else err (bad_database "backupkeyid_backup room_id is invalid room id.")))

  -- The loop of `get_all`; the first error ends it.
  unfoldable pub collect_rooms : Entries → Sessions (Sessions K) → Result (Sessions (Sessions K))
  unfolding room_insert
  collect_rooms [] rooms = ok rooms
  collect_rooms ((key, value) ∷ rest) rooms = and_then (session_id_of key) (λ session_id.
      and_then (room_id_of key) (λ room_id.
        and_then (key_data_of value)
          (λ key_data. collect_rooms rest (room_insert room_id session_id key_data rooms))))

  unfoldable pub get_all : Bytes → Bytes → Db → Result (Sessions (Sessions K))
  unfolding collect_rooms
  get_all user_id version s =
      collect_rooms (kv.scan_prefix s.backupkeyid_backup (user_id ⋄ version ⋄ [])) []

  abbrev parse_session : Bytes → Bytes → Result (Bytes × K)
  parse_session key value =
      and_then {B = Bytes × K} (session_id_of key)
        (λ session_id. map_ok (λ key_data. (session_id, key_data)) (key_data_of value))

  -- `filter_map(|r| r.ok())`, then `collect()`.
  abbrev collect_ok : Result (Bytes × K) → Sessions K → Sessions K
  collect_ok (ok (session_id, key_data)) sessions = map_insert session_id key_data sessions
  collect_ok (err e) sessions = sessions

  -- The iterator chain of `get_room`: entries that do not parse are skipped.
  unfoldable pub collect_sessions : Entries → Sessions K → Sessions K
  unfolding map_insert
  collect_sessions [] sessions = sessions
  collect_sessions ((key, value) ∷ rest) sessions =
      collect_sessions rest (collect_ok (parse_session key value) sessions)

  unfoldable pub get_room : Bytes → Bytes → Bytes → Db → Sessions K
  unfolding collect_sessions
  get_room user_id version room_id s =
      collect_sessions (kv.scan_prefix s.backupkeyid_backup (user_id ⋄ version ⋄ room_id ⋄ [])) []

  unfoldable pub get_session : Bytes → Bytes → Bytes → Bytes → Db → Result (Option K)
  get_session user_id version room_id session_id s =
      elim (kv.get s.backupkeyid_backup (user_id ⋄ version ⋄ room_id ⋄ session_id)) [
        | none ↦ ok none
        | some value ↦ map_ok some (key_data_of value)
      ]

  unfoldable pub delete_all_keys : Bytes → Bytes → Db → Db
  unfolding remove_prefix
  delete_all_keys user_id version s = record s {
    backupkeyid_backup = remove_prefix kv s.backupkeyid_backup (user_id ⋄ version ⋄ []);
  }

  unfoldable pub delete_room_keys : Bytes → Bytes → Bytes → Db → Db
  unfolding remove_prefix
  delete_room_keys user_id version room_id s = record s {
    backupkeyid_backup = remove_prefix kv s.backupkeyid_backup (user_id ⋄ version ⋄ room_id ⋄ []);
  }

  -- The session id is the end of a prefix too.
  unfoldable pub delete_room_key : Bytes → Bytes → Bytes → Bytes → Db → Db
  unfolding remove_prefix
  delete_room_key user_id version room_id session_id s = record s {
    backupkeyid_backup =
        remove_prefix kv s.backupkeyid_backup (user_id ⋄ version ⋄ room_id ⋄ session_id);
  }
