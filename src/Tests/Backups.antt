-- ===== src/Tests/Backups.antt =====
-- Examples for the key backups: a user with the backups 1 and 12, the latter with one session.
use matrix_server.Base.{
  ◌<◌, ◌≡◌, refl, Bool, true, Option, none, some, [], ◌∷◌, arith, ite, ℕ_discrete, if◌then◌else◌,
}
use matrix_server.Base.Bytes.{Bytes, dec_bytes, to_string, starts_with}
use matrix_server.Base.Keys.{◌⋄◌, last_part}
use matrix_server.Base.Effect.{ok, Result}
use matrix_server.Storage.{Entries, lookup}
use matrix_server.Storage.Memory.{memory, from_key}
use matrix_server.Globals.{current_count}
use matrix_server.KeyBackups.{
  BackupDb, create_backup, add_key, update_backup, get_session, get_backup, count_keys,
  delete_backup, delete_room_key, nonexistent,
}
use matrix_server.KeyBackups.Sessions.{
  Added, Created, add_key_lem, create_backup_lem, count_keys-longer_version,
}
use matrix_server.KeyBackups.Deleting.{
  Deleted, add_key-delete_backup, delete_backup_lem, get_session-delete_room_key,
}
use matrix_server.KeyBackups.Latest.{AreBackups, get_latest_backup_version_lem}
use matrix_server.KeyBackups.{get_latest_backup_version}
use matrix_server.Base.Order.{le_bytes}
use matrix_server.Base.Bytes.{to_be_bytes}
use matrix_server.Base.{is_some}
use matrix_server.Tests.{raw}

abbrev always : Bytes → Bool
always b = true

abbrev user : Bytes
user = b'u' ∷ []

abbrev version_1 : Bytes
version_1 = b'1' ∷ []

abbrev version_12 : Bytes
version_12 = b'1' ∷ b'2' ∷ []

abbrev room : Bytes
room = b'r' ∷ []

abbrev session_id : Bytes
session_id = b's' ∷ []

abbrev json : Bytes
json = b'{' ∷ b'}' ∷ []

abbrev null : Bytes
null = b'n' ∷ b'u' ∷ b'l' ∷ b'l' ∷ []

abbrev empty : BackupDb Entries
empty = record { global = []; backupid_algorithm = []; backupid_etag = []; backupkeyid_backup = [] }

abbrev backups : BackupDb Entries
backups = record {
  global = [];
  backupid_algorithm = (user ⋄ version_1, json) ∷ (user ⋄ version_12, json) ∷ [];
  backupid_etag = [];
  backupkeyid_backup = (user ⋄ version_12 ⋄ room ⋄ session_id, json) ∷ [];
}

create_backup_lem_example :
    (s' : BackupDb Entries) × (create_backup memory raw raw always always user json empty
      ≡ (ok (to_string 1), s'))
    × Created memory raw raw always always user (to_string 1) user version_12 json 0 empty s'
create_backup_lem_example =
    create_backup_lem memory raw raw always always user user version_12 json 0 empty (omega arith)
      (omega arith) start (omega arith)
  where
    start : current_count memory empty.global ≡ ok 0
    start = unfold current_count lookup in refl

add_key_lem_example :
    (s' : BackupDb Entries) × (add_key memory raw raw always always user version_1 room session_id
        json backups
      ≡ (ok tt, s'))
    × Added memory raw raw always always user version_1 room session_id user version_12 room
        session_id json 0 backups s'
add_key_lem_example =
    add_key_lem memory raw raw always always user version_1 room session_id user version_12 room
      session_id json 0 backups json (omega arith) (omega arith) (omega arith) (omega arith)
      (omega arith) (omega arith) start (omega arith) exists
  where
    start : current_count memory backups.global ≡ ok 0
    start = unfold current_count lookup in refl

    exists : lookup (user ⋄ version_1) backups.backupid_algorithm ≡ some json
    exists = unfold lookup dec_bytes ℕ_discrete in refl

add_key-delete_backup_example :
    Deleted memory raw raw always always user version_12 user version_1
      (omega arith)
      (omega arith)
      (omega arith)
      (omega arith)
      room
      session_id
      json
      json
      backups
      (delete_backup memory raw raw always always user version_12 backups)
add_key-delete_backup_example =
    add_key-delete_backup memory raw raw always always user version_12 user version_1 (omega arith)
      (omega arith) (omega arith) (omega arith) room session_id json json backups

stored_session :
    get_session memory raw raw always always user version_12 room session_id backups
    ≡ ok (some json)
unfolding get_session lookup dec_bytes ℕ_discrete
stored_session = refl

count_keys-longer_version_example :
    0 < count_keys memory raw raw always always user version_1 backups
count_keys-longer_version_example =
    count_keys-longer_version memory raw raw always always user version_1 (b'2' ∷ []) room
      session_id backups json stored_session

abbrev session : Bytes → Bytes → Bytes → Bytes → BackupDb Entries → Result (Option Bytes)
session = get_session memory raw raw always always

abbrev backup : Bytes → Bytes → BackupDb Entries → Result (Option Bytes)
backup = get_backup memory raw raw always always

delete_backup_lem_example :
    (session version_1 version_12 room session_id
        (delete_backup memory raw raw always always user version_12 backups)
      ≡ ite
          (dec_bytes user version_1)
          (ite
            (dec_bytes version_12 version_12)
            (ok none)
            (session version_1 version_12 room session_id backups))
          (session version_1 version_12 room session_id backups))
    × (backup version_1 version_12
          (delete_backup memory raw raw always always user version_12 backups)
        ≡ ite
            (dec_bytes user version_1)
            (ite (dec_bytes version_12 version_12) (ok none) (backup version_1 version_12 backups))
            (backup version_1 version_12 backups))
delete_backup_lem_example =
    delete_backup_lem memory raw raw always always user version_12 version_1 version_12
      (omega arith) (omega arith) (omega arith) (omega arith) room session_id backups

get_session-delete_room_key_example :
    session user version_12 room
      (b's' ∷ b't' ∷ [])
      (delete_room_key memory raw raw always always user version_12 room session_id backups)
    ≡ ite
        (dec_bytes user user)
        (ite
          (dec_bytes version_12 version_12)
          (ite
            (dec_bytes room room)
            (if starts_with session_id (b's' ∷ b't' ∷ [])
              then ok none
              else session user version_12 room (b's' ∷ b't' ∷ []) backups)
            (session user version_12 room (b's' ∷ b't' ∷ []) backups))
          (session user version_12 room (b's' ∷ b't' ∷ []) backups))
        (session user version_12 room (b's' ∷ b't' ∷ []) backups)
get_session-delete_room_key_example =
    get_session-delete_room_key memory raw raw always always user version_12 user version_12
      (omega arith) (omega arith) (omega arith) (omega arith) room room (omega arith) (omega arith)
      session_id (b's' ∷ b't' ∷ []) backups

abbrev version_9 : Bytes
version_9 = b'9' ∷ []

abbrev version_10 : Bytes
version_10 = b'1' ∷ b'0' ∷ []

abbrev ten : BackupDb Entries
ten = record empty {
  backupid_algorithm = (user ⋄ version_9, json) ∷ (user ⋄ version_10, json) ∷ [];
}

ten-AreBackups : AreBackups memory raw raw always always user ten
unfolding lookup
ten-AreBackups k value h below = elim (dec_bytes (user ⋄ version_9) k) [
  | yes same ↦ (version_9, (omega arith, tt), refl, ground arith)
  | no other ↦ (version_10, (omega arith, (omega arith, tt)), refl, ground arith)
]

-- A backup whose metadata is JSON `null` is read back as none.
null_metadata :
    backup user (to_string 1) (create_backup memory raw raw always always user null empty).1
    ≡ ok none
unfolding get_backup lookup create_backup matrix_server.KeyBackups.count
    matrix_server.Globals.next_count matrix_server.Base.Bytes.u64_from_bytes
    matrix_server.Base.Bytes.increment matrix_server.KeyBackups.new_etag
    matrix_server.Storage.Memory.put dec_bytes to_string
null_metadata = refl

-- Of the backups 9 and 10, the former counts as the latest.
nine_is_latest :
    get_latest_backup_version memory raw raw always always user ten ≡ ok (some version_9)
unfolding get_latest_backup_version lookup dec_bytes to_be_bytes from_key le_bytes starts_with
    last_part
nine_is_latest = refl

get_latest_backup_version_lem_example :
    (w : Bytes) × (get_latest_backup_version memory raw raw always always user ten ≡ ok (some w))
    × (le_bytes version_9 w ≡ true)
    × (is_some (memory.get ten.backupid_algorithm (user ⋄ w)) ≡ true)
unfolding lookup dec_bytes to_be_bytes le_bytes
get_latest_backup_version_lem_example =
    get_latest_backup_version_lem memory raw raw always always user version_9 json ten
      ten-AreBackups refl refl
