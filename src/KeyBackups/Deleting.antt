-- ===== src/KeyBackups/Deleting.antt =====
-- What the deletions of src/database/key_value/key_backups.rs remove, and what they leave.
use matrix_server.Base.{◌≡◌, refl, Bool, true, false, Option, none, [], arith, ite, if◌then◌else◌}
use matrix_server.Base.Bytes.{Bytes, dec_bytes, starts_with}
use matrix_server.Base.Keys.{◌⋄◌, IsText, starts_with-join, join_injective}
use matrix_server.Base.Effect.{Result, ok, err}
use matrix_server.Storage.{KvTree, get-remove_prefix}
use matrix_server.Json.{RawJson}
use matrix_server.KeyBackups.{
  BackupDb, get_session, get_backup, delete_backup, delete_all_keys, delete_room_keys,
  delete_room_key, add_key, update_backup, new_etag, count, nonexistent,
}

starts_with_nil : (k : Bytes) → starts_with [] k ≡ true
unfolding starts_with
starts_with_nil k = refl

module _ {T A K : Type 0} (kv : KvTree T) (algorithms : RawJson A) (keys : RawJson K)
    (is_utf8 is_room_id : Bytes → Bool) (u v u' v' : Bytes) (tu : IsText u) (tv : IsText v)
    (tu' : IsText u') (tv' : IsText v') where
  abbrev session : Bytes → Bytes → BackupDb T → Result (Option K)
  session r sid s = get_session kv algorithms keys is_utf8 is_room_id u' v' r sid s

  below_version :
      (k : Bytes)
      → starts_with (u ⋄ v ⋄ []) (u' ⋄ v' ⋄ k)
        ≡ ite (dec_bytes u u') (ite (dec_bytes v v') true false) false
  below_version k = ground (
    arith,
    starts_with-join u u' (v ⋄ []) (v' ⋄ k) tu tu',
    starts_with-join v v' [] k tv tv',
    starts_with_nil k,
  )

  -- The sessions of the backup are gone, and all others are as before.
  pub get_session-delete_all_keys :
      (r sid : Bytes) (s : BackupDb T)
      → session r sid (delete_all_keys kv algorithms keys is_utf8 is_room_id u v s)
        ≡ ite (dec_bytes u u') (ite (dec_bytes v v') (ok none) (session r sid s)) (session r sid s)
  unfolding get_session delete_all_keys
  get_session-delete_all_keys r sid s = ground (
    arith,
    get-remove_prefix kv s.backupkeyid_backup (u ⋄ v ⋄ []) (u' ⋄ v' ⋄ r ⋄ sid),
    below_version (r ⋄ sid),
  )

  -- After `delete_backup` the backup is gone with all its sessions, and the backups and sessions of
  -- any other user or version are as before. Users and versions have no separator byte.
  pub delete_backup_lem :
      (r sid : Bytes) (s : BackupDb T)
      → (session r sid (delete_backup kv algorithms keys is_utf8 is_room_id u v s)
          ≡ ite
              (dec_bytes u u')
              (ite (dec_bytes v v') (ok none) (session r sid s))
              (session r sid s))
        × (get_backup kv algorithms keys is_utf8 is_room_id u' v'
              (delete_backup kv algorithms keys is_utf8 is_room_id u v s)
            ≡ ite
                (dec_bytes u u')
                (ite
                  (dec_bytes v v')
                  (ok none)
                  (get_backup kv algorithms keys is_utf8 is_room_id u' v' s))
                (get_backup kv algorithms keys is_utf8 is_room_id u' v' s))
  unfolding get_session get_backup delete_backup
  delete_backup_lem r sid s = (
    ground (
      arith,
      get-remove_prefix kv s.backupkeyid_backup (u ⋄ v ⋄ []) (u' ⋄ v' ⋄ r ⋄ sid),
      below_version (r ⋄ sid),
    ),
    ground (
      arith,
      kv.get-remove s.backupid_algorithm (u ⋄ v) (u' ⋄ v'),
      join_injective u u' v v' tu tu',
    ),
  )

  abbrev added_key : Bytes → Bytes → K → BackupDb T → Result (Unit {0}) × BackupDb T
  added_key r sid k s = add_key kv algorithms keys is_utf8 is_room_id u' v' r sid k s

  abbrev updated : A → BackupDb T → Result Bytes × BackupDb T
  updated a s = update_backup kv algorithms keys is_utf8 is_room_id u' v' a s

  -- The state `s'` after the backup of `u` and `v` was deleted from the state `s`, for session keys
  -- that are added and metadata that is updated there, and under `u'` and `v'`.
  pub record Deleted (r sid : Bytes) (k : K) (a : A) (s s' : BackupDb T) : Type 0 where
    pub add_refused :
        add_key kv algorithms keys is_utf8 is_room_id u v r sid k s' ≡ (err nonexistent, s')
    pub update_refused :
        update_backup kv algorithms keys is_utf8 is_room_id u v a s' ≡ (err nonexistent, s')
    pub add_result :
        (added_key r sid k s').0
        ≡ ite
            (dec_bytes u u')
            (ite (dec_bytes v v') (err nonexistent) (added_key r sid k s).0)
            (added_key r sid k s).0
    pub update_result :
        (updated a s').0
        ≡ ite
            (dec_bytes u u')
            (ite (dec_bytes v v') (err nonexistent) (updated a s).0)
            (updated a s).0

  -- After `delete_backup`, `add_key` and `update_backup` on that backup fail with the error for a
  -- nonexistent backup and change nothing; on a backup of any other user or version they return
  -- what they returned before it, be it a result or an error. Users and versions have no separator
  -- byte.
  pub add_key-delete_backup :
      (r sid : Bytes) (k : K) (a : A) (s : BackupDb T)
      → Deleted r sid k a s (delete_backup kv algorithms keys is_utf8 is_room_id u v s)
  unfolding add_key update_backup delete_backup new_etag count
  add_key-delete_backup r sid k a s =
      let same = kv.get-remove s.backupid_algorithm (u ⋄ v) (u ⋄ v) in
      let other = kv.get-remove s.backupid_algorithm (u ⋄ v) (u' ⋄ v') in
      let keys_differ = join_injective u u' v v' tu tu' in
      record {
        add_refused = ground (arith, same);
        update_refused = ground (arith, same);
        add_result = ground (arith, other, keys_differ);
        update_result = ground (arith, other, keys_differ);
      }

  module _ (r r' : Bytes) (tr : IsText r) (tr' : IsText r') where
    below_room :
        (p k : Bytes)
        → starts_with (u ⋄ v ⋄ r ⋄ p) (u' ⋄ v' ⋄ r' ⋄ k)
          ≡ ite
              (dec_bytes u u')
              (ite (dec_bytes v v') (ite (dec_bytes r r') (starts_with p k) false) false)
              false
    below_room p k = ground (
      arith,
      starts_with-join u u' (v ⋄ r ⋄ p) (v' ⋄ r' ⋄ k) tu tu',
      starts_with-join v v' (r ⋄ p) (r' ⋄ k) tv tv',
      starts_with-join r r' p k tr tr',
    )

    -- After `delete_room_keys` the sessions of that room of that backup are gone, and all others
    -- are as before. Users, versions and rooms have no separator byte.
    pub get_session-delete_room_keys :
        (sid : Bytes) (s : BackupDb T)
        → session r' sid (delete_room_keys kv algorithms keys is_utf8 is_room_id u v r s)
          ≡ ite
              (dec_bytes u u')
              (ite
                (dec_bytes v v')
                (ite (dec_bytes r r') (ok none) (session r' sid s))
                (session r' sid s))
              (session r' sid s)
    unfolding get_session delete_room_keys
    get_session-delete_room_keys sid s = ground (
      arith,
      get-remove_prefix kv s.backupkeyid_backup (u ⋄ v ⋄ r ⋄ []) (u' ⋄ v' ⋄ r' ⋄ sid),
      below_room [] sid,
      starts_with_nil sid,
    )

    -- After `delete_room_key` the sessions of that room of that backup whose session id begins with
    -- the given one are gone, not only the given one, and all others are as before. Users, versions
    -- and rooms have no separator byte.
    pub get_session-delete_room_key :
        (sid sid' : Bytes) (s : BackupDb T)
        → session r' sid' (delete_room_key kv algorithms keys is_utf8 is_room_id u v r sid s)
          ≡ ite
              (dec_bytes u u')
              (ite
                (dec_bytes v v')
                (ite
                  (dec_bytes r r')
                  (if starts_with sid sid' then ok none else session r' sid' s)
                  (session r' sid' s))
                (session r' sid' s))
              (session r' sid' s)
    unfolding get_session delete_room_key
    get_session-delete_room_key sid sid' s = ground (
      arith,
      get-remove_prefix kv s.backupkeyid_backup (u ⋄ v ⋄ r ⋄ sid) (u' ⋄ v' ⋄ r' ⋄ sid'),
      below_room sid sid',
    )
