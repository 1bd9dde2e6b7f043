-- ===== src/Users/OneTimeKeys.antt =====
-- src/database/key_value/users.rs: the one-time keys of devices.
use matrix_server.Base.{
  ℕ, ◌+◌, Option, none, some, List, [], ◌∷◌, ◌++◌, if◌then◌else◌, is_some, ite,
}
use matrix_server.Base.Bytes.{Bytes, dec_bytes, to_be_bytes, u64_from_bytes}
use matrix_server.Base.Keys.{◌⋄◌, last_part}
use matrix_server.Base.Effect.{
  Result, ok, err, bad_database, panicked, map_ok, ok_or, and_then, Exec, modify, ◌>>=◌, ◌>>◌,
}
use matrix_server.Storage.{KvTree, Entries}
use matrix_server.Json.{Json, RawJson}
use matrix_server.Users.{UserDb, Names, draw_count}

-- `BTreeMap<DeviceKeyAlgorithm, UInt>`, as a list of algorithm and count.
abbrev pub Counts : Type 0
Counts = List (Bytes × ℕ)

-- `*counts.entry(algorithm).or_default() += 1`
unfoldable pub add_one : Bytes → Counts → Counts
add_one algorithm [] = (algorithm, 1) ∷ []
add_one algorithm ((a, n) ∷ counts) =
    let rest = add_one algorithm counts in
    ite (dec_bytes a algorithm) ((a, n + 1) ∷ counts) ((a, n) ∷ rest)

-- `I` is the type of key ids, `K` that of keys; a key id names its algorithm.
module _ {T I K : Type 0} (kv : KvTree T) (names : Names) (ids : Json I) (keys : RawJson K)
    (algorithm : I → Bytes) where
  abbrev Db : Type 0
  Db = UserDb T

  -- The count of the last change of a user's one-time keys.
  unfoldable pub mark_update : Bytes → Exec Db (Unit {0})
  unfolding draw_count
  mark_update user_id = do
    n ← draw_count kv names
    modify (λ s. record s {
      userid_lastonetimekeyupdate = kv.insert s.userid_lastonetimekeyupdate user_id (to_be_bytes n);
    })

  unfoldable pub add_one_time_key : Bytes → Bytes → I → K → Exec Db (Unit {0})
  unfolding mark_update
  add_one_time_key user_id device_id key_id key s =
      if is_some (kv.get s.userdeviceid_metadata (user_id ⋄ device_id))
      then mark_update user_id (record s {
        onetimekeyid_onetimekeys =
            kv.insert s.onetimekeyid_onetimekeys (user_id ⋄ device_id ⋄ ids.to_vec key_id)
              (keys.to_vec key);
      })
      else (err panicked, s)

  unfoldable pub last_one_time_keys_update : Bytes → Db → Result ℕ
  last_one_time_keys_update user_id s = elim (kv.get s.userid_lastonetimekeyupdate user_id) [
    | none ↦ ok 0
    | some bytes ↦
        ok_or (u64_from_bytes bytes)
          (bad_database "Count in roomid_lastroomactiveupdate is invalid.")
  ]

  -- The keys of an algorithm: the JSON text of their ids begins with a quotation mark.
  abbrev pub algorithm_prefix : Bytes → Bytes → Bytes → Bytes
  algorithm_prefix user_id device_id key_algorithm =
      user_id ⋄ device_id ⋄ (b'"' ∷ key_algorithm ++ b':' ∷ [])

  unfoldable pub parse_key : Bytes → Bytes → Result (I × K)
  parse_key key value =
      and_then
        (ok_or (ids.from_slice (last_part key)) (bad_database "OneTimeKeyId in db is invalid."))
        (λ id.
          map_ok (λ k. (id, k))
            (ok_or (keys.from_slice value) (bad_database "OneTimeKeys in db are invalid.")))

  -- The first entry is removed before it is parsed.
  unfoldable pub take_first : Entries → Exec Db (Option (I × K))
  unfolding parse_key
  take_first [] s = (ok none, s)
  take_first ((key, value) ∷ _) s = (
    map_ok some (parse_key key value),
    record s { onetimekeyid_onetimekeys = kv.remove s.onetimekeyid_onetimekeys key },
  )

  unfoldable pub take_one_time_key : Bytes → Bytes → Bytes → Exec Db (Option (I × K))
  unfolding mark_update take_first
  take_one_time_key user_id device_id key_algorithm = do
    mark_update user_id
    (λ s.
        take_first
          (kv.scan_prefix s.onetimekeyid_onetimekeys
            (algorithm_prefix user_id device_id key_algorithm))
          s)

  unfoldable pub count_algorithms : Entries → Counts → Result Counts
  unfolding add_one
  count_algorithms [] counts = ok counts
  count_algorithms ((key, _) ∷ rest) counts =
      and_then
        (ok_or (ids.from_slice (last_part key)) (bad_database "DeviceKeyId in db is invalid."))
        (λ id. count_algorithms rest (add_one (algorithm id) counts))

  -- The prefix has no separator behind the device.
  unfoldable pub count_one_time_keys : Bytes → Bytes → Db → Result Counts
  unfolding count_algorithms
  count_one_time_keys user_id device_id s =
      count_algorithms (kv.scan_prefix s.onetimekeyid_onetimekeys (user_id ⋄ device_id)) []
