-- ===== src/Users/Devices.antt =====
-- src/database/key_value/users.rs: devices, access tokens and filters.
use Prim.Native.String.{String}
use matrix_server.Base.{ℕ, Option, none, some, List, [], ◌∷◌, if◌then◌else◌, is_some}
use matrix_server.Base.Bytes.{Bytes, u64_from_bytes}
use matrix_server.Base.Keys.{◌⋄◌, last_part}
use matrix_server.Base.Effect.{Result, ok, err, bad_database, panicked, ok_or, Exec}
use matrix_server.Storage.{KvTree, Entries, tree_increment, remove_prefix}
use matrix_server.Json.{Json}
use matrix_server.Users.{UserDb, Names, checked, optional, exists}

unfoldable pub parse_device_ids : Names → Entries → List (Result Bytes)
parse_device_ids names [] = []
parse_device_ids names ((bytes, _) ∷ rest) =
    checked names.is_utf8 "Device ID in userdeviceid_metadata is invalid." (last_part bytes)
    ∷ parse_device_ids names rest

-- `if let Some(old_token) = old { token_userdeviceid.remove(&old_token)?; }`
abbrev pub drop_token : {T : Type 0} → KvTree T → Option Bytes → T → T
drop_token kv none token_userdeviceid = token_userdeviceid
drop_token kv (some old_token) token_userdeviceid = kv.remove token_userdeviceid old_token

-- `D` is the type of a device's metadata, `F` that of a filter.
module _ {T D F : Type 0} (kv : KvTree T) (names : Names) (devices : Json D)
    (filters : Json F) where
  abbrev Db : Type 0
  Db = UserDb T

  -- The token's entry is overwritten by the insert.
  unfoldable pub set_token : Bytes → Bytes → Bytes → Exec Db (Unit {0})
  set_token user_id device_id token s =
      let userdeviceid = user_id ⋄ device_id in
      let left = drop_token kv (kv.get s.userdeviceid_token userdeviceid) s.token_userdeviceid in
      if is_some (kv.get s.userdeviceid_metadata userdeviceid)
      then (
        ok tt,
        record s {
          userdeviceid_token = kv.insert s.userdeviceid_token userdeviceid token;
          token_userdeviceid = kv.insert left token userdeviceid;
        },
      )
      else (err panicked, s)

  -- `device` is the metadata of the new device: its id and name, no last address, and the time.
  unfoldable pub create_device : Bytes → Bytes → Bytes → D → Exec Db (Unit {0})
  unfolding set_token tree_increment
  create_device user_id device_id token device s =
      if exists kv names user_id s
      then set_token user_id device_id token (record s {
        userid_devicelistversion = (tree_increment kv s.userid_devicelistversion user_id).0;
        userdeviceid_metadata =
            kv.insert s.userdeviceid_metadata (user_id ⋄ device_id) (devices.to_vec device);
      })
      else (err panicked, s)

  abbrev forget_device_token : Option Bytes → T → Bytes → T
  forget_device_token none userdeviceid_token userdeviceid = userdeviceid_token
  forget_device_token (some old_token) userdeviceid_token userdeviceid =
      kv.remove userdeviceid_token userdeviceid

  -- The one-time keys stay.
  unfoldable pub remove_device : Bytes → Bytes → Db → Db
  unfolding remove_prefix tree_increment
  remove_device user_id device_id s =
      let userdeviceid = user_id ⋄ device_id in
      let old_token = kv.get s.userdeviceid_token userdeviceid in
      record s {
        userdeviceid_token = forget_device_token old_token s.userdeviceid_token userdeviceid;
        token_userdeviceid = drop_token kv old_token s.token_userdeviceid;
        todeviceid_events = remove_prefix kv s.todeviceid_events (user_id ⋄ device_id ⋄ []);
        userid_devicelistversion = (tree_increment kv s.userid_devicelistversion user_id).0;
        userdeviceid_metadata = kv.remove s.userdeviceid_metadata userdeviceid;
      }

  unfoldable pub all_device_ids : Bytes → Db → List (Result Bytes)
  unfolding parse_device_ids
  all_device_ids user_id s =
      parse_device_ids names (kv.scan_prefix s.userdeviceid_metadata (user_id ⋄ []))

  unfoldable pub update_device_metadata : Bytes → Bytes → D → Exec Db (Unit {0})
  unfolding tree_increment
  update_device_metadata user_id device_id device s =
      if is_some (kv.get s.userdeviceid_metadata (user_id ⋄ device_id))
      then (
        ok tt,
        record s {
          userid_devicelistversion = (tree_increment kv s.userid_devicelistversion user_id).0;
          userdeviceid_metadata =
              kv.insert s.userdeviceid_metadata (user_id ⋄ device_id) (devices.to_vec device);
        },
      )
      else (err panicked, s)

  abbrev device_of : String → Bytes → Result D
  device_of message bytes = ok_or (devices.from_slice bytes) (bad_database message)

  unfoldable pub get_device_metadata : Bytes → Bytes → Db → Result (Option D)
  get_device_metadata user_id device_id s =
      optional (kv.get s.userdeviceid_metadata (user_id ⋄ device_id))
        (device_of "Metadata in userdeviceid_metadata is invalid.")

  unfoldable pub get_devicelist_version : Bytes → Db → Result (Option ℕ)
  get_devicelist_version user_id s =
      optional (kv.get s.userid_devicelistversion user_id)
        (λ bytes. ok_or (u64_from_bytes bytes) (bad_database "Invalid devicelistversion in db."))

  unfoldable pub parse_devices : Entries → List (Result D)
  parse_devices [] = []
  parse_devices ((_, bytes) ∷ rest) =
      device_of "Device in userdeviceid_metadata is invalid." bytes ∷ parse_devices rest

  unfoldable pub all_devices_metadata : Bytes → Db → List (Result D)
  unfolding parse_devices
  all_devices_metadata user_id s =
      parse_devices (kv.scan_prefix s.userdeviceid_metadata (user_id ⋄ []))

  -- `filter_id` is the random string that is drawn.
  unfoldable pub create_filter : Bytes → Bytes → F → Db → Db
  create_filter filter_id user_id filter s = record s {
    userfilterid_filter =
        kv.insert s.userfilterid_filter (user_id ⋄ filter_id) (filters.to_vec filter);
  }

  unfoldable pub get_filter : Bytes → Bytes → Db → Result (Option F)
  get_filter user_id filter_id s = elim (kv.get s.userfilterid_filter (user_id ⋄ filter_id)) [
    | none ↦ ok none
    | some raw ↦ ok_or (filters.from_slice_option raw) (bad_database "Invalid filter event in db.")
  ]
