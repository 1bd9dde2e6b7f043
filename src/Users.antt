-- ===== src/Users.antt =====
-- src/database/key_value/users.rs: the accounts of this server and their profiles. The children have
-- the devices and tokens, the one-time keys, the messages to devices and the keys.
pub mod Devices
pub mod Tokens
pub mod OneTimeKeys
pub mod Taking
pub mod ToDevice
pub mod Acknowledging
pub mod Keys
use Prim.Native.String.{String}
use matrix_server.Base.{
  ℕ, Bool, true, false, Option, none, some, List, [], ◌∷◌, if◌then◌else◌, is_empty, is_some, length,
}
use matrix_server.Base.Bytes.{Bytes}
use matrix_server.Base.Keys.{◌⋄◌, split_first}
use matrix_server.Base.Effect.{
  Result, ok, err, bad_database, bad_request, invalid_param, and_then, map_ok, ok_or, Exec,
}
use matrix_server.Storage.{KvTree, Entries}
use matrix_server.Globals.{next_count}

pub record UserDb (T : Type 0) : Type 0 where
  pub global : T
  pub userid_password : T
  pub userid_displayname : T
  pub userid_avatarurl : T
  pub userid_blurhash : T
  pub userdeviceid_token : T
  pub token_userdeviceid : T
  pub userdeviceid_metadata : T
  pub userid_devicelistversion : T
  pub onetimekeyid_onetimekeys : T
  pub userid_lastonetimekeyupdate : T
  pub keyid_key : T
  pub keychangeid_userid : T
  pub userid_masterkeyid : T
  pub userid_selfsigningkeyid : T
  pub userid_usersigningkeyid : T
  pub todeviceid_events : T
  pub userfilterid_filter : T

-- What `String::from_utf8` and the parsers of the crate `ruma` accept.
pub record Names : Type 0 where
  pub is_utf8 : Bytes → Bool
  pub is_user_id : Bytes → Bool
  pub is_mxc_uri : Bytes → Bool

abbrev pub checked : (Bytes → Bool) → String → Bytes → Result Bytes
checked p message bytes = if p bytes then ok bytes else err (bad_database message)

abbrev pub optional : {A : Type 0} → Option Bytes → (Bytes → Result A) → Result (Option A)
optional none f = ok none
optional (some bytes) f = map_ok some (f bytes)

-- Insert the value, or remove the entry where there is none.
abbrev pub set_or_remove : {T : Type 0} → KvTree T → T → Bytes → Option Bytes → T
set_or_remove kv t key none = kv.remove t key
set_or_remove kv t key (some value) = kv.insert t key value

unfoldable pub get_username_with_valid_password : Names → Bytes → Bytes → Option Bytes
get_username_with_valid_password names username password =
    if is_empty password then none else if names.is_utf8 username then some username else none

unfoldable pub collect_usernames : Names → Entries → List Bytes
unfolding get_username_with_valid_password
collect_usernames names [] = []
collect_usernames names ((username, pw) ∷ rest) =
    let more = collect_usernames names rest in
    elim (get_username_with_valid_password names username pw) [ none ↦ more | some u ↦ u ∷ more ]

unfoldable pub parse_users : Names → Entries → List (Result Bytes)
parse_users names [] = []
parse_users names ((bytes, _) ∷ rest) =
    and_then (checked names.is_utf8 "User ID in userid_password is invalid unicode." bytes)
      (checked names.is_user_id "User ID in userid_password is invalid.")
    ∷ parse_users names rest

module _ {T : Type 0} (kv : KvTree T) (names : Names) where
  abbrev Db : Type 0
  Db = UserDb T

  -- `services().globals.next_count()?`
  unfoldable pub draw_count : Exec Db ℕ
  draw_count s = let (r, global') = next_count kv s.global in (r, record s { global = global' })

  unfoldable pub exists : Bytes → Db → Bool
  exists user_id s = is_some (kv.get s.userid_password user_id)

  unfoldable pub is_deactivated : Bytes → Db → Result Bool
  is_deactivated user_id s =
      map_ok is_empty (
        ok_or (kv.get s.userid_password user_id) (bad_request invalid_param "User does not exist."))

  unfoldable pub count : Db → ℕ
  count s = length (kv.scan_prefix s.userid_password [])

  -- The iteration over a whole tree is the scan of the empty prefix.
  unfoldable pub iter : Db → List (Result Bytes)
  unfolding parse_users
  iter s = parse_users names (kv.scan_prefix s.userid_password [])

  unfoldable pub list_local_users : Db → List Bytes
  unfolding collect_usernames
  list_local_users s = collect_usernames names (kv.scan_prefix s.userid_password [])

  unfoldable pub password_hash : Bytes → Db → Result (Option Bytes)
  password_hash user_id s =
      optional (kv.get s.userid_password user_id)
        (checked names.is_utf8 "Password hash in db is not valid string.")

  -- `calculate_password_hash` salts and hashes the password, and may fail.
  unfoldable pub set_password : (Bytes → Option Bytes) → Bytes → Option Bytes → Exec Db (Unit {0})
  set_password calculate_password_hash user_id none s =
      (ok tt, record s { userid_password = kv.insert s.userid_password user_id [] })
  set_password calculate_password_hash user_id (some password) s =
      elim (calculate_password_hash password) [
        | some hash ↦
            (ok tt, record s { userid_password = kv.insert s.userid_password user_id hash })
        | none ↦ (err (bad_request invalid_param "Password does not meet the requirements."), s)
      ]

  unfoldable pub displayname : Bytes → Db → Result (Option Bytes)
  displayname user_id s =
      optional (kv.get s.userid_displayname user_id)
        (checked names.is_utf8 "Displayname in db is invalid.")

  unfoldable pub set_displayname : Bytes → Option Bytes → Db → Db
  set_displayname user_id name s = record s {
    userid_displayname = set_or_remove kv s.userid_displayname user_id name;
  }

  unfoldable pub avatar_url : Bytes → Db → Result (Option Bytes)
  avatar_url user_id s = optional (kv.get s.userid_avatarurl user_id) (λ bytes.
      and_then (checked names.is_utf8 "Avatar URL in db is invalid." bytes)
        (checked names.is_mxc_uri "Avatar URL in db is invalid."))

  unfoldable pub set_avatar_url : Bytes → Option Bytes → Db → Db
  set_avatar_url user_id url s = record s {
    userid_avatarurl = set_or_remove kv s.userid_avatarurl user_id url;
  }

  unfoldable pub blurhash : Bytes → Db → Result (Option Bytes)
  blurhash user_id s =
      optional (kv.get s.userid_blurhash user_id)
        (checked names.is_utf8 "Avatar URL in db is invalid.")

  unfoldable pub set_blurhash : Bytes → Option Bytes → Db → Db
  set_blurhash user_id hash s = record s {
    userid_blurhash = set_or_remove kv s.userid_blurhash user_id hash;
  }

  abbrev parse_device : Bytes → Option Bytes → Result (Bytes × Bytes)
  parse_device user none = err (bad_database "Device ID in token_userdeviceid is invalid.")
  parse_device user (some rest) =
      and_then (checked names.is_utf8 "User ID in token_userdeviceid is invalid unicode." user)
        (λ user_string.
          and_then
            (checked names.is_user_id "User ID in token_userdeviceid is invalid." user_string)
            (λ user_id.
              map_ok (λ device. (user_id, device))
                (checked names.is_utf8 "Device ID in token_userdeviceid is invalid."
                  (split_first rest).0)))

  -- The parts of the value between separators: the first is the user, the second the device.
  unfoldable pub find_from_token : Bytes → Db → Result (Option (Bytes × Bytes))
  find_from_token token s =
      optional (kv.get s.token_userdeviceid token)
        (λ bytes. let (user, rest) = split_first bytes in parse_device user rest)
