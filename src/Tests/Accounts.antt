-- ===== src/Tests/Accounts.antt =====
-- Examples for users and devices: one user with one device.
use matrix_server.Base.{◌≡◌, ◌≢◌, ◌⊎◌, refl, true, none, some, [], ◌∷◌, ◌++◌, arith, is_some}
use matrix_server.Base.Bytes.{Bytes, dec_bytes, to_be_bytes}
use matrix_server.Base.Keys.{◌⋄◌}
use matrix_server.Base.Effect.{ok}
use matrix_server.Storage.{Entries, lookup}
use matrix_server.Storage.Memory.{memory}
use matrix_server.Users.{UserDb, Names, find_from_token}
use matrix_server.Users.Devices.{set_token, remove_device, get_device_metadata}
use matrix_server.Users.Tokens.{IsIndexed, set_token_lem, remove_device_lem}
use matrix_server.Users.OneTimeKeys.{take_one_time_key, algorithm_prefix, count_one_time_keys}
use matrix_server.Users.Taking.{
  Taken, Exhausted, take_one_time_key_lem, count_one_time_keys-longer_device,
}
use matrix_server.Users.ToDevice.{remove_to_device_events, device_prefix}
use matrix_server.Users.Acknowledging.{IsCounted, remove_to_device_events_lem}
use matrix_server.Users.Keys.{changes}
use matrix_server.Users.Keys.Changes.{changes_lem}
use matrix_server.Tests.{raw, json}

abbrev names : Names
names = record { is_utf8 = λ b. true; is_user_id = λ b. true; is_mxc_uri = λ b. true }

abbrev alice : Bytes
alice = b'a' ∷ []

abbrev phone : Bytes
phone = b'p' ∷ []

abbrev token : Bytes
token = b't' ∷ []

abbrev key_id : Bytes
key_id = b'"' ∷ b'c' ∷ b':' ∷ b'1' ∷ b'"' ∷ []

abbrev algorithm : Bytes → Bytes
algorithm id = b'c' ∷ []

abbrev registered : UserDb Entries
registered = record {
  global = [];
  userid_password = [];
  userid_displayname = [];
  userid_avatarurl = [];
  userid_blurhash = [];
  userdeviceid_token = [];
  token_userdeviceid = [];
  userdeviceid_metadata = (alice ⋄ phone, []) ∷ [];
  userid_devicelistversion = [];
  onetimekeyid_onetimekeys = [];
  userid_lastonetimekeyupdate = [];
  keyid_key = [];
  keychangeid_userid = [];
  userid_masterkeyid = [];
  userid_selfsigningkeyid = [];
  userid_usersigningkeyid = [];
  todeviceid_events = [];
  userfilterid_filter = [];
}

abbrev logged_in : UserDb Entries
logged_in = record registered {
  userdeviceid_token = (alice ⋄ phone, token) ∷ [];
  token_userdeviceid = (token, alice ⋄ phone) ∷ [];
}

registered-IsIndexed : IsIndexed memory names json json registered
unfolding lookup
registered-IsIndexed = record {
  forth = λ d t h. absurd (ground arith);
  back = λ t d h. absurd (ground arith);
}

logged_in-IsIndexed : IsIndexed memory names json json logged_in
unfolding lookup
logged_in-IsIndexed = record { forth = λ d t h. ground arith; back = λ t d h. ground arith }

no_token : (w : Bytes) → memory.get registered.token_userdeviceid token ≡ some w → w ≡ alice ⋄ phone
unfolding lookup
no_token w h = absurd (ground arith)

set_token_lem_example :
    (s' : UserDb Entries) × (set_token memory names json json alice phone token registered
      ≡ (ok tt, s'))
    × IsIndexed memory names json json s'
    × (find_from_token memory names token s' ≡ ok (some (alice, phone)))
unfolding lookup dec_bytes to_be_bytes
set_token_lem_example =
    set_token_lem memory names json json alice phone token token registered (omega arith, tt)
      (omega arith, tt) refl refl refl refl registered-IsIndexed no_token

remove_device_lem_example :
    IsIndexed memory names json json (remove_device memory names json json alice phone logged_in)
    × (find_from_token memory names token
          (remove_device memory names json json alice phone logged_in)
        ≡ ok none)
    × (get_device_metadata memory names json json alice phone
          (remove_device memory names json json alice phone logged_in)
        ≡ ok none)
    × (memory.get
          (remove_device memory names json json alice phone logged_in).todeviceid_events
          (alice ⋄ phone ⋄ to_be_bytes 1)
        ≡ none)
unfolding lookup dec_bytes to_be_bytes
remove_device_lem_example =
    remove_device_lem memory names json json alice phone token (to_be_bytes 1) logged_in
      (omega arith, tt) (omega arith, tt) logged_in-IsIndexed

abbrev with_key : UserDb Entries
with_key = record registered {
  onetimekeyid_onetimekeys =
      (alice ⋄ (phone ++ b'x' ∷ []) ⋄ key_id, b'v' ∷ []) ∷ (alice ⋄ phone ⋄ key_id, b'v' ∷ []) ∷ [];
}

take_one_time_key_lem_example :
    let p = algorithm_prefix memory names json raw algorithm alice phone (b'c' ∷ []) in
    let run = take_one_time_key memory names json raw algorithm alice phone (b'c' ∷ []) with_key in
    Exhausted memory names json raw algorithm p run.0 with_key run.1
    ⊎ Taken memory names json raw algorithm p run.0 with_key run.1
take_one_time_key_lem_example =
    take_one_time_key_lem memory names json raw algorithm alice phone (b'c' ∷ []) with_key

stored_key :
    memory.get with_key.onetimekeyid_onetimekeys (alice ⋄ (phone ++ b'x' ∷ []) ⋄ key_id)
    ≡ some (b'v' ∷ [])
unfolding lookup dec_bytes to_be_bytes
stored_key = refl

count_one_time_keys-longer_device_example :
    count_one_time_keys memory names json raw algorithm alice phone with_key ≢ ok []
count_one_time_keys-longer_device_example =
    count_one_time_keys-longer_device memory names json raw algorithm alice phone (b'x' ∷ []) key_id
      (b'v' ∷ []) with_key stored_key

abbrev with_message : UserDb Entries
with_message = record registered {
  todeviceid_events = (alice ⋄ phone ⋄ to_be_bytes 1, b'm' ∷ []) ∷ [];
}

with_message-IsCounted :
    (j : Bytes)
    → is_some (memory.get with_message.todeviceid_events j) ≡ true
    → IsCounted (device_prefix alice phone) j
unfolding lookup
with_message-IsCounted j h below = (1, omega arith, ground arith)

remove_to_device_events_lem_example :
    ((remove_to_device_events memory names json alice phone 1 with_message).0 ≡ ok tt)
    × (memory.get
          (remove_to_device_events memory names json alice phone 1 with_message).1.todeviceid_events
          (alice ⋄ phone ⋄ to_be_bytes 1)
        ≡ none)
unfolding lookup dec_bytes to_be_bytes
remove_to_device_events_lem_example =
    remove_to_device_events_lem memory names json alice phone alice phone 1 1 with_message
      (omega arith, tt) (omega arith, tt) (omega arith, tt) (omega arith, tt) (omega arith)
      (omega arith) with_message-IsCounted

abbrev with_change : UserDb Entries
with_change = record registered { keychangeid_userid = (alice ⋄ to_be_bytes 2, alice) ∷ [] }

with_change-IsCounted :
    (j : Bytes)
    → is_some (memory.get with_change.keychangeid_userid j) ≡ true
    → IsCounted (alice ⋄ []) j
unfolding lookup
with_change-IsCounted j h below = (2, omega arith, ground arith)

changes_lem_example :
    lookup (alice ⋄ to_be_bytes 2) (changes memory alice 1 (some 3) with_change) ≡ some alice
unfolding lookup dec_bytes to_be_bytes
changes_lem_example =
    changes_lem memory alice 1 3 2 with_change (omega arith, tt) (omega arith) (omega arith)
      with_change-IsCounted
