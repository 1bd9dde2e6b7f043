-- ===== src/Sending.antt =====
-- src/database/key_value/sending.rs, and the kinds and events of src/service/sending/mod.rs: the
-- requests to other servers that wait or are being sent.
pub mod Keys
pub mod Moving
pub mod Transactions
pub mod Exclusive
pub mod Ending
use Prim.Native.String.{String}
use matrix_server.Base.{
  ℕ, Bool, true, false, Option, none, some, List, [], ◌∷◌, ◌++◌, if◌then◌else◌, is_empty, ite,
}
use matrix_server.Base.Bytes.{Bytes, dec_bytes, to_be_bytes, u64_from_bytes, starts_with}
use matrix_server.Base.Keys.{◌⋄◌, split_first}
use matrix_server.Base.Effect.{
  Result, ok, err, bad_database, Error, ok_or, map_ok, and_then, Exec, modify, pure, ◌>>=◌, ◌>>◌,
}
use matrix_server.Storage.{KvTree, Entries, remove_prefix, insert_batch}
use matrix_server.Globals.{next_count}

pub data OutgoingKind : Type 0 where
  appservice : Bytes → OutgoingKind
  -- The user and the pushkey.
  push : Bytes → Bytes → OutgoingKind
  normal : Bytes → OutgoingKind

pub data SendingEventType : Type 0 where
  -- The id of the pdu.
  pdu : Bytes → SendingEventType
  -- The JSON text.
  edu : Bytes → SendingEventType

-- The derived equality.
unfoldable pub same_kind : OutgoingKind → OutgoingKind → Bool
same_kind (appservice a) (appservice b) = ite (dec_bytes a b) true false
same_kind (appservice a) (push v q) = false
same_kind (appservice a) (normal b) = false
same_kind (push u p) (appservice b) = false
same_kind (push u p) (push v q) = ite (dec_bytes u v) (ite (dec_bytes p q) true false) false
same_kind (push u p) (normal b) = false
same_kind (normal a) (appservice b) = false
same_kind (normal a) (push v q) = false
same_kind (normal a) (normal b) = ite (dec_bytes a b) true false

unfoldable pub get_prefix : OutgoingKind → Bytes
get_prefix (appservice server) = (b'+' ∷ server) ⋄ []
get_prefix (push user pushkey) = (b'$' ∷ user) ⋄ pushkey ⋄ []
get_prefix (normal server) = server ⋄ []

pub record SendingDb (T : Type 0) : Type 0 where
  pub global : T
  pub servernameevent_data : T
  pub servercurrentevent_data : T
  pub servername_educount : T

-- What `String::from_utf8` and the parsers of the crate `ruma` accept.
pub record Names : Type 0 where
  pub is_utf8 : Bytes → Bool
  pub is_user_id : Bytes → Bool
  pub is_server_name : Bytes → Bool

-- The value that is stored with a request.
abbrev pub value_of : SendingEventType → Bytes
value_of (pdu id) = []
value_of (edu json) = json

abbrev pub event_of : Bytes → Bytes → SendingEventType
event_of event value = if is_empty value then pdu event else edu value

abbrev checked : (Bytes → Bool) → Bytes → String → Result Bytes
checked p bytes message = if p bytes then ok bytes else err (bad_database message)

-- The next part of a key, which has to be there.
abbrev part_of : Option Bytes → Result Bytes
part_of part = ok_or part (bad_database "Invalid bytes in servercurrentpdus.")

-- The three branches of `parse_servercurrentevent`, on the key behind the mark.
unfoldable pub parse_appservice : Names → Bytes → Bytes → Result (OutgoingKind × SendingEventType)
parse_appservice names key value =
    let (server, rest) = split_first key in
    and_then (part_of rest) (λ event.
      map_ok (λ s. (appservice s, event_of event value))
        (checked names.is_utf8 server "Invalid server bytes in server_currenttransaction"))

unfoldable pub parse_push : Names → Bytes → Bytes → Result (OutgoingKind × SendingEventType)
parse_push names key value =
    let (user, rest) = split_first key in
    and_then (checked names.is_utf8 user "Invalid user string in servercurrentevent")
      (λ user_string.
        and_then (checked names.is_user_id user_string "Invalid user id in servercurrentevent")
          (λ user_id. and_then (part_of rest) (λ more.
            let (pushkey, rest') = split_first more in
            and_then (checked names.is_utf8 pushkey "Invalid pushkey in servercurrentevent")
              (λ pushkey_string.
                map_ok (λ event. (push user_id pushkey_string, event_of event value))
                  (part_of rest')))))

unfoldable pub parse_normal : Names → Bytes → Bytes → Result (OutgoingKind × SendingEventType)
parse_normal names key value =
    let (server, rest) = split_first key in
    and_then (part_of rest) (λ event.
      and_then (checked names.is_utf8 server "Invalid server bytes in server_currenttransaction")
        (λ server_string.
          map_ok (λ s. (normal s, event_of event value))
            (checked names.is_server_name server_string
              "Invalid server string in server_currenttransaction")))

unfoldable pub parse_servercurrentevent :
    Names → Bytes → Bytes → Result (OutgoingKind × SendingEventType)
unfolding parse_appservice parse_push parse_normal
parse_servercurrentevent names [] value = parse_normal names [] value
parse_servercurrentevent names (b ∷ key) value =
    if starts_with (b'+' ∷ []) (b ∷ key)
    then parse_appservice names key value
    else if starts_with (b'$' ∷ []) (b ∷ key)
    then parse_push names key value
    else parse_normal names (b ∷ key) value

-- The entries of an iterator, each parsed and given to `f`.
unfoldable pub parse_requests :
    {A : Type 0} → Names → (Bytes → OutgoingKind → SendingEventType → A) → Entries → List (Result A)
parse_requests names f [] = []
parse_requests names f ((key, value) ∷ rest) =
    map_ok (λ (r : OutgoingKind × SendingEventType). f key r.0 r.1)
      (parse_servercurrentevent names key value)
    ∷ parse_requests names f rest

module _ {T : Type 0} (kv : KvTree T) (names : Names) where
  abbrev Db : Type 0
  Db = SendingDb T

  -- `services().globals.next_count()?`
  unfoldable pub count : Exec Db ℕ
  count s = let (r, global') = next_count kv s.global in (r, record s { global = global' })

  -- The whole tree is the scan of the empty prefix.
  unfoldable pub active_requests : Db → List (Result (Bytes × OutgoingKind × SendingEventType))
  unfolding parse_requests
  active_requests s =
      parse_requests names (λ key kind e. (key, kind, e))
        (kv.scan_prefix s.servercurrentevent_data [])

  unfoldable pub active_requests_for : OutgoingKind → Db → List (Result (Bytes × SendingEventType))
  unfolding parse_requests
  active_requests_for kind s =
      parse_requests names (λ key _ e. (key, e))
        (kv.scan_prefix s.servercurrentevent_data (get_prefix kind))

  unfoldable pub queued_requests : OutgoingKind → Db → List (Result (SendingEventType × Bytes))
  unfolding parse_requests
  queued_requests kind s =
      parse_requests names (λ key _ e. (e, key))
        (kv.scan_prefix s.servernameevent_data (get_prefix kind))

  unfoldable pub delete_active_request : Bytes → Db → Db
  delete_active_request key s = record s {
    servercurrentevent_data = kv.remove s.servercurrentevent_data key;
  }

  unfoldable pub delete_all_active_requests_for : OutgoingKind → Db → Db
  unfolding remove_prefix
  delete_all_active_requests_for kind s = record s {
    servercurrentevent_data = remove_prefix kv s.servercurrentevent_data (get_prefix kind);
  }

  unfoldable pub delete_all_requests_for : OutgoingKind → Db → Db
  unfolding remove_prefix
  delete_all_requests_for kind s = record s {
    servercurrentevent_data = remove_prefix kv s.servercurrentevent_data (get_prefix kind);
    servernameevent_data = remove_prefix kv s.servernameevent_data (get_prefix kind);
  }

  -- The loop of `queue_requests`: the keys and values of the batch.
  unfoldable pub request_batch : List (OutgoingKind × SendingEventType) → Exec Db Entries
  unfolding count
  request_batch [] = pure []
  request_batch ((kind, pdu id) ∷ requests) = do
    batch ← request_batch requests
    pure ((get_prefix kind ++ id, []) ∷ batch)
  request_batch ((kind, edu json) ∷ requests) = do
    n ← count
    batch ← request_batch requests
    pure ((get_prefix kind ++ to_be_bytes n, json) ∷ batch)

  abbrev keys_of : Entries → List Bytes
  keys_of [] = []
  keys_of ((key, _) ∷ batch) = key ∷ keys_of batch

  unfoldable pub queue_requests : List (OutgoingKind × SendingEventType) → Exec Db (List Bytes)
  unfolding request_batch insert_batch
  queue_requests requests = do
    batch ← request_batch requests
    modify (λ s. record s { servernameevent_data = insert_batch kv s.servernameevent_data batch })
    pure (keys_of batch)

  unfoldable pub mark_as_active : List (SendingEventType × Bytes) → Db → Db
  mark_as_active [] s = s
  mark_as_active ((e, key) ∷ events) s = mark_as_active events (record s {
    servercurrentevent_data = kv.insert s.servercurrentevent_data key (value_of e);
    servernameevent_data = kv.remove s.servernameevent_data key;
  })

  unfoldable pub set_latest_educount : Bytes → ℕ → Db → Db
  set_latest_educount server_name last_count s = record s {
    servername_educount = kv.insert s.servername_educount server_name (to_be_bytes last_count);
  }

  unfoldable pub get_latest_educount : Bytes → Db → Result ℕ
  get_latest_educount server_name s = elim (kv.get s.servername_educount server_name) [
    | none ↦ ok 0
    | some bytes ↦ ok_or (u64_from_bytes bytes) (bad_database "Invalid u64 in servername_educount.")
  ]
