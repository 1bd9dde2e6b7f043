-- ===== src/Short.antt =====
-- src/database/key_value/rooms/short.rs: short 64-bit ids for events, state keys, states and rooms.
pub mod Events
use matrix_server.Base.{ℕ, Bool, true, false, Option, none, some, List, [], ◌∷◌, if◌then◌else◌}
use matrix_server.Base.Bytes.{Bytes, to_be_bytes, u64_from_bytes}
use matrix_server.Base.Keys.{◌⋄◌, split_first}
use matrix_server.Base.Effect.{
  Result, ok, err, bad_database, ok_or, map_ok, Exec, lift, modify, pure, ◌>>=◌, ◌>>◌,
}
use matrix_server.Storage.{KvTree}
use matrix_server.Globals.{next_count}
use matrix_server.Lru.{LruCache}

-- Identifiers are the bytes of their text.
abbrev pub EventId : Type 0
EventId = Bytes

abbrev pub RoomId : Type 0
RoomId = Bytes

-- An event type and a state key.
abbrev pub StateKey : Type 0
StateKey = Bytes × Bytes

-- What `String::from_utf8` and the parsers of the crate `ruma` accept.
pub record Parsers : Type 0 where
  pub is_utf8 : Bytes → Bool
  pub is_event_id : Bytes → Bool
  pub is_event_type : Bytes → Bool

pub record ShortDb (T : Type 0) (C : Type 0 → Type 0 → Type 0) : Type 0 where
  pub global : T
  pub eventid_shorteventid : T
  pub shorteventid_eventid : T
  pub statekey_shortstatekey : T
  pub shortstatekey_statekey : T
  pub statehash_shortstatehash : T
  pub roomid_shortroomid : T
  pub eventidshort_cache : C EventId ℕ
  pub shorteventid_cache : C ℕ EventId
  pub statekeyshort_cache : C StateKey ℕ
  pub shortstatekey_cache : C ℕ StateKey

module _ {T : Type 0} {C : Type 0 → Type 0 → Type 0} (kv : KvTree T)
    (lru : (K V : Type 0) → LruCache K V (C K V)) where
  abbrev Db : Type 0
  Db = ShortDb T C

  -- `services().globals.next_count()?`
  unfoldable pub count : Exec Db ℕ
  count s = let (r, global') = next_count kv s.global in (r, record s { global = global' })

  -- The `None` branch of `get_or_create_shorteventid`.
  unfoldable pub create_shorteventid : EventId → Exec Db ℕ
  unfolding count
  create_shorteventid event_id = do
    short ← count
    modify (λ s. record s {
      eventid_shorteventid = kv.insert s.eventid_shorteventid event_id (to_be_bytes short);
      shorteventid_eventid = kv.insert s.shorteventid_eventid (to_be_bytes short) event_id;
    })
    pure short

  unfoldable pub stored_shorteventid : EventId → Exec Db ℕ
  unfolding create_shorteventid
  stored_shorteventid event_id s = elim (kv.get s.eventid_shorteventid event_id) [
    | some bytes ↦ (ok_or (u64_from_bytes bytes) (bad_database "Invalid shorteventid in db."), s)
    | none ↦ create_shorteventid event_id s
  ]

  unfoldable pub get_or_create_shorteventid : EventId → Exec Db ℕ
  unfolding stored_shorteventid
  get_or_create_shorteventid event_id s =
      let found = (lru EventId ℕ).get_mut s.eventidshort_cache event_id in
      let s' : Db = record s { eventidshort_cache = found.1 } in
      elim found.0 [
        | some short ↦ (ok short, s')
        | none ↦
            (do
              short ← stored_shorteventid event_id
              modify (λ t. record t {
                eventidshort_cache = (lru EventId ℕ).insert t.eventidshort_cache event_id short;
              })
              pure short)
              s'
      ]

  unfoldable pub get_shortstatekey : StateKey → Exec Db (Option ℕ)
  get_shortstatekey (event_type, state_key) s =
      let found = (lru StateKey ℕ).get_mut s.statekeyshort_cache (event_type, state_key) in
      let s' : Db = record s { statekeyshort_cache = found.1 } in
      elim found.0 [
        | some short ↦ (ok (some short), s')
        | none ↦ elim (kv.get s'.statekey_shortstatekey (event_type ⋄ state_key)) [
          | none ↦ (ok none, s')
          | some bytes ↦
              (do
                short ←
                    lift
                      (ok_or (u64_from_bytes bytes) (bad_database "Invalid shortstatekey in db."))
                modify (λ t. record t {
                  statekeyshort_cache =
                      (lru StateKey ℕ).insert t.statekeyshort_cache (event_type, state_key) short;
                })
                pure (some short))
                s'
        ]
      ]

  unfoldable pub create_shortstatekey : Bytes → Exec Db ℕ
  unfolding count
  create_shortstatekey statekey = do
    short ← count
    modify (λ s. record s {
      statekey_shortstatekey = kv.insert s.statekey_shortstatekey statekey (to_be_bytes short);
      shortstatekey_statekey = kv.insert s.shortstatekey_statekey (to_be_bytes short) statekey;
    })
    pure short

  unfoldable pub stored_shortstatekey : Bytes → Exec Db ℕ
  unfolding create_shortstatekey
  stored_shortstatekey statekey s = elim (kv.get s.statekey_shortstatekey statekey) [
    | some bytes ↦ (ok_or (u64_from_bytes bytes) (bad_database "Invalid shortstatekey in db."), s)
    | none ↦ create_shortstatekey statekey s
  ]

  unfoldable pub get_or_create_shortstatekey : StateKey → Exec Db ℕ
  unfolding stored_shortstatekey
  get_or_create_shortstatekey (event_type, state_key) s =
      let found = (lru StateKey ℕ).get_mut s.statekeyshort_cache (event_type, state_key) in
      let s' : Db = record s { statekeyshort_cache = found.1 } in
      elim found.0 [
        | some short ↦ (ok short, s')
        | none ↦
            (do
              short ← stored_shortstatekey (event_type ⋄ state_key)
              modify (λ t. record t {
                statekeyshort_cache =
                    (lru StateKey ℕ).insert t.statekeyshort_cache (event_type, state_key) short;
              })
              pure short)
              s'
      ]

  -- `(shortstatehash, already_existed)`
  unfoldable pub get_or_create_shortstatehash : Bytes → Exec Db (ℕ × Bool)
  unfolding count
  get_or_create_shortstatehash state_hash s = elim (kv.get s.statehash_shortstatehash state_hash) [
    | some bytes ↦
        (do
          short ← lift (ok_or (u64_from_bytes bytes) (bad_database "Invalid shortstatehash in db."))
          pure (short, true))
          s
    | none ↦
        (do
          short ← count
          modify (λ t. record t {
            statehash_shortstatehash =
                kv.insert t.statehash_shortstatehash state_hash (to_be_bytes short);
          })
          pure (short, false))
          s
  ]

  unfoldable pub get_shortroomid : RoomId → Db → Result (Option ℕ)
  get_shortroomid room_id s = elim (kv.get s.roomid_shortroomid room_id) [
    | none ↦ ok none
    | some bytes ↦
        map_ok some (ok_or (u64_from_bytes bytes) (bad_database "Invalid shortroomid in db."))
  ]

  unfoldable pub get_or_create_shortroomid : RoomId → Exec Db ℕ
  unfolding count
  get_or_create_shortroomid room_id s = elim (kv.get s.roomid_shortroomid room_id) [
    | some bytes ↦ (ok_or (u64_from_bytes bytes) (bad_database "Invalid shortroomid in db."), s)
    | none ↦
        (do
          short ← count
          modify (λ t. record t {
            roomid_shortroomid = kv.insert t.roomid_shortroomid room_id (to_be_bytes short);
          })
          pure short)
          s
  ]

  module _ (parsers : Parsers) where
    open parsers use {is_utf8, is_event_id, is_event_type}

    abbrev parse_event_id : Bytes → Result EventId
    parse_event_id bytes =
        if is_utf8 bytes
        then (if is_event_id bytes
            then ok bytes
            else err (bad_database "EventId in shorteventid_eventid is invalid."))
        else err (bad_database "EventID in shorteventid_eventid is invalid unicode.")

    unfoldable pub get_eventid_from_short : ℕ → Exec Db EventId
    get_eventid_from_short shorteventid s =
        let found = (lru ℕ EventId).get_mut s.shorteventid_cache shorteventid in
        let s' : Db = record s { shorteventid_cache = found.1 } in
        elim found.0 [
          | some id ↦ (ok id, s')
          | none ↦
              (do
                bytes ← lift (
                    ok_or (kv.get s'.shorteventid_eventid (to_be_bytes shorteventid))
                      (bad_database "Shorteventid does not exist"))
                event_id ← lift (parse_event_id bytes)
                modify (λ t. record t {
                  shorteventid_cache =
                      (lru ℕ EventId).insert t.shorteventid_cache shorteventid event_id;
                })
                pure event_id)
                s'
        ]

    abbrev parse_statekey : Bytes × Option Bytes → Result StateKey
    parse_statekey (event_type, none) =
        err (bad_database "Invalid statekey in shortstatekey_statekey.")
    parse_statekey (event_type, some state_key) =
        if is_utf8 event_type
        then (if is_event_type event_type
            then (if is_utf8 state_key
                then ok (event_type, state_key)
                else err (bad_database "Statekey in shortstatekey_statekey is invalid unicode."))
            else err (bad_database "Event type in shortstatekey_statekey is invalid."))
        else err (bad_database "Event type in shortstatekey_statekey is invalid unicode.")

    unfoldable pub get_statekey_from_short : ℕ → Exec Db StateKey
    get_statekey_from_short shortstatekey s =
        let found = (lru ℕ StateKey).get_mut s.shortstatekey_cache shortstatekey in
        let s' : Db = record s { shortstatekey_cache = found.1 } in
        elim found.0 [
          | some id ↦ (ok id, s')
          | none ↦
              (do
                bytes ← lift (
                    ok_or (kv.get s'.shortstatekey_statekey (to_be_bytes shortstatekey))
                      (bad_database "Shortstatekey does not exist"))
                result ← lift (parse_statekey (split_first bytes))
                modify (λ t. record t {
                  shortstatekey_cache =
                      (lru ℕ StateKey).insert t.shortstatekey_cache shortstatekey result;
                })
                pure result)
                s'
        ]
