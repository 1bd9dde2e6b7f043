-- ===== src/AuthChain.antt =====
-- src/service/rooms/auth_chain/mod.rs and src/database/key_value/rooms/auth_chain.rs: the events that
-- authorize an event, and those that authorize them, as a set of short ids. The children have the
-- walk over the events and the caches.
pub mod Reaching
pub mod Pushing
pub mod Progress
pub mod Walking
pub mod Caching
pub mod Collecting
pub mod Cached
pub mod Looking
pub mod Bucketing
pub mod Single
pub mod Chunks
pub mod Union
use matrix_server.Base.{
  ℕ, zero, suc, ◌%◌, ◌+◌, Bool, true, false, Option, none, some, List, [], ◌∷◌, ◌++◌, ite,
  if◌then◌else◌, ltb, ◌==◌, ℕ_discrete, length, take, drop, is_empty,
}
use matrix_server.Base.Bytes.{Bytes, dec_bytes, to_be_bytes, u64_from_bytes}
use matrix_server.Base.HashSet.{HashSet, contains, insert, extend}
use matrix_server.Base.Effect.{
  Result, ok, err, bad_request, forbidden, panicked, Exec, Error, raise, pure, map_ok, ◌>>=◌,
}
use matrix_server.Storage.{KvTree}
use matrix_server.Lru.{LruCache}
use matrix_server.Short.{
  EventId, RoomId, ShortDb, Parsers, get_or_create_shorteventid, get_eventid_from_short,
}

-- The fields of `PduEvent` that the walk reads.
pub record Pdu : Type 0 where
  pub room_id : RoomId
  pub auth_events : List EventId

abbrev pub evil : Error
evil = bad_request forbidden "Evil event in db"

module _ {T : Type 0} {C : Type 0 → Type 0 → Type 0} (kv : KvTree T)
    (lru : (K V : Type 0) → LruCache K V (C K V)) where
  abbrev Db : Type 0
  Db = ShortDb T C

  -- The `for` loop over an event's `auth_events`: the set of short ids found, and the stack of events
  -- to visit, its top first.
  unfoldable pub push_auth_events :
      List EventId → HashSet ℕ → List EventId → Exec Db (HashSet ℕ × List EventId)
  push_auth_events [] found todo s = (ok (found, todo), s)
  push_auth_events (auth_event ∷ rest) found todo s =
      let (r, s') = get_or_create_shorteventid kv lru auth_event s in
      elim r [
        | err e ↦ (err e, s')
        | ok sauthevent ↦
            let old = push_auth_events rest found todo s' in
            let new =
              push_auth_events rest (insert ℕ_discrete found sauthevent) (auth_event ∷ todo) s' in
            if contains ℕ_discrete found sauthevent then old else new
      ]

-- `get_pdu` is the timeline's lookup of an event.
module _ {T : Type 0} {C : Type 0 → Type 0 → Type 0} (kv : KvTree T)
    (lru : (K V : Type 0) → LruCache K V (C K V)) (get_pdu : EventId → Result (Option Pdu)) where
  -- The `while` loop of `get_auth_chain_inner`; `none` if the fuel ran out.
  unfoldable pub walk :
      ℕ → RoomId → List EventId → HashSet ℕ → Exec (ShortDb T C) (Option (HashSet ℕ))
  unfolding push_auth_events
  walk zero room_id [] found = pure (some found)
  walk (suc fuel) room_id [] found = pure (some found)
  walk zero room_id (event_id ∷ todo) found = pure none
  walk (suc fuel) room_id (event_id ∷ todo) found = elim (get_pdu event_id) [
    | err e ↦ walk fuel room_id todo found
    | ok none ↦ walk fuel room_id todo found
    | ok (some pdu) ↦
        ite (dec_bytes pdu.room_id room_id)
          (push_auth_events kv lru pdu.auth_events found todo >>= λ (found', todo').
            walk fuel room_id todo' found')
          (raise evil)
  ]

  unfoldable pub get_auth_chain_inner :
      ℕ → RoomId → EventId → Exec (ShortDb T C) (Option (HashSet ℕ))
  unfolding walk
  get_auth_chain_inner fuel room_id event_id = walk fuel room_id (event_id ∷ []) []
