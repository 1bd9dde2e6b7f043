-- ===== src/AuthChain/Collecting.antt =====
-- src/service/rooms/auth_chain/mod.rs: `get_auth_chain`, the union of the chains of several events.
use matrix_server.Base.{
  ℕ, zero, suc, ◌%◌, Option, none, some, List, [], ◌∷◌, ite, if◌then◌else◌, ltb, ◌==◌, ℕ_discrete,
}
use matrix_server.Base.Bytes.{dec_bytes}
use matrix_server.Base.Order.{le_bytes}
use matrix_server.Base.HashSet.{HashSet, extend}
use matrix_server.Base.Effect.{Result, ok, err, panicked, Exec, map_ok, ◌>>=◌}
use matrix_server.Storage.{KvTree}
use matrix_server.Lru.{LruCache}
use matrix_server.Short.{EventId, RoomId, ShortDb, get_or_create_shorteventid}
use matrix_server.AuthChain.{Pdu, get_auth_chain_inner}
use matrix_server.AuthChain.Caching.{ChainDb, get_cached_eventid_authchain, cache_auth_chain}

-- `BTreeSet<(u64, Arc<EventId>)>`, in its order.
abbrev pub Bucket : Type 0
Bucket = List (ℕ × EventId)

unfoldable pub bucket_insert : ℕ → EventId → Bucket → Bucket
bucket_insert short id [] = (short, id) ∷ []
bucket_insert short id ((m, e) ∷ bucket) =
    let later = (m, e) ∷ bucket_insert short id bucket in
    if ltb short m
    then (short, id) ∷ (m, e) ∷ bucket
    else if short == m
    then ite (dec_bytes id e) ((m, e) ∷ bucket)
        (if le_bytes id e then (short, id) ∷ (m, e) ∷ bucket else later)
    else later

-- `buckets[bucket_id].insert((short, id))`; an index that is out of range panics.
unfoldable pub insert_at : ℕ → ℕ → EventId → List Bucket → Result (List Bucket)
unfolding bucket_insert
insert_at i short id [] = err panicked
insert_at zero short id (bucket ∷ buckets) = ok (bucket_insert short id bucket ∷ buckets)
insert_at (suc i) short id (bucket ∷ buckets) = elim (insert_at i short id buckets) [
  | err e ↦ err e
  | ok buckets' ↦ ok (bucket ∷ buckets')
]

abbrev pub num_buckets : ℕ
num_buckets = 50

-- `vec![BTreeSet::new(); n]`
abbrev pub empty_buckets : ℕ → List Bucket
empty_buckets zero = []
empty_buckets (suc n) = [] ∷ empty_buckets n

abbrev pub shorts_of : Bucket → List ℕ
shorts_of [] = []
shorts_of ((m, e) ∷ bucket) = m ∷ shorts_of bucket

module _ {T : Type 0} {C : Type 0 → Type 0 → Type 0} (kv : KvTree T)
    (lru : (K V : Type 0) → LruCache K V (C K V)) (get_pdu : EventId → Result (Option Pdu)) where
  abbrev Db : Type 0
  Db = ChainDb T C

  abbrev on_shorts : {A : Type 0} → Exec (ShortDb T C) A → Exec Db A
  on_shorts f s = let (r, shorts') = f s.shorts in (r, record s { shorts = shorts' })

  -- The first loop of `get_auth_chain`.
  unfoldable pub fill_buckets : List EventId → List Bucket → Exec Db (List Bucket)
  unfolding insert_at
  fill_buckets [] buckets s = (ok buckets, s)
  fill_buckets (id ∷ rest) buckets s =
      let (r, s') = on_shorts (get_or_create_shorteventid kv lru id) s in
      elim r [
        | err e ↦ (err e, s')
        | ok short ↦ elim (insert_at (short % num_buckets) short id buckets) [
          | err e ↦ (err e, s')
          | ok buckets' ↦ fill_buckets rest buckets' s'
        ]
      ]

  -- The walk's outcome: its chain is cached. Running out of fuel is counted as a panic here.
  unfoldable pub store_chain : ℕ → Result (Option (HashSet ℕ)) × ShortDb T C → Exec Db (HashSet ℕ)
  store_chain sevent_id (err e, shorts') s = (err e, record s { shorts = shorts' })
  store_chain sevent_id (ok none, shorts') s = (err panicked, record s { shorts = shorts' })
  store_chain sevent_id (ok (some chain), shorts') s =
      let (r, s') =
        cache_auth_chain kv lru (sevent_id ∷ []) chain (record s { shorts = shorts' }) in
      (map_ok (λ _. chain) r, s')

  unfoldable pub cached_or_walk :
      ℕ → RoomId → ℕ → EventId → Result (Option (HashSet ℕ)) × Db → Result (HashSet ℕ) × Db
  unfolding store_chain
  cached_or_walk fuel room_id sevent_id event_id (err e, s) = (err e, s)
  cached_or_walk fuel room_id sevent_id event_id (ok (some cached), s) = (ok cached, s)
  cached_or_walk fuel room_id sevent_id event_id (ok none, s) =
      store_chain sevent_id (get_auth_chain_inner kv lru get_pdu fuel room_id event_id s.shorts) s

  -- The chain of one event, from the cache or by the walk.
  unfoldable pub event_chain : ℕ → RoomId → ℕ → EventId → Exec Db (HashSet ℕ)
  unfolding cached_or_walk
  event_chain fuel room_id sevent_id event_id s =
      cached_or_walk fuel room_id sevent_id event_id
        (get_cached_eventid_authchain kv lru (sevent_id ∷ []) s)

  -- The loop over the events of a chunk.
  unfoldable pub chunk_chain : ℕ → RoomId → Bucket → HashSet ℕ → Exec Db (HashSet ℕ)
  unfolding event_chain
  chunk_chain fuel room_id [] chunk_cache s = (ok chunk_cache, s)
  chunk_chain fuel room_id ((sevent_id, event_id) ∷ chunk) chunk_cache s =
      let (r, s') = event_chain fuel room_id sevent_id event_id s in
      elim r [
        | err e ↦ (err e, s')
        | ok chain ↦ chunk_chain fuel room_id chunk (extend ℕ_discrete chunk_cache chain) s'
      ]

  unfoldable pub store_chunk : List ℕ → Result (HashSet ℕ) × Db → Result (HashSet ℕ) × Db
  store_chunk chunk_key (err e, s) = (err e, s)
  store_chunk chunk_key (ok chunk_cache, s) =
      let (r, s') = cache_auth_chain kv lru chunk_key chunk_cache s in
      (map_ok (λ _. chunk_cache) r, s')

  unfoldable pub cached_or_collect :
      ℕ → RoomId → Bucket → Result (Option (HashSet ℕ)) × Db → Result (HashSet ℕ) × Db
  unfolding chunk_chain store_chunk
  cached_or_collect fuel room_id chunk (err e, s) = (err e, s)
  cached_or_collect fuel room_id chunk (ok (some cached), s) = (ok cached, s)
  cached_or_collect fuel room_id chunk (ok none, s) =
      store_chunk (shorts_of chunk) (chunk_chain fuel room_id chunk [] s)

  -- A chunk that is not empty: the cached chain of all its events, or their chains collected.
  unfoldable pub cached_chunk : ℕ → RoomId → Bucket → Exec Db (HashSet ℕ)
  unfolding cached_or_collect
  cached_chunk fuel room_id chunk s =
      cached_or_collect fuel room_id chunk (get_cached_eventid_authchain kv lru (shorts_of chunk) s)

  unfoldable pub all_chunks : ℕ → RoomId → List Bucket → HashSet ℕ → Exec Db (HashSet ℕ)
  unfolding cached_chunk
  all_chunks fuel room_id [] full_auth_chain s = (ok full_auth_chain, s)
  all_chunks fuel room_id ([] ∷ buckets) full_auth_chain s =
      all_chunks fuel room_id buckets full_auth_chain s
  all_chunks fuel room_id ((x ∷ chunk) ∷ buckets) full_auth_chain s =
      let (r, s') = cached_chunk fuel room_id (x ∷ chunk) s in
      elim r [
        | err e ↦ (err e, s')
        | ok chain ↦ all_chunks fuel room_id buckets (extend ℕ_discrete full_auth_chain chain) s'
      ]

  -- The short ids of `get_auth_chain`, before they are turned into event ids; `fuel` is for each walk.
  unfoldable pub get_auth_chain : ℕ → RoomId → List EventId → Exec Db (HashSet ℕ)
  unfolding fill_buckets all_chunks
  get_auth_chain fuel room_id starting_events = do
    buckets ← fill_buckets starting_events (empty_buckets num_buckets)
    all_chunks fuel room_id buckets []
