-- ===== src/AuthChain/Union.antt =====
-- `get_auth_chain` returns the union of the chains, through the caches
-- (src/service/rooms/auth_chain/mod.rs).
use matrix_server.Base.{
  ℕ, zero, suc, ◌+◌, ◌*◌, ◌≤◌, ◌<◌, ◌≡◌, refl, sym, ap, ◌∙◌, true, false, Option, some, List, [],
  ◌∷◌, ◌++◌, arith, length, ℕ_discrete,
}
use matrix_server.Base.Bytes.{dec_bytes, u64_mod}
use matrix_server.Base.HashSet.{HashSet, contains, extend, contains-append}
use matrix_server.Base.Effect.{Result, ok, continue}
use matrix_server.Storage.{KvTree}
use matrix_server.Lru.{LruCache}
use matrix_server.Short.{EventId, RoomId, ShortDb}
use matrix_server.Short.Events.{IsConsistent}
use matrix_server.AuthChain.{Pdu}
use matrix_server.AuthChain.Reaching.{Reaches, IsVisited}
use matrix_server.AuthChain.Pushing.{Holds}
use matrix_server.AuthChain.Caching.{ChainDb}
use matrix_server.AuthChain.Cached.{IsUnion, IsSound, later-IsSound, later-IsUnion}
use matrix_server.AuthChain.Collecting.{
  Bucket, empty_buckets, num_buckets, fill_buckets, cached_chunk, all_chunks, get_auth_chain,
}
use matrix_server.AuthChain.Bucketing.{
  in_buckets, total, AreFilled, later-AreFilled, fill_buckets_lem,
}
use matrix_server.AuthChain.Single.{
  Collected, extend-IsUnion, nothing-IsUnion, earlier, events_of, contains-events_of,
}
use matrix_server.AuthChain.Chunks.{cached_chunk_lem}

product_le : (m n c : ℕ) → m ≤ n → m * c ≤ n * c
product_le m n c h = grind arith

contains-nil : (e : EventId) → contains dec_bytes [] e ≡ false
contains-nil e = unfold contains in refl

abbrev all_events : List Bucket → List EventId
all_events [] = []
all_events (bucket ∷ buckets) = events_of bucket ++ all_events buckets

contains-all_events :
    (buckets : List Bucket) (e : EventId)
    → contains dec_bytes (all_events buckets) e ≡ in_buckets buckets e
contains-all_events [] e = unfold contains in refl
contains-all_events (bucket ∷ buckets) e = ground (
  arith,
  contains-append dec_bytes (events_of bucket) (all_events buckets) e,
  contains-events_of bucket e,
  contains-all_events buckets e,
)

move_events :
    (xs ys zs : List EventId) (e : EventId)
    → contains dec_bytes (ys ++ (xs ++ zs)) e ≡ contains dec_bytes ((xs ++ ys) ++ zs) e
move_events xs ys zs e = ground (
  arith,
  contains-append dec_bytes ys (xs ++ zs) e,
  contains-append dec_bytes xs zs e,
  contains-append dec_bytes (xs ++ ys) zs e,
  contains-append dec_bytes xs ys e,
)

module _ {T : Type 0} {C : Type 0 → Type 0 → Type 0} (kv : KvTree T)
    (lru : (K V : Type 0) → LruCache K V (C K V)) (get_pdu : EventId → Result (Option Pdu))
    (room : RoomId) where
  abbrev Db : Type 0
  Db = ChainDb T C

  -- The bounds: `universe` lists the chains of the starting events, whose events are all of the room,
  -- and no event lists more than `width` others.
  module _ (starting universe : List EventId) (width : ℕ)
      (narrow : (e : EventId) (pdu : Pdu)
        → get_pdu e ≡ ok (some pdu)
        → length pdu.auth_events ≤ width)
      (listed : (x e : EventId) → Holds starting x → Reaches get_pdu x e → Holds universe e)
      (native : (x e : EventId) (pdu : Pdu)
        → Holds starting x
        → IsVisited get_pdu x e
        → get_pdu e ≡ ok (some pdu)
        → pdu.room_id ≡ room) where
    abbrev fuel : ℕ
    fuel = suc (length universe)

    abbrev cost : ℕ
    cost = fuel * width

    abbrev cached_run : Bucket → Db → Result (HashSet ℕ) × Db
    cached_run = cached_chunk kv lru get_pdu fuel room

    abbrev all_run : List Bucket → HashSet ℕ → Db → Result (HashSet ℕ) × Db
    all_run = all_chunks kv lru get_pdu fuel room

    all_step :
        (x : ℕ × EventId) (chunk : Bucket) (buckets : List Bucket) (acc chain : HashSet ℕ)
        (s s' : Db)
        → cached_run (x ∷ chunk) s ≡ (ok chain, s')
        → all_run ((x ∷ chunk) ∷ buckets) acc s ≡ all_run buckets (extend ℕ_discrete acc chain) s'
    unfolding all_chunks
    all_step x chunk buckets acc chain s s' run = ground (arith, run)

    skip_step :
        (buckets : List Bucket) (acc : HashSet ℕ) (s : Db)
        → all_run ([] ∷ buckets) acc s ≡ all_run buckets acc s
    unfolding all_chunks
    skip_step buckets acc s = refl

    all_chunks_lem :
        (buckets : List Bucket) (before : List EventId) (acc : HashSet ℕ) (s : Db) (n : ℕ)
        → IsConsistent kv lru s.shorts n
        → n + total buckets * cost < u64_mod
        → ((e : EventId) → in_buckets buckets e ≡ true → Holds starting e)
        → AreFilled kv lru get_pdu s.shorts buckets
        → IsSound kv lru get_pdu s
        → IsUnion kv lru get_pdu s.shorts before acc
        → Collected kv lru get_pdu room
            (all_events buckets ++ before)
            s
            n
            (total buckets * cost)
            (all_run buckets acc s)
    all_chunks_lem [] before acc s n k space held filled sound u = record {
      chain = acc;
      s' = s;
      n' = n;
      returned = unfold all_chunks in refl;
      consistent = k;
      grown = omega arith;
      kept = λ j b h. h;
      sound = sound;
      union = u;
    }
    all_chunks_lem ([] ∷ buckets) before acc s n k space held filled sound u =
        earlier kv lru get_pdu room 0 (skip_step buckets acc s) (λ j b h. h) (omega arith)
          (omega arith) (λ x. refl)
          (all_chunks_lem buckets before acc s n k (omega (arith, space))
            (λ e h. held e (ground arith)) filled.1 sound u)
    all_chunks_lem ((x ∷ chunk) ∷ buckets) before acc s n k space held filled sound u =
        let full : Bucket = x ∷ chunk in
        let c =
          cached_chunk_lem kv lru get_pdu room starting universe width narrow listed native full s n
            k (grind arith) (λ e h. held e (ground arith)) filled.0 sound in
        let u' =
          extend-IsUnion kv lru get_pdu room c.s'.shorts before (events_of full) acc c.chain
            (later-IsUnion kv lru get_pdu c.kept u) c.union in
        earlier kv lru get_pdu room (length full * cost)
          (all_step x chunk buckets acc c.chain s c.s' c.returned) c.kept c.grown (grind arith)
          (move_events (events_of full) (all_events buckets) before)
          (all_chunks_lem buckets (events_of full ++ before) (extend ℕ_discrete acc c.chain) c.s'
            c.n' c.consistent (grind (arith, c.grown)) (λ e h. held e (ground arith))
            (later-AreFilled kv lru get_pdu s.shorts c.s'.shorts buckets c.kept filled.1) c.sound
            u')

    fill_step :
        (s s' : Db) (buckets : List Bucket)
        → fill_buckets kv lru get_pdu starting (empty_buckets num_buckets) s ≡ (ok buckets, s')
        → get_auth_chain kv lru get_pdu fuel room starting s ≡ all_run buckets [] s'
    unfolding get_auth_chain
    fill_step s s' buckets run = ap (λ x. continue x (λ b. all_run b [])) run

    no_entries : (s : ShortDb T C) (i : ℕ) → AreFilled kv lru get_pdu s (empty_buckets i)
    no_entries s zero = tt
    no_entries s (suc i) = (tt, no_entries s i)

    nothing_held : (i : ℕ) (e : EventId) → in_buckets (empty_buckets i) e ≡ false
    nothing_held zero e = refl
    nothing_held (suc i) e = nothing_held i e

    -- `get_auth_chain` returns a set that holds the short id of every event that authorizes one of
    -- the starting events, directly or through others, and no other short id, whatever the cache
    -- holds, as long as each cached chain is sound; the cache is sound afterwards and no stored
    -- short id has changed. It assumes that a list `universe` names all these events (its length
    -- and one more is the fuel of each walk), that no event lists more than `width` authorizing
    -- events, that all visited events belong to the room, that the short ids are consistent and
    -- that the counter has room for the new short ids, at most one for each starting event and
    -- `width` for each round of a walk.
    pub get_auth_chain_lem :
        (s : Db) (n : ℕ)
        → IsConsistent kv lru s.shorts n
        → IsSound kv lru get_pdu s
        → n + length starting + length starting * cost < u64_mod
        → Collected kv lru get_pdu room starting s n
            (length starting + length starting * cost)
            (get_auth_chain kv lru get_pdu fuel room starting s)
    get_auth_chain_lem s n k sound space =
        let f =
          fill_buckets_lem kv lru get_pdu starting (empty_buckets num_buckets) s n k
            (omega (arith, space)) refl (no_entries s.shorts num_buckets) in
        let s1 : Db = record s { shorts = f.shorts' } in
        let held : (e : EventId) → in_buckets f.buckets' e ≡ contains dec_bytes starting e =
          λ e. ground (arith, f.held e, nothing_held num_buckets e) in
        let fits : total f.buckets' * cost ≤ length starting * cost =
          product_le (total f.buckets') (length starting) cost (omega (arith, f.size)) in
        earlier kv lru get_pdu room (length starting) (fill_step s s1 f.buckets' f.returned) f.kept
          f.grown (omega (arith, fits))
          (λ x. ground (
            arith,
            contains-append dec_bytes (all_events f.buckets') [] x,
            contains-all_events f.buckets' x,
            held x,
            contains-nil x,
          ))
          (all_chunks_lem f.buckets' [] [] s1 f.n' f.consistent
            (omega (arith, fits, f.grown, space)) (λ e h. sym (held e) ∙ h) f.filled
            (later-IsSound kv lru get_pdu f.shorts' f.kept sound)
            (nothing-IsUnion kv lru get_pdu room f.shorts'))
